-- ===== src/Release/Mint.antt =====
-- A manifest that is signed for a body verifies against that body.
use weft_end.Prelude.{
  String, ◌≡◌, ◌≢◌, refl, sym, ◌∙◌, ap, true, Option, some, List, [], ◌∷◌, map, str_eq, eq_iff,
  eq_refl, arith, inl, inr, Bool-cases, Option-cases,
}
use weft_end.Text.{is_non_empty}
use weft_end.Text.Table.{Table, get}
use weft_end.Reasons.{string, stable_sort_unique_strings, checkpoint_eq_or_reason, is_empty}
use weft_end.Reasons.Whole.{is_empty_iff, stable_sort_unique_reasons_of_nil}
use weft_end.Kernel.Types.{Signature}
use weft_end.Release.{
  ReleaseBody, ReleaseManifest, ReleasePort, verified, Verifier, some_signature, signature_reasons,
  path_reasons, block_reasons, manifest_reasons, verify_release_manifest, minted,
  mint_release_manifest,
}
use weft_end.Release.Laws.{same_strings_refl}

-- What a manifest is that was signed for a body.
record Minted (port : ReleasePort) (body : ReleaseBody) (key_id : String)
    (sign : String → String → Option Signature) (m : ReleaseManifest) : Type 0 where
  payload : String
  sig : Signature
  canonical : port.payload body ≡ some payload
  signed : sign payload key_id ≡ some sig
  made : m ≡ record { release_id = port.release_id body; body = body; signatures = sig ∷ [] }
  valid : port.issues m ≡ []

minted_injective : (a b : ReleaseManifest) → minted a ≡ minted b → a ≡ b
minted_injective a b h = ground (arith, h)

path_reasons_nil :
    (body : ReleaseBody)
    → is_non_empty body.path_digest ≡ true
    → path_reasons (some body.path_digest) body ≡ []
unfolding path_reasons checkpoint_eq_or_reason
path_reasons_nil body h = ground (arith, h, eq_refl body.path_digest)

block_reasons_nil : (body : ReleaseBody) → block_reasons body.blocks body ≡ []
unfolding block_reasons
block_reasons_nil body =
    ground (arith, same_strings_refl (stable_sort_unique_strings (map string body.blocks)))

signed_reasons_nil :
    (port : ReleasePort) (verify : Verifier) (allowlist : Table String) (body : ReleaseBody)
    (payload : String) (sig : Signature) (key : String)
    → port.payload body ≡ some payload
    → get allowlist sig.key_id ≡ some key
    → key ≢ ""
    → verify payload sig key ≡ true
    → signature_reasons port
        (some verify)
        allowlist
        (record { release_id = port.release_id body; body = body; signatures = sig ∷ [] })
      ≡ []
unfolding signature_reasons some_signature
signed_reasons_nil port verify allowlist body payload sig key e known filled right =
    elim (Bool-cases (str_eq key "")) [
      | inl blank ↦ absurd (filled ((eq_iff key "").0 blank))
      | inr named ↦ ground (arith, e, known, named, right)
    ]

verified_of_nil :
    (port : ReleasePort) (plan_digest : String) (blocks : List String) (path_digest : Option String)
    (verify : Option Verifier) (allowlist : Table String) (m : ReleaseManifest)
    → manifest_reasons port plan_digest blocks path_digest verify allowlist m ≡ []
    → (verify_release_manifest port (some m) plan_digest blocks path_digest verify allowlist).status
      ≡ verified
unfolding verify_release_manifest
verified_of_nil port plan_digest blocks path_digest verify allowlist m h =
    rw h (rw (stable_sort_unique_reasons_of_nil (some m.release_id) (some "manifest")) refl)

module _ (port : ReleasePort) (body : ReleaseBody) (key_id : String)
    (sign : String → String → Option Signature) (m : ReleaseManifest) where
  mint-Minted :
      mint_release_manifest port body key_id (some sign) ≡ minted m → Minted port body key_id sign m
  unfolding mint_release_manifest
  mint-Minted h = elim (Option-cases (port.payload body)) [
    | inl e ↦ ground (arith, e, h)
    | inr (payload, e) ↦ elim (Option-cases (sign payload key_id)) [
      | inl f ↦ ground (arith, e, f, h)
      | inr (sig, f) ↦
          let made : ReleaseManifest = record {
            release_id = port.release_id body;
            body = body;
            signatures = sig ∷ [];
          } in
          elim (Bool-cases (str_eq sig.sig "")) [
            | inl empty ↦ ground (arith, e, f, empty, h)
            | inr filled ↦ elim (Bool-cases (is_empty (port.issues made))) [
              | inl valid ↦
                  let same : minted made ≡ minted m = ground (arith, e, f, filled, valid, h) in
                  let same : made ≡ m = minted_injective made m same in
                  record {
                    payload = payload;
                    sig = sig;
                    canonical = e;
                    signed = f;
                    made = sym same;
                    valid = ap (λ x. port.issues x) (sym same) ∙ is_empty_iff _ valid;
                  }
              | inr invalid ↦ ground (arith, e, f, filled, invalid, h)
            ]
          ]
    ]
  ]

  -- A manifest that was signed for a body verifies against the digests and the blocks of the body,
  -- where the path digest is not blank, the manifest raises no privacy issue, and the crypto port
  -- verifies what it signs under the key, not empty, that the allow list has for the signer.
  pub mint-verify_release_manifest :
      (verify : Verifier) (allowlist : Table String) (key : String)
      → mint_release_manifest port body key_id (some sign) ≡ minted m
      → port.privacy_codes m ≡ []
      → is_non_empty body.path_digest ≡ true
      → key ≢ ""
      → ((payload : String)
          → (sig : Signature) → sign payload key_id ≡ some sig
          → (get allowlist sig.key_id ≡ some key) × (verify payload sig key ≡ true))
      → (verify_release_manifest port
          (some m)
          body.plan_digest
          body.blocks
          (some body.path_digest)
          (some verify)
          allowlist).status
        ≡ verified
  unfolding checkpoint_eq_or_reason
  mint-verify_release_manifest verify allowlist key h private path filled accepts =
      let s = mint-Minted h in
      let (known, right) = accepts s.payload s.sig s.signed in
      let signature : signature_reasons port (some verify) allowlist m ≡ [] = rw s.made (
        signed_reasons_nil port verify allowlist body s.payload s.sig key s.canonical known filled
          right) in
      let same_body : m.body ≡ body = ap (λ x. x.body) s.made in
      let path : path_reasons (some body.path_digest) m.body ≡ [] =
        rw same_body (path_reasons_nil body path) in
      let blocks : block_reasons body.blocks m.body ≡ [] = rw same_body (block_reasons_nil body) in
      let plan : checkpoint_eq_or_reason body.plan_digest m.body.plan_digest
            "RELEASE_PLANDIGEST_MISMATCH"
          ≡ [] =
        rw (same_body, checkpoint_eq_or_reason, eq_refl body.plan_digest) refl in
      verified_of_nil port body.plan_digest body.blocks (some body.path_digest) (some verify)
        allowlist m
        (unfold manifest_reasons in rw (s.valid, private, plan, path, blocks, signature) refl)
