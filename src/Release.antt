-- ===== src/Release.antt =====
-- src/runtime/release/release_loader.ts and src/engine/release_manifest.ts: the verification of a
-- release manifest and how one is signed. The validators of src/core/validate.ts, the identifier of a
-- release and the canonical JSON of a body are parameters (`ReleasePort`), and so is the crypto
-- port. A body without canonical form is one for which `payload` answers nothing.
pub mod Laws
pub mod Mint
use weft_end.Prelude.{
  String, Bool, true, false, not, ◌&&◌, ◌||◌, Option, none, some, List, [], ◌∷◌, ◌++◌, map, length,
  str_eq, ◌==◌, if◌then◌else◌,
}
use weft_end.Text.{is_non_empty}
use weft_end.Text.Table.{Table, get}
use weft_end.Reasons.{
  string, stable_sort_unique_reasons, stable_sort_unique_strings, checkpoint_eq_or_reason, push_if,
  is_empty,
}
use weft_end.Kernel.Types.{Signature}

-- `ReleaseManifestBodyV0`.
pub record ReleaseBody : Type 0 where
  pub plan_digest : String
  pub policy_digest : String
  pub blocks : List String
  pub evidence_journal_head : Option String
  pub path_digest : String

-- `ReleaseManifestV0`; a signature is that of the crypto port (`signatureToPort`).
pub record ReleaseManifest : Type 0 where
  pub release_id : String
  pub body : ReleaseBody
  pub signatures : List Signature

pub record ReleasePort : Type 0 where
  pub issues : ReleaseManifest → List String
  pub privacy_codes : ReleaseManifest → List String
  pub payload : ReleaseBody → Option String
  pub release_id : ReleaseBody → String

pub data VerifyStatus : Type 0 where
  verified unverified : VerifyStatus

pub record ReleaseVerifyResult : Type 0 where
  pub status : VerifyStatus
  pub reason_codes : List String
  pub observed_release_id : Option String
  pub observed_plan_digest : Option String
  pub observed_path_digest : Option String

pub data MintResult : Type 0 where
  minted : ReleaseManifest → MintResult
  mint_refused : List String → MintResult

-- `sameStringSet`: the same lists.
unfoldable pub same_strings : List String → List String → Bool
same_strings [] [] = true
same_strings (x ∷ xs) (y ∷ ys) = str_eq x y && same_strings xs ys
same_strings _ _ = false

-- What the crypto port checks: a payload, a signature and a public key.
abbrev pub Verifier : Type 0
Verifier = String → Signature → String → Bool

-- The loop over the signatures: some signature of an allowed key is right.
unfoldable pub some_signature : Verifier → Table String → String → List Signature → Bool
some_signature verify allowlist payload [] = false
some_signature verify allowlist payload (sig ∷ sigs) =
    let rest = some_signature verify allowlist payload sigs in
    elim (get allowlist sig.key_id) [
      | none ↦ rest
      | some key ↦ if str_eq key "" then rest else verify payload sig key || rest
    ]

-- The path digest: it must be there, and agree with the expected one where that is given.
unfoldable pub path_reasons : Option String → ReleaseBody → List String
path_reasons expected body =
    if is_non_empty body.path_digest
    then elim expected [
      | none ↦ []
      | some e ↦
          if is_non_empty e
          then checkpoint_eq_or_reason e body.path_digest "PATH_DIGEST_MISMATCH"
          else []
    ]
    else "PATH_DIGEST_MISSING" ∷ []

unfoldable pub block_reasons : List String → ReleaseBody → List String
block_reasons expected body =
    push_if
      (not (
        same_strings (stable_sort_unique_strings (map string expected))
          (stable_sort_unique_strings (map string body.blocks))))
      "RELEASE_BLOCKSET_MISMATCH"

module _ (port : ReleasePort) where
  unfoldable pub signature_reasons : Option Verifier → Table String → ReleaseManifest → List String
  signature_reasons none allowlist m = "RELEASE_SIGNATURE_BAD" ∷ []
  signature_reasons (some verify) allowlist m = elim (port.payload m.body) [
    | none ↦ "RELEASE_SIGNATURE_BAD" ∷ []
    | some payload ↦
        push_if
          (not (str_eq payload "") && not (some_signature verify allowlist payload m.signatures))
          "RELEASE_SIGNATURE_BAD"
  ]

  -- All reasons against a manifest, in the order of their tests.
  unfoldable pub manifest_reasons :
      String
      → List String
      → Option String
      → Option Verifier
      → Table String
      → ReleaseManifest
      → List String
  manifest_reasons plan_digest blocks path_digest verify allowlist m =
      push_if (not (is_empty (port.issues m))) "RELEASE_MANIFEST_INVALID"
      ++ (port.privacy_codes m
          ++ (checkpoint_eq_or_reason plan_digest m.body.plan_digest "RELEASE_PLANDIGEST_MISMATCH"
              ++ (path_reasons path_digest m.body
                  ++ (block_reasons blocks m.body ++ signature_reasons verify allowlist m))))

  -- `verifyReleaseManifestV0`.
  unfoldable pub verify_release_manifest :
      Option ReleaseManifest
      → String
      → List String
      → Option String
      → Option Verifier
      → Table String
      → ReleaseVerifyResult
  verify_release_manifest none plan_digest blocks path_digest verify allowlist = record {
    status = unverified;
    reason_codes =
        stable_sort_unique_reasons ("RELEASE_MANIFEST_MISSING" ∷ []) (some "release")
          (some "manifest");
    observed_release_id = none;
    observed_plan_digest = none;
    observed_path_digest = none;
  }
  verify_release_manifest (some m) plan_digest blocks path_digest verify allowlist =
      let codes =
        stable_sort_unique_reasons
          (manifest_reasons plan_digest blocks path_digest verify allowlist m) (some m.release_id)
          (some "manifest") in
      record {
        status = if is_empty codes then verified else unverified;
        reason_codes = codes;
        observed_release_id = some m.release_id;
        observed_plan_digest = some m.body.plan_digest;
        observed_path_digest =
            if is_non_empty m.body.path_digest then some m.body.path_digest else none;
      }

  -- `mintReleaseManifestV0`, with the codes of its issues.
  unfoldable pub mint_release_manifest :
      ReleaseBody → String → Option (String → String → Option Signature) → MintResult
  mint_release_manifest body key_id none = mint_refused ("SIGNER_UNAVAILABLE" ∷ [])
  mint_release_manifest body key_id (some sign) = elim (port.payload body) [
    | none ↦ mint_refused ("CANONICAL_INVALID" ∷ [])
    | some payload ↦ elim (sign payload key_id) [
      | none ↦ mint_refused ("SIGNATURE_INVALID" ∷ [])
      | some sig ↦
          let m : ReleaseManifest = record {
            release_id = port.release_id body;
            body = body;
            signatures = sig ∷ [];
          } in
          if str_eq sig.sig ""
          then mint_refused ("SIGNATURE_INVALID" ∷ [])
          else if is_empty (port.issues m)
          then minted m
          else mint_refused (port.issues m)
    ]
  ]
