-- ===== src/Tests/Release.antt =====
-- A release that is signed and verified.
use weft_end.Prelude.{
  String, ◌≡◌, refl, subst, some_injective, sym, ◌∙◌, true, false, none, some, [], ◌∷◌, ◌⊎◌, str_eq,
  eq_iff, ◌≢◌, map, arith,
}
use weft_end.Text.{is_non_empty}
use weft_end.Text.Table.{Table, get}
use weft_end.Reasons.{string, stable_sort_unique_strings, or_default}
use weft_end.Kernel.Types.{Signature}
use weft_end.Release.{
  ReleaseBody, ReleaseManifest, ReleasePort, Verifier, verified, verify_release_manifest,
  mint_release_manifest,
}
use weft_end.Release.Laws.{SignedIn, verified_body, verified_signature}
use weft_end.Release.Mint.{mint-verify_release_manifest}

abbrev pub release_port : ReleasePort
release_port = record {
  issues = λ m. [];
  privacy_codes = λ m. [];
  payload = λ body. some body.plan_digest;
  release_id = λ body. "release";
}

abbrev pub body : ReleaseBody
body = record {
  plan_digest = "plan";
  policy_digest = "";
  blocks = "block:b" ∷ "block:a" ∷ [];
  evidence_journal_head = none;
  path_digest = "path";
}

abbrev pub signature : Signature
signature = record { algo = "sig.demo"; key_id = "key"; sig = "signed" }

abbrev pub manifest : ReleaseManifest
manifest = record { release_id = "release"; body = body; signatures = signature ∷ [] }

abbrev pub verifier : Verifier
verifier payload sig key = str_eq sig.sig "signed"

abbrev pub keys : Table String
keys = ("key", "pub:key") ∷ []

key_is_filled : (the_key : String) → the_key ≡ "pub:key" → the_key ≢ ""
key_is_filled the_key e h = ground (arith, eq_iff "pub:key" "", sym e ∙ h)

signature_is_known :
    (payload : String) (sig : Signature)
    → some signature ≡ some sig
    → (get keys sig.key_id ≡ some "pub:key") × (verifier payload sig "pub:key" ≡ true)
unfolding get
signature_is_known payload sig e =
    subst (λ s. (get keys s.key_id ≡ some "pub:key") × (verifier payload s "pub:key" ≡ true))
      (some_injective e) (refl, refl)

mint-verify_release_manifest_example :
    (verify_release_manifest release_port
      (some manifest)
      "plan"
      ("block:b" ∷ "block:a" ∷ [])
      (some "path")
      (some verifier)
      keys).status
    ≡ verified
unfolding mint_release_manifest
mint-verify_release_manifest_example =
    mint-verify_release_manifest release_port body "key" (λ payload key_id. some signature) manifest
      verifier keys "pub:key" refl refl (unfold is_non_empty in refl) (key_is_filled "pub:key" refl)
      signature_is_known

accepted :
    (verify_release_manifest release_port
      (some manifest)
      "plan"
      ("block:b" ∷ "block:a" ∷ [])
      (some "path")
      (some verifier)
      keys).status
    ≡ verified
accepted = mint-verify_release_manifest_example

verified_body_example :
    (release_port.issues manifest ≡ [])
    × (manifest.body.plan_digest ≡ "plan")
    × (stable_sort_unique_strings (map string body.blocks)
        ≡ stable_sort_unique_strings (map string body.blocks))
    × (is_non_empty "path" ≡ true)
    × ((is_non_empty (or_default "" (some "path")) ≡ false) ⊎ (some body.path_digest ≡ some "path"))
verified_body_example =
    verified_body release_port "plan" body.blocks (some "path") (some verifier) keys manifest
      accepted

verified_signature_example :
    (v : Verifier) × (payload : String) × (some verifier ≡ some v)
    × (some "plan" ≡ some payload)
    × ((payload ≡ "") ⊎ SignedIn v keys payload (signature ∷ []))
verified_signature_example =
    verified_signature release_port "plan" body.blocks (some "path") (some verifier) keys manifest
      accepted
