-- ===== src/Host/Install.antt =====
-- src/runtime/host/host_update.ts: `installHostUpdateV0`: the checks of a release, the decision, the
-- exchange and the exit code. The receipt is its fields that depend on these; the identifier of the
-- build and the writing of the receipt are left out.
use text.Mathlib.Text.{starts_with}
use weft_end.Prelude.{
  ℕ, String, Bool, true, false, not, ◌&&◌, Option, none, some, List, [], ◌∷◌, ◌++◌, str_eq,
  if◌then◌else◌,
}
use weft_end.Text.{is_non_empty}
use weft_end.Reasons.{stable_sort_unique_reasons, push_if, is_empty, is_none, or_default}
use weft_end.Kernel.Types.{Signature}
use weft_end.Release.{ReleaseManifest}
use weft_end.Host.Apply.{
  HostDirs, Faults, ReleaseFiles, ApplyResult, skipped, applied, rolled_back, Applied, apply_update,
}
use weft_end.Host.Check.{HostFiles, load_files, out_dir_reasons, overlap_reasons, verify_reasons}
use weft_end.Host.Inputs.{
  HostInputs, HostPort, HostSelf, trusted, untrusted, trust_reasons, RuntimeBundle, absent_digest,
}

pub record Installed : Type 0 where
  pub allowed : Bool
  pub verified_ok : Bool
  pub reason_codes : List String
  pub verify_codes : List String
  pub applied_with : Applied
  pub exit_code : ℕ

is_applied : ApplyResult → Bool
is_applied applied = true
is_applied rolled_back = false
is_applied skipped = false

module _ (port : HostPort) where
  -- The reasons that only a verified release meets.
  unfoldable pub signing_reasons : HostInputs → HostFiles → List String
  signing_reasons i f =
      push_if (str_eq i.signing_secret "") "HOST_SIGNING_KEY_MISSING" ++ elim f.trust [
        | untrusted reason ↦ "HOST_TRUST_ROOT_MISSING" ∷ []
        | trusted key_id key ↦
            push_if
              (not (str_eq i.signing_secret "")
                && not (is_none f.manifest)
                && not (is_none f.bundle)
                && starts_with key "pub:"
                && not (str_eq (port.derive_demo_public_key i.signing_secret) key))
              "HOST_SIGNING_KEY_MISMATCH"
      ]

  unfoldable pub decision_reasons : HostInputs → List String
  unfolding out_dir_reasons overlap_reasons
  decision_reasons i =
      let f = load_files port i in
      let checked = verify_reasons port i in
      out_dir_reasons i
      ++ (push_if (is_none i.host_root) "HOST_ROOT_MISSING"
          ++ (overlap_reasons i
              ++ (trust_reasons f.trust
                  ++ (checked ++ (if is_empty checked then signing_reasons i f else [])))))

  digest_of : Option String → String
  digest_of none = absent_digest
  digest_of (some text) = if str_eq text "" then absent_digest else port.digest text

  -- The body of `buildHostSelfManifest`.
  unfoldable pub host_self_of : HostFiles → ReleaseManifest → RuntimeBundle → HostSelf
  unfolding digest_of
  host_self_of f m b = record {
    host_version = if is_non_empty b.compiler_version then b.compiler_version else "0.0.0";
    release_id = m.release_id;
    release_manifest_digest = digest_of f.manifest_raw;
    runtime_bundle_digest = digest_of f.bundle_raw;
    evidence_digest = digest_of f.evidence_raw;
    public_key_digest = digest_of f.public_key_raw;
    policy_digest = m.body.policy_digest;
  }

  -- The files that are copied, and the text of the signed manifest of the host.
  unfoldable pub release_files : HostFiles → HostSelf → Signature → ReleaseFiles
  release_files f self sig = record {
    manifest = or_default "" f.manifest_raw;
    bundle = or_default "" f.bundle_raw;
    evidence = or_default "" f.evidence_raw;
    public_key = or_default "" f.public_key_raw;
    host_self = port.host_self_text self sig;
  }

  -- The block that applies the update, where the decision allows it.
  unfoldable pub apply_release :
      Faults
      → HostInputs
      → HostFiles
      → HostDirs
      → ReleaseManifest
      → RuntimeBundle
      → String
      → Applied
  apply_release faults i f d m b key_id =
      let self = host_self_of f m b in
      elim (port.sign i.signing_secret self key_id) [
        | none ↦ record {
          result = skipped;
          attempted = false;
          reasons = "HOST_SELF_SIGN_FAILED" ∷ [];
          dirs = d;
        }
        | some sig ↦ apply_update faults (release_files f self sig) d
      ]

  not_applied : HostDirs → Applied
  not_applied d = record { result = skipped; attempted = false; reasons = []; dirs = d }

  unfoldable pub apply_loaded : Faults → HostInputs → HostFiles → HostDirs → Applied
  unfolding not_applied
  apply_loaded faults i f d = elim f.trust [
    | untrusted reason ↦ not_applied d
    | trusted key_id key ↦ elim f.manifest [
      | none ↦ not_applied d
      | some m ↦ elim f.bundle [
        | none ↦ not_applied d
        | some b ↦ apply_release faults i f d m b key_id
      ]
    ]
  ]

  -- `installHostUpdateV0`.
  unfoldable pub install_host_update : Faults → HostInputs → HostDirs → Installed
  unfolding not_applied is_applied
  install_host_update faults i d =
      let reasons = decision_reasons i in
      let f = load_files port i in
      let a =
        if is_empty reasons && not (str_eq i.signing_secret "")
        then apply_loaded faults i f d
        else not_applied d in
      record {
        allowed = is_empty reasons;
        verified_ok = is_empty (verify_reasons port i);
        reason_codes = stable_sort_unique_reasons reasons none none;
        verify_codes = stable_sort_unique_reasons (verify_reasons port i) none none;
        applied_with = a;
        exit_code = if is_empty reasons && is_applied a.result then 0 else 40;
      }
