-- ===== src/Strict/Preflight.antt =====
-- src/runtime/strict/strict_executor.ts: what `run` checks before it starts the worker, and the run.
use weft_end.Prelude.{
  String, Bool, true, false, not, ◌&&◌, Option, none, some, List, [], ◌∷◌, map, str_eq,
  if◌then◌else◌,
}
use weft_end.Reasons.{string, stable_sort_unique_reasons, is_empty, is_none, or_default}
use weft_end.Reasons.Join.{join_strings}
use weft_end.Boundary.{validate_nonce}
use weft_end.Kernel.Types.{StampObservation, ReleaseStatus, ok, unverified}
use weft_end.Kernel.Invoke.{get_runtime_observed_stamp, observe_stamp, set_release_status}
use weft_end.Store.{ReadResult, found, recovered, read_refused, read}
use weft_end.Release.{VerifyStatus, verified, ReleaseVerifyResult, verify_release_manifest}
use weft_end.Release
use weft_end.Strict.Types.{
  Snapshot, EvidenceRecord, EvidenceBundle, StrictOptions, StrictPort, Executor, Effect, sent_init,
  asked_self_test, observed_stamp, artifact_read, artifact_incident,
}
use weft_end.Strict.State.{then_do, emit_load_pulse, refuse_entry}

-- `normalizeReasonCodes`, and `stableSortUniqueReasonsV0` without a subject.
abbrev pub normal_codes : List String → List String
normal_codes codes = stable_sort_unique_reasons codes none none

-- `resolvePathSummary`: the reasons, and the expected path digest where it is set.
unfoldable pub path_summary : Option Snapshot → List String × Option String
path_summary none = (normal_codes ("PATH_SUMMARY_MISSING" ∷ []), none)
path_summary (some s) =
    if not (is_empty s.issues)
    then (normal_codes ("PATH_SUMMARY_INVALID" ∷ []), none)
    else if not (is_empty s.privacy_codes)
    then (normal_codes s.privacy_codes, none)
    else (normal_codes [], some s.path_digest)

-- `records.find` of the attestation.
unfoldable pub find_attestation : List EvidenceRecord → Option EvidenceRecord
find_attestation [] = none
find_attestation (r ∷ rs) =
    if str_eq r.kind "build.attestation.v0" then some r else find_attestation rs

-- The plan hash of an attestation, where there is one, is that of the plan.
unfoldable pub attested_plan_reasons : String → Option String → List String
attested_plan_reasons plan_digest none = []
attested_plan_reasons plan_digest (some hash) =
    if not (str_eq hash "") && not (str_eq hash plan_digest)
    then "BUILD_ATTESTATION_PLAN_MISMATCH" ∷ []
    else []

unfoldable pub attestation_record_reasons : String → Option EvidenceRecord → List String
attestation_record_reasons plan_digest none = "BUILD_ATTESTATION_MISSING" ∷ []
attestation_record_reasons plan_digest (some r) =
    if not (is_empty r.payload_issues)
    then "BUILD_ATTESTATION_INVALID" ∷ []
    else attested_plan_reasons plan_digest r.plan_hash

-- `resolveBuildAttestation`: the reasons.
unfoldable pub build_attestation : Bool → String → Option EvidenceBundle → List String
build_attestation false plan_digest bundle = []
build_attestation true plan_digest none = normal_codes ("BUILD_ATTESTATION_MISSING" ∷ [])
build_attestation true plan_digest (some b) =
    if not (is_empty b.issues)
    then normal_codes ("BUILD_ATTESTATION_INVALID" ∷ [])
    else normal_codes (attestation_record_reasons plan_digest (find_attestation b.records))

-- The reasons that the kernel is given with the status of the release.
unfoldable pub release_reasons_of : ReleaseVerifyResult → List String
release_reasons_of v =
    let codes = normal_codes v.reason_codes in
    elim v.status [
      | verified ↦ codes
      | Release.unverified ↦
          if is_empty codes then normal_codes ("RELEASE_UNVERIFIED" ∷ []) else codes
    ]

unfoldable pub kernel_status : VerifyStatus → ReleaseStatus
kernel_status verified = ok
kernel_status Release.unverified = unverified

-- The reasons and the incident of a read of the source, and whether it answered.
unfoldable pub read_reasons : ReadResult → List String
read_reasons (found content digest) = []
read_reasons (recovered content codes incident digest) = normal_codes codes
read_reasons (read_refused codes incident) = normal_codes codes

unfoldable pub read_value : ReadResult → Option String
read_value (found content digest) = some content
read_value (recovered content codes incident digest) = some content
read_value (read_refused codes incident) = none

unfoldable pub read_effects : ReadResult → List Effect
read_effects r = artifact_read (not (is_none (read_value r))) (read_reasons r) ∷ elim r [
  | found content digest ↦ []
  | recovered content codes incident digest ↦ artifact_incident incident ∷ []
  | read_refused codes none ↦ []
  | read_refused codes (some incident) ↦ artifact_incident incident.0 ∷ []
]

-- The reasons of the observed stamp and of the release.
unfoldable pub stamp_codes : Option StampObservation → List String
stamp_codes none = []
stamp_codes (some o) = normal_codes o.reason_codes

unfoldable pub release_codes : Option ReleaseVerifyResult → List String
release_codes none = []
release_codes (some v) = release_reasons_of v

-- The joined reasons of `run`.
unfoldable pub preflight_codes : Executor → List String
preflight_codes x =
    join_strings
      (map string (
        join_strings (map string (stamp_codes x.runtime_observed_stamp))
          (map string (release_codes x.release_verify))))
      (map string
        (join_strings (map string x.path_summary_reasons) (map string x.attestation_reasons)))

module _ (port : StrictPort) (opts : StrictOptions) where
  unfoldable pub resolve_path_summary : Executor → Executor
  resolve_path_summary x =
      let summary = path_summary opts.plan_snapshot in
      if x.path_summary_resolved then x else record x {
        path_summary_resolved = true;
        path_summary_reasons = summary.0;
        expected_path_digest = summary.1;
      }

  unfoldable pub resolve_build_attestation : Executor → Executor
  resolve_build_attestation x = if x.attestation_resolved then x else record x {
    attestation_resolved = true;
    attestation_reasons =
        build_attestation opts.require_build_attestation opts.plan_digest opts.evidence_bundle;
  }

  -- `verifyReleaseManifestV0` as the executor calls it.
  unfoldable pub verify_for_run : Option String → ReleaseVerifyResult
  verify_for_run path_digest =
      verify_release_manifest port.release opts.release_manifest opts.plan_digest
        (or_default (opts.caller_block_hash ∷ []) opts.release_expected_blocks) path_digest
        opts.release_verifier opts.release_key_allowlist

  -- The verification is kept, and the kernel is told its outcome.
  unfoldable pub set_release : Executor → Executor
  set_release x =
      let v = verify_for_run x.expected_path_digest in
      record x {
        release_verify = some v;
        kernel = set_release_status x.kernel (kernel_status v.status) (release_reasons_of v);
      }

  -- `getReleaseStatus`.
  unfoldable pub get_release_status : Executor → Executor
  get_release_status x = elim x.release_verify [
    | some v ↦ x
    | none ↦ set_release (resolve_path_summary x)
  ]

  -- The first part of `run`: the stamp, the path summary, the attestation and the release.
  unfoldable pub assess : Executor → Executor × List Effect
  assess x =
      let stamp = get_runtime_observed_stamp x.kernel in
      let observed = record x {
        kernel = observe_stamp x.kernel;
        runtime_observed_stamp = some stamp;
      } in
      (
        set_release (resolve_build_attestation (resolve_path_summary observed)),
        observed_stamp stamp ∷ [],
      )

  -- The worker is started; with a valid nonce its channel is opened, and it is sent the source and
  -- asked for its self test.
  unfoldable pub start_worker : String → String → Executor → Executor × List Effect
  start_worker nonce source x =
      if validate_nonce nonce
      then (
        record x {
          worker = true;
          host_port = true;
          self_test_resolve = true;
          self_test_pending = true;
        },
        sent_init source ∷ asked_self_test ∷ [],
      )
      else refuse_entry port opts ("NONCE_INVALID" ∷ []) (record x { worker = true })

  -- The rest of `run`, up to the self test.
  unfoldable pub start : String → String → Executor → Executor × List Effect
  start nonce source x = then_do (assess x) (λ y.
      then_do (emit_load_pulse port opts (preflight_codes y) y) (λ z.
        if is_empty (preflight_codes y)
        then start_worker nonce source z
        else refuse_entry port opts (preflight_codes y) z))

  -- `run` after the read of the source.
  unfoldable pub run_with : String → ReadResult → Executor → Executor × List Effect
  run_with nonce r x =
      then_do (x, read_effects r)
        (λ y. elim (read_value r) [
          | some source ↦ start nonce source y
          | none ↦
              refuse_entry port opts
                (if is_empty (read_reasons r)
                  then normal_codes ("ARTIFACT_DIGEST_MISMATCH" ∷ [])
                  else normal_codes (read_reasons r))
                y
        ])

  -- `run`, up to the self test. The source is read where there are a store and a digest.
  unfoldable pub run_entry : String → Executor → Executor × List Effect
  run_entry nonce x = if x.worker then (x, []) else elim x.artifact_store [
    | none ↦ start nonce opts.source_text x
    | some store ↦ elim opts.expected_source_digest [
      | none ↦ start nonce opts.source_text x
      | some digest ↦
          let after = read port.content_digest port.record_digest store digest in
          if str_eq digest ""
          then start nonce opts.source_text x
          else run_with nonce after.1 (record x { artifact_store = some after.0 })
    ]
  ]
