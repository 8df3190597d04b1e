-- ===== src/Strict/State.antt =====
-- src/runtime/strict/strict_executor.ts: the constructor, the pulses and the resolution of the entry.
-- A method answers the fields after it and its effects in order.
use Prim.Native.String.{◌++◌ as str_append}
use weft_end.Prelude.{
  ℕ, suc, String, true, false, Option, none, some, List, [], ◌∷◌, ◌++◌, if◌then◌else◌,
}
use weft_end.Text.Table.{get, set}
use weft_end.Reasons.{or_default}
use weft_end.Kernel.Types.{CapKernelOptions}
use weft_end.Kernel.Invoke.{new_kernel, default_known_caps}
use weft_end.Store.{ArtifactStore}
use weft_end.Pulse.{
  PulseKind, load, exit, PulseSubject, PulseDigests, PulseCounts, PulseBody, seal_pulse,
  keep_non_empty, release, block,
}
use weft_end.SecretZone.{SecretZoneHost}
use weft_end.Strict.Types.{
  Outcome, succeeded, failed, SandboxResult, StrictOptions, StrictPort, Executor, Effect, posted,
  pulsed,
}

-- A method after another one.
unfoldable pub then_do :
    Executor × List Effect → (Executor → Executor × List Effect) → Executor × List Effect
then_do before f = let after = f before.0 in (after.0, before.1 ++ after.1)

-- The kernel that the constructor makes.
unfoldable pub kernel_options : StrictPort → StrictOptions → String → CapKernelOptions
kernel_options port opts nonce = record {
  plan_digest = opts.plan_digest;
  caller_block_hash = opts.caller_block_hash;
  execution_mode = "strict";
  session_nonce = nonce;
  granted_caps = opts.granted_caps;
  runtime_tier = opts.runtime_tier;
  block_tier = opts.block_tier;
  shop_stamp = opts.shop_stamp;
  verify_signature = opts.verify_signature;
  stamp_key_allowlist = opts.stamp_key_allowlist;
  release_id = elim opts.release_manifest [ none ↦ none | some m ↦ some m.release_id ];
  secret_zone_available = opts.secret_zone_available;
  known_caps = opts.known_caps;
  disabled_caps = opts.disabled_caps;
  release_gated_caps = default_known_caps;
  market_id = opts.market_id;
  market_policy_digest = opts.market_policy_digest;
  admission_receipt = opts.admission_receipt;
  market_eligible_caps = opts.market_eligible_caps;
  receipt_digest = port.receipt_digest;
}

-- The constructor, with the nonce that it draws.
unfoldable pub new_executor :
    StrictPort → StrictOptions → String → Option ArtifactStore → Option SecretZoneHost → Executor
new_executor port opts nonce store secret_zone = record {
  worker = false;
  host_port = false;
  entry = none;
  pending_entry = none;
  self_test_resolve = false;
  self_test_pending = false;
  self_test_passed = false;
  untrusted_seen = false;
  kernel = new_kernel (kernel_options port opts nonce) none none [];
  runtime_observed_stamp = none;
  release_verify = none;
  path_summary_resolved = false;
  path_summary_reasons = [];
  expected_path_digest = none;
  attestation_resolved = false;
  attestation_reasons = [];
  pulse_seq_by_subject = [];
  load_pulse_emitted = false;
  exit_pulse_emitted = false;
  entry_timeout_set = false;
  artifact_store = store;
  secret_zone = secret_zone;
  waiting = [];
}

-- `${subject.kind}:${subject.id}`.
unfoldable pub subject_key : PulseSubject → String
subject_key subject =
    str_append (elim subject.kind [ release ↦ "release:" | block ↦ "block:" ]) subject.id

-- The number of the last pulse of a subject.
unfoldable pub last_pulse : Executor → String → ℕ
last_pulse x key = or_default 0 (get x.pulse_seq_by_subject key)

-- The reason codes of the pulse of the end.
unfoldable pub exit_codes : Outcome → List String
exit_codes (succeeded value) = []
exit_codes (failed codes) = or_default ("EXECUTION_DENIED" ∷ []) codes

-- The promise of the entry takes its first result.
unfoldable pub settle_entry : SandboxResult → Executor → Executor
settle_entry result x = elim x.entry [ none ↦ record x { entry = some result } | some r ↦ x ]

-- `postToSandbox`.
unfoldable pub post_to_sandbox : SandboxResult → Executor → Executor × List Effect
post_to_sandbox answer x = (x, if x.host_port then posted answer ∷ [] else [])

module _ (opts : StrictOptions) where
  -- The subject of the pulses of the block.
  unfoldable pub block_subject : PulseSubject
  block_subject = record { kind = block; id = opts.caller_block_hash }

  -- `observedReleaseId ?? releaseId`, where it is not blank.
  unfoldable pub known_release_id : Executor → Option String
  known_release_id x =
      let given : Option String = elim opts.release_manifest [
        | none ↦ none
        | some m ↦ some m.release_id
      ] in
      keep_non_empty (elim x.release_verify [
        | none ↦ given
        | some v ↦ elim v.observed_release_id [ some id ↦ some id | none ↦ given ]
      ])

  unfoldable pub known_path_digest : Executor → Option String
  known_path_digest x =
      let given : Option String = elim opts.release_manifest [
        | none ↦ none
        | some m ↦ some m.body.path_digest
      ] in
      keep_non_empty (elim x.release_verify [
        | none ↦ given
        | some v ↦ elim v.observed_path_digest [ some d ↦ some d | none ↦ given ]
      ])

  -- `buildPulseDigests`; that an object without a key is none is `normalize_digests`.
  unfoldable pub build_pulse_digests : Executor → PulseDigests
  build_pulse_digests x = record {
    release_id = known_release_id x;
    path_digest = known_path_digest x;
    plan_hash = keep_non_empty (some opts.plan_digest);
    evidence_head = none;
  }

module _ (port : StrictPort) (opts : StrictOptions) where
  -- `emitPulse`, with `nextPulseSeq`.
  unfoldable pub emit_pulse :
      PulseKind
      → PulseSubject
      → Option String
      → List String
      → Option PulseCounts
      → Executor
      → Executor × List Effect
  emit_pulse kind subject cap_id codes counts x =
      let key = subject_key subject in
      let body : PulseBody = record {
        pulse_seq = suc (last_pulse x key);
        kind = kind;
        subject = subject;
        cap_id = cap_id;
        reason_codes = some codes;
        digests = some (build_pulse_digests opts x);
        counts = counts;
      } in
      if opts.on_pulse
      then (
        record x { pulse_seq_by_subject = set x.pulse_seq_by_subject key (suc (last_pulse x key)) },
        pulsed (seal_pulse port.pulse_digest body) ∷ [],
      )
      else (x, [])

  -- `emitLoadPulse`.
  unfoldable pub emit_load_pulse : List String → Executor → Executor × List Effect
  emit_load_pulse codes x =
      if x.load_pulse_emitted then (x, []) else elim (known_release_id opts x) [
        | none ↦ (record x { load_pulse_emitted = true }, [])
        | some id ↦
            emit_pulse load (record { kind = release; id = id }) none codes none
              (record x { load_pulse_emitted = true })
      ]

  -- `emitExitPulse`.
  unfoldable pub emit_exit_pulse : SandboxResult → Executor → Executor × List Effect
  emit_exit_pulse result x =
      if x.exit_pulse_emitted
      then (x, [])
      else emit_pulse exit (block_subject opts) none (exit_codes result.outcome) none
          (record x { exit_pulse_emitted = true })

  -- `resolveEntry`, with `clearEntryTimeout`.
  unfoldable pub resolve_entry : SandboxResult → Executor → Executor × List Effect
  resolve_entry result x =
      then_do (emit_exit_pulse result (record x { entry_timeout_set = false }))
        (λ y. (settle_entry result y, []))

  -- `makeResult` of a refusal of the entry, resolved.
  unfoldable pub refuse_entry : List String → Executor → Executor × List Effect
  refuse_entry codes = resolve_entry (record { req_id = "entry"; outcome = failed (some codes) })
