-- ===== src/Tests/Strict.antt =====
-- The strict executor: a run that passes its checks, a granted capability and a value of the entry.
use weft_end.Prelude.{suc, ◌+◌, ◌≤◌, ◌≡◌, refl, true, false, none, some, List, [], ◌∷◌, All, length}
use weft_end.Text.Sets.{Distinct}
use weft_end.Kernel.Trace.{Call, run, allowed_requests}
use weft_end.Strict.State.{
  then_do, kernel_options, new_executor, subject_key, last_pulse, exit_codes, settle_entry,
  post_to_sandbox, block_subject, known_release_id, known_path_digest, build_pulse_digests,
  emit_pulse, emit_load_pulse, emit_exit_pulse, resolve_entry, refuse_entry,
}
use weft_end.Strict.Preflight.{
  path_summary, find_attestation, attested_plan_reasons, attestation_record_reasons,
  build_attestation, release_reasons_of, kernel_status, read_reasons, read_value, read_effects,
  stamp_codes, release_codes, preflight_codes, resolve_path_summary, resolve_build_attestation,
  verify_for_run, set_release, get_release_status, assess, start_worker, start, run_with, run_entry,
}
use weft_end.Strict.Messages.{
  take_waiting, consent_reasons, kernel_message, start_entry_timeout, is_bound_message,
  report_decision, ask_kernel, after_consent, handle_invoke_message, after_self_test,
  settle_self_test, resolve_self_test, defer_entry_resolution, resolve_pending, handle_result,
  handle_message, handle_port_message, handle_untrusted_channel,
}
use weft_end.Strict.Step.{
  terminate, recall_stamp, resume, answer_consent, after_zone, handle_zone_event, step, steps,
}
use weft_end.Strict.Effects.{granted_by, grants}
use weft_end.Kernel.Invoke.{
  consume, check_consent, consent_step, get_runtime_observed_stamp, observe_stamp, static_reasons,
  disabled_reasons, note_request, decide, handle_invoke, set_self_test_passed, set_consent_claim,
  set_release_status, preflight_deny_reasons, new_kernel, session_reasons, capability_reasons,
  receipt_reasons, admission_reasons, not_eligible, market_context, market_reasons, release_reasons,
  secret_reasons, claim_errors,
}
use weft_end.Kernel.Stamp.{
  has_descent, shop_stamp_issues, lookup_key, signature_assessment, below_tier, stamp_reasons,
  compute_runtime_observed_stamp,
}
use weft_end.Kernel.Types.{tier_rank, tier_rank_of}
use weft_end.Reasons.{
  fresh, collect, stable_sort_unique_strings, format_truncation_reason, reason_key, cmp_reason,
  is_reason, normalize_reason_array, create_reason_budget, reason_limit, truncate_reasons,
  bound_reasons, normalize_reason_codes, stable_sort_unique_reasons, checkpoint_eq_or_reason,
}
use weft_end.Reasons.Join.{join_strings}
use weft_end.Release.{
  same_strings, some_signature, path_reasons, block_reasons, signature_reasons, manifest_reasons,
  verify_release_manifest, mint_release_manifest,
}
use weft_end.Pulse.{
  keep_non_empty, normalize_digests, normalize_counts, normalize_pulse_body, seal_pulse,
  digest_matches,
}
use weft_end.Boundary.{is_nonce_char, all_nonce_chars, validate_nonce, diff_units, safe_equal}
use weft_end.Text.{cmp_str, is_non_empty, has_space, includes}
use weft_end.Text.Table.{get, set}
use weft_end.Text.Decimal.{digit, decimal_from, decimal, units}
use weft_end.Sort.{sort}
use weft_end.Strict.Types.{
  succeeded, failed, SandboxResult, invoke, self_test_result, result, SandboxMessage, StrictOptions,
  StrictPort, Executor, StrictEvent, run_call, worker_message, port_message, deferred_timer,
}
use weft_end.Strict.Effects.{pulses, numbers, exits, kernel_after, CountsUp}
use weft_end.Strict.Follows.{Ported}
use weft_end.Strict.Once.{
  steps_refine, granted_once, entry_resolved_once, pulses_numbered, new_executor-Ported,
}
use weft_end.Strict.Safe.{IsCleared}
use weft_end.Strict.Checked.{entry_value-IsCleared, untrusted_message_wins}
use weft_end.Tests.Release.{release_port, manifest, verifier, keys}

abbrev port : StrictPort
port = record {
  pulse_digest = λ body. "sha256:pulse";
  content_digest = λ text. text;
  record_digest = λ r. "sha256:record";
  receipt_digest = λ r. "sha256:receipt";
  release = release_port;
}

abbrev opts : StrictOptions
opts = record {
  plan_digest = "plan";
  caller_block_hash = "block:a";
  granted_caps = "net.fetch" ∷ [];
  source_text = "source";
  runtime_tier = none;
  block_tier = none;
  shop_stamp = none;
  verify_signature = none;
  stamp_key_allowlist = [];
  release_manifest = some manifest;
  release_verifier = some verifier;
  release_key_allowlist = keys;
  release_expected_blocks = some ("block:a" ∷ "block:b" ∷ []);
  expected_source_digest = none;
  secret_zone_available = false;
  known_caps = some ("net.fetch" ∷ []);
  disabled_caps = some [];
  market_id = none;
  market_policy_digest = none;
  admission_receipt = none;
  market_eligible_caps = none;
  plan_snapshot = some (record { issues = []; privacy_codes = []; path_digest = "path" });
  evidence_bundle = none;
  require_build_attestation = false;
  on_pulse = true;
  entry_timeout_ms = none;
}

abbrev executor : Executor
executor = new_executor port opts "nonce" none none

abbrev self_test_ok : SandboxMessage
self_test_ok = record {
  execution_mode = "strict";
  plan_digest = "plan";
  session_nonce = "nonce";
  req_id = some "selftest";
  body = self_test_result true none;
}

abbrev fetch : SandboxMessage
fetch = record self_test_ok { req_id = some "1"; body = invoke "net.fetch" "block:a" }

abbrev value : SandboxMessage
value = record self_test_ok { req_id = some "entry"; body = result (succeeded "42") }

abbrev session : List StrictEvent
session =
    run_call
    ∷ port_message self_test_ok
    ∷ port_message fetch
    ∷ port_message value
    ∷ deferred_timer
    ∷ []

entry_value :
    (steps port opts "nonce" session executor).0.entry
    ≡ some (record { req_id = "entry"; outcome = succeeded "42" })
unfolding sort then_do kernel_options new_executor subject_key last_pulse exit_codes settle_entry
    post_to_sandbox block_subject known_release_id known_path_digest build_pulse_digests emit_pulse
    emit_load_pulse emit_exit_pulse resolve_entry refuse_entry path_summary find_attestation
    attested_plan_reasons attestation_record_reasons build_attestation release_reasons_of
    kernel_status read_reasons read_value read_effects stamp_codes release_codes preflight_codes
    resolve_path_summary resolve_build_attestation verify_for_run set_release get_release_status
    assess start_worker start run_with run_entry take_waiting consent_reasons kernel_message
    start_entry_timeout is_bound_message report_decision ask_kernel after_consent
    handle_invoke_message after_self_test settle_self_test resolve_self_test defer_entry_resolution
    resolve_pending handle_result handle_message handle_port_message handle_untrusted_channel
    terminate recall_stamp resume answer_consent after_zone handle_zone_event step steps granted_by
    grants consume check_consent consent_step get_runtime_observed_stamp observe_stamp
    static_reasons disabled_reasons note_request decide handle_invoke set_self_test_passed
    set_consent_claim set_release_status preflight_deny_reasons new_kernel session_reasons
    capability_reasons receipt_reasons admission_reasons not_eligible market_context market_reasons
    release_reasons secret_reasons claim_errors has_descent shop_stamp_issues lookup_key
    signature_assessment below_tier stamp_reasons compute_runtime_observed_stamp tier_rank
    tier_rank_of fresh collect stable_sort_unique_strings format_truncation_reason reason_key
    cmp_reason is_reason normalize_reason_array create_reason_budget reason_limit truncate_reasons
    bound_reasons normalize_reason_codes stable_sort_unique_reasons checkpoint_eq_or_reason
    join_strings same_strings some_signature path_reasons block_reasons signature_reasons
    manifest_reasons verify_release_manifest mint_release_manifest keep_non_empty normalize_digests
    normalize_counts normalize_pulse_body seal_pulse digest_matches is_nonce_char all_nonce_chars
    validate_nonce diff_units safe_equal cmp_str is_non_empty has_space includes get set digit
    decimal_from decimal units
entry_value = refl

-- The capability of the session is granted.
granted_one : grants (steps port opts "nonce" session executor).1 ≡ "1" ∷ []
unfolding sort then_do kernel_options new_executor subject_key last_pulse exit_codes settle_entry
    post_to_sandbox block_subject known_release_id known_path_digest build_pulse_digests emit_pulse
    emit_load_pulse emit_exit_pulse resolve_entry refuse_entry path_summary find_attestation
    attested_plan_reasons attestation_record_reasons build_attestation release_reasons_of
    kernel_status read_reasons read_value read_effects stamp_codes release_codes preflight_codes
    resolve_path_summary resolve_build_attestation verify_for_run set_release get_release_status
    assess start_worker start run_with run_entry take_waiting consent_reasons kernel_message
    start_entry_timeout is_bound_message report_decision ask_kernel after_consent
    handle_invoke_message after_self_test settle_self_test resolve_self_test defer_entry_resolution
    resolve_pending handle_result handle_message handle_port_message handle_untrusted_channel
    terminate recall_stamp resume answer_consent after_zone handle_zone_event step steps granted_by
    grants consume check_consent consent_step get_runtime_observed_stamp observe_stamp
    static_reasons disabled_reasons note_request decide handle_invoke set_self_test_passed
    set_consent_claim set_release_status preflight_deny_reasons new_kernel session_reasons
    capability_reasons receipt_reasons admission_reasons not_eligible market_context market_reasons
    release_reasons secret_reasons claim_errors has_descent shop_stamp_issues lookup_key
    signature_assessment below_tier stamp_reasons compute_runtime_observed_stamp tier_rank
    tier_rank_of fresh collect stable_sort_unique_strings format_truncation_reason reason_key
    cmp_reason is_reason normalize_reason_array create_reason_budget reason_limit truncate_reasons
    bound_reasons normalize_reason_codes stable_sort_unique_reasons checkpoint_eq_or_reason
    join_strings same_strings some_signature path_reasons block_reasons signature_reasons
    manifest_reasons verify_release_manifest mint_release_manifest keep_non_empty normalize_digests
    normalize_counts normalize_pulse_body seal_pulse digest_matches is_nonce_char all_nonce_chars
    validate_nonce diff_units safe_equal cmp_str is_non_empty has_space includes get set digit
    decimal_from decimal units
granted_one = refl

no_wait : Ported executor
no_wait = new_executor-Ported port opts "nonce" none none

steps_refine_example :
    let after = steps port opts "nonce" session executor in
    (calls : List Call) × (kernel_after executor.kernel calls ≡ after.0.kernel)
    × (allowed_requests (run executor.kernel calls) ≡ grants after.1)
steps_refine_example = steps_refine port opts "nonce" session executor no_wait

granted_once_example :
    Distinct (grants (steps port opts "nonce" session executor).1)
    × All
        (λ a. includes executor.kernel.seen_req_ids a ≡ false)
        (grants (steps port opts "nonce" session executor).1)
granted_once_example = granted_once port opts "nonce" session executor no_wait

entry_resolved_once_example :
    let after = steps port opts "nonce" session executor in
    ((r : SandboxResult) → executor.entry ≡ some r → after.0.entry ≡ some r)
    × (exits (pulses after.1) ≤ 1)
    × (executor.exit_pulse_emitted ≡ true → exits (pulses after.1) ≡ 0)
entry_resolved_once_example = entry_resolved_once port opts "nonce" session executor no_wait

pulses_numbered_example :
    let after = steps port opts "nonce" session executor in
    let found = numbers "block:block:a" (pulses after.1) in
    CountsUp (suc (last_pulse executor "block:block:a")) found
    × (last_pulse after.0 "block:block:a" ≡ last_pulse executor "block:block:a" + length found)
pulses_numbered_example = pulses_numbered port opts "nonce" session executor "block:block:a" no_wait

entry_value-IsCleared_example : IsCleared port opts "nonce"
entry_value-IsCleared_example =
    entry_value-IsCleared port opts "nonce" none none session
      (record { req_id = "entry"; outcome = succeeded "42" }) "42" entry_value refl

not_resolved : executor.entry ≡ none
unfolding new_executor
not_resolved = refl

untrusted_message_wins_example :
    (steps port opts "nonce" (worker_message ∷ session) executor).0.entry
    ≡ some (record { req_id = "entry"; outcome = failed (some ("UNTRUSTED_CHANNEL" ∷ [])) })
untrusted_message_wins_example =
    untrusted_message_wins port opts "nonce" session executor no_wait not_resolved
