-- ===== src/Kernel/Invoke.antt =====
-- src/runtime/kernel/cap_kernel.ts: `handleInvoke` and the setters of the kernel.
mod Checks
pub use Checks.{
  default_known_caps, default_disabled_caps, secret_required_caps, is_given, given_differs,
  is_bad_release, not_after,
}
unfoldable pub use Checks.{
  session_reasons, capability_reasons, receipt_reasons, admission_reasons, not_eligible,
  market_context, market_reasons, release_reasons, secret_reasons, claim_errors,
}
use weft_end.Prelude.{
  suc, String, Bool, true, Option, none, some, List, [], ◌∷◌, ◌++◌, str_eq, if◌then◌else◌,
}
use weft_end.Text.{includes}
use weft_end.Reasons.{stable_sort_unique_reasons, push_if, is_empty, or_default}
use weft_end.Kernel.Types.{
  StampObservation, ConsentClaim, ReleaseStatus, CapInvokeMessage, CapDecision, allowed, denied,
  CapDenyTelemetry, CapKernelOptions, CapKernel,
}
use weft_end.Kernel.Stamp.{compute_runtime_observed_stamp}

unfoldable pub consume : CapKernel → ConsentClaim → CapKernel
consume k c = record k {
  used_consent_ids = c.consent_id ∷ k.used_consent_ids;
  last_consent_seq = some c.seq;
}

-- The consent check of `id.sign`: a claim without errors is used up.
unfoldable pub check_consent : CapKernel → Option ConsentClaim → CapKernel × List String
check_consent k none = (k, "CONSENT_MISSING" ∷ [])
check_consent k (some c) =
    let errors = claim_errors k c in if is_empty errors then (consume k c, []) else (k, errors)

unfoldable pub consent_step : CapKernel → String → CapKernel × List String
consent_step k cap = if str_eq cap "id.sign" then check_consent k k.consent_claim else (k, [])

-- `getRuntimeObservedStamp`: the observation, computed at the first call only.
unfoldable pub get_runtime_observed_stamp : CapKernel → StampObservation
get_runtime_observed_stamp k = elim k.observed [
  | some o ↦ o
  | none ↦
      compute_runtime_observed_stamp k.opts.runtime_tier k.opts.shop_stamp k.opts.caller_block_hash
        k.opts.stamp_key_allowlist k.opts.verify_signature
]

-- The state after `getRuntimeObservedStamp`.
unfoldable pub observe_stamp : CapKernel → CapKernel
observe_stamp k = record k { observed = some (get_runtime_observed_stamp k) }

-- All reasons against an invocation but those of the consent, in the order of their tests.
unfoldable pub static_reasons : CapKernel → CapInvokeMessage → List String
static_reasons k msg =
    (get_runtime_observed_stamp k).reason_codes
    ++ (session_reasons k msg
        ++ (capability_reasons k msg
            ++ (market_reasons k.opts msg.cap_id
                ++ (release_reasons k msg.cap_id ++ secret_reasons k msg.cap_id))))

unfoldable pub disabled_reasons : CapKernel → String → List String
disabled_reasons k cap =
    push_if (includes (or_default default_disabled_caps k.opts.disabled_caps) cap) "CAP_DISABLED_V0"

-- The observation is kept, and the request identifier is noted.
unfoldable pub note_request : CapKernel → CapInvokeMessage → CapKernel
note_request k msg = record k {
  observed = some (get_runtime_observed_stamp k);
  seen_req_ids =
      if includes k.seen_req_ids msg.req_id then k.seen_req_ids else msg.req_id ∷ k.seen_req_ids;
}

-- The answer to an invocation with its reasons; a denial takes the next number.
unfoldable pub decide :
    CapKernel → CapInvokeMessage → List String → CapKernel × CapDecision × Option CapDenyTelemetry
decide k msg [] = (k, allowed, none)
decide k msg (r ∷ rs) =
    let codes =
      stable_sort_unique_reasons (r ∷ rs) (some k.opts.caller_block_hash) (some msg.cap_id) in
    (
      record k { next_seq = suc k.next_seq },
      denied codes,
      some (record {
        plan_digest = k.opts.plan_digest;
        caller_block_hash = k.opts.caller_block_hash;
        cap_id = msg.cap_id;
        reason_codes = codes;
        seq = k.next_seq;
      }),
    )

-- `handleInvoke`: the state after it, the decision and the telemetry of a denial.
unfoldable pub handle_invoke :
    CapKernel → CapInvokeMessage → CapKernel × CapDecision × Option CapDenyTelemetry
handle_invoke k msg =
    let consent = consent_step (note_request k msg) msg.cap_id in
    decide consent.0 msg (static_reasons k msg ++ (consent.1 ++ disabled_reasons k msg.cap_id))

-- The setters.
unfoldable pub set_self_test_passed : CapKernel → Bool → CapKernel
set_self_test_passed k passed = record k { self_test_passed = passed }

unfoldable pub set_secret_zone_available : CapKernel → Bool → CapKernel
set_secret_zone_available k available = record k {
  opts = record (k.opts) { secret_zone_available = available };
}

unfoldable pub set_consent_claim : CapKernel → Option ConsentClaim → CapKernel
set_consent_claim k claim = record k { consent_claim = claim }

unfoldable pub set_release_status : CapKernel → ReleaseStatus → List String → CapKernel
set_release_status k status reasons = record k {
  release_status = some status;
  release_reason_codes =
      stable_sort_unique_reasons reasons (some k.opts.caller_block_hash) (some "release");
}

-- `preflightDenyReasons`.
unfoldable pub preflight_deny_reasons : CapKernel → CapKernel × List String
preflight_deny_reasons k =
    let o = get_runtime_observed_stamp k in
    (
      record k { observed = some o },
      stable_sort_unique_reasons o.reason_codes (some k.opts.caller_block_hash) (some "stamp"),
    )

-- The constructor.
unfoldable pub new_kernel :
    CapKernelOptions → Option ConsentClaim → Option ReleaseStatus → List String → CapKernel
new_kernel opts claim status reasons = record {
  opts = opts;
  seen_req_ids = [];
  next_seq = 0;
  self_test_passed = true;
  observed = none;
  consent_claim = claim;
  used_consent_ids = [];
  last_consent_seq = none;
  release_status = status;
  release_reason_codes =
      stable_sort_unique_reasons reasons (some opts.caller_block_hash) (some "release");
}
