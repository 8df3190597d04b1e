-- ===== src/Kernel/Trace.antt =====
-- Runs of the kernel of src/runtime/kernel/cap_kernel.ts: any calls of its methods, in any order, and
-- the events that they leave.
pub mod Fields
pub mod Once
use weft_end.Prelude.{
  ℕ, zero, suc, ◌+◌, ◌<◌, ◌≤◌, String, ◌≡◌, refl, Bool, true, false, Option, none, some, List, [],
  ◌∷◌, ◌++◌, All, length, arith, str_eq, eq_iff, ap, ◌∙◌, inl, inr, Bool-cases, leb, if◌then◌else◌,
}
use weft_end.Text.{includes}
use weft_end.Text.Sets.{Distinct}
use weft_end.Kernel.Types.{
  ConsentClaim, ReleaseStatus, CapInvokeMessage, CapDecision, allowed, denied, CapDenyTelemetry,
  CapKernel,
}
use weft_end.Kernel.Invoke.{
  handle_invoke, set_self_test_passed, set_secret_zone_available, set_consent_claim,
  set_release_status, preflight_deny_reasons, observe_stamp, note_request, decide, consent_step,
  check_consent, consume, not_after,
}
use weft_end.Kernel.Deny.{allowed_session, allowed_consent}

-- A call of one of the kernel's methods.
pub data Call : Type 0 where
  self_test : Bool → Call
  secret_zone : Bool → Call
  consent : Option ConsentClaim → Call
  release : ReleaseStatus → List String → Call
  preflight : Call
  observe : Call
  invoke : CapInvokeMessage → Call

-- An invocation with the claim that the kernel held, its decision and its telemetry.
pub record Event : Type 0 where
  pub message : CapInvokeMessage
  pub claim : Option ConsentClaim
  pub decision : CapDecision
  pub telemetry : Option CapDenyTelemetry

unfoldable pub call : CapKernel → Call → CapKernel × List Event
call k (self_test passed) = (set_self_test_passed k passed, [])
call k (secret_zone available) = (set_secret_zone_available k available, [])
call k (consent claim) = (set_consent_claim k claim, [])
call k (release status reasons) = (set_release_status k status reasons, [])
call k preflight = ((preflight_deny_reasons k).0, [])
call k observe = (observe_stamp k, [])
call k (invoke msg) =
    let after = handle_invoke k msg in
    (
      after.0,
      record { message = msg; claim = k.consent_claim; decision = after.1; telemetry = after.2 }
          ∷ [],
    )

-- The events of a run, in order.
unfoldable pub run : CapKernel → List Call → List Event
run k [] = []
run k (c ∷ cs) = (call k c).1 ++ run (call k c).0 cs

-- The request identifiers of the allowed invocations.
unfoldable pub allowed_requests : List Event → List String
allowed_requests [] = []
allowed_requests (e ∷ es) =
    let rest = allowed_requests es in
    elim e.decision [ allowed ↦ e.message.req_id ∷ rest | denied _ ↦ rest ]

unfoldable pub claim_id : Option ConsentClaim → List String
claim_id none = []
claim_id (some c) = c.consent_id ∷ []

-- The identifiers of the claims under which `id.sign` was allowed.
unfoldable pub signing_consents : List Event → List String
signing_consents [] = []
signing_consents (e ∷ es) =
    let rest = signing_consents es in
    elim e.decision [
      | allowed ↦ if str_eq e.message.cap_id "id.sign" then claim_id e.claim ++ rest else rest
      | denied _ ↦ rest
    ]

-- The numbers of the telemetry.
unfoldable pub denial_numbers : List Event → List ℕ
denial_numbers [] = []
denial_numbers (e ∷ es) =
    let rest = denial_numbers es in elim e.telemetry [ none ↦ rest | some t ↦ t.seq ∷ rest ]

-- n, n + 1, …, as many as the second number says.
abbrev pub count_from : ℕ → ℕ → List ℕ
count_from n zero = []
count_from n (suc m) = n ∷ count_from (suc n) m
