-- ===== src/Strict/Value.antt =====
-- The messages, timers and consents of the strict executor keep that a value of the entry comes over an
-- open channel.
use weft_end.Prelude.{
  ◌≡◌, inr, String, Bool, true, false, Option, none, some, List, [], ◌∷◌, str_eq, ◌==◌,
  none_is_not_some,
}
use weft_end.Reasons.{or_default}
use weft_end.Kernel.Types.{CapDecision, allowed, denied}
use weft_end.Kernel.Invoke.{set_self_test_passed}
use weft_end.Pulse.{cap_request, cap_allow, cap_deny}
use weft_end.SecretZone.{ConsentAnswer, request_consent, ZoneEffect, asked, rejected, settled}
use weft_end.Strict.Types.{
  succeeded, failed, SandboxResult, MessageBody, invoke, self_test_result, result, other_body,
  SandboxMessage, StrictOptions, StrictPort, Executor,
}
use weft_end.Strict.State.{then_do, block_subject, post_to_sandbox}
use weft_end.Strict.Messages.{
  take_waiting, requested_once, denied_once, report_decision, ask_kernel, after_consent,
  consent_reasons, handle_invoke_message, start_entry_timeout, after_self_test, settle_self_test,
  resolve_self_test, defer_entry_resolution, resolve_pending, handle_result, handle_message,
}
use weft_end.Strict.Step.{resume, answer_consent, after_zone}
use weft_end.Strict.Safe.{
  IsSafe, IsSafe-if, IsSafe-elim, IsSafe-if_state, IsSafe-emit, IsSafe-resolve, IsSafe-refuse,
}

module _ (port : StrictPort) (opts : StrictOptions) (nonce : String) where
  report_decision-IsSafe :
      (msg : SandboxMessage) (cap_id : String) (reasons : List String) (d : CapDecision)
      (x : Executor)
      → IsSafe port opts nonce x
      → IsSafe port opts nonce (report_decision port opts msg cap_id reasons d x).0
  unfolding report_decision then_do post_to_sandbox
  report_decision-IsSafe msg cap_id reasons allowed x s =
      IsSafe-emit port opts nonce cap_allow (block_subject opts) (some cap_id) [] none x s
  report_decision-IsSafe msg cap_id reasons (denied codes) x s =
      IsSafe-emit port opts nonce cap_deny (block_subject opts) (some cap_id) _ (some denied_once) x
        s

  ask_kernel-IsSafe :
      (msg : SandboxMessage) (cap_id caller : String) (reasons : List String) (x : Executor)
      → IsSafe port opts nonce x
      → IsSafe port opts nonce (ask_kernel port opts msg cap_id caller reasons x).0
  unfolding ask_kernel then_do
  ask_kernel-IsSafe msg cap_id caller reasons x s = report_decision-IsSafe msg cap_id reasons _ _ (
      IsSafe-emit port opts nonce cap_request (block_subject opts) (some cap_id) []
        (some requested_once) x s)

  after_consent-IsSafe :
      (msg : SandboxMessage) (cap_id caller : String) (answer : ConsentAnswer) (x : Executor)
      → IsSafe port opts nonce x
      → IsSafe port opts nonce (after_consent port opts msg cap_id caller answer x).0
  unfolding after_consent
  after_consent-IsSafe msg cap_id caller answer x s =
      ask_kernel-IsSafe msg cap_id caller (consent_reasons answer) _ s

  handle_invoke_message-IsSafe :
      (msg : SandboxMessage) (cap_id caller : String) (x : Executor)
      → IsSafe port opts nonce x
      → IsSafe port opts nonce (handle_invoke_message port opts msg cap_id caller x).0
  unfolding handle_invoke_message
  handle_invoke_message-IsSafe msg cap_id caller x s =
      let told : Executor = record x {
        kernel = set_self_test_passed x.kernel x.self_test_passed;
      } in
      IsSafe-if port opts nonce (str_eq cap_id "id.sign") _ _
        (λ e.
          IsSafe-elim port opts nonce x.secret_zone _ _
            (λ e. ask_kernel-IsSafe msg cap_id caller [] told s)
            (λ zone e.
              IsSafe-elim port opts nonce (request_consent zone).1 _ _
                (λ e. after_consent-IsSafe msg cap_id caller _ told s) (λ id e. s)))
        (λ e. ask_kernel-IsSafe msg cap_id caller [] told s)

  pub settle_self_test-IsSafe :
      (passed : Bool) (codes : Option (List String)) (x : Executor)
      → IsSafe port opts nonce x
      → IsSafe port opts nonce (settle_self_test port opts passed codes x).0
  unfolding settle_self_test after_self_test start_entry_timeout
  settle_self_test-IsSafe true codes x s =
      IsSafe-if port opts nonce x.self_test_pending _ _
        (λ e.
          IsSafe-if_state port opts nonce (or_default 10000 opts.entry_timeout_ms == 0) _ _ (λ e. s)
            (λ e. s))
        (λ e. s)
  settle_self_test-IsSafe false codes x s =
      IsSafe-if port opts nonce x.self_test_pending _ _
        (λ e. IsSafe-refuse port opts nonce _ (record x { self_test_pending = false }) s) (λ e. s)

  resolve_self_test-IsSafe :
      (passed : Bool) (codes : Option (List String)) (x : Executor)
      → IsSafe port opts nonce x
      → IsSafe port opts nonce (resolve_self_test port opts passed codes x).0
  unfolding resolve_self_test
  resolve_self_test-IsSafe passed codes x s =
      IsSafe-if port opts nonce x.self_test_resolve _ _
        (λ e. settle_self_test-IsSafe passed codes (record x { self_test_resolve = false }) s)
        (λ e. s)

  defer_entry_resolution-IsSafe :
      (r : SandboxResult) (x : Executor)
      → IsSafe port opts nonce x
      → x.host_port ≡ true
      → IsSafe port opts nonce (defer_entry_resolution port opts r x).0
  unfolding defer_entry_resolution
  defer_entry_resolution-IsSafe r x s h =
      IsSafe-if port opts nonce x.untrusted_seen _ _ (λ e. IsSafe-refuse port opts nonce _ x s)
        (λ e.
          IsSafe-elim port opts nonce x.pending_entry _ _ (λ e. (s.0, (λ r f. h), s.2, s.3, s.4))
            (λ p e. s))

  pub resolve_pending-IsSafe :
      (x : Executor)
      → IsSafe port opts nonce x
      → IsSafe port opts nonce (resolve_pending port opts x).0
  unfolding resolve_pending
  resolve_pending-IsSafe x s =
      let taken : Executor = record x { pending_entry = none } in
      let kept : IsSafe port opts nonce taken =
        (s.0, (λ r e. absurd (none_is_not_some e)), s.2, s.3, s.4) in
      IsSafe-elim port opts nonce x.pending_entry _ _ (λ e. s)
        (λ r e.
          IsSafe-if port opts nonce x.untrusted_seen _ _
            (λ f. IsSafe-refuse port opts nonce _ taken kept)
            (λ f. IsSafe-resolve port opts nonce r taken kept (inr (s.1 r e))))

  pub handle_message-IsSafe :
      (msg : SandboxMessage) (body : MessageBody) (x : Executor)
      → IsSafe port opts nonce x
      → x.host_port ≡ true
      → IsSafe port opts nonce (handle_message port opts msg body x).0
  unfolding handle_message handle_result
  handle_message-IsSafe msg (invoke cap_id caller) x s h =
      handle_invoke_message-IsSafe msg cap_id caller x s
  handle_message-IsSafe msg (self_test_result passed codes) x s h =
      resolve_self_test-IsSafe passed codes x s
  handle_message-IsSafe msg (result (succeeded value)) x s h =
      IsSafe-if port opts nonce (str_eq (or_default "" msg.req_id) "entry") _ _
        (λ e. defer_entry_resolution-IsSafe _ x s h) (λ e. s)
  handle_message-IsSafe msg (result (failed codes)) x s h =
      IsSafe-if port opts nonce (str_eq (or_default "" msg.req_id) "entry") _ _
        (λ e. defer_entry_resolution-IsSafe _ x s h)
        (λ e.
          IsSafe-if port opts nonce (str_eq (or_default "" msg.req_id) "init") _ _
            (λ e. IsSafe-resolve port opts nonce _ x s (inr h)) (λ e. s))
  handle_message-IsSafe msg other_body x s h = s

  resume-IsSafe :
      (msg : SandboxMessage) (body : MessageBody) (answer : ConsentAnswer) (x : Executor)
      → IsSafe port opts nonce x
      → IsSafe port opts nonce (resume port opts msg body answer x).0
  unfolding resume
  resume-IsSafe msg (invoke cap_id caller) answer x s =
      after_consent-IsSafe msg cap_id caller answer x s
  resume-IsSafe msg (self_test_result passed codes) answer x s = s
  resume-IsSafe msg (result outcome) answer x s = s
  resume-IsSafe msg other_body answer x s = s

  pub after_zone-IsSafe :
      (effects : List ZoneEffect) (x : Executor)
      → IsSafe port opts nonce x
      → IsSafe port opts nonce (after_zone port opts effects x).0
  unfolding after_zone answer_consent then_do
  after_zone-IsSafe [] x s = s
  after_zone-IsSafe (asked id ∷ effects) x s = after_zone-IsSafe effects x s
  after_zone-IsSafe (rejected id codes ∷ effects) x s = after_zone-IsSafe effects x s
  after_zone-IsSafe (settled id answer ∷ effects) x s = after_zone-IsSafe effects _ (
      IsSafe-elim port opts nonce (take_waiting id x.waiting) _ _ (λ e. s)
        (λ found e. resume-IsSafe found.0 found.0.body answer (record x { waiting = found.1 }) s))
