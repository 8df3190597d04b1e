-- ===== src/Strict/Handle.antt =====
-- Every message, timer and consent of the strict executor keeps what `Follows` says.
use weft_end.Prelude.{
  ◌≡◌, refl, sym, ◌∙◌, ap, String, Bool, true, false, Option, none, some, List, [], ◌∷◌, Bool-cases,
  inl, inr, str_eq, arith, none_is_not_some, ◌==◌,
}
use weft_end.Kernel.Trace.{call, run, allowed_requests, self_test}
use weft_end.Kernel.Invoke.{set_self_test_passed}
use weft_end.Reasons.{or_default}
use weft_end.SecretZone.{ConsentAnswer, ZoneEffect, asked, rejected, settled, request_consent}
use weft_end.Strict.Types.{
  Outcome, succeeded, failed, SandboxResult, MessageBody, invoke, self_test_result, result,
  other_body, SandboxMessage, StrictOptions, StrictPort, Executor,
}
use weft_end.Strict.Messages.{
  take_waiting, handle_invoke_message, start_entry_timeout, after_self_test, settle_self_test,
  resolve_self_test, defer_entry_resolution, resolve_pending, handle_result, handle_message,
  is_bound_message, handle_port_message,
}
use weft_end.Strict.Step.{resume, answer_consent, after_zone}
use weft_end.Strict.Effects.{grants, granted_by, pulses, pulse_of, kernel_after}
use weft_end.Strict.Follows.{
  Follows, Follows-then, Follows-append, Follows-quiet, Follows-set, Follows-refl, Follows-if,
  Follows-elim, Follows-if_state, Ported, Refines-refl,
}
use weft_end.Strict.Emit.{refuse_entry-Follows, resolve_entry-Follows, refusal-Follows}
use weft_end.Strict.Answer.{told-Follows, ask_kernel-Follows, after_consent-Follows}
use weft_end.Strict.Refine.{true_is_not_false}

-- With a channel anything may wait.
opened-Ported :
    (x y : Executor) → x.host_port ≡ true → y.host_port ≡ x.host_port → Ported x → Ported y
opened-Ported x y e f p q = absurd (true_is_not_false (sym e ∙ (sym f ∙ q)))

module _ (port : StrictPort) (opts : StrictOptions) where
  handle_invoke_message-Follows :
      (msg : SandboxMessage) (cap_id caller : String) (x : Executor)
      → x.host_port ≡ true
      → Follows x (handle_invoke_message port opts msg cap_id caller x)
  unfolding handle_invoke_message run call allowed_requests pulses pulse_of grants granted_by
  handle_invoke_message-Follows msg cap_id caller x h =
      let told : Executor = record x {
        kernel = set_self_test_passed x.kernel x.self_test_passed;
      } in
      told-Follows port opts x (self_test x.self_test_passed) _ refl (
        Follows-if told (str_eq cap_id "id.sign") _ _
          (λ e.
            Follows-elim told x.secret_zone _ _
              (λ e. ask_kernel-Follows port opts msg cap_id caller [] told h)
              (λ zone e.
                Follows-elim told (request_consent zone).1 _ _
                  (λ e. after_consent-Follows port opts msg cap_id caller _ told h)
                  (λ id e.
                    let waits : Executor = record told {
                      secret_zone = some (request_consent zone).0;
                      waiting = (id, msg) ∷ x.waiting;
                    } in
                    Follows-quiet told waits _ refl (omega arith) refl (λ p. p)
                      (opened-Ported told waits h refl) (Refines-refl told.kernel) refl refl)))
          (λ e. ask_kernel-Follows port opts msg cap_id caller [] told h))

  start_entry_timeout-Follows :
      (x : Executor) → Follows x (start_entry_timeout opts.entry_timeout_ms x, [])
  unfolding start_entry_timeout
  start_entry_timeout-Follows x =
      Follows-if_state x (or_default 10000 opts.entry_timeout_ms == 0) _ _ (λ e. Follows-refl x)
        (λ e. Follows-set x _ refl refl refl refl (λ p. p) (Refines-refl x.kernel))

  after_self_test-Follows :
      (passed : Bool) (codes : Option (List String)) (x : Executor)
      → Follows x (after_self_test port opts passed codes x)
  unfolding after_self_test run call allowed_requests kernel_after
  after_self_test-Follows true codes x =
      let told : Executor = record x {
        self_test_passed = true;
        kernel = set_self_test_passed x.kernel true;
      } in
      Follows-append x told _ [] []
        (Follows-set x told refl refl refl refl (λ p. p) (self_test true ∷ [], refl, refl))
        (start_entry_timeout-Follows told)
  after_self_test-Follows false codes x = refuse_entry-Follows port opts _ x

  pub settle_self_test-Follows :
      (passed : Bool) (codes : Option (List String)) (x : Executor)
      → Follows x (settle_self_test port opts passed codes x)
  unfolding settle_self_test
  settle_self_test-Follows passed codes x =
      Follows-if x x.self_test_pending _ _
        (λ e.
          Follows-append x (record x { self_test_pending = false }) _ [] _
            (Follows-set x _ refl refl refl refl (λ p. p) (Refines-refl x.kernel))
            (after_self_test-Follows passed codes (record x { self_test_pending = false })))
        (λ e. Follows-refl x)

  resolve_self_test-Follows :
      (passed : Bool) (codes : Option (List String)) (x : Executor)
      → Follows x (resolve_self_test port opts passed codes x)
  unfolding resolve_self_test
  resolve_self_test-Follows passed codes x =
      Follows-if x x.self_test_resolve _ _
        (λ e.
          Follows-append x (record x { self_test_resolve = false }) _ [] _
            (Follows-set x _ refl refl refl refl (λ p. p) (Refines-refl x.kernel))
            (settle_self_test-Follows passed codes (record x { self_test_resolve = false })))
        (λ e. Follows-refl x)

  defer_entry_resolution-Follows :
      (r : SandboxResult) (x : Executor) → Follows x (defer_entry_resolution port opts r x)
  unfolding defer_entry_resolution
  defer_entry_resolution-Follows r x =
      Follows-if x x.untrusted_seen _ _ (λ e. refuse_entry-Follows port opts _ x)
        (λ e.
          Follows-elim x x.pending_entry _ _
            (λ e. Follows-set x _ refl refl refl refl (λ p. p) (Refines-refl x.kernel))
            (λ p e. Follows-refl x))

  -- A resolution after a change of fields that are not observed.
  pub resolve_pending-Follows : (x : Executor) → Follows x (resolve_pending port opts x)
  unfolding resolve_pending
  resolve_pending-Follows x =
      let taken : Executor = record x { pending_entry = none } in
      let quiet : Follows x (taken, []) =
        Follows-set x taken refl refl refl refl (λ p. p) (Refines-refl x.kernel) in
      Follows-elim x x.pending_entry _ _ (λ e. Follows-refl x)
        (λ r e.
          Follows-if x x.untrusted_seen _ _
            (λ e. Follows-append x taken _ [] _ quiet (refuse_entry-Follows port opts _ taken))
            (λ e. Follows-append x taken _ [] _ quiet (resolve_entry-Follows port opts r taken)))

  handle_result-Follows :
      (id : String) (outcome : Outcome) (x : Executor)
      → Follows x (handle_result port opts id outcome x)
  unfolding handle_result
  handle_result-Follows id (succeeded value) x =
      Follows-if x (str_eq id "entry") _ _ (λ e. defer_entry_resolution-Follows _ x)
        (λ e. Follows-refl x)
  handle_result-Follows id (failed codes) x =
      Follows-if x (str_eq id "entry") _ _ (λ e. defer_entry_resolution-Follows _ x)
        (λ e.
          Follows-if x (str_eq id "init") _ _ (λ e. resolve_entry-Follows port opts _ x)
            (λ e. Follows-refl x))

  handle_message-Follows :
      (msg : SandboxMessage) (body : MessageBody) (x : Executor)
      → x.host_port ≡ true
      → Follows x (handle_message port opts msg body x)
  unfolding handle_message
  handle_message-Follows msg (invoke cap_id caller) x h =
      handle_invoke_message-Follows msg cap_id caller x h
  handle_message-Follows msg (self_test_result passed codes) x h =
      resolve_self_test-Follows passed codes x
  handle_message-Follows msg (result outcome) x h =
      handle_result-Follows (or_default "" msg.req_id) outcome x
  handle_message-Follows msg other_body x h = Follows-refl x

  pub handle_port_message-Follows :
      (nonce : String) (msg : SandboxMessage) (x : Executor)
      → x.host_port ≡ true
      → Follows x (handle_port_message port opts nonce msg x)
  unfolding handle_port_message
  handle_port_message-Follows nonce msg x h =
      Follows-if x (is_bound_message opts nonce msg) _ _
        (λ e. handle_message-Follows msg msg.body x h)
        (λ e. refusal-Follows (or_default "unknown" msg.req_id) _ x)

  resume-Follows :
      (msg : SandboxMessage) (body : MessageBody) (answer : ConsentAnswer) (x : Executor)
      → x.host_port ≡ true
      → Follows x (resume port opts msg body answer x)
  unfolding resume
  resume-Follows msg (invoke cap_id caller) answer x h =
      after_consent-Follows port opts msg cap_id caller answer x h
  resume-Follows msg (self_test_result passed codes) answer x h = Follows-refl x
  resume-Follows msg (result outcome) answer x h = Follows-refl x
  resume-Follows msg other_body answer x h = Follows-refl x

  waits_opened :
      (id : String) (x : Executor) (found : SandboxMessage × List (String × SandboxMessage))
      → Ported x
      → take_waiting id x.waiting ≡ some found
      → x.host_port ≡ true
  unfolding take_waiting
  waits_opened id x found p e = elim (Bool-cases x.host_port) [
    | inl h ↦ h
    | inr h ↦ absurd (none_is_not_some (ap (take_waiting id) (sym (p h)) ∙ e))
  ]

  answer_consent-Follows :
      (id : String) (answer : ConsentAnswer) (x : Executor)
      → Ported x
      → Follows x (answer_consent port opts id answer x)
  unfolding answer_consent
  answer_consent-Follows id answer x p =
      Follows-elim x (take_waiting id x.waiting) _ _ (λ e. Follows-refl x)
        (λ found e.
          let h = waits_opened id x found p e in
          let freed : Executor = record x { waiting = found.1 } in
          Follows-append x freed _ [] _
            (Follows-set x freed refl refl refl refl (opened-Ported x freed h refl)
              (Refines-refl x.kernel))
            (resume-Follows found.0 found.0.body answer freed h))

  pub after_zone-Follows :
      (effects : List ZoneEffect) (x : Executor)
      → Ported x
      → Follows x (after_zone port opts effects x)
  unfolding after_zone
  after_zone-Follows [] x p = Follows-refl x
  after_zone-Follows (asked id ∷ effects) x p = after_zone-Follows effects x p
  after_zone-Follows (rejected id codes ∷ effects) x p = after_zone-Follows effects x p
  after_zone-Follows (settled id answer ∷ effects) x p =
      let f = answer_consent-Follows id answer x p in
      Follows-then x _ _ f (after_zone-Follows effects _ (f.ported p))
