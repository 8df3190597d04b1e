-- ===== src/Strict/Answer.antt =====
-- The answers of the strict executor to invocations: it grants what the kernel allows, and no more.
use weft_end.Prelude.{
  suc, ◌≡◌, refl, sym, ◌∙◌, ap, subst, String, true, Option, none, some, List, [], ◌∷◌, ◌++◌, arith,
  Bool-cases, inl, inr, length-append, map,
}
use weft_end.Reasons.{string}
use weft_end.Reasons.Join.{join_strings}
use weft_end.Kernel.Types.{CapKernel, CapInvokeMessage}
use weft_end.Kernel.Invoke.{handle_invoke}
use weft_end.Kernel.Trace.{Call, call, run, allowed_requests, self_test, consent}
use weft_end.Kernel.Trace
use weft_end.Kernel.Trace.Once.{Decision-cases}
use weft_end.Pulse.{PulseKind, PulseSubject, PulseCounts, cap_request, cap_allow, cap_deny}
use weft_end.SecretZone.{ConsentAnswer, granted, refused}
use weft_end.Strict.Types.{
  Outcome, succeeded, failed, SandboxResult, SandboxMessage, StrictOptions, StrictPort, Executor,
  Effect, posted,
}
use weft_end.Strict.State.{last_pulse, then_do, emit_pulse, block_subject, post_to_sandbox}
use weft_end.Strict.Messages.{
  kernel_message, requested_once, denied_once, report_decision, ask_kernel, after_consent,
  consent_reasons,
}
use weft_end.Strict.Effects.{
  grants, granted_by, pulses, pulse_of, numbers, ends, exits, kernel_after, CountsUp-append,
  grants-append, pulses-append, numbers-append, exits-append,
}
use weft_end.Strict.Follows.{Follows, Follows-then, Follows-append, Follows-set, Refines}
use weft_end.Strict.Emit.{emit-Follows}

-- An answer after a call of the kernel that it tells the decision of.
Follows-answer :
    (y : Executor) (k : CapKernel) (z : Executor) (es : List Effect) (p : SandboxResult)
    → Follows (record y { kernel = k }) (z, es)
    → grants es ≡ []
    → Refines y.kernel z.kernel (grants (posted p ∷ []))
    → Follows y (z, es ++ posted p ∷ [])
unfolding pulses pulse_of numbers exits last_pulse
Follows-answer y k z es p f no_grant refines = record {
  entry = f.entry;
  exit =
      omega
        (arith, f.exit, ap exits (pulses-append es (posted p ∷ [])), exits-append (pulses es) []);
  counts = λ key.
      rw (pulses-append es (posted p ∷ []), numbers-append key (pulses es) [])
        (CountsUp-append (suc (last_pulse y key)) _ (numbers key (pulses es)) [] refl (f.counts key)
          tt);
  counted = λ key.
      rw (pulses-append es (posted p ∷ []), numbers-append key (pulses es) [])
        (omega (arith, f.counted key, length-append (numbers key (pulses es)) []));
  port = f.port;
  ported = f.ported;
  refines = rw (grants-append es (posted p ∷ []), no_grant) refines;
}

module _ (port : StrictPort) (opts : StrictOptions) where
  emit_keeps :
      (kind : PulseKind) (subject : PulseSubject) (cap_id : Option String) (codes : List String)
      (counts : Option PulseCounts) (x : Executor)
      → let after = emit_pulse port opts kind subject cap_id codes counts x in
        (grants after.1 ≡ []) × (after.0.kernel ≡ x.kernel) × (after.0.host_port ≡ x.host_port)
  unfolding emit_pulse grants granted_by
  emit_keeps kind subject cap_id codes counts x = elim (Bool-cases opts.on_pulse) [
    | inl e ↦ rw e (refl, refl, refl)
    | inr e ↦ rw e (refl, refl, refl)
  ]

  -- A pulse and an answer after a call of the kernel.
  emit-answer :
      (kind : PulseKind) (cap_id : Option String) (codes : List String)
      (counts : Option PulseCounts) (y : Executor) (k : CapKernel) (p : SandboxResult)
      → ends kind ≡ 0
      → y.host_port ≡ true
      → Refines y.kernel k (grants (posted p ∷ []))
      → Follows y (
          then_do
            (emit_pulse port opts kind
              (block_subject opts)
              cap_id
              codes
              counts
              (record y { kernel = k }))
            (post_to_sandbox p))
  unfolding then_do post_to_sandbox
  emit-answer kind cap_id codes counts y k p no_end opened refines =
      let z : Executor = record y { kernel = k } in
      let e = emit_pulse port opts kind (block_subject opts) cap_id codes counts z in
      let (no_grant, same, port_same) =
        emit_keeps kind (block_subject opts) cap_id codes counts z in
      rw (port_same ∙ opened) (
        Follows-answer y k e.0 e.1 p
          (emit-Follows port opts kind (block_subject opts) cap_id codes counts z no_end) no_grant
          (subst (λ q. Refines y.kernel q (grants (posted p ∷ []))) (sym same) refines))

  invoke-Refines :
      (k : CapKernel) (msg : CapInvokeMessage) (outcome : Outcome)
      → allowed_requests (run k (Trace.invoke msg ∷ []))
        ≡ grants (posted (record { req_id = msg.req_id; outcome = outcome }) ∷ [])
      → Refines k
          (handle_invoke k msg).0
          (grants (posted (record { req_id = msg.req_id; outcome = outcome }) ∷ []))
  unfolding kernel_after call
  invoke-Refines k msg outcome e = (Trace.invoke msg ∷ [], refl, e)

  report_decision-Follows :
      (msg : SandboxMessage) (cap_id caller : String) (reasons : List String) (y : Executor)
      → y.host_port ≡ true
      → let answer = handle_invoke y.kernel (kernel_message msg cap_id caller) in
        Follows y
          (report_decision port opts msg cap_id reasons answer.1 (record y { kernel = answer.0 }))
  unfolding report_decision kernel_message run call allowed_requests grants granted_by ends
  report_decision-Follows msg cap_id caller reasons y opened =
      let m = kernel_message msg cap_id caller in
      elim (Decision-cases (handle_invoke y.kernel m).1) [
        | inl e ↦ rw e (
            emit-answer cap_allow (some cap_id) [] none y (handle_invoke y.kernel m).0 _ refl opened
              (invoke-Refines y.kernel m (succeeded "null") (rw e refl)))
        | inr (codes, e) ↦
            let joined = join_strings (map string codes) (map string reasons) in
            rw e (
              emit-answer cap_deny (some cap_id) joined (some denied_once) y
                (handle_invoke y.kernel m).0
                (record { req_id = m.req_id; outcome = failed (some joined) }) refl opened
                (invoke-Refines y.kernel m (failed (some joined)) (rw e refl)))
      ]

  pub ask_kernel-Follows :
      (msg : SandboxMessage) (cap_id caller : String) (reasons : List String) (x : Executor)
      → x.host_port ≡ true
      → Follows x (ask_kernel port opts msg cap_id caller reasons x)
  unfolding ask_kernel ends
  ask_kernel-Follows msg cap_id caller reasons x opened =
      let f =
        emit-Follows port opts cap_request (block_subject opts) (some cap_id) []
          (some requested_once) x refl in
      Follows-then x _ _ f (report_decision-Follows msg cap_id caller reasons _ (f.port opened))

  -- A call of the kernel before the rest.
  pub told-Follows :
      (x : Executor) (c : Call) (rest : Executor × List Effect)
      → allowed_requests (run x.kernel (c ∷ [])) ≡ []
      → Follows (record x { kernel = (call x.kernel c).0 }) rest
      → Follows x rest
  unfolding kernel_after
  told-Follows x c rest e f =
      Follows-append x (record x { kernel = (call x.kernel c).0 }) rest.0 [] rest.1
        (Follows-set x _ refl refl refl refl (λ p. p) (c ∷ [], refl, e)) f

  pub after_consent-Follows :
      (msg : SandboxMessage) (cap_id caller : String) (answer : ConsentAnswer) (x : Executor)
      → x.host_port ≡ true
      → Follows x (after_consent port opts msg cap_id caller answer x)
  unfolding after_consent run call allowed_requests
  after_consent-Follows msg cap_id caller answer x opened =
      told-Follows x (consent (elim answer [ granted claim ↦ claim | refused codes ↦ none ])) _ refl
        (ask_kernel-Follows msg cap_id caller (consent_reasons answer) _ opened)
