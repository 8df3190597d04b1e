-- ===== src/Strict/Once.antt =====
-- Runs of the strict executor: it refines the capability kernel, it resolves its entry once, and its
-- pulses are numbered.
use weft_end.Prelude.{
  suc, ◌+◌, ◌≤◌, ◌≡◌, refl, ap, subst, String, Bool, true, false, Option, some, List, [], ◌∷◌, map,
  arith, All, length,
}
use weft_end.Text.{includes}
use weft_end.Text.Sets.{Distinct}
use weft_end.Kernel.Trace.{Call, call, run, allowed_requests, observe}
use weft_end.Kernel.Trace.Once.{allowed_once}
use weft_end.SecretZone.{ZoneEffect, ZoneEvent, zone_step, SecretZoneHost}
use weft_end.Store.{ArtifactStore}
use weft_end.Strict.Types.{
  SandboxResult, StrictOptions, StrictPort, Executor, zone_effect, StrictEvent, run_call,
  terminate_call, observed_stamp_call, release_status_call, worker_message, worker_error,
  worker_exit, port_message, deferred_timer, self_test_timer, entry_timer, zone_event,
}
use weft_end.Strict.State.{new_executor, last_pulse, refuse_entry}
use weft_end.Strict.Messages.{handle_untrusted_channel}
use weft_end.Strict.Step.{recall_stamp, handle_zone_event, step, steps, terminate}
use weft_end.Strict.Effects.{
  grants, granted_by, pulses, pulse_of, numbers, exits, kernel_after, CountsUp,
}
use weft_end.Strict.Follows.{
  Follows, Follows-then, Follows-append, Follows-quiet, Follows-set, Follows-refl, Follows-if,
  Follows-elim, Follows-elim_state, Ported, Refines-refl, told,
}
use weft_end.Strict.Emit.{refuse_entry-Follows}
use weft_end.Strict.Refine.{run_entry-Follows, get_release_status-Follows}
use weft_end.Strict.Handle.{
  handle_port_message-Follows, after_zone-Follows, resolve_pending-Follows,
  settle_self_test-Follows,
}

pulses_of_zone : (es : List ZoneEffect) → pulses (map zone_effect es) ≡ []
unfolding pulses pulse_of
pulses_of_zone [] = refl
pulses_of_zone (e ∷ es) = pulses_of_zone es

grants_of_zone : (es : List ZoneEffect) → grants (map zone_effect es) ≡ []
unfolding grants granted_by
grants_of_zone [] = refl
grants_of_zone (e ∷ es) = grants_of_zone es

told-le : (b : Bool) → told b ≤ 1
told-le true = omega arith
told-le false = omega arith

recall_stamp-Follows : (x : Executor) → Follows x (recall_stamp x, [])
unfolding recall_stamp run call allowed_requests kernel_after
recall_stamp-Follows x =
    Follows-elim_state x x.runtime_observed_stamp _ _
      (λ e. Follows-set x _ refl refl refl refl (λ p. p) (observe ∷ [], refl, refl))
      (λ o e. Follows-refl x)

module _ (port : StrictPort) (opts : StrictOptions) where
  handle_zone_event-Follows :
      (e : ZoneEvent) (x : Executor) → Ported x → Follows x (handle_zone_event port opts e x)
  unfolding handle_zone_event
  handle_zone_event-Follows e x p =
      Follows-elim x x.secret_zone _ _ (λ h. Follows-refl x)
        (λ zone h.
          let after = zone_step zone e in
          let y : Executor = record x { secret_zone = some after.0 } in
          Follows-then x (y, map zone_effect after.1) _
            (Follows-quiet x y _ refl (omega arith) refl (λ q. q) (λ q. q) (Refines-refl x.kernel)
              (pulses_of_zone after.1) (grants_of_zone after.1))
            (after_zone-Follows port opts after.1 y p))

  -- A resolution after a change of fields that are not observed.
  refuse_after :
      (codes : List String) (x y : Executor)
      → Follows x (y, [])
      → Follows x (refuse_entry port opts codes y)
  refuse_after codes x y f = Follows-append x y _ [] _ f (refuse_entry-Follows port opts codes y)

  pub step-Follows :
      (nonce : String) (e : StrictEvent) (x : Executor)
      → Ported x
      → Follows x (step port opts nonce e x)
  unfolding step terminate handle_untrusted_channel
  step-Follows nonce run_call x p = run_entry-Follows port opts nonce x
  step-Follows nonce terminate_call x p =
      Follows-set x _ refl refl refl refl (λ q. q) (Refines-refl x.kernel)
  step-Follows nonce observed_stamp_call x p = recall_stamp-Follows x
  step-Follows nonce release_status_call x p = get_release_status-Follows port opts x
  step-Follows nonce worker_message x p =
      refuse_after _ x _ (Follows-set x _ refl refl refl refl (λ q. q) (Refines-refl x.kernel))
  step-Follows nonce worker_error x p = refuse_entry-Follows port opts _ x
  step-Follows nonce (worker_exit false) x p = Follows-refl x
  step-Follows nonce (worker_exit true) x p = refuse_entry-Follows port opts _ x
  step-Follows nonce (port_message msg) x p =
      Follows-if x x.host_port _ _ (λ h. handle_port_message-Follows port opts nonce msg x h)
        (λ h. Follows-refl x)
  step-Follows nonce deferred_timer x p = resolve_pending-Follows port opts x
  step-Follows nonce self_test_timer x p = settle_self_test-Follows port opts false _ x
  step-Follows nonce entry_timer x p =
      Follows-if x x.entry_timeout_set _ _
        (λ h.
          refuse_after _ x _ (Follows-set x _ refl refl refl refl (λ q. q) (Refines-refl x.kernel)))
        (λ h. Follows-refl x)
  step-Follows nonce (zone_event e) x p = handle_zone_event-Follows e x p

  pub steps-Follows :
      (nonce : String) (es : List StrictEvent) (x : Executor)
      → Ported x
      → Follows x (steps port opts nonce es x)
  unfolding steps
  steps-Follows nonce [] x p = Follows-refl x
  steps-Follows nonce (e ∷ es) x p =
      let f = step-Follows nonce e x p in
      Follows-then x _ _ f (steps-Follows nonce es _ (f.ported p))

  -- The strict executor implements the capability kernel: whatever happens to an executor that lets no
  -- invocation wait without a channel, its kernel only changes by calls of the kernel's methods, and
  -- the requests that it answers with a value are exactly those that the kernel allows in them.
  pub steps_refine :
      (nonce : String) (es : List StrictEvent) (x : Executor)
      → Ported x
      → let after = steps port opts nonce es x in
        (calls : List Call) × (kernel_after x.kernel calls ≡ after.0.kernel)
        × (allowed_requests (run x.kernel calls) ≡ grants after.1)
  steps_refine nonce es x p = (steps-Follows nonce es x p).refines

  -- Whatever happens to an executor that lets no invocation wait without a channel, no request
  -- identifier is answered with a value twice, and none that its kernel had seen before.
  pub granted_once :
      (nonce : String) (es : List StrictEvent) (x : Executor)
      → Ported x
      → let granted = grants (steps port opts nonce es x).1 in
        Distinct granted × All (λ a. includes x.kernel.seen_req_ids a ≡ false) granted
  granted_once nonce es x p =
      let (calls, same, allowed) = steps_refine nonce es x p in
      subst (λ ids. Distinct ids × All (λ a. includes x.kernel.seen_req_ids a ≡ false) ids) allowed
        (allowed_once x.kernel calls)

  -- Whatever happens to an executor that lets no invocation wait without a channel, the result with
  -- which the promise of its entry was resolved stays, at most one pulse tells of an end, and none
  -- once one has been told.
  pub entry_resolved_once :
      (nonce : String) (es : List StrictEvent) (x : Executor)
      → Ported x
      → let after = steps port opts nonce es x in
        ((r : SandboxResult) → x.entry ≡ some r → after.0.entry ≡ some r)
        × (exits (pulses after.1) ≤ 1)
        × (x.exit_pulse_emitted ≡ true → exits (pulses after.1) ≡ 0)
  entry_resolved_once nonce es x p =
      let f = steps-Follows nonce es x p in
      let bound = told-le (steps port opts nonce es x).0.exit_pulse_emitted in
      (f.entry, omega (arith, f.exit, bound), λ h. omega (arith, f.exit, bound, ap told h))

  -- Whatever happens to an executor that lets no invocation wait without a channel, the pulses of each
  -- subject are numbered one after the other from its last number, and the last number is kept.
  pub pulses_numbered :
      (nonce : String) (es : List StrictEvent) (x : Executor) (key : String)
      → Ported x
      → let after = steps port opts nonce es x in
        let found = numbers key (pulses after.1) in
        CountsUp (suc (last_pulse x key)) found
        × (last_pulse after.0 key ≡ last_pulse x key + length found)
  pulses_numbered nonce es x key p =
      let f = steps-Follows nonce es x p in (f.counts key, f.counted key)

-- A new executor lets no invocation wait.
pub new_executor-Ported :
    (port : StrictPort) (opts : StrictOptions) (nonce : String) (store : Option ArtifactStore)
    (secret_zone : Option SecretZoneHost)
    → Ported (new_executor port opts nonce store secret_zone)
unfolding new_executor
new_executor-Ported port opts nonce store secret_zone h = refl
