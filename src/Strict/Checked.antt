-- ===== src/Strict/Checked.antt =====
-- What a value of the entry of the strict executor tells, and that an untrusted message wins against it.
use weft_end.Prelude.{
  ◌≡◌, refl, ◌∙◌, inl, inr, String, true, false, Option, none, some, List, [], ◌∷◌, arith,
  Bool-cases, none_is_not_some,
}
use weft_end.SecretZone.{zone_step, SecretZoneHost}
use weft_end.Store.{ArtifactStore}
use weft_end.Strict.Types.{
  succeeded, failed, SandboxResult, StrictOptions, StrictPort, Executor, StrictEvent, run_call,
  terminate_call, observed_stamp_call, release_status_call, worker_message, worker_error,
  worker_exit, port_message, deferred_timer, self_test_timer, entry_timer, zone_event,
}
use weft_end.Strict.State.{
  then_do, emit_pulse, emit_exit_pulse, settle_entry, resolve_entry, refuse_entry, new_executor,
  post_to_sandbox,
}
use weft_end.Strict.Messages.{is_bound_message, handle_port_message, handle_untrusted_channel}
use weft_end.Strict.Step.{recall_stamp, handle_zone_event, step, steps, terminate}
use weft_end.Strict.Follows.{Ported}
use weft_end.Strict.Once.{steps-Follows, step-Follows}
use weft_end.Strict.Safe.{
  IsCleared, IsSafe, IsSafe-if, IsSafe-elim, IsSafe-elim_state, IsSafe-refuse,
}
use weft_end.Strict.Ready.{run_entry-IsSafe, get_release_status-IsSafe}
use weft_end.Strict.Value.{
  settle_self_test-IsSafe, resolve_pending-IsSafe, handle_message-IsSafe, after_zone-IsSafe,
}

module _ (port : StrictPort) (opts : StrictOptions) (nonce : String) where
  step-IsSafe :
      (e : StrictEvent) (x : Executor)
      → IsSafe port opts nonce x
      → IsSafe port opts nonce (step port opts nonce e x).0
  unfolding step terminate recall_stamp handle_port_message post_to_sandbox handle_zone_event
      then_do handle_untrusted_channel
  step-IsSafe run_call x s = run_entry-IsSafe port opts nonce x s
  step-IsSafe terminate_call x s = s
  step-IsSafe observed_stamp_call x s =
      IsSafe-elim_state port opts nonce x.runtime_observed_stamp _ _ (λ e. s) (λ o e. s)
  step-IsSafe release_status_call x s = get_release_status-IsSafe port opts nonce x s
  step-IsSafe worker_message x s =
      IsSafe-refuse port opts nonce _ (record x { untrusted_seen = true; pending_entry = none })
        (s.0, (λ r e. absurd (none_is_not_some e)), s.2, s.3, s.4)
  step-IsSafe worker_error x s = IsSafe-refuse port opts nonce _ x s
  step-IsSafe (worker_exit false) x s = s
  step-IsSafe (worker_exit true) x s = IsSafe-refuse port opts nonce _ x s
  step-IsSafe (port_message msg) x s =
      IsSafe-if port opts nonce x.host_port _ _
        (λ h.
          IsSafe-if port opts nonce (is_bound_message opts nonce msg) _ _
            (λ e. handle_message-IsSafe port opts nonce msg msg.body x s h) (λ e. s))
        (λ h. s)
  step-IsSafe deferred_timer x s = resolve_pending-IsSafe port opts nonce x s
  step-IsSafe self_test_timer x s = settle_self_test-IsSafe port opts nonce false _ x s
  step-IsSafe entry_timer x s =
      IsSafe-if port opts nonce x.entry_timeout_set _ _
        (λ h. IsSafe-refuse port opts nonce _ (record x { entry_timeout_set = false }) s) (λ h. s)
  step-IsSafe (zone_event e) x s =
      IsSafe-elim port opts nonce x.secret_zone _ _ (λ h. s)
        (λ zone h.
          after_zone-IsSafe port opts nonce (zone_step zone e).1
            (record x { secret_zone = some (zone_step zone e).0 }) s)

  pub steps-IsSafe :
      (es : List StrictEvent) (x : Executor)
      → IsSafe port opts nonce x
      → IsSafe port opts nonce (steps port opts nonce es x).0
  unfolding steps then_do
  steps-IsSafe [] x s = s
  steps-IsSafe (e ∷ es) x s = steps-IsSafe es _ (step-IsSafe e x s)

  -- Whatever happens to a new executor, where its entry was resolved with a value its nonce is valid,
  -- its path summary and the build attestation that the policy asks for have no reason against them,
  -- and its release is verified for the plan, the blocks and that path digest.
  pub entry_value-IsCleared :
      (store : Option ArtifactStore) (secret_zone : Option SecretZoneHost) (es : List StrictEvent)
      (r : SandboxResult) (value : String)
      → (steps port opts nonce es (new_executor port opts nonce store secret_zone)).0.entry ≡ some r
      → r.outcome ≡ succeeded value
      → IsCleared port opts nonce
  unfolding new_executor
  entry_value-IsCleared store secret_zone es r value e f =
      let fresh : IsSafe port opts nonce (new_executor port opts nonce store secret_zone) = (
        (λ h. absurd (ground (arith, h))),
        (λ r h. absurd (none_is_not_some h)),
        (λ r h. absurd (none_is_not_some h)),
        (λ h. absurd (ground (arith, h))),
        (λ h. absurd (ground (arith, h))),
      ) in
      let s = steps-IsSafe es (new_executor port opts nonce store secret_zone) fresh in
      elim (s.2 r e) [ inl (codes, g) ↦ absurd (cc) | inr h ↦ s.0 h ]

module _ (port : StrictPort) (opts : StrictOptions) where
  entry-exit :
      (r : SandboxResult) (x : Executor) → (emit_exit_pulse port opts r x).0.entry ≡ x.entry
  unfolding emit_exit_pulse emit_pulse
  entry-exit r x = ground (arith, Bool-cases x.exit_pulse_emitted, Bool-cases opts.on_pulse)

  entry-settle :
      (r : SandboxResult) (x : Executor) → x.entry ≡ none → (settle_entry r x).entry ≡ some r
  unfolding settle_entry
  entry-settle r x e = rw e refl

  entry-resolve :
      (r : SandboxResult) (x : Executor)
      → x.entry ≡ none
      → (resolve_entry port opts r x).0.entry ≡ some r
  unfolding resolve_entry then_do
  entry-resolve r x e =
      let y : Executor = record x { entry_timeout_set = false } in
      entry-settle r (emit_exit_pulse port opts r y).0 (entry-exit r y ∙ e)

  -- In an executor that lets no invocation wait without a channel and whose entry is not resolved, a
  -- message outside the channel resolves the entry with UNTRUSTED_CHANNEL, whatever was sent over the
  -- channel before and whatever happens after it.
  pub untrusted_message_wins :
      (nonce : String) (es : List StrictEvent) (x : Executor)
      → Ported x
      → x.entry ≡ none
      → (steps port opts nonce (worker_message ∷ es) x).0.entry
        ≡ some (record { req_id = "entry"; outcome = failed (some ("UNTRUSTED_CHANNEL" ∷ [])) })
  unfolding steps then_do step handle_untrusted_channel refuse_entry
  untrusted_message_wins nonce es x p e =
      let f = step-Follows port opts nonce worker_message x p in
      (steps-Follows port opts nonce es (step port opts nonce worker_message x).0
          (f.ported p)).entry
        _ (entry-resolve _ (record x { untrusted_seen = true; pending_entry = none }) e)
