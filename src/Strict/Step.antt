-- ===== src/Strict/Step.antt =====
-- src/runtime/strict/strict_executor.ts: what one event does to an executor, and runs. A timer that is
-- not set does not fire, and without a channel no message comes.
use weft_end.Prelude.{String, true, false, none, some, List, [], ◌∷◌, map, if◌then◌else◌}
use weft_end.Kernel.Invoke.{get_runtime_observed_stamp, observe_stamp}
use weft_end.SecretZone.{ConsentAnswer, ZoneEffect, asked, rejected, settled, zone_step, ZoneEvent}
use weft_end.Strict.Types.{
  MessageBody, invoke, SandboxMessage, StrictOptions, StrictPort, Executor, Effect, zone_effect,
  StrictEvent, run_call, terminate_call, observed_stamp_call, release_status_call, worker_message,
  worker_error, worker_exit, port_message, deferred_timer, self_test_timer, entry_timer, zone_event,
}
use weft_end.Strict.State.{then_do, refuse_entry}
use weft_end.Strict.Preflight.{run_entry, get_release_status}
use weft_end.Strict.Messages.{
  take_waiting, after_consent, settle_self_test, resolve_pending, handle_port_message,
  handle_untrusted_channel,
}

-- `terminate`, once the worker has ended.
unfoldable pub terminate : Executor → Executor
terminate x = record x { entry_timeout_set = false; worker = false }

-- `getRuntimeObservedStamp`.
unfoldable pub recall_stamp : Executor → Executor
recall_stamp x = elim x.runtime_observed_stamp [
  | some o ↦ x
  | none ↦ record x {
    kernel = observe_stamp x.kernel;
    runtime_observed_stamp = some (get_runtime_observed_stamp x.kernel);
  }
]

module _ (port : StrictPort) (opts : StrictOptions) where
  -- What waits goes on: only an invocation ever waits.
  unfoldable pub resume :
      SandboxMessage → MessageBody → ConsentAnswer → Executor → Executor × List Effect
  resume msg (invoke cap_id caller) answer x = after_consent port opts msg cap_id caller answer x
  resume msg _ answer x = (x, [])

  -- The invocation that waits for a consent goes on with its answer.
  unfoldable pub answer_consent : String → ConsentAnswer → Executor → Executor × List Effect
  answer_consent id answer x = elim (take_waiting id x.waiting) [
    | none ↦ (x, [])
    | some (msg, rest) ↦ resume msg msg.body answer (record x { waiting = rest })
  ]

  -- What the secret zone's host did: each consent that it answered goes on.
  unfoldable pub after_zone : List ZoneEffect → Executor → Executor × List Effect
  after_zone [] x = (x, [])
  after_zone (settled id answer ∷ effects) x =
      then_do (answer_consent id answer x) (after_zone effects)
  after_zone (asked id ∷ effects) x = after_zone effects x
  after_zone (rejected id codes ∷ effects) x = after_zone effects x

  unfoldable pub handle_zone_event : ZoneEvent → Executor → Executor × List Effect
  handle_zone_event e x = elim x.secret_zone [
    | none ↦ (x, [])
    | some zone ↦
        then_do
          (
            record x { secret_zone = some (zone_step zone e).0 },
            map zone_effect (zone_step zone e).1,
          )
          (after_zone (zone_step zone e).1)
  ]

  unfoldable pub step : String → StrictEvent → Executor → Executor × List Effect
  step nonce run_call x = run_entry port opts nonce x
  step nonce terminate_call x = (terminate x, [])
  step nonce observed_stamp_call x = (recall_stamp x, [])
  step nonce release_status_call x = (get_release_status port opts x, [])
  step nonce worker_message x = handle_untrusted_channel port opts x
  step nonce worker_error x = refuse_entry port opts ("SANDBOX_WORKER_ERROR" ∷ []) x
  step nonce (worker_exit false) x = (x, [])
  step nonce (worker_exit true) x = refuse_entry port opts ("SANDBOX_EXITED" ∷ []) x
  step nonce (port_message msg) x =
      if x.host_port then handle_port_message port opts nonce msg x else (x, [])
  step nonce deferred_timer x = resolve_pending port opts x
  step nonce self_test_timer x = settle_self_test port opts false (some ("SELFTEST_TIMEOUT" ∷ [])) x
  step nonce entry_timer x =
      if x.entry_timeout_set
      then refuse_entry port opts ("SANDBOX_ENTRY_TIMEOUT" ∷ [])
          (record x { entry_timeout_set = false })
      else (x, [])
  step nonce (zone_event e) x = handle_zone_event e x

  -- The state after a run, and its effects in order.
  unfoldable pub steps : String → List StrictEvent → Executor → Executor × List Effect
  steps nonce [] x = (x, [])
  steps nonce (e ∷ es) x = then_do (step nonce e x) (steps nonce es)
