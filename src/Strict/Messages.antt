-- ===== src/Strict/Messages.antt =====
-- src/runtime/strict/strict_executor.ts: the handlers of the worker, of the ports and of the timers.
-- Between an await and what follows it no other callback runs, unless a promise waits: a consent of the
-- secret zone, or the self test.
use weft_end.Prelude.{
  ℕ, String, Bool, true, false, ◌&&◌, Option, none, some, List, [], ◌∷◌, map, str_eq, ◌==◌,
  if◌then◌else◌,
}
use weft_end.Reasons.{string, or_default}
use weft_end.Reasons.Join.{join_strings}
use weft_end.Boundary.{safe_equal}
use weft_end.Kernel.Types.{CapInvokeMessage, CapDecision, allowed, denied}
use weft_end.Kernel.Invoke.{set_self_test_passed, set_consent_claim, handle_invoke}
use weft_end.Pulse.{PulseCounts, cap_request, cap_allow, cap_deny}
use weft_end.SecretZone.{ConsentAnswer, granted, refused, request_consent, asked}
use weft_end.Strict.Types.{
  Outcome, succeeded, failed, SandboxResult, MessageBody, invoke, self_test_result, result,
  other_body, SandboxMessage, StrictOptions, StrictPort, Executor, Effect, zone_effect,
}
use weft_end.Strict.State.{
  then_do, emit_pulse, block_subject, resolve_entry, refuse_entry, post_to_sandbox,
}
use weft_end.Strict.Preflight.{normal_codes}

-- The invocation that waits for a consent, taken off the list.
unfoldable pub take_waiting :
    String
    → List (String × SandboxMessage)
    → Option (SandboxMessage × List (String × SandboxMessage))
take_waiting id [] = none
take_waiting id ((key, msg) ∷ rest) =
    let later = take_waiting id rest in
    if str_eq key id
    then some (msg, rest)
    else elim later [ none ↦ none | some (m, others) ↦ some (m, (key, msg) ∷ others) ]

-- The reasons of an answer without a claim.
unfoldable pub consent_reasons : ConsentAnswer → List String
consent_reasons (granted claim) = []
consent_reasons (refused codes) = codes

-- The message that the kernel is given.
unfoldable pub kernel_message : SandboxMessage → String → String → CapInvokeMessage
kernel_message msg cap_id caller = record {
  req_id = or_default "" msg.req_id;
  cap_id = cap_id;
  execution_mode = msg.execution_mode;
  plan_digest = msg.plan_digest;
  session_nonce = msg.session_nonce;
  caller_block_hash = caller;
}

abbrev pub requested_once : PulseCounts
requested_once = record { caps_requested = some 1; caps_denied = none; tartarus_new = none }

abbrev pub denied_once : PulseCounts
denied_once = record { caps_requested = none; caps_denied = some 1; tartarus_new = none }

-- `startEntryTimeout`: 10 seconds by default, and none at 0.
unfoldable pub start_entry_timeout : Option ℕ → Executor → Executor
start_entry_timeout timeout x =
    if or_default 10000 timeout == 0 then x else record x { entry_timeout_set = true }

-- `isBoundMessage`.
unfoldable pub is_bound_message : StrictOptions → String → SandboxMessage → Bool
is_bound_message opts nonce msg =
    str_eq msg.execution_mode "strict"
    && safe_equal msg.plan_digest opts.plan_digest
    && safe_equal msg.session_nonce nonce

module _ (port : StrictPort) (opts : StrictOptions) where
  -- The pulse and the message for a decision of the kernel.
  unfoldable pub report_decision :
      SandboxMessage → String → List String → CapDecision → Executor → Executor × List Effect
  report_decision msg cap_id reasons allowed x =
      then_do (emit_pulse port opts cap_allow (block_subject opts) (some cap_id) [] none x)
        (post_to_sandbox (record { req_id = or_default "" msg.req_id; outcome = succeeded "null" }))
  report_decision msg cap_id reasons (denied codes) x =
      let joined = join_strings (map string codes) (map string reasons) in
      then_do
        (emit_pulse port opts cap_deny (block_subject opts) (some cap_id) joined (some denied_once)
          x)
        (post_to_sandbox
          (record { req_id = or_default "" msg.req_id; outcome = failed (some joined) }))

  -- `handleInvoke` from the pulse of the request on.
  unfoldable pub ask_kernel :
      SandboxMessage → String → String → List String → Executor → Executor × List Effect
  ask_kernel msg cap_id caller reasons x =
      then_do
        (emit_pulse port opts cap_request (block_subject opts) (some cap_id) []
          (some requested_once) x)
        (λ y.
          let answer = handle_invoke y.kernel (kernel_message msg cap_id caller) in
          report_decision msg cap_id reasons answer.1 (record y { kernel = answer.0 }))

  -- `handleInvoke` after the answer of the secret zone.
  unfoldable pub after_consent :
      SandboxMessage → String → String → ConsentAnswer → Executor → Executor × List Effect
  after_consent msg cap_id caller answer x =
      ask_kernel msg cap_id caller (consent_reasons answer) (record x {
        kernel =
            set_consent_claim x.kernel
              (elim answer [ granted claim ↦ claim | refused codes ↦ none ]);
      })

  -- `handleInvoke`: `id.sign` asks the secret zone for a consent first, where there is one.
  unfoldable pub handle_invoke_message :
      SandboxMessage → String → String → Executor → Executor × List Effect
  handle_invoke_message msg cap_id caller x =
      let told = record x { kernel = set_self_test_passed x.kernel x.self_test_passed } in
      if str_eq cap_id "id.sign"
      then elim x.secret_zone [
        | none ↦ ask_kernel msg cap_id caller [] told
        | some zone ↦ elim (request_consent zone).1 [
          | none ↦ after_consent msg cap_id caller (refused ("SECRET_ZONE_UNAVAILABLE" ∷ [])) told
          | some id ↦ (
            record told {
              secret_zone = some (request_consent zone).0;
              waiting = (id, msg) ∷ x.waiting;
            },
            zone_effect (asked id) ∷ [],
          )
        ]
      ]
      else ask_kernel msg cap_id caller [] told

  -- `run` after the self test.
  unfoldable pub after_self_test : Bool → Option (List String) → Executor → Executor × List Effect
  after_self_test true codes x = (
    start_entry_timeout opts.entry_timeout_ms
        (record x { self_test_passed = true; kernel = set_self_test_passed x.kernel true }),
    [],
  )
  after_self_test false codes x =
      refuse_entry port opts (normal_codes (or_default ("SELFTEST_FAILED" ∷ []) codes)) x

  -- The promise of the self test takes its first answer.
  unfoldable pub settle_self_test : Bool → Option (List String) → Executor → Executor × List Effect
  settle_self_test passed codes x =
      if x.self_test_pending
      then after_self_test passed codes (record x { self_test_pending = false })
      else (x, [])

  -- `resolveSelfTest`.
  unfoldable pub resolve_self_test : Bool → Option (List String) → Executor → Executor × List Effect
  resolve_self_test passed codes x =
      if x.self_test_resolve
      then settle_self_test passed codes (record x { self_test_resolve = false })
      else (x, [])

  -- `deferEntryResolution`, up to its timer.
  unfoldable pub defer_entry_resolution : SandboxResult → Executor → Executor × List Effect
  defer_entry_resolution r x =
      if x.untrusted_seen
      then refuse_entry port opts ("UNTRUSTED_CHANNEL" ∷ []) x
      else elim x.pending_entry [
        | none ↦ (record x { pending_entry = some r }, [])
        | some p ↦ (x, [])
      ]

  -- The timer of `deferEntryResolution`.
  unfoldable pub resolve_pending : Executor → Executor × List Effect
  resolve_pending x = elim x.pending_entry [
    | none ↦ (x, [])
    | some r ↦
        if x.untrusted_seen
        then refuse_entry port opts ("UNTRUSTED_CHANNEL" ∷ []) (record x { pending_entry = none })
        else resolve_entry port opts r (record x { pending_entry = none })
  ]

  -- The results that the sandbox sends: that of the entry, and a failure of its start.
  unfoldable pub handle_result : String → Outcome → Executor → Executor × List Effect
  handle_result id (succeeded value) x =
      if str_eq id "entry"
      then defer_entry_resolution (record { req_id = id; outcome = succeeded value }) x
      else (x, [])
  handle_result id (failed codes) x =
      if str_eq id "entry"
      then defer_entry_resolution (record { req_id = id; outcome = failed codes }) x
      else if str_eq id "init"
      then resolve_entry port opts (record { req_id = id; outcome = failed codes }) x
      else (x, [])

  -- `handleMessage`.
  unfoldable pub handle_message : SandboxMessage → MessageBody → Executor → Executor × List Effect
  handle_message msg (invoke cap_id caller) x = handle_invoke_message msg cap_id caller x
  handle_message msg (self_test_result passed codes) x = resolve_self_test passed codes x
  handle_message msg (result outcome) x = handle_result (or_default "" msg.req_id) outcome x
  handle_message msg other_body x = (x, [])

  -- `handlePortMessage`.
  unfoldable pub handle_port_message : String → SandboxMessage → Executor → Executor × List Effect
  handle_port_message nonce msg x =
      if is_bound_message opts nonce msg
      then handle_message msg msg.body x
      else post_to_sandbox
          (record {
            req_id = or_default "unknown" msg.req_id;
            outcome = failed (
                some (normal_codes ("NONCE_MISMATCH" ∷ "CONTEXT_MISMATCH" ∷ "MODE_MISMATCH" ∷ [])));
          })
          x

  -- `handleUntrustedChannel`.
  unfoldable pub handle_untrusted_channel : Executor → Executor × List Effect
  handle_untrusted_channel x =
      refuse_entry port opts ("UNTRUSTED_CHANNEL" ∷ [])
        (record x { untrusted_seen = true; pending_entry = none })
