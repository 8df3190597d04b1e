-- ===== src/Kernel/Invoke/Checks.antt =====
-- src/runtime/kernel/cap_kernel.ts: the tests of `handleInvoke`, each with the reasons it gives.
use weft_end.Prelude.{
  ℕ, String, Bool, true, false, not, ◌&&◌, ◌||◌, Option, none, some, List, [], ◌∷◌, ◌++◌, str_eq,
  ltb, leb, if◌then◌else◌,
}
use weft_end.Text.{is_non_empty, includes}
use weft_end.Reasons.{checkpoint_eq_or_reason, push_if, is_empty, is_none, or_default}
use weft_end.Kernel.Types.{
  Tier, tier_rank, GateReceipt, GateReceiptBody, ConsentClaim, ReleaseStatus, ok, CapInvokeMessage,
  CapKernelOptions, CapKernel,
}
use weft_end.Kernel.Receipt.{gate_receipt_issues}

-- `defaultKnownCaps`.
abbrev pub default_known_caps : List String
default_known_caps =
    "net.fetch" ∷ "storage.read" ∷ "storage.write" ∷ "ui.secret.read" ∷ "ui.secret.emit"
    ∷ "storage.secret.write" ∷ "net.secret.send" ∷ "clipboard.read" ∷ "clipboard.write" ∷ "diag.raw"
    ∷ "id.sign" ∷ "auth.password.submit" ∷ "payment.tokenize" ∷ "storage.writeSecret"
    ∷ "ui.input.capture" ∷ []

-- `defaultDisabledCaps`.
abbrev pub default_disabled_caps : List String
default_disabled_caps =
    "net.fetch" ∷ "storage.read" ∷ "storage.write" ∷ "ui.secret.read" ∷ "ui.secret.emit"
    ∷ "storage.secret.write" ∷ "net.secret.send" ∷ "clipboard.read" ∷ "clipboard.write" ∷ "diag.raw"
    ∷ "id.sign" ∷ "auth.password.submit" ∷ "payment.tokenize" ∷ "storage.writeSecret"
    ∷ "ui.input.capture" ∷ []

-- `secretRequiredCaps`.
abbrev pub secret_required_caps : List String
secret_required_caps =
    "id.sign" ∷ "auth.password.submit" ∷ "payment.tokenize" ∷ "storage.writeSecret"
    ∷ "ui.input.capture" ∷ "ui.secret.read" ∷ "ui.secret.emit" ∷ "storage.secret.write"
    ∷ "net.secret.send" ∷ "clipboard.read" ∷ "clipboard.write" ∷ "diag.raw" ∷ []

-- The comparisons of the message with the session, and the self test.
unfoldable pub session_reasons : CapKernel → CapInvokeMessage → List String
session_reasons k msg =
    push_if (not (str_eq msg.execution_mode k.opts.execution_mode)) "MODE_MISMATCH"
    ++ (checkpoint_eq_or_reason k.opts.plan_digest msg.plan_digest "PLANDIGEST_MISMATCH"
        ++ (push_if (not (str_eq msg.session_nonce k.opts.session_nonce)) "NONCE_MISMATCH"
            ++ (push_if (not (str_eq msg.caller_block_hash k.opts.caller_block_hash))
                  "CALLER_MISMATCH"
                ++ (push_if (not k.self_test_passed) "SELFTEST_REQUIRED"
                    ++ push_if (includes k.seen_req_ids msg.req_id) "REPLAY_DETECTED"))))

-- `blockRank < runtimeRank`, where both are known.
below_runtime : Option Tier → Option Tier → Bool
below_runtime (some runtime) (some block) = ltb (tier_rank block) (tier_rank runtime)
below_runtime _ _ = false

-- The tier, and the sets that must and must not hold the capability.
unfoldable pub capability_reasons : CapKernel → CapInvokeMessage → List String
unfolding below_runtime
capability_reasons k msg =
    push_if (below_runtime k.opts.runtime_tier k.opts.block_tier) "TIER_VIOLATION"
    ++ (push_if (not (includes (or_default default_known_caps k.opts.known_caps) msg.cap_id))
          "CAP_UNKNOWN"
        ++ push_if (not (includes k.opts.granted_caps msg.cap_id)) "CAP_NOT_GRANTED")

abbrev pub is_given : Option String → Bool
is_given none = false
is_given (some s) = is_non_empty s

-- Where an optional string is given: whether the receipt has another.
abbrev pub given_differs : Option String → String → Bool
given_differs none s = false
given_differs (some t) s = is_non_empty t && not (str_eq s t)

-- The comparisons of a valid receipt with the kernel's options.
unfoldable pub receipt_reasons : CapKernelOptions → GateReceiptBody → List String
receipt_reasons o body =
    push_if (not (str_eq body.gate_id "market.admission.v0")) "RECEIPT_SUBJECT_MISMATCH"
    ++ (push_if (given_differs o.market_id body.market_id) "RECEIPT_SUBJECT_MISMATCH"
        ++ (push_if (given_differs o.market_policy_digest body.market_policy_digest)
              "RECEIPT_SUBJECT_MISMATCH"
            ++ (checkpoint_eq_or_reason o.plan_digest body.plan_digest "RECEIPT_SUBJECT_MISMATCH"
                ++ (push_if (given_differs o.release_id body.release_id) "RECEIPT_SUBJECT_MISMATCH"
                    ++ (push_if (not (str_eq body.block_hash o.caller_block_hash))
                          "RECEIPT_SUBJECT_MISMATCH"
                        ++ push_if (not (str_eq body.decision "ALLOW")) "RECEIPT_DENY")))))

unfoldable pub admission_reasons : CapKernelOptions → Option GateReceipt → List String
admission_reasons o none = "RECEIPT_MISSING" ∷ []
admission_reasons o (some r) =
    if is_empty (gate_receipt_issues o.receipt_digest r)
    then receipt_reasons o r.body
    else "RECEIPT_INVALID" ∷ []

unfoldable pub not_eligible : Option (List String) → String → Bool
not_eligible none cap = false
not_eligible (some caps) cap = not (includes caps cap)

-- `marketContext`.
unfoldable pub market_context : CapKernelOptions → Bool
market_context o =
    is_given o.market_id || is_given o.market_policy_digest || not (is_none o.admission_receipt)

unfoldable pub market_reasons : CapKernelOptions → String → List String
market_reasons o cap =
    if market_context o
    then admission_reasons o o.admission_receipt
      ++ push_if (not_eligible o.market_eligible_caps cap) "CAP_NOT_ELIGIBLE_MARKET"
    else []

-- A release status that is known and not OK.
abbrev pub is_bad_release : Option ReleaseStatus → Bool
is_bad_release none = false
is_bad_release (some ok) = false
is_bad_release (some _) = true

unfoldable pub release_reasons : CapKernel → String → List String
release_reasons k cap =
    if is_bad_release k.release_status && includes k.opts.release_gated_caps cap
    then if is_empty k.release_reason_codes
      then "RELEASE_UNVERIFIED" ∷ []
      else k.release_reason_codes
    else []

unfoldable pub secret_reasons : CapKernel → String → List String
secret_reasons k cap =
    if includes secret_required_caps cap && not k.opts.secret_zone_available
    then "SECRET_ZONE_REQUIRED" ∷ "SECRET_ZONE_UNAVAILABLE" ∷ []
    else []

-- The claim's number is not above the last that was used.
abbrev pub not_after : Option ℕ → ℕ → Bool
not_after none seq = false
not_after (some last) seq = leb seq last

-- The errors of a claim.
unfoldable pub claim_errors : CapKernel → ConsentClaim → List String
claim_errors k c =
    push_if (not (str_eq c.action "id.sign")) "CONSENT_INVALID"
    ++ (checkpoint_eq_or_reason k.opts.plan_digest c.subject_plan_digest "CONSENT_MISMATCH"
        ++ (push_if (not (str_eq c.subject_block_hash k.opts.caller_block_hash)) "CONSENT_MISMATCH"
            ++ (push_if (includes k.used_consent_ids c.consent_id) "CONSENT_REPLAY"
                ++ push_if (not_after k.last_consent_seq c.seq) "CONSENT_REPLAY")))
