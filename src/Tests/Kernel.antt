-- ===== src/Tests/Kernel.antt =====
-- The capability kernel: a signing request in a market, allowed once.
use weft_end.Prelude.{◌≡◌, ◌⊎◌, ◌↔◌, refl, true, false, none, some, List, [], ◌∷◌, All, str_eq}
use weft_end.Text.{includes, cmp_str, is_non_empty, has_space}
use weft_end.Text.Decimal.{units}
use weft_end.Text.Sets.{Distinct}
use weft_end.Reasons.{checkpoint_eq_or_reason}
use weft_end.Kernel.Types.{
  t1, t2, tier_rank, tier_rank_of, ShopStamp, stamp_verified, GateReceipt, ConsentClaim, ok,
  CapInvokeMessage, CapKernelOptions, CapKernel, allowed,
}
use weft_end.Kernel.Stamp.{
  shop_stamp_issues, has_descent, lookup_key, signature_assessment, stamp_reasons, below_tier,
  compute_runtime_observed_stamp,
}
use weft_end.Kernel.Stamp.Laws.{IsGenuine, stamp_verified_iff}
use weft_end.Kernel.Receipt.{
  gate_receipt_issues, is_tight_string, is_sorted_unique_strings, base64_byte_length,
}
use weft_end.Kernel.Invoke.{
  secret_required_caps, session_reasons, capability_reasons, receipt_reasons, admission_reasons,
  not_eligible, market_context, market_reasons, release_reasons, secret_reasons, claim_errors,
  check_consent, consent_step, get_runtime_observed_stamp, static_reasons, disabled_reasons,
  note_request, decide, handle_invoke, not_after,
}
use weft_end.Kernel.Empty.{Admitted}
use weft_end.Kernel.Deny.{allowed_session, allowed_capability, allowed_market, allowed_consent}
use weft_end.Kernel.Trace.{
  Call, invoke, consent, preflight, run, allowed_requests, signing_consents,
}
use weft_end.Kernel.Trace.Once.{allowed_once, consent_once}

abbrev stamp : ShopStamp
stamp = record {
  schema = "retni.shopstamp/1";
  tier = "T2";
  shop_id = "shop";
  policy_digest = "sha256:p";
  block_hash = "block:1";
  accept_decision = "ACCEPT";
  reason_codes = "A" ∷ "B" ∷ [];
  stamp_digest = "sha256:s";
  signature = some (record { algo = "sig.demo.v0"; key_id = "k1"; sig = "c2ln" });
  other_keys = [];
}

abbrev receipt : GateReceipt
receipt = record {
  receipt_id = "sha256:r";
  body = record {
    schema = "weftend.gateReceipt/0";
    gate_id = "market.admission.v0";
    market_id = "market";
    market_policy_digest = "sha256:mp";
    plan_digest = "sha256:plan";
    release_id = "sha256:rel";
    block_hash = "block:1";
    decision = "ALLOW";
    reason_codes = [];
    checkpoint_digest = "sha256:c";
    other_keys = [];
  };
  signatures =
      some
        (record { sig_kind = "sig.demo.v0"; key_id = "k"; sig_b64 = "YWI="; other_keys = [] } ∷ []);
  other_keys = [];
}

abbrev claim : ConsentClaim
claim = record {
  consent_id = "consent-1";
  action = "id.sign";
  subject_block_hash = "block:1";
  subject_plan_digest = "sha256:plan";
  seq = 4;
}

abbrev options : CapKernelOptions
options = record {
  plan_digest = "sha256:plan";
  caller_block_hash = "block:1";
  execution_mode = "strict";
  session_nonce = "n1";
  granted_caps = "id.sign" ∷ [];
  runtime_tier = some t1;
  block_tier = some t2;
  shop_stamp = some stamp;
  verify_signature = some (λ s sig key. str_eq key "pub:1");
  stamp_key_allowlist = ("k1", "pub:1") ∷ [];
  release_id = some "sha256:rel";
  secret_zone_available = true;
  known_caps = some ("id.sign" ∷ []);
  disabled_caps = some [];
  release_gated_caps = "id.sign" ∷ [];
  market_id = some "market";
  market_policy_digest = none;
  admission_receipt = some receipt;
  market_eligible_caps = some ("id.sign" ∷ []);
  receipt_digest = λ b. "sha256:r";
}

abbrev kernel : CapKernel
kernel = record {
  opts = options;
  seen_req_ids = [];
  next_seq = 0;
  self_test_passed = true;
  observed = none;
  consent_claim = some claim;
  used_consent_ids = [];
  last_consent_seq = some 3;
  release_status = some ok;
  release_reason_codes = [];
}

abbrev request : CapInvokeMessage
request = record {
  req_id = "r1";
  cap_id = "id.sign";
  execution_mode = "strict";
  plan_digest = "sha256:plan";
  session_nonce = "n1";
  caller_block_hash = "block:1";
}

genuine :
    (compute_runtime_observed_stamp
      (some t1)
      (some stamp)
      "block:1"
      options.stamp_key_allowlist
      options.verify_signature).status
    ≡ stamp_verified
unfolding compute_runtime_observed_stamp shop_stamp_issues has_descent lookup_key
    signature_assessment stamp_reasons below_tier tier_rank tier_rank_of is_non_empty cmp_str
genuine = refl

permitted : (handle_invoke kernel request).1 ≡ allowed
unfolding handle_invoke static_reasons session_reasons capability_reasons receipt_reasons
    admission_reasons not_eligible market_context market_reasons release_reasons secret_reasons
    claim_errors check_consent consent_step disabled_reasons note_request decide
    get_runtime_observed_stamp compute_runtime_observed_stamp shop_stamp_issues has_descent
    lookup_key signature_assessment stamp_reasons below_tier tier_rank tier_rank_of is_non_empty
    has_space cmp_str includes checkpoint_eq_or_reason gate_receipt_issues is_tight_string
    is_sorted_unique_strings base64_byte_length units
permitted = refl

stamp_verified_iff_example :
    ((compute_runtime_observed_stamp
        (some t1)
        (some stamp)
        "block:1"
        options.stamp_key_allowlist
        options.verify_signature).status
      ≡ stamp_verified)
    ↔ IsGenuine (some t1) stamp "block:1" options.stamp_key_allowlist options.verify_signature
stamp_verified_iff_example =
    stamp_verified_iff (some t1) stamp "block:1" options.stamp_key_allowlist
      options.verify_signature

allowed_session_example :
    (request.execution_mode ≡ options.execution_mode)
    × (request.plan_digest ≡ options.plan_digest)
    × (request.session_nonce ≡ options.session_nonce)
    × (request.caller_block_hash ≡ options.caller_block_hash)
    × (kernel.self_test_passed ≡ true)
    × (includes kernel.seen_req_ids request.req_id ≡ false)
allowed_session_example = allowed_session kernel request permitted

allowed_capability_example :
    (includes ("id.sign" ∷ []) "id.sign" ≡ true)
    × (includes ("id.sign" ∷ []) "id.sign" ≡ true)
    × (includes [] "id.sign" ≡ false)
    × ((get_runtime_observed_stamp kernel).reason_codes ≡ [])
    × ((includes secret_required_caps "id.sign" ≡ false)
        ⊎ (kernel.opts.secret_zone_available ≡ true))
allowed_capability_example = allowed_capability kernel request permitted

allowed_market_example :
    (market_context options ≡ false) ⊎ ((r : GateReceipt) × Admitted options "id.sign" r)
allowed_market_example = allowed_market kernel request permitted

allowed_consent_example :
    (str_eq request.cap_id "id.sign" ≡ false)
    ⊎ ((c : ConsentClaim) × (kernel.consent_claim ≡ some c)
        × (c.action ≡ "id.sign")
        × (c.subject_plan_digest ≡ kernel.opts.plan_digest)
        × (c.subject_block_hash ≡ kernel.opts.caller_block_hash)
        × (includes kernel.used_consent_ids c.consent_id ≡ false)
        × (not_after kernel.last_consent_seq c.seq ≡ false)
        × ((handle_invoke kernel request).0.used_consent_ids ≡ c.consent_id ∷ [])
        × ((handle_invoke kernel request).0.last_consent_seq ≡ some c.seq))
allowed_consent_example = allowed_consent kernel request permitted

abbrev default_kernel : CapKernel
default_kernel = record kernel { opts = record options { known_caps = none; disabled_caps = none } }

-- The request, the same request again, and a second one under the same claim.
abbrev calls : List Call
calls =
    preflight
    ∷ invoke request
    ∷ invoke request
    ∷ consent (some claim)
    ∷ invoke (record request { req_id = "r2" })
    ∷ []

allowed_once_example :
    Distinct (allowed_requests (run kernel calls))
    × All (λ a. includes [] a ≡ false) (allowed_requests (run kernel calls))
allowed_once_example = allowed_once kernel calls

consent_once_example :
    Distinct (signing_consents (run kernel calls))
    × All (λ a. includes [] a ≡ false) (signing_consents (run kernel calls))
consent_once_example = consent_once kernel calls
