-- ===== src/Kernel/Deny.antt =====
-- Deny by default: what holds of every invocation that the kernel allows.
use weft_end.Prelude.{
  ◌≡◌, ◌⊎◌, true, false, some, [], ◌∷◌, str_eq, eq_iff, arith, ap, ◌∙◌, inl, inr, Bool-cases,
}
use weft_end.Text.{includes}
use weft_end.Reasons.{or_default, checkpoint_eq_or_reason}
use weft_end.Kernel.Types.{ConsentClaim, GateReceipt, CapInvokeMessage, allowed, CapKernel}
use weft_end.Kernel.Invoke.{
  default_known_caps, default_disabled_caps, secret_required_caps, session_reasons,
  capability_reasons, market_context, market_reasons, note_request, release_reasons, secret_reasons,
  consume, consent_step, static_reasons, disabled_reasons, get_runtime_observed_stamp,
  handle_invoke, is_bad_release, not_after,
}
use weft_end.Kernel.Empty.{
  append_nil_parts, decide_allowed, Admitted, market_nil, claim_nil, check_consent_nil,
}

-- No part of the reasons against an allowed invocation holds one.
record NoReasons (k : CapKernel) (msg : CapInvokeMessage) : Type 0 where
  pub stamp : (get_runtime_observed_stamp k).reason_codes ≡ []
  pub session : session_reasons k msg ≡ []
  pub capability : capability_reasons k msg ≡ []
  pub market : market_reasons k.opts msg.cap_id ≡ []
  pub release : release_reasons k msg.cap_id ≡ []
  pub secret : secret_reasons k msg.cap_id ≡ []
  pub consent : (consent_step (note_request k msg) msg.cap_id).1 ≡ []
  pub disabled : disabled_reasons k msg.cap_id ≡ []

module _ (k : CapKernel) (msg : CapInvokeMessage)
    (permitted : (handle_invoke k msg).1 ≡ allowed) where
  no_reasons : NoReasons k msg
  unfolding handle_invoke static_reasons
  no_reasons =
      let none_at_all = (decide_allowed _ msg _ permitted).0 in
      let (static, late) = append_nil_parts _ _ none_at_all in
      let (p0, r0) = append_nil_parts _ _ static in
      let (p1, r1) = append_nil_parts _ _ r0 in
      let (p2, r2) = append_nil_parts _ _ r1 in
      let (p3, r3) = append_nil_parts _ _ r2 in
      let (p4, p5) = append_nil_parts _ _ r3 in
      let (p6, p7) = append_nil_parts _ _ late in
      record {
        stamp = p0;
        session = p1;
        capability = p2;
        market = p3;
        release = p4;
        secret = p5;
        consent = p6;
        disabled = p7;
      }

  -- An allowed invocation comes from the caller, the session, the mode and the plan that the kernel
  -- was made for, with a request identifier not seen before, after a passed self test.
  pub allowed_session :
      (msg.execution_mode ≡ k.opts.execution_mode)
      × (msg.plan_digest ≡ k.opts.plan_digest)
      × (msg.session_nonce ≡ k.opts.session_nonce)
      × (msg.caller_block_hash ≡ k.opts.caller_block_hash)
      × (k.self_test_passed ≡ true)
      × (includes k.seen_req_ids msg.req_id ≡ false)
  unfolding session_reasons checkpoint_eq_or_reason
  allowed_session = ground (
    arith,
    no_reasons.session,
    eq_iff msg.execution_mode k.opts.execution_mode,
    eq_iff k.opts.plan_digest msg.plan_digest,
    eq_iff msg.session_nonce k.opts.session_nonce,
    eq_iff msg.caller_block_hash k.opts.caller_block_hash,
  )

  -- An allowed capability is known, granted and not disabled, the stamp speaks against nothing, and
  -- a capability that needs the secret zone has it.
  pub allowed_capability :
      (includes (or_default default_known_caps k.opts.known_caps) msg.cap_id ≡ true)
      × (includes k.opts.granted_caps msg.cap_id ≡ true)
      × (includes (or_default default_disabled_caps k.opts.disabled_caps) msg.cap_id ≡ false)
      × ((get_runtime_observed_stamp k).reason_codes ≡ [])
      × ((includes secret_required_caps msg.cap_id ≡ false) ⊎ (k.opts.secret_zone_available ≡ true))
  unfolding capability_reasons disabled_reasons secret_reasons
  allowed_capability =
      ground
        (arith, no_reasons.stamp, no_reasons.capability, no_reasons.disabled, no_reasons.secret)

  -- In a market, an allowed invocation has a valid admission receipt for the same plan and block,
  -- which names the market and its policy where those are given and decides ALLOW, and the
  -- capability is eligible there. Outside one nothing of this is asked.
  pub allowed_market :
      (market_context k.opts ≡ false) ⊎ ((r : GateReceipt) × Admitted k.opts msg.cap_id r)
  allowed_market = market_nil k.opts msg.cap_id no_reasons.market

  -- With a release that is not OK, no gated capability is allowed.
  pub allowed_release :
      (is_bad_release k.release_status ≡ false)
      ⊎ (includes k.opts.release_gated_caps msg.cap_id ≡ false)
  unfolding release_reasons
  allowed_release = ground (arith, no_reasons.release)

  -- `id.sign` is allowed only with a claim for that action, this plan and this block, whose
  -- identifier was not used before and whose number is above the last used one; the claim is then
  -- used up.
  pub allowed_consent :
      (str_eq msg.cap_id "id.sign" ≡ false)
      ⊎ ((c : ConsentClaim) × (k.consent_claim ≡ some c)
          × (c.action ≡ "id.sign")
          × (c.subject_plan_digest ≡ k.opts.plan_digest)
          × (c.subject_block_hash ≡ k.opts.caller_block_hash)
          × (includes k.used_consent_ids c.consent_id ≡ false)
          × (not_after k.last_consent_seq c.seq ≡ false)
          × ((handle_invoke k msg).0.used_consent_ids ≡ c.consent_id ∷ k.used_consent_ids)
          × ((handle_invoke k msg).0.last_consent_seq ≡ some c.seq))
  unfolding handle_invoke consent_step note_request consume
  allowed_consent = elim (Bool-cases (str_eq msg.cap_id "id.sign")) [
    | inr e ↦ inl e
    | inl e ↦
        let noted = note_request k msg in
        let (c, given, valid, after) =
          check_consent_nil noted k.consent_claim (rw e at no_reasons.consent) in
        let facts = claim_nil noted c valid in
        let state : (handle_invoke k msg).0 ≡ consume noted c =
          (decide_allowed _ msg _ permitted).1 ∙ rw e after in
        inr (
          c,
          given,
          facts.0,
          facts.1,
          facts.2,
          facts.3,
          facts.4,
          ap (λ (s : CapKernel). s.used_consent_ids) state,
          ap (λ (s : CapKernel). s.last_consent_seq) state,
        )
  ]
