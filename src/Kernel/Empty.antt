-- ===== src/Kernel/Empty.antt =====
-- What follows when a list of reasons is empty.
use weft_end.Prelude.{
  String, ◌≡◌, ◌⊎◌, refl, Bool, true, false, Option, none, some, List, [], ◌∷◌, ◌++◌, eq_iff, arith,
  inl, inr, Bool-cases,
}
use weft_end.Text.{includes}
use weft_end.Reasons.{push_if, is_empty, checkpoint_eq_or_reason}
use weft_end.Kernel.Types.{
  ConsentClaim, GateReceipt, GateReceiptBody, CapInvokeMessage, allowed, CapKernel,
  CapKernelOptions,
}
use weft_end.Kernel.Receipt.{gate_receipt_issues}
use weft_end.Kernel.Invoke.{
  market_context, market_reasons, receipt_reasons, given_differs, not_eligible, claim_errors,
  admission_reasons, consume, check_consent, decide, not_after,
}

pub append_nil_parts : (xs ys : List String) → xs ++ ys ≡ [] → (xs ≡ []) × (ys ≡ [])
append_nil_parts [] ys h = (refl, h)
append_nil_parts (x ∷ xs) ys h = cc

pub push_if_nil : (b : Bool) (s : String) → push_if b s ≡ [] → b ≡ false
push_if_nil b s h = ground arith

pub checkpoint_nil : (e o s : String) → checkpoint_eq_or_reason e o s ≡ [] → o ≡ e
unfolding checkpoint_eq_or_reason
checkpoint_nil e o s h = ground (arith, eq_iff e o)

pub decide_allowed :
    (k : CapKernel) (msg : CapInvokeMessage) (rs : List String)
    → (decide k msg rs).1 ≡ allowed
    → (rs ≡ []) × ((decide k msg rs).0 ≡ k)
unfolding decide
decide_allowed k msg [] h = (refl, refl)
decide_allowed k msg (r ∷ rs) h = cc

pub receipt_nil :
    (o : CapKernelOptions) (b : GateReceiptBody)
    → receipt_reasons o b ≡ []
    → (b.gate_id ≡ "market.admission.v0")
      × (b.plan_digest ≡ o.plan_digest)
      × (b.block_hash ≡ o.caller_block_hash)
      × (b.decision ≡ "ALLOW")
      × (given_differs o.market_id b.market_id ≡ false)
      × (given_differs o.market_policy_digest b.market_policy_digest ≡ false)
      × (given_differs o.release_id b.release_id ≡ false)
unfolding receipt_reasons checkpoint_eq_or_reason
receipt_nil o b h = ground (
  arith,
  eq_iff b.gate_id "market.admission.v0",
  eq_iff o.plan_digest b.plan_digest,
  eq_iff b.block_hash o.caller_block_hash,
  eq_iff b.decision "ALLOW",
)

abbrev pub Admitted : CapKernelOptions → String → GateReceipt → Type 0
Admitted o cap r =
    (o.admission_receipt ≡ some r)
    × (gate_receipt_issues o.receipt_digest r ≡ [])
    × (r.body.gate_id ≡ "market.admission.v0")
    × (r.body.plan_digest ≡ o.plan_digest)
    × (r.body.block_hash ≡ o.caller_block_hash)
    × (r.body.decision ≡ "ALLOW")
    × (given_differs o.market_id r.body.market_id ≡ false)
    × (given_differs o.market_policy_digest r.body.market_policy_digest ≡ false)
    × (given_differs o.release_id r.body.release_id ≡ false)
    × (not_eligible o.market_eligible_caps cap ≡ false)

pub is_empty_nil : (xs : List String) → is_empty xs ≡ true → xs ≡ []
is_empty_nil [] h = refl
is_empty_nil (x ∷ xs) h = cc

pub admission_nil :
    (o : CapKernelOptions) (given : Option GateReceipt)
    → admission_reasons o given ≡ []
    → (r : GateReceipt) × (given ≡ some r)
      × (gate_receipt_issues o.receipt_digest r ≡ [])
      × (receipt_reasons o r.body ≡ [])
unfolding admission_reasons
admission_nil o none h = cc
admission_nil o (some r) h = elim (Bool-cases (is_empty (gate_receipt_issues o.receipt_digest r))) [
  | inl e ↦ (r, refl, is_empty_nil _ e, rw e at h)
  | inr e ↦ absurd (ground arith)
]

pub market_nil :
    (o : CapKernelOptions) (cap : String)
    → market_reasons o cap ≡ []
    → (market_context o ≡ false) ⊎ ((r : GateReceipt) × Admitted o cap r)
unfolding market_reasons
market_nil o cap h = elim (Bool-cases (market_context o)) [
  | inr e ↦ inl e
  | inl e ↦
      let (parts, eligible) = append_nil_parts _ _ (rw e at h) in
      let (r, given, valid, matches) = admission_nil o o.admission_receipt parts in
      inr (r, ground (arith, given, valid, receipt_nil o r.body matches, eligible))
]

pub claim_nil :
    (k : CapKernel) (c : ConsentClaim)
    → claim_errors k c ≡ []
    → (c.action ≡ "id.sign")
      × (c.subject_plan_digest ≡ k.opts.plan_digest)
      × (c.subject_block_hash ≡ k.opts.caller_block_hash)
      × (includes k.used_consent_ids c.consent_id ≡ false)
      × (not_after k.last_consent_seq c.seq ≡ false)
unfolding claim_errors checkpoint_eq_or_reason
claim_nil k c h = ground (
  arith,
  eq_iff c.action "id.sign",
  eq_iff k.opts.plan_digest c.subject_plan_digest,
  eq_iff c.subject_block_hash k.opts.caller_block_hash,
)

pub check_consent_nil :
    (k : CapKernel) (claim : Option ConsentClaim)
    → (check_consent k claim).1 ≡ []
    → (c : ConsentClaim) × (claim ≡ some c)
      × (claim_errors k c ≡ [])
      × ((check_consent k claim).0 ≡ consume k c)
unfolding check_consent
check_consent_nil k none h = cc
check_consent_nil k (some c) h = elim (Bool-cases (is_empty (claim_errors k c))) [
  | inl e ↦ (c, refl, is_empty_nil _ e, rw e)
  | inr e ↦ absurd (ground arith)
]
