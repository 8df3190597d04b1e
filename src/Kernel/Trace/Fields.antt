-- ===== src/Kernel/Trace/Fields.antt =====
-- What one invocation does to the identifiers that were seen and used, and to the numbers.
use weft_end.Prelude.{
  suc, String, ◌≡◌, refl, false, Option, none, some, List, [], ◌∷◌, arith, ◌||◌, ◌⊎◌, str_eq,
  eq_iff, ap, ◌∙◌, subst, inl, inr,
}
use weft_end.Text.{includes}
use weft_end.Kernel.Types.{CapInvokeMessage, CapDecision, CapDenyTelemetry, CapKernel}
use weft_end.Kernel.Invoke.{
  handle_invoke, note_request, decide, consent_step, check_consent, consume,
}

module _ (k : CapKernel) (msg : CapInvokeMessage) (rs : List String) where
  seen-decide : (decide k msg rs).0.seen_req_ids ≡ k.seen_req_ids
  unfolding decide
  seen-decide = ground arith

  used-decide : (decide k msg rs).0.used_consent_ids ≡ k.used_consent_ids
  unfolding decide
  used-decide = ground arith

-- A decision takes a number exactly when it leaves telemetry.
abbrev pub Numbered : CapKernel → CapKernel × CapDecision × Option CapDenyTelemetry → Type 0
Numbered k after =
    ((after.2 ≡ none) × (after.0.next_seq ≡ k.next_seq))
    ⊎ ((t : CapDenyTelemetry) × (after.2 ≡ some t)
        × (t.seq ≡ k.next_seq)
        × (after.0.next_seq ≡ suc k.next_seq))

decide-Numbered :
    (k : CapKernel) (msg : CapInvokeMessage) (rs : List String) → Numbered k (decide k msg rs)
unfolding decide
decide-Numbered k msg [] = inl (refl, refl)
decide-Numbered k msg (r ∷ rs) = inr (_, refl, refl, refl)

module _ (k : CapKernel) where
  seen-consent_step : (cap_id : String) → (consent_step k cap_id).0.seen_req_ids ≡ k.seen_req_ids
  unfolding consent_step check_consent consume
  seen-consent_step cap_id = ground arith

  number-consent_step : (cap_id : String) → (consent_step k cap_id).0.next_seq ≡ k.next_seq
  unfolding consent_step check_consent consume
  number-consent_step cap_id = ground arith

  used-consent_step :
      (cap_id a : String)
      → includes (consent_step k cap_id).0.used_consent_ids a ≡ false
      → includes k.used_consent_ids a ≡ false
  unfolding consent_step check_consent consume includes
  used-consent_step cap_id a h = ground arith

seen_of_noted :
    (k : CapKernel) (msg : CapInvokeMessage)
    → (handle_invoke k msg).0.seen_req_ids ≡ (note_request k msg).seen_req_ids
unfolding handle_invoke
seen_of_noted k msg = seen-decide _ msg _ ∙ seen-consent_step (note_request k msg) msg.cap_id

pub includes_seen :
    (k : CapKernel) (msg : CapInvokeMessage) (a : String)
    → includes (handle_invoke k msg).0.seen_req_ids a
      ≡ (str_eq msg.req_id a || includes k.seen_req_ids a)
includes_seen k msg a =
    rw seen_of_noted (unfold note_request includes in ground (arith, eq_iff msg.req_id a))

pub used_before :
    (k : CapKernel) (msg : CapInvokeMessage) (a : String)
    → includes (handle_invoke k msg).0.used_consent_ids a ≡ false
    → includes k.used_consent_ids a ≡ false
unfolding handle_invoke
used_before k msg a h =
    let h' = subst (λ ids. includes ids a ≡ false) (used-decide _ msg _) h in
    unfold note_request in used-consent_step (note_request k msg) msg.cap_id a h'

Numbered-from :
    (k k' : CapKernel) (after : CapKernel × CapDecision × Option CapDenyTelemetry)
    → k'.next_seq ≡ k.next_seq
    → Numbered k' after
    → Numbered k after
Numbered-from k k' after e (inl (p, q)) = inl (p, q ∙ e)
Numbered-from k k' after e (inr (t, p, q, r)) = inr (t, p, q ∙ e, r ∙ ap suc e)

pub handle_invoke-Numbered :
    (k : CapKernel) (msg : CapInvokeMessage) → Numbered k (handle_invoke k msg)
unfolding handle_invoke
handle_invoke-Numbered k msg =
    let after = (consent_step (note_request k msg) msg.cap_id).0 in
    let e : after.next_seq ≡ k.next_seq =
      unfold note_request in number-consent_step (note_request k msg) msg.cap_id in
    Numbered-from k after (decide after msg _) e (decide-Numbered after msg _)
