-- ===== src/SecretZone/Laws.antt =====
-- What a step of the secret zone's host does with the requests that wait for their answer.
use text.Mathlib.TextLemmas.{append_cancel_left}
use weft_end.Prelude.{
  ℕ, suc, ◌≤◌, ◌<◌, ◌≡◌, ◌⊎◌, refl, sym, subst, String, true, false, Option, List, [], ◌∷◌, ◌++◌,
  str_eq, eq_iff, All, arith, inl, inr, Bool-cases, Option-cases, if◌then◌else◌,
}
use weft_end.Text.{includes}
use weft_end.Text.Digits.{decimal_injective}
use weft_end.Reasons.{is_empty, or_default}
use weft_end.Boundary.{validate_nonce}
use weft_end.SecretZone.{
  SecretZoneHost, ConsentAnswer, refused, ZoneMessage, ZoneEffect, settled, remove, settle,
  handle_port_message, handle_bound, post_to_child, consent_name, request_consent, consent_timeout,
  ZoneBody, other_kind, consent_result, asked, rejected, binding_reasons, sort_reason_codes,
  ZoneEvent, open_channel, request, receive, time_out, zone_step, answered, init_channel,
}

pub consent_name_injective : (n m : ℕ) → consent_name n ≡ consent_name m → n ≡ m
unfolding consent_name
consent_name_injective n m h = decimal_injective n m (append_cancel_left "consent-" _ _ h)

pub includes-remove :
    (id a : String) (xs : List String)
    → includes (remove id xs) a ≡ (if str_eq id a then false else includes xs a)
unfolding includes remove
includes-remove id a [] = ground arith
includes-remove id a (x ∷ xs) =
    ground (arith, includes-remove id a xs, eq_iff x id, eq_iff x a, eq_iff id a)

module _ (z : SecretZoneHost) (after : SecretZoneHost × List ZoneEffect) where
  -- No promise is answered, and none is added.
  abbrev pub Keeps : Type 0
  Keeps =
      (answered after.1 ≡ [])
      × (after.0.pending_consent ≡ z.pending_consent)
      × (after.0.req_seq ≡ z.req_seq)

  -- One pending promise is answered.
  abbrev pub Settles : Type 0
  Settles =
      (id : String) × (answered after.1 ≡ id ∷ [])
      × (includes z.pending_consent id ≡ true)
      × (after.0.pending_consent ≡ remove id z.pending_consent)
      × (after.0.req_seq ≡ z.req_seq)

  -- A promise of the next name is added.
  abbrev pub Asks : Type 0
  Asks =
      (answered after.1 ≡ [])
      × (after.0.pending_consent ≡ consent_name z.req_seq ∷ z.pending_consent)
      × (after.0.req_seq ≡ suc z.req_seq)

pub settle_cases :
    (z : SecretZoneHost) (id : String) (answer : ConsentAnswer)
    → Keeps z (settle z id answer) ⊎ Settles z (settle z id answer)
unfolding settle answered
settle_cases z id answer = elim (Bool-cases (includes z.pending_consent id)) [
  | inl e ↦ rw e (inr (id, refl, e, refl, refl))
  | inr e ↦ rw e (inl (refl, refl, refl))
]

Body-cases : (b : ZoneBody) → (b ≡ other_kind) ⊎ ((a : ConsentAnswer) × (b ≡ consent_result a))
Body-cases other_kind = inl refl
Body-cases (consent_result a) = inr (a, refl)

pub answered_append :
    (xs ys : List ZoneEffect) → answered xs ≡ [] → answered (xs ++ ys) ≡ answered ys
unfolding answered
answered_append [] ys h = refl
answered_append (asked id ∷ xs) ys h = answered_append xs ys h
answered_append (rejected id codes ∷ xs) ys h = answered_append xs ys h
answered_append (settled id a ∷ xs) ys h = cc

answered-post_to_child :
    (z : SecretZoneHost) (id : Option String) (codes : List String)
    → answered (post_to_child z id codes) ≡ []
unfolding post_to_child answered
answered-post_to_child z id codes = elim (Bool-cases z.host_port) [
  | inl e ↦ rw e refl
  | inr e ↦ rw e refl
]

handle_bound_cases :
    (z : SecretZoneHost) (msg : ZoneMessage)
    → Keeps z (handle_bound z msg) ⊎ Settles z (handle_bound z msg)
unfolding handle_bound answered
handle_bound_cases z msg = elim (Body-cases msg.body) [
  | inl e ↦ rw e (inl (answered-post_to_child z _ _, refl, refl))
  | inr (a, e) ↦ elim (Option-cases msg.req_id) [
    | inl f ↦ rw (e, f) (inl (refl, refl, refl))
    | inr (id, f) ↦ rw (e, f) (settle_cases z id _)
  ]
]

handle_port_message_cases :
    (z : SecretZoneHost) (msg : ZoneMessage)
    → Keeps z (handle_port_message z msg) ⊎ Settles z (handle_port_message z msg)
unfolding handle_port_message answered includes remove
handle_port_message_cases z msg = elim (Bool-cases (is_empty (binding_reasons z msg))) [
  | inl e ↦ rw e (handle_bound_cases z msg)
  | inr e ↦
      let codes = sort_reason_codes (binding_reasons z msg) in
      let id = or_default "" msg.req_id in
      rw e (
        rw
          (answered_append (post_to_child z msg.req_id codes) (settle z id (refused codes)).1
            (answered-post_to_child z msg.req_id codes))
          (settle_cases z id (refused codes)))
]

init_channel_keeps : (z : SecretZoneHost) (drawn : String) → Keeps z ((init_channel drawn z).0, [])
unfolding init_channel answered
init_channel_keeps z drawn =
    let nonce = if validate_nonce z.session_nonce then z.session_nonce else drawn in
    elim (Bool-cases (validate_nonce nonce)) [
      | inl e ↦ rw e (refl, refl, refl)
      | inr e ↦ rw e (refl, refl, refl)
    ]

request_cases : (z : SecretZoneHost) → Asks z (zone_step z request) ⊎ Keeps z (zone_step z request)
unfolding zone_step request_consent answered
request_cases z = elim (Bool-cases z.host_port) [
  | inl e ↦ rw e (inl (refl, refl, refl))
  | inr e ↦ rw e (inr (refl, refl, refl))
]

pub zone_step_cases :
    (z : SecretZoneHost) (e : ZoneEvent)
    → Asks z (zone_step z e) ⊎ (Keeps z (zone_step z e) ⊎ Settles z (zone_step z e))
unfolding zone_step consent_timeout
zone_step_cases z (open_channel drawn) = inr (inl (init_channel_keeps z drawn))
zone_step_cases z request = elim (request_cases z) [ inl a ↦ inl a | inr k ↦ inr (inl k) ]
zone_step_cases z (receive msg) = inr (handle_port_message_cases z msg)
zone_step_cases z (time_out id) = inr (settle_cases z id _)

-- A request that waits for its answer, or that has not been made.
abbrev pub IsLive : SecretZoneHost → String → Type 0
IsLive z a =
    (includes z.pending_consent a ≡ true) ⊎ ((k : ℕ) × (z.req_seq ≤ k) × (a ≡ consent_name k))

abbrev pub IsOld : ℕ → String → Type 0
IsOld n a = (k : ℕ) × (k < n) × (a ≡ consent_name k)

-- The requests that wait have been made.
abbrev pub IsValid : SecretZoneHost → Type 0
IsValid z = All (IsOld z.req_seq) z.pending_consent

All-remove {κ} :
    (P : String → Type κ) (id : String) (xs : List String) → All P xs → All P (remove id xs)
unfolding remove
All-remove P id [] h = tt
All-remove P id (x ∷ xs) h = elim (Bool-cases (str_eq x id)) [
  | inl e ↦ rw e (All-remove P id xs h.1)
  | inr e ↦ rw e (h.0, All-remove P id xs h.1)
]

All-older : (n : ℕ) (xs : List String) → All (IsOld n) xs → All (IsOld (suc n)) xs
All-older n [] h = tt
All-older n (x ∷ xs) ((k, lt, e), h) = ((k, omega arith, e), All-older n xs h)

IsValid-of :
    (z : SecretZoneHost) (n : ℕ) (xs : List String)
    → z.pending_consent ≡ xs
    → z.req_seq ≡ n
    → All (IsOld n) xs
    → IsValid z
IsValid-of z n xs p q h =
    subst (λ m. All (IsOld m) z.pending_consent) (sym q) (subst (All (IsOld n)) (sym p) h)

pub zone_step-IsValid : (z : SecretZoneHost) (e : ZoneEvent) → IsValid z → IsValid (zone_step z e).0
zone_step-IsValid z e h =
    let after = (zone_step z e).0 in
    elim (zone_step_cases z e) [
      | inl (nothing, p, n) ↦
          IsValid-of after _ _ p n ((z.req_seq, omega arith, refl), All-older z.req_seq _ h)
      | inr (inl (nothing, p, n)) ↦ IsValid-of after _ _ p n h
      | inr (inr (id, one, m, p, n)) ↦
          IsValid-of after _ _ p n (All-remove (IsOld z.req_seq) id _ h)
    ]
