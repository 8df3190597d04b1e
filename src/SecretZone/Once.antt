-- ===== src/SecretZone/Once.antt =====
-- The answers of the secret zone's host: each request is answered once at most, and a consent is
-- granted on a bound message only.
use weft_end.Prelude.{
  ◌≡◌, refl, ap, sym, ◌∙◌, String, true, false, List, [], ◌∷◌, ◌++◌, str_eq, eq_iff, eq_refl, All,
  arith, inl, inr, Bool-cases,
}
use weft_end.Text.{includes}
use weft_end.Text.Sets.{Distinct, All-includes}
use weft_end.SecretZone.{
  SecretZoneHost, ZoneEffect, settled, asked, rejected, remove, consent_name, ZoneEvent, zone_step,
  zone_run, answered,
}
use weft_end.SecretZone.Laws.{
  IsLive, IsOld, IsValid, zone_step_cases, zone_step-IsValid, includes-remove,
  consent_name_injective,
}

answered-append : (xs ys : List ZoneEffect) → answered (xs ++ ys) ≡ answered xs ++ answered ys
unfolding answered
answered-append [] ys = refl
answered-append (asked id ∷ xs) ys = answered-append xs ys
answered-append (rejected id codes ∷ xs) ys = answered-append xs ys
answered-append (settled id a ∷ xs) ys = ap (◌∷◌ id) (answered-append xs ys)

-- What may be answered after a step could be answered before it.
IsLive-before :
    (z : SecretZoneHost) (e : ZoneEvent) (a : String) → IsLive (zone_step z e).0 a → IsLive z a
unfolding includes
IsLive-before z e a live = elim (zone_step_cases z e) [
  | inl (nothing, p, n) ↦ elim live [
    | inl m ↦ elim (Bool-cases (str_eq (consent_name z.req_seq) a)) [
      | inl s ↦ inr (z.req_seq, omega arith, sym ((eq_iff _ _).0 s))
      | inr s ↦ inl (ground (arith, ap (λ xs. includes xs a) p))
    ]
    | inr (k, le, s) ↦ inr (k, omega (arith, n, le), s)
  ]
  | inr (inl (nothing, p, n)) ↦ elim live [
    | inl m ↦ inl (ground (arith, ap (λ xs. includes xs a) p))
    | inr (k, le, s) ↦ inr (k, omega (arith, n, le), s)
  ]
  | inr (inr (id, one, m, p, n)) ↦ elim live [
    | inl l ↦
        inl (ground (arith, ap (λ xs. includes xs a) p, includes-remove id a z.pending_consent))
    | inr (k, le, s) ↦ inr (k, omega (arith, n, le), s)
  ]
]

All-before :
    (z : SecretZoneHost) (e : ZoneEvent) (ids : List String)
    → All (IsLive (zone_step z e).0) ids
    → All (IsLive z) ids
All-before z e [] h = tt
All-before z e (x ∷ xs) h = (IsLive-before z e x h.0, All-before z e xs h.1)

-- A request that is answered is not live any more.
not-live_after :
    (z : SecretZoneHost) (id : String) (after : SecretZoneHost)
    → IsValid z
    → includes z.pending_consent id ≡ true
    → after.pending_consent ≡ remove id z.pending_consent
    → after.req_seq ≡ z.req_seq
    → IsLive after id
    → ⊥
not-live_after z id after v m p n (inl l) =
    ground (arith, ap (λ xs. includes xs id) p, includes-remove id id z.pending_consent, eq_refl id)
not-live_after z id after v m p n (inr (k, le, s)) =
    let (j, lt, q) = All-includes (IsOld z.req_seq) z.pending_consent id v m in
    omega (arith, n, lt, le, consent_name_injective j k (sym q ∙ s))

distinct_cons :
    (z : SecretZoneHost) (id : String) (ids : List String)
    → (IsLive z id → ⊥)
    → All (IsLive z) ids
    → includes ids id ≡ false
distinct_cons z id ids no_more live = elim (Bool-cases (includes ids id)) [
  | inl m ↦ absurd (no_more (All-includes (IsLive z) ids id live m))
  | inr n ↦ n
]

answers_once :
    (z : SecretZoneHost) (es : List ZoneEvent)
    → IsValid z
    → Distinct (answered (zone_run z es)) × All (IsLive z) (answered (zone_run z es))
unfolding zone_run answered
answers_once z [] v = (tt, tt)
answers_once z (e ∷ es) v =
    let after = (zone_step z e).0 in
    let (distinct, live) = answers_once after es (zone_step-IsValid z e v) in
    rw (answered-append (zone_step z e).1 (zone_run after es)) (elim (zone_step_cases z e) [
      | inl (nothing, p, n) ↦ rw nothing (distinct, All-before z e _ live)
      | inr (inl (nothing, p, n)) ↦ rw nothing (distinct, All-before z e _ live)
      | inr (inr (id, one, m, p, n)) ↦ rw one (
        (distinct_cons after id _ (not-live_after z id after v m p n) live, distinct),
        (inl m, All-before z e _ live),
      )
    ])

-- From a host whose waiting requests have been made, in any run of requests, messages and timers no
-- consent request is answered twice, and what is answered was waiting or is asked for in the run.
pub answered_once :
    (z : SecretZoneHost) (es : List ZoneEvent)
    → IsValid z
    → Distinct (answered (zone_run z es)) × All (IsLive z) (answered (zone_run z es))
answered_once = answers_once
