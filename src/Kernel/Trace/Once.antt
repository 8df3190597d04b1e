-- ===== src/Kernel/Trace/Once.antt =====
-- No request is allowed twice, no claim serves two signatures, and denials are numbered in order.
use weft_end.Prelude.{
  String, ◌≡◌, ◌⊎◌, refl, true, false, List, [], ◌∷◌, ◌++◌, All, length, arith, str_eq, eq_refl, ap,
  ◌∙◌, inl, inr, if◌then◌else◌, Bool-cases,
}
use weft_end.Text.{includes}
use weft_end.Text.Sets.{Distinct, All-includes}
use weft_end.Kernel.Types.{CapDecision, allowed, denied, CapInvokeMessage, CapKernel}
use weft_end.Kernel.Invoke.{
  handle_invoke, set_self_test_passed, set_secret_zone_available, set_consent_claim,
  set_release_status, preflight_deny_reasons, observe_stamp,
}
use weft_end.Kernel.Deny.{allowed_session, allowed_consent}
use weft_end.Kernel.Trace.{
  Call, self_test, secret_zone, consent, release, preflight, observe, invoke, call, run,
  allowed_requests, signing_consents, denial_numbers, count_from, claim_id,
}
use weft_end.Kernel.Trace.Fields.{includes_seen, used_before, handle_invoke-Numbered}

-- Identifiers that are distinct, and none of them among those noted before.
record IsNew (noted ids : List String) : Type 0 where
  pub distinct : Distinct ids
  pub unseen : All (λ a. includes noted a ≡ false) ids

All-unseen :
    (old new ids : List String)
    → ((a : String) → includes new a ≡ false → includes old a ≡ false)
    → All (λ a. includes new a ≡ false) ids
    → All (λ a. includes old a ≡ false) ids
All-unseen old new [] f h = tt
All-unseen old new (x ∷ xs) f h = (f x h.0, All-unseen old new xs f h.1)

IsNew-weaken :
    (old new ids : List String)
    → ((a : String) → includes new a ≡ false → includes old a ≡ false)
    → IsNew new ids
    → IsNew old ids
IsNew-weaken old new ids f h = record {
  distinct = h.distinct;
  unseen = All-unseen old new ids f h.unseen;
}

IsNew-cons :
    (old new ids : List String) (x : String)
    → ((a : String) → includes new a ≡ false → includes old a ≡ false)
    → includes old x ≡ false
    → includes new x ≡ true
    → IsNew new ids
    → IsNew old (x ∷ ids)
IsNew-cons old new ids x f fresh noted h = record {
  distinct = (
    elim (Bool-cases (includes ids x)) [
      | inl m ↦ let g = All-includes (λ a. includes new a ≡ false) ids x h.unseen m in cc
      | inr n ↦ n
    ],
    h.distinct,
  );
  unseen = (fresh, All-unseen old new ids f h.unseen);
}

pub Decision-cases :
    (d : CapDecision) → (d ≡ allowed) ⊎ ((codes : List String) × (d ≡ denied codes))
Decision-cases allowed = inl refl
Decision-cases (denied codes) = inr (codes, refl)

seen_grows :
    (k : CapKernel) (msg : CapInvokeMessage) (a : String)
    → includes (handle_invoke k msg).0.seen_req_ids a ≡ false
    → includes k.seen_req_ids a ≡ false
seen_grows k msg a h = ground (arith, includes_seen k msg a)

requests-IsNew :
    (k : CapKernel) (cs : List Call) → IsNew k.seen_req_ids (allowed_requests (run k cs))
unfolding run call allowed_requests set_self_test_passed set_secret_zone_available set_consent_claim
    set_release_status preflight_deny_reasons observe_stamp
requests-IsNew k [] = record { distinct = tt; unseen = tt }
requests-IsNew k (self_test b ∷ cs) = requests-IsNew (set_self_test_passed k b) cs
requests-IsNew k (secret_zone b ∷ cs) = requests-IsNew (set_secret_zone_available k b) cs
requests-IsNew k (consent c ∷ cs) = requests-IsNew (set_consent_claim k c) cs
requests-IsNew k (release s rs ∷ cs) = requests-IsNew (set_release_status k s rs) cs
requests-IsNew k (preflight ∷ cs) = requests-IsNew (preflight_deny_reasons k).0 cs
requests-IsNew k (observe ∷ cs) = requests-IsNew (observe_stamp k) cs
requests-IsNew k (invoke msg ∷ cs) =
    let after = handle_invoke k msg in
    let rest = allowed_requests (run after.0 cs) in
    let later = requests-IsNew after.0 cs in
    elim (Decision-cases after.1) [
      | inl e ↦ rw e (
          IsNew-cons k.seen_req_ids after.0.seen_req_ids rest msg.req_id (seen_grows k msg)
            (allowed_session k msg e).5
            (ground (arith, includes_seen k msg msg.req_id, eq_refl msg.req_id)) later)
      | inr (codes, e) ↦
          rw e (IsNew-weaken k.seen_req_ids after.0.seen_req_ids rest (seen_grows k msg) later)
    ]

-- In a run of any calls, no request identifier is allowed twice, and none is allowed that the kernel
-- had seen before.
pub allowed_once :
    (k : CapKernel) (cs : List Call)
    → Distinct (allowed_requests (run k cs))
      × All (λ a. includes k.seen_req_ids a ≡ false) (allowed_requests (run k cs))
allowed_once k cs = let h = requests-IsNew k cs in (h.distinct, h.unseen)

signed :
    (k : CapKernel) (msg : CapInvokeMessage) (rest : List String)
    → (handle_invoke k msg).1 ≡ allowed
    → IsNew (handle_invoke k msg).0.used_consent_ids rest
    → IsNew k.used_consent_ids rest
    → IsNew k.used_consent_ids
        (if str_eq msg.cap_id "id.sign" then claim_id k.consent_claim ++ rest else rest)
unfolding claim_id includes
signed k msg rest e later kept = elim (Bool-cases (str_eq msg.cap_id "id.sign")) [
  | inr other ↦ rw other kept
  | inl sign ↦ elim (allowed_consent k msg e) [
    | inl other ↦ absurd (ground arith)
    | inr (c, given, act, plan, block, fresh, seq, used, last) ↦
        rw (sign, given)
          (IsNew-cons k.used_consent_ids (handle_invoke k msg).0.used_consent_ids rest c.consent_id
            (used_before k msg) fresh (rw used (ground (arith, eq_refl c.consent_id))) later)
  ]
]

consents-IsNew :
    (k : CapKernel) (cs : List Call) → IsNew k.used_consent_ids (signing_consents (run k cs))
unfolding run call signing_consents set_self_test_passed set_secret_zone_available set_consent_claim
    set_release_status preflight_deny_reasons observe_stamp
consents-IsNew k [] = record { distinct = tt; unseen = tt }
consents-IsNew k (self_test b ∷ cs) = consents-IsNew (set_self_test_passed k b) cs
consents-IsNew k (secret_zone b ∷ cs) = consents-IsNew (set_secret_zone_available k b) cs
consents-IsNew k (consent c ∷ cs) = consents-IsNew (set_consent_claim k c) cs
consents-IsNew k (release s rs ∷ cs) = consents-IsNew (set_release_status k s rs) cs
consents-IsNew k (preflight ∷ cs) = consents-IsNew (preflight_deny_reasons k).0 cs
consents-IsNew k (observe ∷ cs) = consents-IsNew (observe_stamp k) cs
consents-IsNew k (invoke msg ∷ cs) =
    let after = handle_invoke k msg in
    let rest = signing_consents (run after.0 cs) in
    let later = consents-IsNew after.0 cs in
    let kept =
      IsNew-weaken k.used_consent_ids after.0.used_consent_ids rest (used_before k msg) later in
    elim (Decision-cases after.1) [
      | inr (codes, e) ↦ rw e kept
      | inl e ↦ rw e (signed k msg rest e later kept)
    ]

-- In a run of any calls, each consent claim serves one allowed `id.sign` at most, and none that was
-- used before.
pub consent_once :
    (k : CapKernel) (cs : List Call)
    → Distinct (signing_consents (run k cs))
      × All (λ a. includes k.used_consent_ids a ≡ false) (signing_consents (run k cs))
consent_once k cs = let h = consents-IsNew k cs in (h.distinct, h.unseen)

-- The denials of a run are numbered one after the other from the kernel's next number.
pub denials_numbered :
    (k : CapKernel) (cs : List Call)
    → denial_numbers (run k cs) ≡ count_from k.next_seq (length (denial_numbers (run k cs)))
unfolding run call denial_numbers set_self_test_passed set_secret_zone_available set_consent_claim
    set_release_status preflight_deny_reasons observe_stamp
denials_numbered k [] = refl
denials_numbered k (self_test b ∷ cs) = denials_numbered (set_self_test_passed k b) cs
denials_numbered k (secret_zone b ∷ cs) = denials_numbered (set_secret_zone_available k b) cs
denials_numbered k (consent c ∷ cs) = denials_numbered (set_consent_claim k c) cs
denials_numbered k (release s rs ∷ cs) = denials_numbered (set_release_status k s rs) cs
denials_numbered k (preflight ∷ cs) = denials_numbered (preflight_deny_reasons k).0 cs
denials_numbered k (observe ∷ cs) = denials_numbered (observe_stamp k) cs
denials_numbered k (invoke msg ∷ cs) =
    let after = handle_invoke k msg in
    let numbers = denial_numbers (run after.0 cs) in
    let later = denials_numbered after.0 cs in
    elim (handle_invoke-Numbered k msg) [
      | inl (p, q) ↦ rw p (later ∙ ap (λ n. count_from n (length numbers)) q)
      | inr (t, p, q, r) ↦
          rw (p, q) (ap (◌∷◌ k.next_seq) (later ∙ ap (λ n. count_from n (length numbers)) r))
    ]
