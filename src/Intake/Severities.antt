-- ===== src/Intake/Severities.antt =====
-- The severity of a list of codes is the highest of theirs.
use weft_end.Prelude.{
  eq_refl, ap, ◌∙◌, if◌then◌else◌, ℕ, ◌≤◌, String, ◌≡◌, ◌⊎◌, inl, inr, refl, true, List, [], ◌∷◌,
  All, arith, ltb, Bool-cases,
}
use weft_end.Text.{includes}
use weft_end.Text.Sets.{All-includes}
use weft_end.Tartarus.{Severity, info}
use weft_end.Intake.{
  Policy, severity_rank, compute_severity, reason_severity_of, severity_from, raise_severity,
}

rank_injective : (a b : Severity) → severity_rank a ≡ severity_rank b → a ≡ b
unfolding severity_rank
rank_injective a b h = ground arith

abbrev pub rank_of : Policy → String → ℕ
rank_of p code = severity_rank (reason_severity_of p code)

severity_from_above :
    (p : Policy) (reasons : List String) (current : Severity)
    → (severity_rank current ≤ severity_rank (severity_from p current reasons))
      × All (λ code. rank_of p code ≤ severity_rank (severity_from p current reasons)) reasons
unfolding severity_from raise_severity
severity_from_above p [] current = (omega arith, tt)
severity_from_above p (code ∷ codes) current =
    let h = severity_from_above p codes (raise_severity current (reason_severity_of p code)) in
    (ground arith, (ground arith, h.1))

severity_from_attained :
    (p : Policy) (reasons : List String) (current : Severity)
    → (severity_from p current reasons ≡ current)
      ⊎ ((code : String) × (includes reasons code ≡ true)
          × (severity_from p current reasons ≡ reason_severity_of p code))
unfolding severity_from raise_severity includes
severity_from_attained p [] current = inl refl
severity_from_attained p (code ∷ codes) current =
    let next = reason_severity_of p code in
    elim (severity_from_attained p codes (raise_severity current next)) [
      | inl e ↦ elim (Bool-cases (ltb (severity_rank current) (severity_rank next))) [
        | inl r ↦ inr (code, rw (eq_refl code) refl, e ∙ ap (λ b. if b then next else current) r)
        | inr r ↦ inl (e ∙ ap (λ b. if b then next else current) r)
      ]
      | inr (found, m, e) ↦ inr (found, ground arith, e)
    ]

-- The severity of an intake is at least that of each of its reason codes, and it is INFO or that
-- of one of them: neither the order of the codes nor a repeated code matters.
pub compute_severity_highest :
    (p : Policy) (reasons : List String)
    → ((code : String)
        → includes reasons code ≡ true
        → rank_of p code ≤ severity_rank (compute_severity reasons p))
      × ((compute_severity reasons p ≡ info)
          ⊎ ((code : String) × (includes reasons code ≡ true)
              × (compute_severity reasons p ≡ reason_severity_of p code)))
unfolding compute_severity
compute_severity_highest p reasons = (
  λ code m.
      All-includes (λ c. rank_of p c ≤ severity_rank (severity_from p info reasons)) reasons code
        (severity_from_above p reasons info).1 m,
  severity_from_attained p reasons info,
)
