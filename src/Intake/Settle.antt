-- ===== src/Intake/Settle.antt =====
-- The loop of `buildIntakeDecisionV1` ends within three passes where at most 30 reasons begin it.
use weft_end.Prelude.{
  zero, subst, ℕ, suc, ◌+◌, ◌≤◌, String, ◌≡◌, ◌⊎◌, inl, inr, refl, Bool, true, false, ◌&&◌, ◌||◌,
  none, some, List, [], ◌∷◌, ◌++◌, length, length-append, arith, Option-cases, if◌then◌else◌,
  str_eq, eq_refl,
}
use weft_end.Text.{includes, is_non_empty}
use weft_end.Text.Sets.{includes-append}
use weft_end.Reasons.{is_reason}
use weft_end.Reasons.Whole.{includes-stable_sort_unique_reasons, length-stable_sort_unique_reasons}
use weft_end.Intake.Decide.{add_reason, loop_pass, settle_reasons}

abbrev oversize_code : String
oversize_code = "APPEAL_OVERSIZE"

abbrev required_code : String
required_code = "DISCLOSURE_REQUIRED"

includes-add_reason :
    (reasons : List String) (code a : String)
    → length reasons ≤ 31
    → includes reasons code ≡ false
    → includes (add_reason reasons code) a
      ≡ (is_reason false a && (includes reasons a || str_eq code a))
unfolding add_reason includes
includes-add_reason reasons code a h m = ground (
  arith,
  includes-stable_sort_unique_reasons (reasons ++ code ∷ []) none none a
      (omega (arith, length-append reasons (code ∷ []))),
  includes-append reasons (code ∷ []) a,
)

length-add_reason :
    (reasons : List String) (code : String)
    → length reasons ≤ 31
    → length (add_reason reasons code) ≤ suc (length reasons)
unfolding add_reason
length-add_reason reasons code h = ground (
  arith,
  length-append reasons (code ∷ []),
  length-stable_sort_unique_reasons (reasons ++ code ∷ []) none none
      (omega (arith, length-append reasons (code ∷ []))),
)

oversize_is_reason : is_reason false oversize_code ≡ true
unfolding is_reason is_non_empty
oversize_is_reason = refl

required_is_reason : is_reason false required_code ≡ true
unfolding is_reason is_non_empty
required_is_reason = refl

-- A pass adds one code that was missing, and keeps every code that counts.
abbrev Adds : List String → List String → String → Type 0
Adds reasons next code =
    (includes reasons code ≡ false)
    × (includes next code ≡ true)
    × (length next ≤ suc (length reasons))
    × ((a : String) → is_reason false a ≡ true → includes reasons a ≡ true → includes next a ≡ true)

add_reason-Adds :
    (reasons : List String) (code : String)
    → length reasons ≤ 31
    → is_reason false code ≡ true
    → includes reasons code ≡ false
    → Adds reasons (add_reason reasons code) code
add_reason-Adds reasons code h r m = (
  m,
  ground (arith, includes-add_reason reasons code code h m, eq_refl code),
  length-add_reason reasons code h,
  λ a ra ma. ground (arith, includes-add_reason reasons code a h m),
)

module _ (is_oversize is_blocked : List String → Bool) where
  pass_cases :
      (reasons next : List String)
      → loop_pass is_oversize is_blocked reasons ≡ some next
      → ((includes reasons oversize_code ≡ false) × (add_reason reasons oversize_code ≡ next))
        ⊎ ((includes reasons required_code ≡ false) × (add_reason reasons required_code ≡ next))
  unfolding loop_pass
  pass_cases reasons next e = ground arith

  pass-Adds :
      (reasons next : List String)
      → length reasons ≤ 31
      → loop_pass is_oversize is_blocked reasons ≡ some next
      → Adds reasons next oversize_code ⊎ Adds reasons next required_code
  pass-Adds reasons next h e = elim (pass_cases reasons next e) [
    | inl (m, p) ↦ inl (
        subst (λ r. Adds reasons r oversize_code) p
          (add_reason-Adds reasons oversize_code h oversize_is_reason m))
    | inr (m, p) ↦ inr (
        subst (λ r. Adds reasons r required_code) p
          (add_reason-Adds reasons required_code h required_is_reason m))
  ]

  -- Both tests of the loop are answered by their codes.
  abbrev pub Answers : List String → Type 0
  Answers reasons =
      (is_oversize reasons ≡ true → includes reasons oversize_code ≡ true)
      × (is_blocked reasons ≡ true → includes reasons required_code ≡ true)

  pass_none :
      (reasons : List String) → loop_pass is_oversize is_blocked reasons ≡ none → Answers reasons
  unfolding loop_pass
  pass_none reasons e = (λ o. ground arith, λ b. ground arith)

  -- How many of the two codes are missing.
  missing : List String → ℕ
  missing reasons =
      (if includes reasons oversize_code then 0 else 1)
      + (if includes reasons required_code then 0 else 1)

  pass_none_missing :
      (reasons next : List String)
      → loop_pass is_oversize is_blocked reasons ≡ some next
      → 1 ≤ missing reasons
  unfolding missing
  pass_none_missing reasons next e = let c = pass_cases reasons next e in ground arith

  Adds-missing :
      (reasons next : List String)
      → Adds reasons next oversize_code ⊎ Adds reasons next required_code
      → suc (missing next) ≤ missing reasons
  unfolding missing
  Adds-missing reasons next (inl a) =
      let keep = a.3 required_code required_is_reason in ground arith
  Adds-missing reasons next (inr a) =
      let keep = a.3 oversize_code oversize_is_reason in ground arith

  Adds-length :
      (reasons next : List String)
      → Adds reasons next oversize_code ⊎ Adds reasons next required_code
      → length next ≤ suc (length reasons)
  Adds-length reasons next (inl a) = a.2
  Adds-length reasons next (inr a) = a.2

  Adds-keep :
      (reasons next : List String) (a : String)
      → Adds reasons next oversize_code ⊎ Adds reasons next required_code
      → is_reason false a ≡ true
      → includes reasons a ≡ true
      → includes next a ≡ true
  Adds-keep reasons next a (inl d) = d.3 a
  Adds-keep reasons next a (inr d) = d.3 a

  -- Where the loop ends: both tests are answered, and no reason was lost on the way.
  abbrev pub Settles : ℕ → List String → Type 0
  Settles fuel reasons =
      (last : List String) × (settle_reasons fuel is_oversize is_blocked reasons ≡ some last)
      × Answers last
      × ((a : String)
          → is_reason false a ≡ true
          → includes reasons a ≡ true
          → includes last a ≡ true)

  settle_reasons-Settles :
      (fuel : ℕ) (reasons : List String)
      → missing reasons + 1 ≤ fuel
      → length reasons + missing reasons ≤ 32
      → Settles fuel reasons
  unfolding settle_reasons
  settle_reasons-Settles zero reasons f h = absurd (omega arith)
  settle_reasons-Settles (suc fuel) reasons f h =
      elim (Option-cases (loop_pass is_oversize is_blocked reasons)) [
        | inl e ↦ (reasons, rw (e, settle_reasons) refl, pass_none reasons e, λ a r m. m)
        | inr (next, e) ↦
            let one = pass_none_missing reasons next e in
            let adds = pass-Adds reasons next (omega arith) e in
            let fewer = Adds-missing reasons next adds in
            let longer = Adds-length reasons next adds in
            let (last, s, answers, keep) =
              settle_reasons-Settles fuel next (omega arith) (omega arith) in
            (
              last,
              rw (e, settle_reasons) s,
              answers,
              λ a r m. keep a r (Adds-keep reasons next a adds r m),
            )
      ]

  -- At most two codes are missing, so three passes are enough.
  pub settles : (reasons : List String) → length reasons ≤ 30 → Settles 3 reasons
  settles reasons h =
      let two : missing reasons ≤ 2 = unfold missing in ground arith in
      settle_reasons-Settles 3 reasons (omega arith) (omega arith)
