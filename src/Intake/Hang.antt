-- ===== src/Intake/Hang.antt =====
-- A package and a policy under which the loop of `buildIntakeDecisionV1` does not end. Its 31
-- reason codes come before APPEAL_OVERSIZE and DISCLOSURE_REQUIRED, and the bound of 32 codes cuts both
-- off again: each pass that adds one of them takes the other away.
use weft_end.Prelude.{
  Bool-cases, inl, inr, Bool, false, ℕ, zero, suc, String, ◌≡◌, refl, true, Option, none, some,
  List, [], ◌∷◌, ◌++◌, ap, ◌∙◌,
}
use weft_end.Text.{includes, cmp_str, is_non_empty}
use weft_end.Sort.{sort}
use weft_end.Reasons.{
  stable_sort_unique_reasons, normalize_reason_codes, normalize_reason_array, bound_reasons,
  reason_limit, truncate_reasons, format_truncation_reason, collect, is_reason, cmp_reason,
  reason_key,
}
use weft_end.Intake.{Policy, canonicalize_policy}
use weft_end.Intake.Caps.{build_cap_summary}
use weft_end.Intake.Build.{build_intake_decision, first_reasons, outputs_of}
use weft_end.Intake.Decide.{
  IntakePort, MintPackage, Outputs, appeal_oversize, disclosure_blocked, add_reason, loop_pass,
  settle_reasons,
}

-- 31 codes: "A00" to "A30".
abbrev pub early_codes : List String
early_codes =
    "A00" ∷ "A01" ∷ "A02" ∷ "A03" ∷ "A04" ∷ "A05" ∷ "A06" ∷ "A07" ∷ "A08" ∷ "A09" ∷ "A10" ∷ "A11"
    ∷ "A12" ∷ "A13" ∷ "A14" ∷ "A15" ∷ "A16" ∷ "A17" ∷ "A18" ∷ "A19" ∷ "A20" ∷ "A21" ∷ "A22" ∷ "A23"
    ∷ "A24" ∷ "A25" ∷ "A26" ∷ "A27" ∷ "A28" ∷ "A29" ∷ "A30" ∷ []

abbrev pub cut_codes : List String
cut_codes = early_codes ++ "TRUST_REASONS_TRUNCATED:kept=31,dropped=2" ∷ []

abbrev pub oversize_codes : List String
oversize_codes = early_codes ++ "APPEAL_OVERSIZE" ∷ []

add_to_cut : add_reason cut_codes "APPEAL_OVERSIZE" ≡ oversize_codes
unfolding add_reason includes stable_sort_unique_reasons normalize_reason_codes
    normalize_reason_array bound_reasons reason_limit truncate_reasons format_truncation_reason
    collect is_reason cmp_reason reason_key cmp_str is_non_empty sort weft_end.Text.Decimal.decimal
add_to_cut = refl

add_to_oversize : add_reason oversize_codes "DISCLOSURE_REQUIRED" ≡ cut_codes
unfolding add_reason includes stable_sort_unique_reasons normalize_reason_codes
    normalize_reason_array bound_reasons reason_limit truncate_reasons format_truncation_reason
    collect is_reason cmp_reason reason_key cmp_str is_non_empty sort weft_end.Text.Decimal.decimal
add_to_oversize = refl

add_to_early : add_reason early_codes "APPEAL_OVERSIZE" ≡ oversize_codes
unfolding add_reason includes stable_sort_unique_reasons normalize_reason_codes
    normalize_reason_array bound_reasons reason_limit collect is_reason cmp_reason reason_key
    cmp_str is_non_empty sort
add_to_early = refl

early_sorted : stable_sort_unique_reasons early_codes none none ≡ early_codes
unfolding stable_sort_unique_reasons normalize_reason_codes normalize_reason_array bound_reasons
    reason_limit collect is_reason cmp_reason reason_key cmp_str is_non_empty sort includes
early_sorted = refl

missing_early : includes early_codes "APPEAL_OVERSIZE" ≡ false
unfolding includes
missing_early = refl

missing_cut : includes cut_codes "APPEAL_OVERSIZE" ≡ false
unfolding includes
missing_cut = refl

missing_required : includes oversize_codes "DISCLOSURE_REQUIRED" ≡ false
unfolding includes
missing_required = refl

has_oversize : includes oversize_codes "APPEAL_OVERSIZE" ≡ true
unfolding includes
has_oversize = refl

module _ (is_oversize is_blocked : List String → Bool)
    (oversize_early : is_oversize early_codes ≡ true) (oversize_cut : is_oversize cut_codes ≡ true)
    (blocked_oversize : is_blocked oversize_codes ≡ true) where
  pass_early : loop_pass is_oversize is_blocked early_codes ≡ some oversize_codes
  unfolding loop_pass
  pass_early = rw (oversize_early, missing_early, add_to_early, loop_pass) refl

  pass_cut : loop_pass is_oversize is_blocked cut_codes ≡ some oversize_codes
  unfolding loop_pass
  pass_cut = rw (oversize_cut, missing_cut, add_to_cut, loop_pass) refl

  pass_oversize : loop_pass is_oversize is_blocked oversize_codes ≡ some cut_codes
  unfolding loop_pass
  pass_oversize = elim (Bool-cases (is_oversize oversize_codes)) [
    | inl e ↦
        rw (has_oversize, missing_required, blocked_oversize, add_to_oversize, e, loop_pass) refl
    | inr e ↦
        rw (has_oversize, missing_required, blocked_oversize, add_to_oversize, e, loop_pass) refl
  ]

  cycle :
      (fuel : ℕ)
      → (settle_reasons fuel is_oversize is_blocked cut_codes ≡ none)
        × (settle_reasons fuel is_oversize is_blocked oversize_codes ≡ none)
  unfolding settle_reasons
  cycle zero = (refl, refl)
  cycle (suc fuel) =
      let (c, o) = cycle fuel in
      (rw (pass_cut, settle_reasons) o, rw (pass_oversize, settle_reasons) c)

  settle_hangs : (fuel : ℕ) → settle_reasons fuel is_oversize is_blocked early_codes ≡ none
  unfolding settle_reasons
  settle_hangs zero = refl
  settle_hangs (suc fuel) = rw (pass_early, settle_reasons) (cycle fuel).1

-- For a package with the 31 reason codes "A00" to "A30", where the appeal is too long for the policy
-- both with those codes and with the marker of the bound, and where the disclosure is blocked with
-- APPEAL_OVERSIZE among the codes, the loop never ends: no number of passes gives an answer.
pub build_intake_decision_hangs :
    (port : IntakePort) (mint : MintPackage) (policy : Policy) (script : Option String) (fuel : ℕ)
    → mint.reason_codes ≡ some early_codes
    → appeal_oversize port mint (canonicalize_policy policy) script early_codes ≡ true
    → appeal_oversize port mint (canonicalize_policy policy) script cut_codes ≡ true
    → disclosure_blocked (canonicalize_policy policy) oversize_codes ≡ true
    → build_intake_decision fuel port mint policy script ≡ none
unfolding build_intake_decision first_reasons
build_intake_decision_hangs port mint policy script fuel e early cut blocked =
    let p = canonicalize_policy policy in
    let first : first_reasons mint ≡ early_codes = rw e early_sorted in
    let settled =
      ap (settle_reasons fuel (appeal_oversize port mint p script) (disclosure_blocked p)) first
      ∙ settle_hangs (appeal_oversize port mint p script) (disclosure_blocked p) early cut blocked
          fuel in
    ap
      (λ o. elim o as (λ _. Option Outputs) [
        | none ↦ none
        | some reasons ↦ some (
            outputs_of port mint p script reasons (
              build_cap_summary port.extract_domain mint.load_only mint.interaction_script
                mint.external_refs p.bounds.max_caps_items))
      ])
      settled
