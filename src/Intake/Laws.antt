-- ===== src/Intake/Laws.antt =====
-- What `buildIntakeDecisionV1` answers: that it ends, the grade it gives, and its bounds.
use weft_end.Prelude.{
  ℕ, ◌≤◌, ◌<◌, String, ◌≡◌, ◌⊎◌, inl, inr, refl, ap, Bool, true, false, Option, none, some, List,
  [], ◌∷◌, length, arith, Bool-cases, All,
}
use weft_end.Text.{includes}
use weft_end.Text.Join.{join}
use weft_end.Text.Decimal.{units}
use weft_end.Bounds.{truncate_list_with_marker, truncate_text_with_marker}
use weft_end.Bounds.Laws.{truncate_text_bounds}
use weft_end.Reasons.{is_reason, stable_sort_unique_reasons, or_default}
use weft_end.Reasons.Whole.{includes-stable_sort_unique_reasons, length-stable_sort_unique_reasons}
use weft_end.Tartarus.{Severity}
use weft_end.Intake.{
  Policy, Action, Grade, ok_grade, warn_grade, deny_grade, quarantine_grade, canonicalize_policy,
  compute_severity, severity_rank, reason_severity_of, grade_from_severity, can_produce_disclosure,
}
use weft_end.Intake.Caps.{CapSummary, build_cap_summary}
use weft_end.Intake.Decide.{
  MintPackage, full_appeal, oversize_appeal, Outputs, IntakePort, disclosure_blocked,
  appeal_oversize, appeal_bytes, appeal_for,
}
use weft_end.Intake.Build.{
  build_intake_decision, outputs_of, first_reasons, disclosure_of, build_disclosure, to_ascii,
  unavailable_notice, blank_units, disclosure_lines,
}
use weft_end.Intake.Severities.{compute_severity_highest}
use weft_end.Intake.Settle.{settles}

-- The reasons that a package comes with.
abbrev pub given_reasons : MintPackage → List String
given_reasons mint = or_default [] mint.reason_codes

module _ (port : IntakePort) (mint : MintPackage) (policy : Policy) (script : Option String) where
  abbrev pub caps_of : CapSummary
  caps_of =
      build_cap_summary port.extract_domain mint.load_only mint.interaction_script
        mint.external_refs (canonicalize_policy policy).bounds.max_caps_items

  -- The reasons that the loop ends with.
  abbrev pub Ends : List String → Type 0
  Ends last =
      let p = canonicalize_policy policy in
      (appeal_oversize port mint p script last ≡ true → includes last "APPEAL_OVERSIZE" ≡ true)
      × (disclosure_blocked p last ≡ true → includes last "DISCLOSURE_REQUIRED" ≡ true)
      × ((a : String)
          → is_reason false a ≡ true
          → includes (given_reasons mint) a ≡ true
          → includes last a ≡ true)

  -- With at most 30 reason codes the function answers after at most three passes of its loop. The
  -- reasons behind the answer hold every given code that counts, APPEAL_OVERSIZE where the appeal
  -- is too long, and DISCLOSURE_REQUIRED where a required disclosure cannot be produced.
  pub build_intake_decision-Ends :
      length (given_reasons mint) ≤ 30
      → (last : List String) × (build_intake_decision 3 port mint policy script
          ≡ some (outputs_of port mint (canonicalize_policy policy) script last caps_of))
        × Ends last
  unfolding build_intake_decision first_reasons
  build_intake_decision-Ends h =
      let p = canonicalize_policy policy in
      let given = given_reasons mint in
      let first = stable_sort_unique_reasons given none none in
      let short = length-stable_sort_unique_reasons given none none (omega arith) in
      let (last, e, answers, keep) =
        settles (appeal_oversize port mint p script) (disclosure_blocked p) first (omega arith) in
      (
        last,
        ap
            (λ o. elim o as (λ _. Option Outputs) [
              | none ↦ none
              | some reasons ↦ some (outputs_of port mint p script reasons caps_of)
            ])
            e,
        (
          answers.0,
          answers.1,
          λ a r m.
              keep a r (
                ground
                  (arith, includes-stable_sort_unique_reasons given none none a (omega arith))),
        ),
      )

abbrev pub grade_rank : Grade → ℕ
grade_rank ok_grade = 0
grade_rank warn_grade = 1
grade_rank deny_grade = 2
grade_rank quarantine_grade = 3

grade_rank_lem : (s : Severity) → grade_rank (grade_from_severity s) ≡ severity_rank s
unfolding grade_from_severity severity_rank
grade_rank_lem s = ground arith

-- With at most 30 reason codes there is an answer, and its grade is at least the severity that the
-- policy gives to each of the codes that count: no reason is lost from the grade.
pub build_intake_decision_grade :
    (port : IntakePort) (mint : MintPackage) (policy : Policy) (script : Option String)
    → length (given_reasons mint) ≤ 30
    → (out : Outputs) × (build_intake_decision 3 port mint policy script ≡ some out)
      × ((code : String)
          → is_reason false code ≡ true
          → includes (given_reasons mint) code ≡ true
          → severity_rank (reason_severity_of (canonicalize_policy policy) code)
            ≤ grade_rank out.decision.grade)
unfolding outputs_of
build_intake_decision_grade port mint policy script h =
    let p = canonicalize_policy policy in
    let (last, e, ends) = build_intake_decision-Ends port mint policy script h in
    (
      outputs_of port mint p script last (caps_of port mint policy script),
      e,
      λ code r m.
          let above = (compute_severity_highest p last).0 code (ends.2 code r m) in
          omega (arith, grade_rank_lem (compute_severity last p)),
    )

length-to_ascii : (us : List ℕ) → length (to_ascii us) ≡ length us
unfolding to_ascii
length-to_ascii [] = refl
length-to_ascii (u ∷ us) = omega (arith, length-to_ascii us)

to_ascii-All : (us : List ℕ) → All (λ u. u < 128) (to_ascii us)
unfolding to_ascii
to_ascii-All [] = tt
to_ascii-All (u ∷ us) = (ground arith, to_ascii-All us)

length-truncate_text :
    (value : List ℕ) (limit : ℕ) → length (truncate_text_with_marker value limit).0 ≤ limit
length-truncate_text value limit = let h = truncate_text_bounds value limit in ground arith

length-build_disclosure :
    (p : Policy) (action : Action) (grade : Grade) (reasons : List String) (caps : CapSummary)
    → length (build_disclosure p action grade reasons caps) ≤ p.bounds.max_disclosure_chars
unfolding build_disclosure
length-build_disclosure p action grade reasons caps =
    let kept =
      (truncate_list_with_marker (disclosure_lines action grade reasons caps)
        p.disclosure.max_lines).0 in
    let text =
      (truncate_text_with_marker (units (join "\n" kept)) p.bounds.max_disclosure_chars).0 in
    omega (
      arith,
      length-to_ascii text,
      length-truncate_text (units (join "\n" kept)) p.bounds.max_disclosure_chars,
    )

build_disclosure_ascii :
    (p : Policy) (action : Action) (grade : Grade) (reasons : List String) (caps : CapSummary)
    → All (λ u. u < 128) (build_disclosure p action grade reasons caps)
unfolding build_disclosure
build_disclosure_ascii p action grade reasons caps = to_ascii-All _

unavailable_notice_full : (p : Policy) → blank_units (unavailable_notice p) ≡ false
unfolding unavailable_notice
unavailable_notice_full p =
    let notice =
      (truncate_text_with_marker (units "DISCLOSURE_REQUIRED_UNAVAILABLE")
        p.bounds.max_disclosure_chars).0 in
    let full : blank_units (units "DISCLOSURE_REQUIRED") ≡ false =
      unfold blank_units units in refl in
    elim (Bool-cases (blank_units notice)) [
      | inl e ↦ rw (e, unavailable_notice) full
      | inr e ↦ rw (e, unavailable_notice) e
    ]

-- Where a policy lets a disclosure be produced, what is disclosed has at most
-- `maxDisclosureChars` code units, and a required disclosure is ASCII. Where a required disclosure
-- cannot be produced, a notice that is not blank stands in its place.
pub disclosure_of_lem :
    (p : Policy) (action : Action) (grade : Grade) (required : Bool) (reasons : List String)
    (caps : CapSummary)
    → (can_produce_disclosure p ≡ true
        → length (disclosure_of p action grade required reasons caps)
          ≤ p.bounds.max_disclosure_chars)
      × (can_produce_disclosure p ≡ true
          → required ≡ true
          → All (λ u. u < 128) (disclosure_of p action grade required reasons caps))
      × (can_produce_disclosure p ≡ false
          → required ≡ true
          → blank_units (disclosure_of p action grade required reasons caps) ≡ false)
unfolding disclosure_of
disclosure_of_lem p action grade required reasons caps = ground (
  arith,
  length-build_disclosure p action grade reasons caps,
  build_disclosure_ascii p action grade reasons caps,
  length-truncate_text (units "DISCLOSURE_NOT_REQUIRED") p.bounds.max_disclosure_chars,
  unavailable_notice_full p,
)

-- An appeal is answered whole only where its JSON keeps the limit of the policy, and as its size
-- only where it does not.
pub outputs_of_appeal :
    (port : IntakePort) (mint : MintPackage) (p : Policy) (script : Option String)
    (reasons : List String) (caps : CapSummary)
    → let size = appeal_bytes port mint p script reasons in
      let out = outputs_of port mint p script reasons caps in
      ((size ≤ p.bounds.max_appeal_bytes)
        × (out.appeal ≡ full_appeal (appeal_for port mint p script reasons)))
      ⊎ ((p.bounds.max_appeal_bytes < size) × (out.appeal ≡ oversize_appeal size))
unfolding outputs_of appeal_oversize
outputs_of_appeal port mint p script reasons caps = ground arith
