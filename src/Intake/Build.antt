-- ===== src/Intake/Build.antt =====
-- src/runtime/examiner/intake_decision_v1.ts: `buildDisclosure` and `buildIntakeDecisionV1`.
use Prim.Native.String.{◌++◌ as str_append}
use weft_end.Prelude.{
  ℕ, String, Bool, true, ◌&&◌, Option, none, some, List, [], ◌∷◌, ◌++◌, str_eq, ltb, if◌then◌else◌,
}
use weft_end.Text.{is_space}
use weft_end.Text.Table.{Table}
use weft_end.Text.Join.{concat, join}
use weft_end.Text.Decimal.{decimal, units}
use weft_end.Bounds.{truncate_list_with_marker, truncate_text_with_marker}
use weft_end.Reasons.{or_default, stable_sort_unique_reasons}
use weft_end.Intake.{
  Policy, Action, approve, queue, reject, hold, Grade, ok_grade, warn_grade, deny_grade,
  quarantine_grade, canonicalize_policy, compute_severity, should_require_disclosure,
  can_produce_disclosure, action_for, grade_from_severity,
}
use weft_end.Intake.Caps.{Counts, CapSummary, build_cap_summary}
use weft_end.Intake.Decide.{
  MintPackage, AppealBundle, full_appeal, oversize_appeal, IntakeDecision, Outputs, IntakePort,
  settle_reasons, disclosure_blocked, top_codes, appeal_for, appeal_bytes, appeal_oversize,
}

abbrev action_name : Action → String
action_name approve = "APPROVE"
action_name queue = "QUEUE"
action_name reject = "REJECT"
action_name hold = "HOLD"

abbrev grade_name : Grade → String
grade_name ok_grade = "OK"
grade_name warn_grade = "WARN"
grade_name deny_grade = "DENY"
grade_name quarantine_grade = "QUARANTINE"

kind_entries : Table Counts → List String
kind_entries [] = []
kind_entries ((kind, c) ∷ rest) =
    concat (kind ∷ " a=" ∷ decimal c.attempted ∷ " d=" ∷ decimal c.denied ∷ []) ∷ kind_entries rest

-- A line of joined entries, where there are any.
line_of : String → List String → List String
line_of title [] = []
line_of title (x ∷ xs) = str_append title (join ", " (x ∷ xs)) ∷ []

-- The lines of `buildDisclosure`, before their bounds.
unfoldable pub disclosure_lines : Action → Grade → List String → CapSummary → List String
unfolding kind_entries line_of
disclosure_lines action grade reasons caps =
    let listed = join ", " reasons in
    let top = if str_eq listed "" then "none" else listed in
    let counts =
      concat
        ("Caps attempted: " ∷ decimal caps.attempted ∷ ", denied: " ∷ decimal caps.denied ∷ []) in
    str_append "Action: " (action_name action)
      ∷ str_append "Top reasons: " top
      ∷ str_append "Grade: " (grade_name grade)
      ∷ counts
      ∷ line_of "Caps by kind: " (kind_entries caps.by_kind)
    ++ line_of "Notable: " caps.notable

-- `replace(/[^\x00-\x7F]/g, "?")`, on code units.
unfoldable pub to_ascii : List ℕ → List ℕ
to_ascii [] = []
to_ascii (u ∷ us) = (if ltb u 128 then u else 63) ∷ to_ascii us

-- `buildDisclosure`: code units.
unfoldable pub build_disclosure : Policy → Action → Grade → List String → CapSummary → List ℕ
build_disclosure p action grade reasons caps =
    let kept =
      (truncate_list_with_marker (disclosure_lines action grade reasons caps)
        p.disclosure.max_lines).0 in
    to_ascii (truncate_text_with_marker (units (join "\n" kept)) p.bounds.max_disclosure_chars).0

-- No code unit but white space.
unfoldable pub blank_units : List ℕ → Bool
blank_units [] = true
blank_units (u ∷ us) = is_space u && blank_units us

-- The notice for a disclosure that is required and cannot be produced.
unfoldable pub unavailable_notice : Policy → List ℕ
unfolding blank_units
unavailable_notice p =
    let notice =
      (truncate_text_with_marker (units "DISCLOSURE_REQUIRED_UNAVAILABLE")
        p.bounds.max_disclosure_chars).0 in
    if blank_units notice then units "DISCLOSURE_REQUIRED" else notice

-- The disclosure of a decision: built, a notice, or nothing.
unfoldable pub disclosure_of : Policy → Action → Grade → Bool → List String → CapSummary → List ℕ
disclosure_of p action grade required reasons caps =
    let not_required =
      (truncate_text_with_marker (units "DISCLOSURE_NOT_REQUIRED")
        p.bounds.max_disclosure_chars).0 in
    if required && can_produce_disclosure p
    then build_disclosure p action grade reasons caps
    else if required
    then unavailable_notice p
    else if can_produce_disclosure p
    then not_required
    else []

abbrev zero_digest : String
zero_digest = "sha256:0000000000000000000000000000000000000000000000000000000000000000"

-- What `buildIntakeDecisionV1` answers after its loop, under a canonical policy.
unfoldable pub outputs_of :
    IntakePort → MintPackage → Policy → Option String → List String → CapSummary → Outputs
outputs_of port mint p script reasons caps =
    let severity = compute_severity reasons p in
    let action = action_for severity p in
    let grade = grade_from_severity severity in
    let required = should_require_disclosure severity p in
    let disclosure = disclosure_of p action grade required (top_codes p reasons) caps in
    let appeal : AppealBundle =
      if appeal_oversize port mint p script reasons
      then oversize_appeal (appeal_bytes port mint p script reasons)
      else full_appeal (appeal_for port mint p script reasons) in
    let unsigned : IntakeDecision = record {
      profile = p.profile;
      policy_id = port.policy_id p;
      artifact_id = mint.root_digest;
      mint_id = mint.mint_digest;
      grade = grade;
      action = action;
      top_reason_codes = top_codes p reasons;
      cap_summary = caps;
      disclosure_digest = port.digest_units disclosure;
      appeal_digest = port.digest (port.appeal_json appeal);
      decision_digest = zero_digest;
    } in
    record {
      decision = record unsigned { decision_digest = port.decision_digest unsigned };
      disclosure = disclosure;
      appeal = appeal;
    }

-- The reasons with which the loop begins.
unfoldable pub first_reasons : MintPackage → List String
first_reasons mint = stable_sort_unique_reasons (or_default [] mint.reason_codes) none none

-- `buildIntakeDecisionV1`, with fuel for the passes of its loop.
unfoldable pub build_intake_decision :
    ℕ → IntakePort → MintPackage → Policy → Option String → Option Outputs
build_intake_decision fuel port mint policy script =
    let p = canonicalize_policy policy in
    let caps =
      build_cap_summary port.extract_domain mint.load_only mint.interaction_script
        mint.external_refs p.bounds.max_caps_items in
    let settled =
      settle_reasons fuel (appeal_oversize port mint p script) (disclosure_blocked p)
        (first_reasons mint) in
    elim settled [ none ↦ none | some reasons ↦ some (outputs_of port mint p script reasons caps) ]
