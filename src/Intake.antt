-- ===== src/Intake.antt =====
-- src/core/intake_policy_v1.ts and src/runtime/examiner/intake_decision_v1.ts: the policy of an
-- intake and the severity of its reason codes. The children have the capability summary (`Caps`)
-- and the decision (`Decide`). Limits are natural numbers, on which `Math.max(0, Math.floor(n))`
-- is `n`, and the part of a policy about capabilities (`capsPolicy`) is left out: only the digest of
-- the policy depends on it.
pub mod Caps
pub mod Decide
pub mod Severities
pub mod Settle
pub mod Build
pub mod Laws
pub mod Hang
use text.Mathlib.Text.{starts_with}
use weft_end.Prelude.{
  ℕ, Ordering, String, Bool, true, false, ◌&&◌, ◌||◌, Option, none, some, List, [], ◌∷◌, str_eq,
  ltb, if◌then◌else◌,
}
use weft_end.Text.{cmp_str}
use weft_end.Text.Table.{Table, get, set}
use weft_end.Text.Join.{trim}
use weft_end.Sort.{sort}
use weft_end.Reasons.{or_default}
use weft_end.Tartarus.{Severity, info, warn, deny, quarantine}

pub data Profile : Type 0 where
  web mod_profile plugin release : Profile

pub data Action : Type 0 where
  approve queue reject hold : Action

pub record SeverityActions : Type 0 where
  pub on_info : Action
  pub on_warn : Action
  pub on_deny : Action
  pub on_quarantine : Action

pub record DisclosurePolicy : Type 0 where
  pub require_on_warn : Bool
  pub require_on_deny : Bool
  pub max_lines : ℕ

pub record PolicyBounds : Type 0 where
  pub max_reason_codes : ℕ
  pub max_caps_items : ℕ
  pub max_disclosure_chars : ℕ
  pub max_appeal_bytes : ℕ

-- `WeftEndPolicyV1`.
pub record Policy : Type 0 where
  pub profile : Profile
  pub reason_severity : Table Severity
  pub severity_action : SeverityActions
  pub disclosure : DisclosurePolicy
  pub bounds : PolicyBounds

cmp_key : String × Severity → String × Severity → Ordering
cmp_key a b = cmp_str a.0 b.0

put_trimmed : List (String × Severity) → Table Severity → Table Severity
put_trimmed [] t = t
put_trimmed ((k, v) ∷ rest) t =
    put_trimmed rest (if str_eq (trim k) "" then t else set t (trim k) v)

-- The overrides under trimmed keys, set in the order of the keys.
unfoldable pub canonical_severities : Table Severity → Table Severity
unfolding put_trimmed cmp_key
canonical_severities t = put_trimmed (sort cmp_key t) []

-- `canonicalizeWeftEndPolicyV1`.
unfoldable pub canonicalize_policy : Policy → Policy
canonicalize_policy p = record p { reason_severity = canonical_severities p.reason_severity }

unfoldable pub severity_rank : Severity → ℕ
severity_rank info = 0
severity_rank warn = 1
severity_rank deny = 2
severity_rank quarantine = 3

pub data Grade : Type 0 where
  ok_grade warn_grade deny_grade quarantine_grade : Grade

-- `gradeFromSeverity`.
unfoldable pub grade_from_severity : Severity → Grade
grade_from_severity info = ok_grade
grade_from_severity warn = warn_grade
grade_from_severity deny = deny_grade
grade_from_severity quarantine = quarantine_grade

-- `defaultSeverityForReason`.
unfoldable pub default_severity : String → Profile → Severity
default_severity code profile =
    let net : Severity = elim profile [ mod_profile ↦ deny | _ ↦ warn ] in
    if str_eq code "APPEAL_OVERSIZE"
    then deny
    else if str_eq code "DISCLOSURE_REQUIRED"
    then deny
    else if str_eq code "EVIDENCE_DIGEST_MISMATCH"
    then quarantine
    else if str_eq code "RELEASE_SIGNATURE_BAD"
    then quarantine
    else if str_eq code "HISTORY_LINK_MISMATCH"
    then quarantine
    else if str_eq code "STRICT_COMPARTMENT_UNAVAILABLE"
    then deny
    else if starts_with code "CAPTURE_INPUT_"
    then deny
    else if str_eq code "ZIP_EOCD_MISSING" || str_eq code "ZIP_CD_CORRUPT"
    then deny
    else if str_eq code "CAP_DENY_STORAGE"
    then warn
    else if str_eq code "CAP_DENY_NET"
    then net
    else if starts_with code "CAP_DENY_"
    then warn
    else info

-- The override of the policy, else the default.
unfoldable pub reason_severity_of : Policy → String → Severity
reason_severity_of p code =
    or_default (default_severity code p.profile) (get p.reason_severity code)

raise_severity : Severity → Severity → Severity
raise_severity current next =
    if ltb (severity_rank current) (severity_rank next) then next else current

severity_from : Policy → Severity → List String → Severity
unfolding raise_severity
severity_from p current [] = current
severity_from p current (code ∷ codes) =
    severity_from p (raise_severity current (reason_severity_of p code)) codes

-- `computeSeverity`.
unfoldable pub compute_severity : List String → Policy → Severity
unfolding severity_from
compute_severity reasons p = severity_from p info reasons

-- `shouldRequireDisclosure`.
unfoldable pub should_require_disclosure : Severity → Policy → Bool
should_require_disclosure info p = false
should_require_disclosure warn p = p.disclosure.require_on_warn
should_require_disclosure deny p = p.disclosure.require_on_deny
should_require_disclosure quarantine p = p.disclosure.require_on_deny

-- `canProduceDisclosure`.
unfoldable pub can_produce_disclosure : Policy → Bool
can_produce_disclosure p = ltb 0 p.disclosure.max_lines && ltb 0 p.bounds.max_disclosure_chars

-- `policy.severityAction[severity]`.
unfoldable pub action_for : Severity → Policy → Action
action_for info p = p.severity_action.on_info
action_for warn p = p.severity_action.on_warn
action_for deny p = p.severity_action.on_deny
action_for quarantine p = p.severity_action.on_quarantine
