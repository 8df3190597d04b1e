-- ===== src/Tests/Intake.antt =====
-- The intake decision.
use weft_end.Prelude.{◌≤◌, String, ◌≡◌, refl, true, false, none, some, List, [], ◌∷◌, length, arith}
use weft_end.Text.{includes, is_non_empty}
use weft_end.Text.Table.{get, set}
use weft_end.Text.Join.{trim, trim_end, trim_start}
use weft_end.Sort.{sort}
use weft_end.Reasons.{is_reason}
use weft_end.Reasons.Detail.{utf8_byte_length}
use weft_end.Tartarus.{deny}
use weft_end.Intake.{
  Policy, web, approve, queue, reject, hold, canonicalize_policy, canonical_severities,
  compute_severity, reason_severity_of, severity_rank, can_produce_disclosure,
  should_require_disclosure, default_severity,
}
use weft_end.Intake.Caps.{Probe, CapSummary}
use weft_end.Intake.Decide.{
  MintPackage, IntakePort, Outputs, appeal_oversize, appeal_bytes, disclosure_blocked,
}
use weft_end.Intake.Build.{build_intake_decision, outputs_of}
use weft_end.Intake.Laws.{
  given_reasons, build_intake_decision-Ends, build_intake_decision_grade, caps_of, Ends, grade_rank,
}
use weft_end.Intake.Hang.{early_codes, cut_codes, oversize_codes, build_intake_decision_hangs}

abbrev port : IntakePort
port = record {
  digest = λ s. "d";
  digest_units = λ us. "u";
  policy_id = λ p. "policy";
  appeal_json = λ a. "{}";
  decision_digest = λ d. d.artifact_id;
  extract_domain = λ url. none;
}

abbrev probe : Probe
probe = record {
  attempted_caps = some (("net.fetch", 2) ∷ ("fs.read", 1) ∷ []);
  denied_caps = some (("net.fetch", 2) ∷ []);
}

abbrev mint_of : List String → MintPackage
mint_of codes = record {
  root_digest = "root";
  mint_digest = "mint";
  reason_codes = some codes;
  receipts = some "r2" ∷ none ∷ some "r1" ∷ [];
  load_only = probe;
  interaction_script = none;
  external_refs = "https://example.org/x" ∷ [];
}

-- Neither an appeal nor a disclosure is allowed, and each code is denied by its default or override.
abbrev closed_policy : Policy
closed_policy = record {
  profile = web;
  reason_severity = (" A00 ", deny) ∷ [];
  severity_action = record {
    on_info = approve;
    on_warn = queue;
    on_deny = reject;
    on_quarantine = hold;
  };
  disclosure = record { require_on_warn = true; require_on_deny = true; max_lines = 0 };
  bounds = record {
    max_reason_codes = 4;
    max_caps_items = 4;
    max_disclosure_chars = 0;
    max_appeal_bytes = 1;
  };
}

abbrev two_codes : List String
two_codes = "CAP_DENY_NET" ∷ "A00" ∷ []

abbrev small : MintPackage
small = mint_of two_codes

few : length (given_reasons small) ≤ 30
few = omega arith

build_intake_decision-Ends_example :
    (last : List String) × (build_intake_decision 3 port small closed_policy none
      ≡ some (
          outputs_of port small
            (canonicalize_policy closed_policy)
            none
            last
            (caps_of port small closed_policy none)))
    × Ends port small closed_policy none last
build_intake_decision-Ends_example = build_intake_decision-Ends port small closed_policy none few

build_intake_decision_grade_example :
    (out : Outputs) × (build_intake_decision 3 port small closed_policy none ≡ some out)
    × ((code : String)
        → is_reason false code ≡ true
        → includes (given_reasons small) code ≡ true
        → severity_rank (reason_severity_of (canonicalize_policy closed_policy) code)
          ≤ grade_rank out.decision.grade)
build_intake_decision_grade_example = build_intake_decision_grade port small closed_policy none few

abbrev no_caps : CapSummary
no_caps = record { denied = 0; attempted = 0; by_kind = []; notable = [] }

abbrev open_policy : Policy
open_policy = record closed_policy {
  disclosure = record { require_on_warn = true; require_on_deny = true; max_lines = 3 };
  bounds = record {
    max_reason_codes = 4;
    max_caps_items = 4;
    max_disclosure_chars = 20;
    max_appeal_bytes = 1;
  };
}

too_long :
    (codes : List String)
    → appeal_oversize port (mint_of early_codes) (canonicalize_policy closed_policy) none codes
      ≡ true
unfolding appeal_oversize appeal_bytes utf8_byte_length canonicalize_policy
too_long codes = refl

blocked : disclosure_blocked (canonicalize_policy closed_policy) oversize_codes ≡ true
unfolding disclosure_blocked canonicalize_policy canonical_severities trim compute_severity
    reason_severity_of default_severity severity_rank should_require_disclosure
    can_produce_disclosure get set is_non_empty sort trim_end trim_start
blocked = refl

build_intake_decision_hangs_example :
    build_intake_decision 1000 port (mint_of early_codes) closed_policy none ≡ none
build_intake_decision_hangs_example =
    build_intake_decision_hangs port (mint_of early_codes) closed_policy none 1000 refl
      (too_long early_codes) (too_long cut_codes) blocked
