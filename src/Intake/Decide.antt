-- ===== src/Intake/Decide.antt =====
-- src/runtime/examiner/intake_decision_v1.ts: `buildIntakeDecisionV1`. The digests
-- (`sha256HexV0`, the policy's and the decision's), the canonical JSON of an appeal and
-- `extractDomain` are parameters. The loop of the function is `settle_reasons` on fuel, which answers
-- nothing when the fuel runs out.
use weft_end.Prelude.{
  ℕ, zero, suc, String, Bool, not, ◌&&◌, Option, none, some, List, [], ◌∷◌, ◌++◌, str_eq, ltb,
  if◌then◌else◌,
}
use weft_end.Text.{cmp_str, includes}
use weft_end.Text.Join.{trim}
use weft_end.Sort.{sort}
use weft_end.Bounds.{truncate_list_with_marker}
use weft_end.Reasons.{stable_sort_unique_reasons}
use weft_end.Reasons.Detail.{utf8_byte_length}
use weft_end.Intake.{
  Profile, Policy, Action, Grade, compute_severity, should_require_disclosure,
  can_produce_disclosure,
}
use weft_end.Intake.Caps.{Probe, CapSummary}

-- What the decision reads of `WeftendMintPackageV1`.
pub record MintPackage : Type 0 where
  pub root_digest : String
  pub mint_digest : String
  pub reason_codes : Option (List String)
  pub receipts : List (Option String)
  pub load_only : Probe
  pub interaction_script : Option Probe
  pub external_refs : List String

pub record Appeal : Type 0 where
  pub policy_id : String
  pub artifact_id : String
  pub mint_id : String
  pub top_reason_codes : List String
  pub receipt_digests : List String
  pub probe_script_digest : Option String

-- `IntakeAppealBundleV1`.
pub data AppealBundle : Type 0 where
  full_appeal : Appeal → AppealBundle
  oversize_appeal : ℕ → AppealBundle

-- `IntakeDecisionV1`.
pub record IntakeDecision : Type 0 where
  pub profile : Profile
  pub policy_id : String
  pub artifact_id : String
  pub mint_id : String
  pub grade : Grade
  pub action : Action
  pub top_reason_codes : List String
  pub cap_summary : CapSummary
  pub disclosure_digest : String
  pub appeal_digest : String
  pub decision_digest : String

pub record Outputs : Type 0 where
  pub decision : IntakeDecision
  pub disclosure : List ℕ
  pub appeal : AppealBundle

-- The functions that the model takes as given.
pub record IntakePort : Type 0 where
  pub digest : String → String
  pub digest_units : List ℕ → String
  pub policy_id : Policy → String
  pub appeal_json : AppealBundle → String
  pub decision_digest : IntakeDecision → String
  pub extract_domain : String → Option String

-- `addReason`.
unfoldable pub add_reason : List String → String → List String
add_reason reasons code =
    if includes reasons code
    then reasons
    else stable_sort_unique_reasons (reasons ++ code ∷ []) none none

-- One pass of the loop: the reasons of the next pass, or `none` when the loop ends.
-- `is_oversize` and `is_blocked` are its two tests.
unfoldable pub loop_pass :
    (List String → Bool) → (List String → Bool) → List String → Option (List String)
loop_pass is_oversize is_blocked reasons =
    if is_oversize reasons && not (includes reasons "APPEAL_OVERSIZE")
    then some (add_reason reasons "APPEAL_OVERSIZE")
    else if is_blocked reasons && not (includes reasons "DISCLOSURE_REQUIRED")
    then some (add_reason reasons "DISCLOSURE_REQUIRED")
    else none

-- The loop, with fuel for the number of passes.
unfoldable pub settle_reasons :
    ℕ → (List String → Bool) → (List String → Bool) → List String → Option (List String)
settle_reasons zero is_oversize is_blocked reasons = none
settle_reasons (suc fuel) is_oversize is_blocked reasons =
    elim (loop_pass is_oversize is_blocked reasons) [
      | none ↦ some reasons
      | some next ↦ settle_reasons fuel is_oversize is_blocked next
    ]

-- Disclosure is required and cannot be produced.
unfoldable pub disclosure_blocked : Policy → List String → Bool
disclosure_blocked p reasons =
    should_require_disclosure (compute_severity reasons p) p && not (can_produce_disclosure p)

given_digests : List (Option String) → List String
given_digests [] = []
given_digests (none ∷ ds) = given_digests ds
given_digests (some d ∷ ds) = let rest = given_digests ds in if str_eq d "" then rest else d ∷ rest

-- `buildAppealPayload`, on the script of the options.
unfoldable pub build_appeal_payload :
    IntakePort → MintPackage → String → List String → ℕ → Option String → Appeal
unfolding given_digests
build_appeal_payload port mint policy_id top_reason_codes max_items script = record {
  policy_id = policy_id;
  artifact_id = mint.root_digest;
  mint_id = mint.mint_digest;
  top_reason_codes = top_reason_codes;
  receipt_digests =
      (truncate_list_with_marker (sort cmp_str (given_digests mint.receipts)) max_items).0;
  probe_script_digest = elim script [
    | none ↦ none
    | some text ↦ if str_eq (trim text) "" then none else some (port.digest text)
  ];
}

-- `topReasonCodes`.
unfoldable pub top_codes : Policy → List String → List String
top_codes p reasons = (truncate_list_with_marker reasons p.bounds.max_reason_codes).0

-- The appeal for some reasons.
unfoldable pub appeal_for : IntakePort → MintPackage → Policy → Option String → List String → Appeal
appeal_for port mint p script reasons =
    build_appeal_payload port mint (port.policy_id p) (top_codes p reasons) p.bounds.max_caps_items
      script

-- `appealBytes`.
unfoldable pub appeal_bytes : IntakePort → MintPackage → Policy → Option String → List String → ℕ
appeal_bytes port mint p script reasons =
    utf8_byte_length (port.appeal_json (full_appeal (appeal_for port mint p script reasons)))

unfoldable pub appeal_oversize :
    IntakePort → MintPackage → Policy → Option String → List String → Bool
appeal_oversize port mint p script reasons =
    ltb p.bounds.max_appeal_bytes (appeal_bytes port mint p script reasons)
