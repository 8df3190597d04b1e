-- ===== src/Tests/Store.antt =====
-- Incidents and the artifact store.
use weft_end.Prelude.{
  String, ◌≡◌, refl, true, none, some, List, [], ◌∷◌, str_eq, arith, ◌≤◌, if◌then◌else◌,
}
use weft_end.Text.{includes}
use weft_end.Text.Sets.{SameSet}
use weft_end.Text.Table.{get, set}
use weft_end.Reasons.{or_default, max_reasons_per_block}
use weft_end.Tartarus.{ViolationInput, RecordSansId, classify_violation}
use weft_end.Tartarus.Laws.{classify_violation_unique}
use weft_end.Store.{
  StoreEvent, put_call, corrupt, store_run, store_step, new_store, put, read, recover,
}
use weft_end.Store.Laws.{value_of, store_read_sound}

-- A digest that tells two contents apart.
abbrev digest : String → String
digest c = if str_eq c "good" then "d1" else "d2"

abbrev record_digest : RecordSansId → String
record_digest body = body.kind

abbrev violation : ViolationInput
violation = record {
  plan_digest = "plan";
  block_hash = "block";
  reason_codes = some ("TIER_VIOLATION" ∷ "STAMP_MISSING" ∷ "TIER_VIOLATION" ∷ []);
  evidence_digests = some ("e2" ∷ "e1" ∷ []);
  cap_id = none;
  kind_hint = some "cap.replay";
  stamp_digest = none;
  seq = some 4;
}

abbrev codes : List String
codes = "STAMP_MISSING" ∷ "TIER_VIOLATION" ∷ []

abbrev evidence : List String
evidence = "e1" ∷ "e2" ∷ "e1" ∷ []

same_codes : SameSet (or_default [] violation.reason_codes) codes
unfolding includes
same_codes a = ground arith

same_evidence : SameSet (or_default [] violation.evidence_digests) evidence
unfolding includes
same_evidence a = ground arith

classify_violation_unique_example :
    classify_violation record_digest violation
    ≡ classify_violation record_digest
        (record violation { reason_codes = some codes; evidence_digests = some evidence })
classify_violation_unique_example =
    classify_violation_unique record_digest violation codes evidence same_codes same_evidence

few : 3 ≤ max_reasons_per_block
few = omega arith

has_stamp :
    includes ("TIER_VIOLATION" ∷ "STAMP_MISSING" ∷ "TIER_VIOLATION" ∷ []) "STAMP_MISSING" ≡ true
unfolding includes
has_stamp = refl

abbrev events : List StoreEvent
events = put_call "d1" "good" ∷ corrupt "d1" "bad" ∷ put_call "d1" "bad" ∷ []

restored_value :
    value_of
      (read digest record_digest (store_run digest record_digest (new_store "p" "b") events) "d1").1
    ≡ some "good"
unfolding read store_run store_step new_store put get set recover
    weft_end.Reasons.checkpoint_eq_or_reason
restored_value = refl

store_read_sound_example : digest "good" ≡ "d1"
store_read_sound_example =
    store_read_sound digest record_digest "p" "b" "d1" "good" events restored_value
