-- ===== src/Tartarus/Laws.antt =====
-- What the classification of incidents keeps: determinism, and no record below DENY.
use weft_end.Prelude.{
  str_eq, All, ◌≤◌, String, ◌≡◌, refl, ◌∙◌, ap, ap₂, true, ◌⊎◌, inl, inr, Option, some, List, [],
  ◌∷◌, map, length, arith, Bool-cases,
}
use weft_end.Text.{includes, is_non_empty}
use weft_end.Text.Sets.{SameSet}
use weft_end.Reasons.{
  string, is_reason, stable_sort_unique_reasons, max_reasons_per_block, or_default,
}
use weft_end.Reasons.Collect.{texts-map}
use weft_end.Reasons.Normal.{stable_sort_unique_strings_unique}
use weft_end.Reasons.Whole.{includes-stable_sort_unique_reasons, stable_sort_unique_reasons_unique}
use weft_end.Tartarus.{
  Remedy, switch_kind, kind_cases, record_of, Severity, deny, quarantine, contact_shop,
  ViolationInput, RecordSansId, map_kind, kind_of, coded_kind, classify_violation, truthy,
}

abbrev pub Closed : Severity → Type 0
Closed severity = (severity ≡ deny) ⊎ (severity ≡ quarantine)

switch_kind-Closed :
    (cases : List (String × (Severity × Remedy))) (kind : String)
    → All (λ c. Closed c.1.0) cases
    → Closed (switch_kind cases kind).0
unfolding switch_kind
switch_kind-Closed [] kind h = inl refl
switch_kind-Closed ((k, mapped) ∷ rest) kind h = elim (Bool-cases (str_eq kind k)) [
  | inl e ↦ rw e h.0
  | inr e ↦ rw e (switch_kind-Closed rest kind h.1)
]

-- No incident is recorded below DENY, whatever codes, hint or capability it comes with.
pub classify_violation-Closed :
    (record_digest : RecordSansId → String) (input : ViolationInput)
    → Closed (classify_violation record_digest input).body.severity
unfolding classify_violation record_of map_kind
classify_violation-Closed record_digest input = switch_kind-Closed kind_cases _ (ground arith)

-- Two violations whose reason codes and whose evidence digests are the same sets, in whatever order
-- and however often, and that agree in everything else, give the same record and identifier.
pub classify_violation_unique :
    (record_digest : RecordSansId → String) (input : ViolationInput) (codes evidence : List String)
    → SameSet (or_default [] input.reason_codes) codes
    → SameSet (or_default [] input.evidence_digests) evidence
    → classify_violation record_digest input
      ≡ classify_violation record_digest
          (record input { reason_codes = some codes; evidence_digests = some evidence })
unfolding classify_violation record_of
classify_violation_unique record_digest input codes evidence same_codes same_evidence =
    let block : Option String = some input.block_hash in
    let locator : Option String = some (or_default input.block_hash (truthy input.cap_id)) in
    let given = or_default [] input.evidence_digests in
    ap₂ (record_of record_digest input)
      (stable_sort_unique_reasons_unique (or_default [] input.reason_codes) codes block locator
        same_codes)
      (stable_sort_unique_strings_unique (map string given) (map string evidence)
        λ a. ground (arith, texts-map given, texts-map evidence, same_evidence a))

kind_of_stamp_missing :
    (codes : List String) (cap_id kind_hint : Option String)
    → includes codes "STAMP_MISSING" ≡ true
    → kind_of codes cap_id kind_hint ≡ "stamp.missing"
unfolding kind_of coded_kind
kind_of_stamp_missing codes cap_id kind_hint m = rw (m, kind_of, coded_kind) refl

record_of_stamp_missing :
    (record_digest : RecordSansId → String) (input : ViolationInput) (codes evidence : List String)
    → includes codes "STAMP_MISSING" ≡ true
    → ((record_of record_digest input codes evidence).body.kind ≡ "stamp.missing")
      × ((record_of record_digest input codes evidence).body.severity ≡ quarantine)
      × ((record_of record_digest input codes evidence).body.remedy ≡ contact_shop)
unfolding record_of map_kind switch_kind
record_of_stamp_missing record_digest input codes evidence m =
    let e = kind_of_stamp_missing codes input.cap_id input.kind_hint m in
    (e, ap (λ k. (map_kind k).0) e, ap (λ k. (map_kind k).1) e)

-- A violation with at most 32 reason codes, STAMP_MISSING among them, is recorded as
-- stamp.missing and quarantined, whatever the other codes and the hint of the caller are.
pub classify_violation_stamp_missing :
    (record_digest : RecordSansId → String) (input : ViolationInput) (codes : List String)
    → input.reason_codes ≡ some codes
    → length codes ≤ max_reasons_per_block
    → includes codes "STAMP_MISSING" ≡ true
    → ((classify_violation record_digest input).body.kind ≡ "stamp.missing")
      × ((classify_violation record_digest input).body.severity ≡ quarantine)
      × ((classify_violation record_digest input).body.remedy ≡ contact_shop)
unfolding classify_violation is_reason is_non_empty
classify_violation_stamp_missing record_digest input codes e h m =
    let locator = or_default input.block_hash (truthy input.cap_id) in
    let sorted =
      stable_sort_unique_reasons (or_default [] input.reason_codes) (some input.block_hash)
        (some locator) in
    let kept =
      includes-stable_sort_unique_reasons codes (some input.block_hash) (some locator)
        "STAMP_MISSING" h in
    record_of_stamp_missing record_digest input sorted _ (rw e (kept ∙ m))
