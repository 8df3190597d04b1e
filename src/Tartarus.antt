-- ===== src/Tartarus.antt =====
-- src/engine/tartarus_core.ts: incidents classified from reason codes.
-- `classifyViolationV0` is `classify_violation`; the digest that names a record
-- (`computeRecordIdV0`) is a parameter, a function of the record without its identifier.
pub mod Laws
use text.Mathlib.Text.{starts_with}
use weft_end.Prelude.{
  ℕ, String, Bool, true, false, ◌&&◌, ◌||◌, Option, none, some, List, [], ◌∷◌, str_eq, map,
  if◌then◌else◌,
}
use weft_end.Text.{includes}
use weft_end.Reasons.{
  string, stable_sort_unique_reasons, stable_sort_unique_strings, is_empty, or_default,
}

pub data Severity : Type 0 where
  info warn deny quarantine : Severity

pub data Remedy : Type 0 where
  provide_evidence downgrade_mode move_tier_down rebuild_from_trusted contact_shop no_remedy :
      Remedy

pub record ViolationInput : Type 0 where
  pub plan_digest : String
  pub block_hash : String
  pub reason_codes : Option (List String)
  pub evidence_digests : Option (List String)
  pub cap_id : Option String
  pub kind_hint : Option String
  pub stamp_digest : Option String
  pub seq : Option ℕ

-- A record before it has its identifier (`recordSansId`).
pub record RecordSansId : Type 0 where
  pub plan_digest : String
  pub block_hash : String
  pub kind : String
  pub severity : Severity
  pub remedy : Remedy
  pub reason_codes : List String
  pub stamp_digest : Option String
  pub evidence_digests : Option (List String)
  pub seq : Option ℕ

pub record TartarusRecord : Type 0 where
  pub body : RecordSansId
  pub record_id : String

abbrev pub secret_caps : List String
secret_caps =
    "id.sign" ∷ "auth.password.submit" ∷ "payment.tokenize" ∷ "storage.writeSecret"
    ∷ "ui.input.capture" ∷ "ui.secret.read" ∷ "ui.secret.emit" ∷ "storage.secret.write"
    ∷ "net.secret.send" ∷ "clipboard.read" ∷ "clipboard.write" ∷ "diag.raw" ∷ []

-- A string under `if (x)` or `x || d`: a blank one counts as missing.
abbrev pub truthy : Option String → Option String
truthy none = none
truthy (some s) = if str_eq s "" then none else some s

-- `hasReasonPrefix`.
unfoldable pub has_reason_prefix : List String → String → Bool
has_reason_prefix [] prefix = false
has_reason_prefix (r ∷ rs) prefix = starts_with r prefix || has_reason_prefix rs prefix

-- The cases of the switch of `mapKind`.
abbrev pub kind_cases : List (String × (Severity × Remedy))
kind_cases =
    ("stamp.missing", (quarantine, contact_shop))
    ∷ ("stamp.invalid", (quarantine, contact_shop))
    ∷ ("tier.violation", (quarantine, move_tier_down))
    ∷ ("cap.replay", (deny, no_remedy))
    ∷ ("membrane.selftest.failed", (deny, downgrade_mode))
    ∷ ("secretzone.unavailable", (deny, downgrade_mode))
    ∷ ("secret.leak.attempt", (quarantine, rebuild_from_trusted))
    ∷ ("artifact.mismatch", (quarantine, rebuild_from_trusted))
    ∷ ("pkg.locator.mismatch", (quarantine, rebuild_from_trusted))
    ∷ ("evidence.digest.mismatch", (deny, provide_evidence))
    ∷ ("release.manifest.invalid", (quarantine, rebuild_from_trusted))
    ∷ ("release.signature.bad", (quarantine, rebuild_from_trusted))
    ∷ ("release.manifest.mismatch", (deny, downgrade_mode))
    ∷ ("history.invalid", (quarantine, rebuild_from_trusted))
    ∷ ("history.signature.bad", (quarantine, rebuild_from_trusted))
    ∷ ("history.link.mismatch", (quarantine, contact_shop))
    ∷ ("market.takedown.active", (quarantine, contact_shop))
    ∷ ("market.ban.active", (deny, no_remedy))
    ∷ ("market.allowlist.missing", (quarantine, provide_evidence))
    ∷ ("market.evidence.missing", (quarantine, provide_evidence))
    ∷ []

-- The switch, with the default last.
unfoldable pub switch_kind : List (String × (Severity × Remedy)) → String → Severity × Remedy
switch_kind [] kind = (deny, no_remedy)
switch_kind ((k, mapped) ∷ rest) kind = if str_eq kind k then mapped else switch_kind rest kind

-- `mapKind`.
unfoldable pub map_kind : String → Severity × Remedy
map_kind kind = switch_kind kind_cases kind

-- The tests on the codes that come before the hint of the caller, first match first.
unfoldable pub coded_kind : List String → Option String
coded_kind codes =
    if includes codes "STAMP_MISSING"
    then some "stamp.missing"
    else if includes codes "STAMP_INVALID"
        || includes codes "STAMP_SIG_INVALID"
        || includes codes "STAMP_SIG_PORT_MISSING"
    then some "stamp.invalid"
    else if includes codes "TIER_VIOLATION"
    then some "tier.violation"
    else if includes codes "REPLAY_DETECTED"
    then some "cap.replay"
    else if includes codes "TRUST_PKG_LOCATOR_MISMATCH"
    then some "pkg.locator.mismatch"
    else if includes codes "ARTIFACT_DIGEST_MISMATCH"
    then some "artifact.mismatch"
    else if includes codes "TAKEDOWN_ACTIVE"
    then some "market.takedown.active"
    else if includes codes "BANNED"
    then some "market.ban.active"
    else if includes codes "ALLOWLIST_REQUIRED"
    then some "market.allowlist.missing"
    else if has_reason_prefix codes "MISSING_EVIDENCE:"
    then some "market.evidence.missing"
    else if has_reason_prefix codes "SANDBOX_HARDENING_FAILED:"
    then some "membrane.selftest.failed"
    else if includes codes "EVIDENCE_DIGEST_MISMATCH"
    then some "evidence.digest.mismatch"
    else if includes codes "RELEASE_SIGNATURE_BAD"
    then some "release.signature.bad"
    else if includes codes "RELEASE_PLANDIGEST_MISMATCH"
        || includes codes "RELEASE_BLOCKSET_MISMATCH"
        || includes codes "PATH_DIGEST_MISMATCH"
    then some "release.manifest.mismatch"
    else if includes codes "RELEASE_MANIFEST_INVALID"
        || includes codes "RELEASE_MANIFEST_MISSING"
        || includes codes "PATH_DIGEST_MISSING"
    then some "release.manifest.invalid"
    else none

is_secret_cap : Option String → Bool
is_secret_cap cap_id = elim (truthy cap_id) [ none ↦ false | some c ↦ includes secret_caps c ]

-- The kind: by the codes, else the secret zone, else the hint, else a replay.
unfoldable pub kind_of : List String → Option String → Option String → String
unfolding is_secret_cap
kind_of codes cap_id kind_hint = elim (coded_kind codes) [
  | some kind ↦ kind
  | none ↦
      if includes codes "SECRET_ZONE_UNAVAILABLE" && is_secret_cap cap_id
      then "secretzone.unavailable"
      else or_default "cap.replay" (truthy kind_hint)
]

given_evidence : List String → Option (List String)
given_evidence [] = none
given_evidence (d ∷ ds) = some (d ∷ ds)

-- The record of sorted codes and evidence, and its identifier.
unfoldable pub record_of :
    (RecordSansId → String) → ViolationInput → List String → List String → TartarusRecord
unfolding given_evidence
record_of record_digest input codes evidence =
    let kind = kind_of codes input.cap_id input.kind_hint in
    let mapped = map_kind kind in
    let body : RecordSansId = record {
      plan_digest = input.plan_digest;
      block_hash = input.block_hash;
      kind = kind;
      severity = mapped.0;
      remedy = mapped.1;
      reason_codes = codes;
      stamp_digest = truthy input.stamp_digest;
      evidence_digests = given_evidence evidence;
      seq = input.seq;
    } in
    record { body = body; record_id = record_digest body }

-- `classifyViolationV0`.
unfoldable pub classify_violation : (RecordSansId → String) → ViolationInput → TartarusRecord
classify_violation record_digest input =
    let locator = or_default input.block_hash (truthy input.cap_id) in
    record_of record_digest input
      (stable_sort_unique_reasons (or_default [] input.reason_codes) (some input.block_hash)
        (some locator))
      (stable_sort_unique_strings (map string (or_default [] input.evidence_digests)))
