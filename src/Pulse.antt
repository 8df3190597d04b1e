-- ===== src/Pulse.antt =====
-- src/core/pulse_digest.ts: the normal form of a pulse and its seal. The digest of a normal form
-- (`sha256` of its canonical JSON) is a parameter. A number of `counts` is finite.
use weft_end.Prelude.{
  ℕ, String, Bool, true, false, ◌||◌, not, Option, none, some, List, [], ◌∷◌, map, str_eq,
  if◌then◌else◌,
}
use weft_end.Text.{is_non_empty}
use weft_end.Reasons.{string, stable_sort_unique_reasons, is_empty, is_none, or_default}
pub mod Laws

pub data PulseKind : Type 0 where
  publish load cap_request cap_deny cap_allow exit : PulseKind

pub data SubjectKind : Type 0 where
  release block : SubjectKind

pub record PulseSubject : Type 0 where
  pub kind : SubjectKind
  pub id : String

pub record PulseDigests : Type 0 where
  pub release_id : Option String
  pub path_digest : Option String
  pub plan_hash : Option String
  pub evidence_head : Option String

pub record PulseCounts : Type 0 where
  pub caps_requested : Option ℕ
  pub caps_denied : Option ℕ
  pub tartarus_new : Option ℕ

-- `PulseBodyV0`.
pub record PulseBody : Type 0 where
  pub pulse_seq : ℕ
  pub kind : PulseKind
  pub subject : PulseSubject
  pub cap_id : Option String
  pub reason_codes : Option (List String)
  pub digests : Option PulseDigests
  pub counts : Option PulseCounts

-- `PulseV0`.
pub record Pulse : Type 0 where
  pub body : PulseBody
  pub pulse_digest : String

-- `if (isNonEmptyString(x)) out.x = x`.
unfoldable pub keep_non_empty : Option String → Option String
keep_non_empty none = none
keep_non_empty (some s) = if is_non_empty s then some s else none

-- `normalizePulseDigests`: an object without a key is left out.
unfoldable pub normalize_digests : Option PulseDigests → Option PulseDigests
normalize_digests none = none
normalize_digests (some d) =
    let out : PulseDigests = record {
      release_id = keep_non_empty d.release_id;
      path_digest = keep_non_empty d.path_digest;
      plan_hash = keep_non_empty d.plan_hash;
      evidence_head = keep_non_empty d.evidence_head;
    } in
    if not (is_none out.release_id)
      || not (is_none out.path_digest)
      || not (is_none out.plan_hash)
      || not (is_none out.evidence_head)
    then some out
    else none

-- `normalizePulseCounts`.
unfoldable pub normalize_counts : Option PulseCounts → Option PulseCounts
normalize_counts none = none
normalize_counts (some c) =
    if not (is_none c.caps_requested) || not (is_none c.caps_denied) || not (is_none c.tartarus_new)
    then some c
    else none

-- `normalizePulseBodyV0`.
unfoldable pub normalize_pulse_body : PulseBody → PulseBody
normalize_pulse_body pulse =
    let codes = stable_sort_unique_reasons (or_default [] pulse.reason_codes) none none in
    record pulse {
      cap_id = keep_non_empty pulse.cap_id;
      reason_codes = if is_empty codes then none else some codes;
      digests = normalize_digests pulse.digests;
      counts = normalize_counts pulse.counts;
    }

-- `sealPulseV0`.
unfoldable pub seal_pulse : (PulseBody → String) → PulseBody → Pulse
seal_pulse digest pulse = record {
  body = normalize_pulse_body pulse;
  pulse_digest = digest (normalize_pulse_body pulse);
}

-- The last test of `validatePulseV0`: the digest of the pulse's own normal form.
unfoldable pub digest_matches : (PulseBody → String) → Pulse → Bool
digest_matches digest pulse = str_eq pulse.pulse_digest (digest (normalize_pulse_body pulse.body))
