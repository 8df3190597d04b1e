-- ===== src/Pulse/Laws.antt =====
-- The seal of a pulse: a sealed body is in normal form, so that its digest can be computed again.
use weft_end.Prelude.{
  ◌≤◌, String, ◌≡◌, refl, ap, true, Option, none, some, [], length, arith, inl, inr, Bool-cases,
  eq_refl,
}
use weft_end.Reasons.{stable_sort_unique_reasons, or_default, is_empty, max_reasons_per_block}
use weft_end.Reasons.Fixed.{stable_sort_unique_reasons_fixed}
use weft_end.Reasons.Whole.{stable_sort_unique_reasons_of_nil}
use weft_end.Pulse.{
  PulseBody, PulseDigests, PulseCounts, keep_non_empty, normalize_digests, normalize_counts,
  normalize_pulse_body, seal_pulse, digest_matches,
}

keep_non_empty_fixed : (s : Option String) → keep_non_empty (keep_non_empty s) ≡ keep_non_empty s
unfolding keep_non_empty
keep_non_empty_fixed none = refl
keep_non_empty_fixed (some s) = ground arith

normalize_digests_fixed :
    (d : Option PulseDigests) → normalize_digests (normalize_digests d) ≡ normalize_digests d
unfolding normalize_digests
normalize_digests_fixed none = refl
normalize_digests_fixed (some d) = ground (
  arith,
  keep_non_empty_fixed d.release_id,
  keep_non_empty_fixed d.path_digest,
  keep_non_empty_fixed d.plan_hash,
  keep_non_empty_fixed d.evidence_head,
)

normalize_counts_fixed :
    (c : Option PulseCounts) → normalize_counts (normalize_counts c) ≡ normalize_counts c
unfolding normalize_counts
normalize_counts_fixed none = refl
normalize_counts_fixed (some c) = ground arith

reason_codes_fixed :
    (pulse : PulseBody)
    → length (or_default [] pulse.reason_codes) ≤ max_reasons_per_block
    → (normalize_pulse_body (normalize_pulse_body pulse)).reason_codes
      ≡ (normalize_pulse_body pulse).reason_codes
unfolding normalize_pulse_body
reason_codes_fixed pulse h =
    let given = or_default [] pulse.reason_codes in
    let codes = stable_sort_unique_reasons given none none in
    elim (Bool-cases (is_empty codes)) [
      | inl e ↦ rw e (rw (stable_sort_unique_reasons_of_nil none none) refl)
      | inr e ↦ rw e (rw (stable_sort_unique_reasons_fixed given none none h) (rw e refl))
    ]

-- The normal form of a pulse with at most 32 reason codes is its own normal form.
pub normalize_pulse_body_fixed :
    (pulse : PulseBody)
    → length (or_default [] pulse.reason_codes) ≤ max_reasons_per_block
    → normalize_pulse_body (normalize_pulse_body pulse) ≡ normalize_pulse_body pulse
unfolding normalize_pulse_body
normalize_pulse_body_fixed pulse h =
    rw
      (
        keep_non_empty_fixed pulse.cap_id,
        normalize_digests_fixed pulse.digests,
        normalize_counts_fixed pulse.counts,
      )
      (ap
        (λ codes. record pulse {
          cap_id = keep_non_empty pulse.cap_id;
          reason_codes = codes;
          digests = normalize_digests pulse.digests;
          counts = normalize_counts pulse.counts;
        })
        (reason_codes_fixed pulse h))

-- A pulse that was sealed with at most 32 reason codes passes the validator's test of its digest.
pub seal_pulse-matches :
    (digest : PulseBody → String) (pulse : PulseBody)
    → length (or_default [] pulse.reason_codes) ≤ max_reasons_per_block
    → digest_matches digest (seal_pulse digest pulse) ≡ true
unfolding seal_pulse digest_matches
seal_pulse-matches digest pulse h =
    rw (normalize_pulse_body_fixed pulse h) (eq_refl (digest (normalize_pulse_body pulse)))
