-- ===== src/Tests/Pulse.antt =====
-- A pulse that is sealed and checked.
use weft_end.Prelude.{◌≡◌, true, none, some, [], ◌∷◌, arith}
use weft_end.Pulse.{PulseBody, exit, block, seal_pulse, digest_matches}
use weft_end.Pulse.Laws.{seal_pulse-matches}

abbrev ended : PulseBody
ended = record {
  pulse_seq = 1;
  kind = exit;
  subject = record { kind = block; id = "block:a" };
  cap_id = some " ";
  reason_codes = some ("B" ∷ "A" ∷ "B" ∷ []);
  digests = none;
  counts = none;
}

seal_pulse-matches_example :
    digest_matches (λ body. "sha256:pulse") (seal_pulse (λ body. "sha256:pulse") ended) ≡ true
seal_pulse-matches_example = seal_pulse-matches (λ body. "sha256:pulse") ended (omega arith)
