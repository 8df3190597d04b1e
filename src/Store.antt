-- ===== src/Store.antt =====
-- src/runtime/store/artifact_store.ts: artifacts stored under their digest, with a second copy from
-- which a damaged one is restored. The digest of a content (`computeArtifactDigestV0`) and that
-- of an incident record are parameters. `current` is an open field of the class: `corrupt` is
-- an assignment to it from outside.
pub mod Laws
pub mod Repair
use weft_end.Prelude.{
  ℕ, suc, String, Bool, true, false, not, ◌||◌, Option, none, some, List, [], ◌∷◌, str_eq,
  if◌then◌else◌,
}
use weft_end.Text.Table.{Table, get, set}
use weft_end.Reasons.{stable_sort_unique_reasons, checkpoint_eq_or_reason, is_empty, or_default}
use weft_end.Tartarus.{RecordSansId, TartarusRecord, ViolationInput, classify_violation, truthy}

pub record ArtifactStore : Type 0 where
  pub current : Table String
  pub last_good : Table String
  pub seq : ℕ
  pub plan_digest : String
  pub block_hash : String

pub data PutResult : Type 0 where
  stored : PutResult
  put_refused : List String → Option TartarusRecord → PutResult

pub data ReadResult : Type 0 where
  found : String → String → ReadResult
  recovered : String → List String → TartarusRecord → String → ReadResult
  read_refused : List String → Option (TartarusRecord × String) → ReadResult

-- `new ArtifactStoreV0(opts)`.
unfoldable pub new_store : String → String → ArtifactStore
new_store plan_digest block_hash = record {
  current = [];
  last_good = [];
  seq = 0;
  plan_digest = plan_digest;
  block_hash = block_hash;
}

-- `isNonEmptyString` of this file, on strings: no trimming.
abbrev pub is_blank : String → Bool
is_blank s = str_eq s ""

-- What happens to a store: a call, or damage to the content under a digest.
pub data StoreEvent : Type 0 where
  put_call : String → String → StoreEvent
  read_call : String → StoreEvent
  corrupt : String → String → StoreEvent

module _ (digest : String → String) (record_digest : RecordSansId → String) where
  -- The incident of a mismatch, numbered `seq`.
  unfoldable pub mismatch_incident : ArtifactStore → List String → ℕ → TartarusRecord
  mismatch_incident s codes seq = classify_violation record_digest (record {
    plan_digest = s.plan_digest;
    block_hash = s.block_hash;
    reason_codes = some codes;
    evidence_digests = none;
    cap_id = none;
    kind_hint = some "artifact.mismatch";
    stamp_digest = none;
    seq = some seq;
  })

  -- `put`.
  unfoldable pub put : ArtifactStore → String → String → ArtifactStore × PutResult
  put s expected content =
      let mismatch = checkpoint_eq_or_reason expected (digest content) "ARTIFACT_DIGEST_MISMATCH" in
      let codes = stable_sort_unique_reasons ("ARTIFACT_DIGEST_MISMATCH" ∷ []) none none in
      if is_blank expected || is_blank content
      then (s, put_refused ("ARTIFACT_INPUT_INVALID" ∷ []) none)
      else if not (is_empty mismatch)
      then (
        record s { seq = suc s.seq },
        put_refused codes (some (mismatch_incident s codes (suc s.seq))),
      )
      else (
        record s {
          current = set s.current expected content;
          last_good = set s.last_good expected content;
        },
        stored,
      )

  -- The branch of `read` for a stored content with another digest: `observed`.
  unfoldable pub recover : ArtifactStore → String → String → ArtifactStore × ReadResult
  recover s expected observed =
      let copy = get s.last_good expected in
      let codes =
        stable_sort_unique_reasons
          (elim (truthy copy) [
            | some c ↦ "ARTIFACT_DIGEST_MISMATCH" ∷ "ARTIFACT_RECOVERED" ∷ []
            | none ↦ "ARTIFACT_DIGEST_MISMATCH" ∷ []
          ])
          none none in
      let incident = mismatch_incident s codes (suc s.seq) in
      elim copy [
        | some c ↦ (
          record s { current = set s.current expected c; seq = suc s.seq },
          recovered c codes incident observed,
        )
        | none ↦ (record s { seq = suc s.seq }, read_refused codes (some (incident, observed)))
      ]

  -- `read`.
  unfoldable pub read : ArtifactStore → String → ArtifactStore × ReadResult
  read s expected =
      if is_blank expected
      then (s, read_refused ("ARTIFACT_INPUT_INVALID" ∷ []) none)
      else elim (get s.current expected) [
        | none ↦ (s, read_refused ("ARTIFACT_MISSING" ∷ []) none)
        | some content ↦
            let observed = digest content in
            if is_empty (checkpoint_eq_or_reason expected observed "ARTIFACT_DIGEST_MISMATCH")
            then (s, found content observed)
            else recover s expected observed
      ]

  unfoldable pub store_step : ArtifactStore → StoreEvent → ArtifactStore
  store_step s (put_call expected content) = (put s expected content).0
  store_step s (read_call expected) = (read s expected).0
  store_step s (corrupt expected content) = record s { current = set s.current expected content }

  unfoldable pub store_run : ArtifactStore → List StoreEvent → ArtifactStore
  store_run s [] = s
  store_run s (e ∷ es) = store_run (store_step s e) es
