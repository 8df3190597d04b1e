-- ===== src/Store/Laws.antt =====
-- What the artifact store keeps: a content that is read has the digest that was asked for.
use weft_end.Prelude.{
  String, ◌≡◌, ◌↔◌, ◌⊎◌, inl, inr, refl, sym, ◌∙◌, ap, false, Option, none, some, List, [], ◌∷◌,
  str_eq, eq_iff, arith, Bool-cases, Option-cases,
}
use weft_end.Text.Table.{get, set, get-set_cases}
use weft_end.Reasons.{checkpoint_eq_or_reason, is_empty}
use weft_end.Tartarus.{RecordSansId}
use weft_end.Store.{
  ArtifactStore, stored, ReadResult, found, recovered, read_refused, new_store, is_blank, put, read,
  recover, StoreEvent, put_call, read_call, corrupt, store_step, store_run,
}

-- The content that a read answers.
abbrev pub value_of : ReadResult → Option String
value_of (found content observed) = some content
value_of (recovered content codes incident observed) = some content
value_of (read_refused codes incident) = none

pub checkpoint_empty :
    (expected observed reason : String)
    → is_empty (checkpoint_eq_or_reason expected observed reason) ≡ str_eq expected observed
unfolding checkpoint_eq_or_reason
checkpoint_empty expected observed reason = ground arith

module _ (digest : String → String) (record_digest : RecordSansId → String) where
  -- Each second copy has the digest it is kept under.
  abbrev pub Good : ArtifactStore → Type 0
  Good s = (d c : String) → get s.last_good d ≡ some c → digest c ≡ d

  -- `put` stores a content exactly where neither the content nor the digest is empty and the content
  -- has that digest.
  pub put_stored_iff :
      (s : ArtifactStore) (expected content : String)
      → ((put digest record_digest s expected content).1 ≡ stored)
        ↔ ((is_blank expected ≡ false) × (is_blank content ≡ false) × (digest content ≡ expected))
  unfolding put
  put_stored_iff s expected content = ground (
    arith,
    checkpoint_empty expected (digest content) "ARTIFACT_DIGEST_MISMATCH",
    eq_iff expected (digest content),
  )

  put-last_good :
      (s : ArtifactStore) (expected content : String)
      → ((put digest record_digest s expected content).0.last_good ≡ s.last_good)
        ⊎ (((put digest record_digest s expected content).0.last_good
              ≡ set s.last_good expected content)
            × (digest content ≡ expected))
  unfolding put
  put-last_good s expected content = ground (
    arith,
    checkpoint_empty expected (digest content) "ARTIFACT_DIGEST_MISMATCH",
    eq_iff expected (digest content),
  )

  put-Good :
      (s : ArtifactStore) (expected content : String)
      → Good s
      → Good (put digest record_digest s expected content).0
  put-Good s expected content good d c h = elim (put-last_good s expected content) [
    | inl e ↦ good d c (ap (λ t. get t d) (sym e) ∙ h)
    | inr (e, p) ↦
        elim (get-set_cases s.last_good expected d content c (ap (λ t. get t d) (sym e) ∙ h)) [
          | inl (q, r) ↦ ap digest r ∙ p ∙ q
          | inr q ↦ good d c q
        ]
  ]

  recover-last_good :
      (s : ArtifactStore) (expected observed : String)
      → (recover digest record_digest s expected observed).0.last_good ≡ s.last_good
  unfolding recover
  recover-last_good s expected observed = elim (Option-cases (get s.last_good expected)) [
    | inl e ↦ rw (e, recover) refl
    | inr (c, e) ↦ rw (e, recover) refl
  ]

  read-last_good :
      (s : ArtifactStore) (expected : String)
      → (read digest record_digest s expected).0.last_good ≡ s.last_good
  unfolding read
  read-last_good s expected = elim (Option-cases (get s.current expected)) [
    | inl e ↦ ground arith
    | inr (c, e) ↦ ground (arith, recover-last_good s expected (digest c))
  ]

  recover_value :
      (s : ArtifactStore) (expected observed : String)
      → value_of (recover digest record_digest s expected observed).1 ≡ get s.last_good expected
  unfolding recover
  recover_value s expected observed = elim (Option-cases (get s.last_good expected)) [
    | inl e ↦ rw (e, recover) refl
    | inr (c, e) ↦ rw (e, recover) refl
  ]

  read_sound :
      (s : ArtifactStore) (expected v : String)
      → Good s
      → value_of (read digest record_digest s expected).1 ≡ some v
      → digest v ≡ expected
  unfolding read
  read_sound s expected v good h = elim (Option-cases (get s.current expected)) [
    | inl e ↦ absurd (ground arith)
    | inr (c, e) ↦ elim (Bool-cases (str_eq expected (digest c))) [
      | inl m ↦ ground (
        arith,
        eq_iff expected (digest c),
        checkpoint_empty expected (digest c) "ARTIFACT_DIGEST_MISMATCH",
      )
      | inr m ↦ good expected v (
          ground (
            arith,
            recover_value s expected (digest c),
            checkpoint_empty expected (digest c) "ARTIFACT_DIGEST_MISMATCH",
          ))
    ]
  ]

  store_step-Good :
      (s : ArtifactStore) (e : StoreEvent) → Good s → Good (store_step digest record_digest s e)
  unfolding store_step
  store_step-Good s (put_call expected content) good = put-Good s expected content good
  store_step-Good s (read_call expected) good =
      λ d c h. good d c (ap (λ t. get t d) (sym (read-last_good s expected)) ∙ h)
  store_step-Good s (corrupt expected content) good = good

  store_run-Good :
      (es : List StoreEvent) (s : ArtifactStore)
      → Good s
      → Good (store_run digest record_digest s es)
  unfolding store_run
  store_run-Good [] s good = good
  store_run-Good (e ∷ es) s good =
      store_run-Good es (store_step digest record_digest s e) (store_step-Good s e good)

  -- After any calls of `put` and `read` on a new store, and any damage to the current contents, a
  -- read that answers a content answers one with the digest that was asked for.
  pub store_read_sound :
      (plan_digest block_hash expected v : String) (es : List StoreEvent)
      → value_of
          (read digest record_digest
            (store_run digest record_digest (new_store plan_digest block_hash) es)
            expected).1
        ≡ some v
      → digest v ≡ expected
  unfolding new_store get
  store_read_sound plan_digest block_hash expected v es h =
      read_sound _ expected v (store_run-Good es (new_store plan_digest block_hash) (λ d c e. cc)) h
