-- ===== src/Strict/Ready.antt =====
-- A value of the entry is only resolved after all checks of `run`.
use weft_end.Prelude.{
  ◌≡◌, refl, sym, ◌∙◌, ap, inl, inr, String, Bool, true, false, Option, none, some, [], ◌∷◌, arith,
  Bool-cases, str_eq, subst,
}
use weft_end.Text.{includes}
use weft_end.Boundary.{validate_nonce}
use weft_end.Reasons.{is_empty}
use weft_end.Reasons.Whole.{is_empty_iff}
use weft_end.Kernel.Types.{StampObservation}
use weft_end.Kernel.Invoke.{observe_stamp, get_runtime_observed_stamp}
use weft_end.Release.{verified, ReleaseVerifyResult}
use weft_end.Store.{ReadResult, read}
use weft_end.Strict.Types.{Snapshot, EvidenceBundle, StrictOptions, StrictPort, Executor}
use weft_end.Strict.State.{then_do, emit_load_pulse}
use weft_end.Strict.Preflight.{
  path_summary, build_attestation, stamp_codes, release_codes, verify_for_run, resolve_path_summary,
  resolve_build_attestation, set_release, get_release_status, assess, preflight_codes, start_worker,
  start, run_with, run_entry, read_value,
}
use weft_end.Strict.Cleared.{
  IsFull, join_strings_nil, join_strings-IsFull, normal_codes-IsFull, release_reasons_nil,
  release_reasons-IsFull,
}
use weft_end.Strict.Safe.{
  IsCleared, IsSafe, IsSafe-if, IsSafe-elim, IsSafe-if_state, IsSafe-elim_state, IsSafe-load,
  IsSafe-refuse,
}

path_summary-IsFull : (s : Option Snapshot) → IsFull (path_summary s).0
unfolding path_summary
path_summary-IsFull none = normal_codes-IsFull ("PATH_SUMMARY_MISSING" ∷ [])
path_summary-IsFull (some s) = elim (Bool-cases (is_empty s.issues)) [
  | inr e ↦ rw e (normal_codes-IsFull ("PATH_SUMMARY_INVALID" ∷ []))
  | inl e ↦ elim (Bool-cases (is_empty s.privacy_codes)) [
    | inl f ↦ rw (e, f) (normal_codes-IsFull [])
    | inr f ↦ rw (e, f) (normal_codes-IsFull s.privacy_codes)
  ]
]

build_attestation-IsFull :
    (required : Bool) (plan : String) (bundle : Option EvidenceBundle)
    → IsFull (build_attestation required plan bundle)
unfolding build_attestation includes
build_attestation-IsFull false plan bundle = λ a m. absurd (ground (arith, m))
build_attestation-IsFull true plan none = normal_codes-IsFull ("BUILD_ATTESTATION_MISSING" ∷ [])
build_attestation-IsFull true plan (some b) = elim (Bool-cases (is_empty b.issues)) [
  | inl e ↦ rw e (normal_codes-IsFull _)
  | inr e ↦ rw e (normal_codes-IsFull _)
]

stamp_codes-IsFull : (o : Option StampObservation) → IsFull (stamp_codes o)
unfolding stamp_codes includes
stamp_codes-IsFull none = λ a m. absurd (ground (arith, m))
stamp_codes-IsFull (some o) = normal_codes-IsFull o.reason_codes

release_codes-IsFull : (v : Option ReleaseVerifyResult) → IsFull (release_codes v)
unfolding release_codes includes
release_codes-IsFull none = λ a m. absurd (ground (arith, m))
release_codes-IsFull (some v) = release_reasons-IsFull v

-- An empty preflight has no reason of any kind.
preflight_codes_nil :
    (y : Executor) (v : ReleaseVerifyResult)
    → IsFull y.path_summary_reasons
    → IsFull y.attestation_reasons
    → y.release_verify ≡ some v
    → preflight_codes y ≡ []
    → (y.path_summary_reasons ≡ []) × (y.attestation_reasons ≡ []) × (v.status ≡ verified)
unfolding preflight_codes release_codes
preflight_codes_nil y v f g e h =
    let stamp = stamp_codes y.runtime_observed_stamp in
    let reasons = release_codes y.release_verify in
    let full = release_codes-IsFull y.release_verify in
    let stamp_full = stamp_codes-IsFull y.runtime_observed_stamp in
    let (left, right) =
      join_strings_nil _ _ (join_strings-IsFull stamp reasons)
        (join_strings-IsFull y.path_summary_reasons y.attestation_reasons) h in
    let (no_stamp, no_release) = join_strings_nil stamp reasons stamp_full full left in
    let (no_path, no_attestation) =
      join_strings_nil y.path_summary_reasons y.attestation_reasons f g right in
    (no_path, no_attestation, release_reasons_nil v (sym (ap release_codes e) ∙ no_release))

module _ (port : StrictPort) (opts : StrictOptions) where
  -- After both are resolved both are marked so.
  resolved_after :
      (x : Executor)
      → let y = resolve_build_attestation port opts (resolve_path_summary port opts x) in
        (y.path_summary_resolved ≡ true) × (y.attestation_resolved ≡ true)
  unfolding resolve_path_summary resolve_build_attestation
  resolved_after x =
      ground (arith, Bool-cases x.path_summary_resolved, Bool-cases x.attestation_resolved)

module _ (port : StrictPort) (opts : StrictOptions) (nonce : String) where
  resolve_path_summary-IsSafe :
      (x : Executor)
      → IsSafe port opts nonce x
      → IsSafe port opts nonce (resolve_path_summary port opts x)
  unfolding resolve_path_summary
  resolve_path_summary-IsSafe x s =
      IsSafe-if_state port opts nonce x.path_summary_resolved _ _ (λ e. s)
        (λ e. (s.0, s.1, s.2, (λ h. (refl, refl)), s.4))

  resolve_build_attestation-IsSafe :
      (x : Executor)
      → IsSafe port opts nonce x
      → IsSafe port opts nonce (resolve_build_attestation port opts x)
  unfolding resolve_build_attestation
  resolve_build_attestation-IsSafe x s =
      IsSafe-if_state port opts nonce x.attestation_resolved _ _ (λ e. s)
        (λ e. (s.0, s.1, s.2, s.3, (λ h. refl)))

  pub get_release_status-IsSafe :
      (x : Executor)
      → IsSafe port opts nonce x
      → IsSafe port opts nonce (get_release_status port opts x)
  unfolding get_release_status set_release
  get_release_status-IsSafe x s =
      IsSafe-elim_state port opts nonce x.release_verify _ _ (λ e. resolve_path_summary-IsSafe x s)
        (λ v e. s)

  start_worker-IsSafe :
      (source : String) (x : Executor)
      → (validate_nonce nonce ≡ true → IsCleared port opts nonce)
      → IsSafe port opts nonce x
      → IsSafe port opts nonce (start_worker port opts nonce source x).0
  unfolding start_worker
  start_worker-IsSafe source x c s =
      IsSafe-if port opts nonce (validate_nonce nonce) _ _
        (λ e. ((λ h. c e), (λ r h. refl), (λ r h. inr refl), s.3, s.4))
        (λ e. IsSafe-refuse port opts nonce ("NONCE_INVALID" ∷ []) (record x { worker = true }) s)

  -- The checks of `run` that an empty preflight has passed.
  cleared :
      (y : Executor)
      → IsSafe port opts nonce y
      → y.path_summary_resolved ≡ true
      → y.attestation_resolved ≡ true
      → y.release_verify ≡ some (verify_for_run port opts y.expected_path_digest)
      → is_empty (preflight_codes y) ≡ true
      → validate_nonce nonce ≡ true
      → IsCleared port opts nonce
  cleared y s p q e h n =
      let (reasons, digest) = s.3 p in
      let attested = s.4 q in
      let (no_path, no_attestation, ok) =
        preflight_codes_nil y (verify_for_run port opts y.expected_path_digest)
          (subst IsFull (sym reasons) (path_summary-IsFull opts.plan_snapshot))
          (subst IsFull (sym attested) (
            build_attestation-IsFull opts.require_build_attestation opts.plan_digest
              opts.evidence_bundle))
          e (is_empty_iff (preflight_codes y) h) in
      (
        n,
        sym reasons ∙ no_path,
        sym attested ∙ no_attestation,
        ap (λ d. (verify_for_run port opts d).status) (sym digest) ∙ ok,
      )

  start-IsSafe :
      (source : String) (x : Executor)
      → IsSafe port opts nonce x
      → IsSafe port opts nonce (start port opts nonce source x).0
  unfolding start then_do assess set_release
  start-IsSafe source x s =
      let stamp = get_runtime_observed_stamp x.kernel in
      let told : Executor = record x {
        kernel = observe_stamp x.kernel;
        runtime_observed_stamp = some stamp;
      } in
      let summed = resolve_path_summary port opts told in
      let attested = resolve_build_attestation port opts summed in
      let y = (assess port opts x).0 in
      let sy = resolve_build_attestation-IsSafe summed (resolve_path_summary-IsSafe told s) in
      let (p, q) = resolved_after port opts told in
      let z = (emit_load_pulse port opts (preflight_codes y) y).0 in
      let sz = IsSafe-load port opts nonce (preflight_codes y) y sy in
      IsSafe-if port opts nonce (is_empty (preflight_codes y)) _ _
        (λ e. start_worker-IsSafe source z (cleared y sy p q refl e) sz)
        (λ e. IsSafe-refuse port opts nonce (preflight_codes y) z sz)

  run_with-IsSafe :
      (r : ReadResult) (x : Executor)
      → IsSafe port opts nonce x
      → IsSafe port opts nonce (run_with port opts nonce r x).0
  unfolding run_with then_do
  run_with-IsSafe r x s =
      IsSafe-elim port opts nonce (read_value r) _ _ (λ e. IsSafe-refuse port opts nonce _ x s)
        (λ source e. start-IsSafe source x s)

  pub run_entry-IsSafe :
      (x : Executor)
      → IsSafe port opts nonce x
      → IsSafe port opts nonce (run_entry port opts nonce x).0
  unfolding run_entry
  run_entry-IsSafe x s =
      IsSafe-if port opts nonce x.worker _ _ (λ e. s)
        (λ e.
          IsSafe-elim port opts nonce x.artifact_store _ _ (λ e. start-IsSafe opts.source_text x s)
            (λ store e.
              IsSafe-elim port opts nonce opts.expected_source_digest _ _
                (λ e. start-IsSafe opts.source_text x s)
                (λ digest e.
                  let after = read port.content_digest port.record_digest store digest in
                  IsSafe-if port opts nonce (str_eq digest "") _ _
                    (λ e. start-IsSafe opts.source_text x s)
                    (λ e. run_with-IsSafe after.1 (record x { artifact_store = some after.0 }) s))))
