-- ===== src/Strict/Refine.antt =====
-- Every event of the strict executor keeps what `Follows` says.
use weft_end.Prelude.{◌≡◌, refl, String, true, false, none, some, List, [], ◌∷◌, str_eq, arith, ◌≢◌}
use weft_end.Kernel.Trace.{call, run, allowed_requests, release, observe}
use weft_end.Kernel.Invoke.{observe_stamp, get_runtime_observed_stamp}
use weft_end.Reasons.{is_empty}
use weft_end.Boundary.{validate_nonce}
use weft_end.Store.{ReadResult, found, recovered, read_refused, read}
use weft_end.Strict.Types.{StrictOptions, StrictPort, Executor, Effect, observed_stamp}
use weft_end.Strict.State.{emit_load_pulse}
use weft_end.Strict.Preflight.{
  resolve_path_summary, resolve_build_attestation, verify_for_run, set_release, get_release_status,
  kernel_status, release_reasons_of, assess, preflight_codes, start_worker, start, run_with,
  run_entry, read_effects, read_value,
}
use weft_end.Strict.Effects.{grants, granted_by, pulses, pulse_of, kernel_after}
use weft_end.Strict.Follows.{
  Follows, Follows-then, Follows-append, Follows-quiet, Follows-set, Follows-refl, Follows-if,
  Follows-elim, Follows-if_state, Follows-elim_state, Refines-refl,
}
use weft_end.Strict.Emit.{emit_load_pulse-Follows, refuse_entry-Follows}

pub true_is_not_false : true ≢ false
true_is_not_false e = cc

pub only_read :
    (x : Executor) (es : List Effect) → pulses es ≡ [] → grants es ≡ [] → Follows x (x, es)
only_read x es p g =
    Follows-quiet x x es refl (omega arith) refl (λ e. e) (λ e. e) (Refines-refl x.kernel) p g

module _ (port : StrictPort) (opts : StrictOptions) where
  resolve_path_summary-Follows : (x : Executor) → Follows x (resolve_path_summary port opts x, [])
  unfolding resolve_path_summary
  resolve_path_summary-Follows x =
      Follows-if_state x x.path_summary_resolved _ _ (λ e. Follows-refl x)
        (λ e. Follows-set x _ refl refl refl refl (λ p. p) (Refines-refl x.kernel))

  resolve_build_attestation-Follows :
      (x : Executor) → Follows x (resolve_build_attestation port opts x, [])
  unfolding resolve_build_attestation
  resolve_build_attestation-Follows x =
      Follows-if_state x x.attestation_resolved _ _ (λ e. Follows-refl x)
        (λ e. Follows-set x _ refl refl refl refl (λ p. p) (Refines-refl x.kernel))

  set_release-Follows : (x : Executor) → Follows x (set_release port opts x, [])
  unfolding set_release run call allowed_requests kernel_after
  set_release-Follows x =
      let v = verify_for_run port opts x.expected_path_digest in
      Follows-set x _ refl refl refl refl (λ p. p)
        (release (kernel_status v.status) (release_reasons_of v) ∷ [], refl, refl)

  pub get_release_status-Follows : (x : Executor) → Follows x (get_release_status port opts x, [])
  unfolding get_release_status
  get_release_status-Follows x =
      let resolved = resolve_path_summary port opts x in
      Follows-elim_state x x.release_verify _ _
        (λ e.
          Follows-append x resolved _ [] [] (resolve_path_summary-Follows x)
            (set_release-Follows resolved))
        (λ v e. Follows-refl x)

  assess-Follows : (x : Executor) → Follows x (assess port opts x)
  unfolding assess run call allowed_requests kernel_after pulses pulse_of grants granted_by
  assess-Follows x =
      let stamp = get_runtime_observed_stamp x.kernel in
      let told : Executor = record x {
        kernel = observe_stamp x.kernel;
        runtime_observed_stamp = some stamp;
      } in
      let summed = resolve_path_summary port opts told in
      let attested = resolve_build_attestation port opts summed in
      Follows-append x told (set_release port opts attested) (observed_stamp stamp ∷ []) []
        (Follows-quiet x told _ refl (omega arith) refl (λ p. p) (λ p. p) (observe ∷ [], refl, refl)
          refl refl)
        (Follows-append told summed (set_release port opts attested) [] []
          (resolve_path_summary-Follows told)
          (Follows-append summed attested (set_release port opts attested) [] []
            (resolve_build_attestation-Follows summed) (set_release-Follows attested)))

  read-Follows : (r : ReadResult) (x : Executor) → Follows x (x, read_effects r)
  unfolding read_effects pulses pulse_of grants granted_by
  read-Follows (found content digest) x = only_read x _ refl refl
  read-Follows (recovered content codes incident digest) x = only_read x _ refl refl
  read-Follows (read_refused codes none) x = only_read x _ refl refl
  read-Follows (read_refused codes (some incident)) x = only_read x _ refl refl

  start_worker-Follows :
      (nonce source : String) (x : Executor) → Follows x (start_worker port opts nonce source x)
  unfolding start_worker pulses pulse_of grants granted_by
  start_worker-Follows nonce source x =
      Follows-if x (validate_nonce nonce) _ _
        (λ e.
          Follows-quiet x _ _ refl (omega arith) refl (λ p. refl)
            (λ p q. absurd (true_is_not_false q)) (Refines-refl x.kernel) refl refl)
        (λ e.
          Follows-append x (record x { worker = true }) _ [] _
            (Follows-set x _ refl refl refl refl (λ p. p) (Refines-refl x.kernel))
            (refuse_entry-Follows port opts ("NONCE_INVALID" ∷ []) (record x { worker = true })))

  start-Follows :
      (nonce source : String) (x : Executor) → Follows x (start port opts nonce source x)
  unfolding start
  start-Follows nonce source x =
      let y = (assess port opts x).0 in
      let z = (emit_load_pulse port opts (preflight_codes y) y).0 in
      Follows-then x (assess port opts x) _ (assess-Follows x) (
        Follows-then y (emit_load_pulse port opts (preflight_codes y) y) _
          (emit_load_pulse-Follows port opts (preflight_codes y) y)
          (Follows-if z (is_empty (preflight_codes y)) _ _
            (λ e. start_worker-Follows nonce source z)
            (λ e. refuse_entry-Follows port opts (preflight_codes y) z)))

  run_with-Follows :
      (nonce : String) (r : ReadResult) (x : Executor) → Follows x (run_with port opts nonce r x)
  unfolding run_with
  run_with-Follows nonce r x =
      Follows-then x (x, read_effects r) _ (read-Follows r x)
        (Follows-elim x (read_value r) _ _ (λ e. refuse_entry-Follows port opts _ x)
          (λ source e. start-Follows nonce source x))

  pub run_entry-Follows : (nonce : String) (x : Executor) → Follows x (run_entry port opts nonce x)
  unfolding run_entry
  run_entry-Follows nonce x =
      Follows-if x x.worker _ _ (λ e. Follows-refl x)
        (λ e.
          Follows-elim x x.artifact_store _ _ (λ e. start-Follows nonce opts.source_text x)
            (λ store e.
              Follows-elim x opts.expected_source_digest _ _
                (λ e. start-Follows nonce opts.source_text x)
                (λ digest e.
                  let after = read port.content_digest port.record_digest store digest in
                  let kept : Executor = record x { artifact_store = some after.0 } in
                  Follows-if x (str_eq digest "") _ _ (λ e. start-Follows nonce opts.source_text x)
                    (λ e.
                      Follows-append x kept _ [] _
                        (Follows-set x kept refl refl refl refl (λ p. p) (Refines-refl x.kernel))
                        (run_with-Follows nonce after.1 kept)))))
