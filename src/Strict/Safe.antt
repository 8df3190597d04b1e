-- ===== src/Strict/Safe.antt =====
-- What a strict executor that opened its channel has checked, and that an entry that ends with a value
-- came over that channel.
use weft_end.Prelude.{
  ◌≡◌, refl, subst, ◌⊎◌, inl, String, Bool, true, false, Option, none, some, List, [], arith,
  Bool-cases, if◌then◌else◌, some_injective,
}
use weft_end.Boundary.{validate_nonce}
use weft_end.Pulse.{PulseKind, PulseSubject, PulseCounts, load, exit, release}
use weft_end.Release.{verified}
use weft_end.Strict.Types.{failed, SandboxResult, StrictOptions, StrictPort, Executor, Effect}
use weft_end.Strict.State.{
  then_do, emit_pulse, emit_load_pulse, emit_exit_pulse, known_release_id, block_subject,
  exit_codes, settle_entry, resolve_entry, refuse_entry,
}
use weft_end.Strict.Preflight.{path_summary, build_attestation, verify_for_run}

-- A result that tells of no value.
abbrev pub IsFailure : SandboxResult → Type 0
IsFailure r = (codes : Option (List String)) × (r.outcome ≡ failed codes)

module _ (port : StrictPort) (opts : StrictOptions) (nonce : String) where
  -- The checks of `run`: the nonce, the path summary, the attestation and the release.
  abbrev pub IsCleared : Type 0
  IsCleared =
      (validate_nonce nonce ≡ true)
      × ((path_summary opts.plan_snapshot).0 ≡ [])
      × (build_attestation opts.require_build_attestation opts.plan_digest opts.evidence_bundle
          ≡ [])
      × ((verify_for_run port opts (path_summary opts.plan_snapshot).1).status ≡ verified)

  abbrev pub IsSafe : Executor → Type 0
  IsSafe x =
      (x.host_port ≡ true → IsCleared)
      × ((r : SandboxResult) → x.pending_entry ≡ some r → x.host_port ≡ true)
      × ((r : SandboxResult) → x.entry ≡ some r → IsFailure r ⊎ (x.host_port ≡ true))
      × (x.path_summary_resolved ≡ true
          → (x.path_summary_reasons ≡ (path_summary opts.plan_snapshot).0)
            × (x.expected_path_digest ≡ (path_summary opts.plan_snapshot).1))
      × (x.attestation_resolved ≡ true
          → x.attestation_reasons
            ≡ build_attestation opts.require_build_attestation opts.plan_digest
                opts.evidence_bundle)

  pub IsSafe-if :
      (b : Bool) (t e : Executor × List Effect)
      → (b ≡ true → IsSafe t.0)
      → (b ≡ false → IsSafe e.0)
      → IsSafe (if b then t else e).0
  IsSafe-if true t e h k = h refl
  IsSafe-if false t e h k = k refl

  pub IsSafe-elim {ℓ} :
      {A : Type ℓ} (o : Option A) (t : Executor × List Effect) (f : A → Executor × List Effect)
      → (o ≡ none → IsSafe t.0)
      → ((a : A) → o ≡ some a → IsSafe (f a).0)
      → let chosen : Executor × List Effect = elim o [ none ↦ t | some a ↦ f a ] in IsSafe chosen.0
  IsSafe-elim none t f h k = h refl
  IsSafe-elim (some a) t f h k = k a refl

  pub IsSafe-if_state :
      (b : Bool) (t e : Executor)
      → (b ≡ true → IsSafe t)
      → (b ≡ false → IsSafe e)
      → IsSafe (if b then t else e)
  IsSafe-if_state true t e h k = h refl
  IsSafe-if_state false t e h k = k refl

  pub IsSafe-elim_state {ℓ} :
      {A : Type ℓ} (o : Option A) (t : Executor) (f : A → Executor)
      → (o ≡ none → IsSafe t)
      → ((a : A) → o ≡ some a → IsSafe (f a))
      → let chosen : Executor = elim o [ none ↦ t | some a ↦ f a ] in IsSafe chosen
  IsSafe-elim_state none t f h k = h refl
  IsSafe-elim_state (some a) t f h k = k a refl

  -- A pulse changes no field that matters here.
  pub IsSafe-emit :
      (kind : PulseKind) (subject : PulseSubject) (cap_id : Option String) (codes : List String)
      (counts : Option PulseCounts) (x : Executor)
      → IsSafe x
      → IsSafe (emit_pulse port opts kind subject cap_id codes counts x).0
  unfolding emit_pulse
  IsSafe-emit kind subject cap_id codes counts x s = IsSafe-if opts.on_pulse _ _ (λ e. s) (λ e. s)

  pub IsSafe-load :
      (codes : List String) (x : Executor) → IsSafe x → IsSafe (emit_load_pulse port opts codes x).0
  unfolding emit_load_pulse
  IsSafe-load codes x s =
      IsSafe-if x.load_pulse_emitted _ _ (λ e. s)
        (λ e.
          IsSafe-elim (known_release_id opts x) _ _ (λ e. s)
            (λ id e.
              IsSafe-emit load (record { kind = release; id = id }) none codes none
                (record x { load_pulse_emitted = true }) s))

  IsSafe-exit :
      (r : SandboxResult) (x : Executor) → IsSafe x → IsSafe (emit_exit_pulse port opts r x).0
  unfolding emit_exit_pulse
  IsSafe-exit r x s =
      IsSafe-if x.exit_pulse_emitted _ _ (λ e. s)
        (λ e.
          IsSafe-emit exit (block_subject opts) none (exit_codes r.outcome) none
            (record x { exit_pulse_emitted = true }) s)

  host_port-exit :
      (r : SandboxResult) (x : Executor) → (emit_exit_pulse port opts r x).0.host_port ≡ x.host_port
  unfolding emit_exit_pulse emit_pulse
  host_port-exit r x = ground (arith, Bool-cases x.exit_pulse_emitted, Bool-cases opts.on_pulse)

  IsSafe-settle :
      (r : SandboxResult) (x : Executor)
      → IsSafe x
      → IsFailure r ⊎ (x.host_port ≡ true)
      → IsSafe (settle_entry r x)
  unfolding settle_entry
  IsSafe-settle r x s h =
      IsSafe-elim_state x.entry (record x { entry = some r }) (λ q. x)
        (λ e. (
          s.0,
          s.1,
          (λ q f. subst (λ p. IsFailure p ⊎ (x.host_port ≡ true)) (some_injective f) h),
          s.3,
          s.4,
        ))
        (λ q e. s)

  -- A resolution with a failure, or over an open channel.
  pub IsSafe-resolve :
      (r : SandboxResult) (x : Executor)
      → IsSafe x
      → IsFailure r ⊎ (x.host_port ≡ true)
      → IsSafe (resolve_entry port opts r x).0
  unfolding resolve_entry then_do
  IsSafe-resolve r x s h =
      let y : Executor = record x { entry_timeout_set = false } in
      IsSafe-settle r _ (IsSafe-exit r y s) (rw (host_port-exit r y) h)

  pub IsSafe-refuse :
      (codes : List String) (x : Executor) → IsSafe x → IsSafe (refuse_entry port opts codes x).0
  unfolding refuse_entry
  IsSafe-refuse codes x s =
      IsSafe-resolve (record { req_id = "entry"; outcome = failed (some codes) }) x s
        (inl (some codes, refl))
