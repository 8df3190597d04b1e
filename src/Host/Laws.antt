-- ===== src/Host/Laws.antt =====
-- What an install of a host update promises.
use weft_end.Prelude.{
  String, ◌≡◌, refl, sym, ◌∙◌, ap, false, none, some, [], str_eq, arith, ◌⊎◌, inl, inr, Bool-cases,
  Option-cases,
}
use weft_end.Reasons.{is_empty}
use weft_end.Kernel.Types.{Signature}
use weft_end.Kernel.Empty.{append_nil_parts}
use weft_end.Reasons.Whole.{is_empty_iff}
use weft_end.Release.{ReleaseManifest, verified, verify_release_manifest}
use weft_end.Host.Apply.{HostDirs, Faults, applied, skipped, apply_update, new_files}
use weft_end.Host.Rollback.{apply_update_applied}
use weft_end.Host.Inputs.{HostPort, HostInputs, RuntimeBundle, TrustRoot, trusted, untrusted}
use weft_end.Host.Check.{
  load_files, out_dir_reasons, overlap_reasons, verify_release, check_reasons, verify_reasons,
}
use weft_end.Host.Install.{
  decision_reasons, host_self_of, release_files, apply_release, apply_loaded, install_host_update,
}

pub TrustRoot-cases :
    (t : TrustRoot)
    → ((reason : String) × (t ≡ untrusted reason))
      ⊎ ((key_id : String) × (key : String) × (t ≡ trusted key_id key))
TrustRoot-cases (untrusted reason) = inl (reason, refl)
TrustRoot-cases (trusted key_id key) = inr (key_id, key, refl)

module _ (port : HostPort) where
  -- The release that a trusted key, a manifest and a bundle make, and what is installed of it.
  pub record SoundInstall (faults : Faults) (i : HostInputs) (d : HostDirs) : Type 0 where
    pub key_id : String
    pub key : String
    pub manifest : ReleaseManifest
    pub bundle : RuntimeBundle
    pub signature : Signature
    pub trust : (load_files port i).trust ≡ trusted key_id key
    pub manifest_read : (load_files port i).manifest ≡ some manifest
    pub bundle_read : (load_files port i).bundle ≡ some bundle
    pub checked : (verify_release port key_id key manifest bundle).status ≡ verified
    pub signed :
        port.sign i.signing_secret (host_self_of port (load_files port i) manifest bundle) key_id
        ≡ some signature
    pub installed : (install_host_update port faults i d).applied_with.dirs ≡ record {
      staging = none;
      current = some (
          new_files (
            release_files port
              (load_files port i)
              (host_self_of port (load_files port i) manifest bundle)
              signature));
      backup = none;
    }

  module _ (faults : Faults) (i : HostInputs) (d : HostDirs) where
    applied_release :
        (apply_loaded port faults i (load_files port i) d).result ≡ applied
        → (key_id : String) × (key : String) × (m : ReleaseManifest) × (b : RuntimeBundle)
          × ((load_files port i).trust ≡ trusted key_id key)
          × ((load_files port i).manifest ≡ some m)
          × ((load_files port i).bundle ≡ some b)
          × (apply_loaded port faults i (load_files port i) d
              ≡ apply_release port faults i (load_files port i) d m b key_id)
    unfolding apply_loaded
    applied_release h = elim (TrustRoot-cases (load_files port i).trust) [
      | inl (reason, e) ↦ absurd (ground (arith, e, h))
      | inr (key_id, key, e) ↦ elim (Option-cases (load_files port i).manifest) [
        | inl e' ↦ absurd (ground (arith, e, e', h))
        | inr (m, e') ↦ elim (Option-cases (load_files port i).bundle) [
          | inl e'' ↦ absurd (ground (arith, e, e', e'', h))
          | inr (b, e'') ↦ (key_id, key, m, b, e, e', e'', ground (arith, e, e', e''))
        ]
      ]
    ]

    -- An applied update is signed, and all calls of its exchange were made.
    signed_release :
        (m : ReleaseManifest) (b : RuntimeBundle) (key_id : String)
        → (apply_release port faults i (load_files port i) d m b key_id).result ≡ applied
        → (sig : Signature) × (port.sign i.signing_secret
              (host_self_of port (load_files port i) m b)
              key_id
            ≡ some sig)
          × ((apply_release port faults i (load_files port i) d m b key_id).dirs ≡ record {
            staging = none;
            current = some (
                new_files (
                  release_files port
                    (load_files port i)
                    (host_self_of port (load_files port i) m b)
                    sig));
            backup = none;
          })
    unfolding apply_release
    signed_release m b key_id h =
        let self = host_self_of port (load_files port i) m b in
        elim (Option-cases (port.sign i.signing_secret self key_id)) [
          | inl e ↦ absurd (ground (arith, e, h))
          | inr (sig, e) ↦
              let files = release_files port (load_files port i) self sig in
              let same : apply_release port faults i (load_files port i) d m b key_id
                  ≡ apply_update faults files d =
                rw (e, apply_release) refl in
              let done = apply_update_applied files faults d (ap (λ a. a.result) (sym same) ∙ h) in
              (sig, e, ap (λ a. a.dirs) same ∙ done)
        ]

    checked_nil : decision_reasons port i ≡ [] → verify_reasons port i ≡ []
    unfolding decision_reasons
    checked_nil h =
        let (_, r0) = append_nil_parts (out_dir_reasons i) _ h in
        let (_, r1) = append_nil_parts _ _ r0 in
        let (_, r2) = append_nil_parts (overlap_reasons i) _ r1 in
        let (_, r3) = append_nil_parts _ _ r2 in (append_nil_parts (verify_reasons port i) _ r3).0

    check_nil :
        (key_id key : String) (m : ReleaseManifest) (b : RuntimeBundle)
        → (load_files port i).trust ≡ trusted key_id key
        → (load_files port i).manifest ≡ some m
        → (load_files port i).bundle ≡ some b
        → verify_reasons port i ≡ []
        → (verify_release port key_id key m b).status ≡ verified
    unfolding verify_reasons check_reasons verify_release verify_release_manifest
    check_nil key_id key m b trust read read_bundle h =
        let checks = (append_nil_parts (load_files port i).reasons _ h).1 in
        let checks : check_reasons port (trusted key_id key) (some m) (some b)
              (load_files port i).evidence
            ≡ [] =
          sym (rw (trust, read, read_bundle) refl) ∙ checks in
        let codes : (verify_release port key_id key m b).reason_codes ≡ [] =
          (append_nil_parts _ _ checks).0 in
        rw codes refl

    exit_zero :
        (install_host_update port faults i d).exit_code ≡ 0
        → (decision_reasons port i ≡ [])
          × ((install_host_update port faults i d).applied_with
              ≡ apply_loaded port faults i (load_files port i) d)
          × ((apply_loaded port faults i (load_files port i) d).result ≡ applied)
    unfolding install_host_update
    exit_zero h = elim (Bool-cases (is_empty (decision_reasons port i))) [
      | inr e ↦ absurd (ground (arith, e, h))
      | inl e ↦ elim (Bool-cases (str_eq i.signing_secret "")) [
        | inl blank ↦ absurd (ground (arith, e, blank, h))
        | inr named ↦ (
          is_empty_iff (decision_reasons port i) e,
          rw (e, named) refl,
          ground (arith, e, named, h),
        )
      ]
    ]

    -- An update that exits with 0 has a trust root, a manifest and a bundle, whose release verifies
    -- under the key of the trust root, and what is installed are the files of this release with a
    -- signed manifest of the host. Neither a staged directory nor a backup is left.
    pub install_exit_zero :
        (install_host_update port faults i d).exit_code ≡ 0 → SoundInstall faults i d
    install_exit_zero h =
        let (allowed, whole, done) = exit_zero h in
        let (key_id, key, m, b, trust, read, read_bundle, same) = applied_release done in
        let (sig, signed, dirs) =
          signed_release m b key_id (ap (λ a. a.result) (sym same) ∙ done) in
        record {
          key_id = key_id;
          key = key;
          manifest = m;
          bundle = b;
          signature = sig;
          trust = trust;
          manifest_read = read;
          bundle_read = read_bundle;
          checked = check_nil key_id key m b trust read read_bundle (checked_nil allowed);
          signed = signed;
          installed = ap (λ a. a.dirs) (whole ∙ same) ∙ dirs;
        }

    -- A denied update changes no directory, applies nothing, and exits with 40.
    pub install_denied :
        (install_host_update port faults i d).allowed ≡ false
        → ((install_host_update port faults i d).applied_with.dirs ≡ d)
          × ((install_host_update port faults i d).applied_with.result ≡ skipped)
          × ((install_host_update port faults i d).exit_code ≡ 40)
    unfolding install_host_update
    install_denied h = rw h (refl, refl, refl)
