-- ===== src/Host/Unread.antt =====
-- Files of a host update that count as read and hold nothing.
use weft_end.Prelude.{
  ℕ, ◌≤◌, String, ◌≡◌, ◌⊎◌, refl, true, false, Option, none, some, [], str_eq, eq_iff, arith, inl,
  inr, Bool-cases, not, ◌||◌,
}
use weft_end.Reasons.{is_none, push_if}
use weft_end.Kernel.Empty.{append_nil_parts}
use weft_end.Host.Apply.{HostDirs, Faults, skipped}
use weft_end.Host.Inputs.{
  HostPort, HostInputs, RuntimeBundle, TrustRoot, trusted, untrusted, trust_reasons, present, falsy,
  FileText, read_trust_root, read_text_bounded, load_text, max_input_bytes,
}
use weft_end.Host.Check.{
  HostFiles, load_files, out_dir_reasons, overlap_reasons, check_reasons, verify_reasons,
}
use weft_end.Host.Laws.{TrustRoot-cases}
use weft_end.Host.Install.{decision_reasons, signing_reasons, apply_loaded, install_host_update}

-- The inputs with another manifest file.
abbrev pub with_manifest : HostInputs → ℕ → String → HostInputs
with_manifest i size text = record i { manifest = present (some size) (some text) }

module _ (port : HostPort) where
  -- A text that holds nothing: it is empty, or its value counts as false.
  abbrev pub HoldsNothing : String → Type 0
  HoldsNothing text = (text ≡ "") ⊎ (port.parse_manifest text ≡ falsy)

  read_text_small :
      (size : ℕ) (text missing_code invalid_code : String)
      → size ≤ max_input_bytes
      → read_text_bounded (present (some size) (some text)) missing_code invalid_code
        ≡ ([], some text)
  unfolding read_text_bounded
  read_text_small size text missing_code invalid_code h = ground arith

  load_text_nothing :
      (text code : String)
      → HoldsNothing text
      → load_text port.parse_manifest (some text) code ≡ ([], none)
  unfolding load_text
  load_text_nothing text code (inl e) = rw ((eq_iff text "").1 e, load_text) refl
  load_text_nothing text code (inr e) = elim (Bool-cases (str_eq text "")) [
    | inl b ↦ rw (b, load_text) refl
    | inr b ↦ rw (b, e, load_text) refl
  ]

  load_files_nothing :
      (i : HostInputs) (size : ℕ) (text : String)
      → (load_files port i).reasons ≡ []
      → size ≤ max_input_bytes
      → HoldsNothing text
      → ((load_files port (with_manifest i size text)).reasons ≡ [])
        × ((load_files port (with_manifest i size text)).manifest ≡ none)
  unfolding load_files
  load_files_nothing i size text h small nothing =
      let manifest =
        read_text_bounded i.manifest "RELEASE_MANIFEST_MISSING" "RELEASE_MANIFEST_INVALID" in
      let read = λ (f : FileText) (missing_code invalid_code : String).
        (read_text_bounded f missing_code invalid_code).0 in
      let (out, r0) = append_nil_parts (out_dir_reasons i) _ h in
      let (dir, r1) =
        append_nil_parts
          (push_if (is_none i.release_dir || not i.release_dir_exists) "RELEASE_DIR_MISSING") _
          r0 in
      let (overlap, r2) = append_nil_parts (overlap_reasons i) _ r1 in
      let (trust, r3) = append_nil_parts (trust_reasons (read_trust_root port i.trust_root)) _ r2 in
      let (_, r4) = append_nil_parts manifest.0 _ r3 in
      let (bundle, r5) =
        append_nil_parts (read i.bundle "RUNTIME_BUNDLE_MISSING" "RUNTIME_BUNDLE_INVALID") _ r4 in
      let (evidence, r6) =
        append_nil_parts (read i.evidence "EVIDENCE_MISSING" "EVIDENCE_INVALID") _ r5 in
      let (key, r7) =
        append_nil_parts (read i.public_key "PUBLIC_KEY_MISSING" "PUBLIC_KEY_INVALID") _ r6 in
      let (_, rest) =
        append_nil_parts (load_text port.parse_manifest manifest.1 "RELEASE_MANIFEST_INVALID").0 _
          r7 in
      rw
        (
          read_text_small size text "RELEASE_MANIFEST_MISSING" "RELEASE_MANIFEST_INVALID" small,
          load_text_nothing text "RELEASE_MANIFEST_INVALID" nothing,
          out,
          dir,
          overlap,
          trust,
          bundle,
          evidence,
          key,
          rest,
        )
        (refl, refl)

  check_reasons_unread :
      (trust : TrustRoot) (bundle : Option RuntimeBundle) (evidence : Option String)
      → check_reasons port trust none bundle evidence ≡ []
  unfolding check_reasons
  check_reasons_unread (untrusted r) bundle evidence = refl
  check_reasons_unread (trusted k v) bundle evidence = refl

  unread_checked :
      (i : HostInputs)
      → (load_files port i).reasons ≡ []
      → (load_files port i).manifest ≡ none
      → verify_reasons port i ≡ []
  unfolding verify_reasons
  unread_checked i h m =
      rw (h, m)
        (check_reasons_unread (load_files port i).trust (load_files port i).bundle
          (load_files port i).evidence)

  -- The reasons that are reasons of the decision as well.
  shared_reasons :
      (i : HostInputs)
      → (load_files port i).reasons ≡ []
      → (out_dir_reasons i ≡ [])
        × (overlap_reasons i ≡ [])
        × (trust_reasons (load_files port i).trust ≡ [])
  unfolding load_files
  shared_reasons i h =
      let (out, r0) = append_nil_parts (out_dir_reasons i) _ h in
      let (_, r1) = append_nil_parts _ _ r0 in
      let (overlap, r2) = append_nil_parts (overlap_reasons i) _ r1 in
      let (trust, _) = append_nil_parts _ _ r2 in (out, overlap, trust)

  signing_unread :
      (i : HostInputs) (f : HostFiles)
      → trust_reasons f.trust ≡ []
      → f.manifest ≡ none
      → str_eq i.signing_secret "" ≡ false
      → signing_reasons port i f ≡ []
  unfolding signing_reasons
  signing_unread i f trust m secret = elim (TrustRoot-cases f.trust) [
    | inl (reason, e) ↦ ground (arith, e, trust)
    | inr (key_id, key, e) ↦ ground (arith, e, m, secret)
  ]

  unread_allowed :
      (i : HostInputs)
      → (load_files port i).reasons ≡ []
      → (load_files port i).manifest ≡ none
      → is_none i.host_root ≡ false
      → str_eq i.signing_secret "" ≡ false
      → decision_reasons port i ≡ []
  unfolding decision_reasons
  unread_allowed i h m root secret =
      let (out, overlap, trust) = shared_reasons i h in
      let signing = signing_unread i (load_files port i) trust m secret in
      rw (unread_checked i h m, out, overlap, trust, root, signing) refl

  apply_loaded_unread :
      (faults : Faults) (i : HostInputs) (f : HostFiles) (d : HostDirs)
      → f.manifest ≡ none
      → (apply_loaded port faults i f d).result ≡ skipped
  unfolding apply_loaded
  apply_loaded_unread faults i f d m = rw m (ground arith)

  module _ (faults : Faults) (i : HostInputs) (d : HostDirs) where
    -- A release whose files load without a reason, with its manifest file replaced by one within the
    -- limit of the size that is empty or whose value counts as false (`null`), with a host root and a
    -- signing secret: the receipt says that the release is verified and the update allowed, nothing
    -- is applied, and the exit code is 40.
    pub install_unread :
        (size : ℕ) (text : String)
        → (load_files port i).reasons ≡ []
        → size ≤ max_input_bytes
        → HoldsNothing text
        → is_none i.host_root ≡ false
        → str_eq i.signing_secret "" ≡ false
        → let outcome = install_host_update port faults (with_manifest i size text) d in
          (outcome.allowed ≡ true)
          × (outcome.verified_ok ≡ true)
          × (outcome.applied_with.result ≡ skipped)
          × (outcome.exit_code ≡ 40)
    unfolding install_host_update
    install_unread size text loads small nothing root secret =
        let j = with_manifest i size text in
        let (h, m) = load_files_nothing i size text loads small nothing in
        let checked = unread_checked j h m in
        let allowed = unread_allowed j h m root secret in
        let apart = apply_loaded_unread faults j (load_files port j) d m in
        rw (checked, allowed, secret, apart) (refl, refl, refl, refl)
