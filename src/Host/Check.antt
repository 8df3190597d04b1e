-- ===== src/Host/Check.antt =====
-- src/runtime/host/host_update.ts: the checks of `installHostUpdateV0` on the files of a release.
use weft_end.Prelude.{
  String, not, ◌&&◌, ◌||◌, Option, none, some, List, [], ◌∷◌, ◌++◌, str_eq, if◌then◌else◌,
}
use weft_end.Text.{is_non_empty}
use weft_end.Reasons.{push_if, is_none}
use weft_end.Release.{ReleaseManifest, ReleaseVerifyResult, verify_release_manifest}
use weft_end.Host.Inputs.{
  validate_host_out_dir_path, paths_overlap, HostInputs, HostPort, TrustRoot, trusted,
  trust_reasons, RuntimeBundle, read_text_bounded, load_text, load_bundle, key_reasons,
  read_trust_root, verifier_of, list_blocks_from_plan,
}

-- The texts read, and what they hold.
pub record HostFiles : Type 0 where
  pub trust : TrustRoot
  pub manifest_raw : Option String
  pub bundle_raw : Option String
  pub evidence_raw : Option String
  pub public_key_raw : Option String
  pub manifest : Option ReleaseManifest
  pub bundle : Option RuntimeBundle
  pub evidence : Option String
  pub reasons : List String

unfoldable pub out_dir_reasons : HostInputs → List String
out_dir_reasons i = elim (validate_host_out_dir_path i.out_dir i.out_dir_parent) [
  | none ↦ []
  | some code ↦ code ∷ []
]

unfoldable pub overlap_reasons : HostInputs → List String
overlap_reasons i = elim i.release_dir [
  | none ↦ []
  | some dir ↦ elim i.host_root [
    | none ↦ []
    | some root ↦ push_if (paths_overlap i.separator dir root) "HOST_ROOT_OVERLAPS_RELEASE_DIR"
  ]
]

module _ (port : HostPort) where
  -- The files, with the reasons up to the digests.
  unfoldable pub load_files : HostInputs → HostFiles
  unfolding out_dir_reasons overlap_reasons
  load_files i =
      let trust = read_trust_root port i.trust_root in
      let (m0, m) =
        read_text_bounded i.manifest "RELEASE_MANIFEST_MISSING" "RELEASE_MANIFEST_INVALID" in
      let (b0, b) = read_text_bounded i.bundle "RUNTIME_BUNDLE_MISSING" "RUNTIME_BUNDLE_INVALID" in
      let (e0, e) = read_text_bounded i.evidence "EVIDENCE_MISSING" "EVIDENCE_INVALID" in
      let (k0, k) = read_text_bounded i.public_key "PUBLIC_KEY_MISSING" "PUBLIC_KEY_INVALID" in
      let (m1, manifest) = load_text port.parse_manifest m "RELEASE_MANIFEST_INVALID" in
      let (b1, bundle) = load_bundle port b in
      let (e1, evidence) = load_text port.parse_evidence e "EVIDENCE_INVALID" in
      record {
        trust = trust;
        manifest_raw = m;
        bundle_raw = b;
        evidence_raw = e;
        public_key_raw = k;
        manifest = manifest;
        bundle = bundle;
        evidence = evidence;
        reasons =
            out_dir_reasons i
            ++ (push_if (is_none i.release_dir || not i.release_dir_exists) "RELEASE_DIR_MISSING"
                ++ (overlap_reasons i
                    ++ (trust_reasons trust
                        ++ (m0
                            ++ (b0
                                ++ (e0 ++ (k0 ++ (m1 ++ (b1 ++ (e1 ++ key_reasons port k))))))))));
      }

  -- `verifyReleaseManifestV0` as it is called.
  unfoldable pub verify_release :
      String → String → ReleaseManifest → RuntimeBundle → ReleaseVerifyResult
  verify_release key_id key m b =
      verify_release_manifest port.release (some m)
        (if is_non_empty b.plan_hash then b.plan_hash else "") (list_blocks_from_plan b)
        b.path_digest (some (verifier_of port key)) ((key_id, key) ∷ [])

  -- The reasons of the checks that need the manifest, the bundle and the trust root.
  unfoldable pub policy_reasons : ReleaseManifest → RuntimeBundle → List String
  policy_reasons m b =
      push_if
        (not (str_eq m.body.policy_digest "")
          && is_non_empty b.policy_id
          && not (str_eq m.body.policy_digest b.policy_id))
        "POLICY_DIGEST_MISMATCH"

  unfoldable pub head_reasons : Option String → Option String → List String
  head_reasons none evidence = []
  head_reasons (some head) none = []
  head_reasons (some head) (some observed) =
      push_if (not (str_eq head "") && not (str_eq observed head)) "EVIDENCE_HEAD_MISMATCH"

  unfoldable pub check_reasons :
      TrustRoot → Option ReleaseManifest → Option RuntimeBundle → Option String → List String
  check_reasons (trusted key_id key) (some m) (some b) evidence =
      (verify_release key_id key m b).reason_codes
      ++ (policy_reasons m b ++ head_reasons m.body.evidence_journal_head evidence)
  check_reasons _ _ _ _ = []

  unfoldable pub verify_reasons : HostInputs → List String
  verify_reasons i =
      let f = load_files i in f.reasons ++ check_reasons f.trust f.manifest f.bundle f.evidence
