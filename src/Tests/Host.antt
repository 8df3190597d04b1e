-- ===== src/Tests/Host.antt =====
-- Installs of a signed release, and installs that fail.
use weft_end.Prelude.{
  inr, ◌≡◌, refl, true, false, none, some, [], ◌∷◌, str_eq, take, drop, arith, if◌then◌else◌,
}
use weft_end.Text.{is_non_empty, includes}
use weft_end.Text.Table.{get}
use weft_end.Reasons.{
  stable_sort_unique_strings, stable_sort_unique_reasons, normalize_reason_codes,
  normalize_reason_array, bound_reasons, reason_limit, collect, fresh, checkpoint_eq_or_reason,
}
use weft_end.Sort.{sort, insert}
use weft_end.Release.{
  same_strings, some_signature, signature_reasons, path_reasons, block_reasons, manifest_reasons,
  ReleaseManifest, verify_release_manifest,
}
use weft_end.Host.Apply.{
  HostDirs, copy_bundle, install_staging, Faults, ReleaseFiles, applied, rolled_back, skipped,
  run_calls, perform, is_called, exchange_calls, apply_update, new_files,
}
use weft_end.Host.Inputs.{
  HostPort, HostInputs, RuntimeBundle, valid, falsy, present, directory, read_text_bounded,
  load_text, load_bundle, key_reasons, read_trust_root, validate_host_out_dir_path, paths_overlap,
  verifier_of, list_blocks_from_plan, block_ids, has_part,
}
use weft_end.Host.Check.{
  load_files, verify_reasons, out_dir_reasons, overlap_reasons, check_reasons, verify_release,
  policy_reasons, head_reasons,
}
use weft_end.Host.Install.{
  install_host_update, decision_reasons, signing_reasons, apply_loaded, apply_release,
}
use weft_end.Host.Laws.{SoundInstall, install_exit_zero, install_denied}
use weft_end.Host.Unread.{install_unread, with_manifest}
use weft_end.Host.Rollback.{apply_update_installs, apply_update_loses, apply_update_restores}
use weft_end.Tests.Release.{release_port, body, signature, manifest, verifier}

abbrev files : ReleaseFiles
files = record {
  manifest = "manifest";
  bundle = "bundle";
  evidence = "evidence";
  public_key = "key";
  host_self = "self";
}

abbrev installed_before : HostDirs
installed_before = record {
  staging = none;
  current = some (("release_manifest.json", "old") ∷ []);
  backup = none;
}

abbrev fails_at_copy : Faults
fails_at_copy copy_bundle = true
fails_at_copy _ = false

abbrev fails_at_install : Faults
fails_at_install install_staging = true
fails_at_install _ = false

update_without_faults :
    ((apply_update (λ c. false) files installed_before).result ≡ applied)
    × ((apply_update (λ c. false) files installed_before).dirs
        ≡ record { staging = none; current = some (new_files files); backup = none })
update_without_faults =
    apply_update_installs files (λ c. false) installed_before
      (refl, (refl, (refl, (refl, (refl, (refl, (refl, (refl, (refl, (refl, (refl, tt)))))))))))

apply_update_restores_example :
    ((apply_update fails_at_install files installed_before).result ≡ rolled_back)
    × ((apply_update fails_at_install files installed_before).dirs.current
        ≡ some (("release_manifest.json", "old") ∷ []))
apply_update_restores_example =
    apply_update_restores files fails_at_install installed_before
      (("release_manifest.json", "old") ∷ [])
      (refl, (refl, (refl, (refl, (refl, (refl, (refl, (refl, (refl, tt))))))))) refl
      (refl, (refl, tt)) refl

apply_update_loses_example :
    ((apply_update fails_at_copy files installed_before).result ≡ rolled_back)
    × ((apply_update fails_at_copy files installed_before).dirs.current ≡ none)
apply_update_loses_example =
    apply_update_loses files fails_at_copy (take 3 exchange_calls) copy_bundle
      (drop 4 exchange_calls) installed_before (("release_manifest.json", "old") ∷ []) refl
      (omega arith) (refl, (refl, (refl, tt))) refl (refl, (refl, tt)) refl refl

abbrev bundle : RuntimeBundle
bundle = record {
  plan_hash = "plan";
  node_ids = "block:a" ∷ "link" ∷ [];
  path_digest = some "path";
  policy_id = "policy";
  compiler_version = "1.0.0";
}

abbrev installed_manifest : ReleaseManifest
installed_manifest = record manifest { body = record body { blocks = "block:a" ∷ [] } }

abbrev host_port : HostPort
host_port = record {
  parse_manifest = λ text. if str_eq text "null" then falsy else valid installed_manifest;
  parse_bundle = λ text. valid bundle;
  parse_evidence = λ text. valid "evidence digest";
  parse_key = λ text. valid ("key", "pub:key");
  digest = λ text. "digest";
  demo_verify = verifier;
  verify_ed25519 = λ payload sig key. none;
  verify_p256 = λ payload sig key. none;
  derive_demo_public_key = λ secret. "pub:key";
  sign = λ secret self key_id. some signature;
  host_self_text = λ self sig. "self";
  release = release_port;
}

abbrev inputs : HostInputs
inputs = record {
  release_dir = some "/release";
  release_dir_exists = true;
  host_root = some "/host";
  separator = "/";
  out_dir = directory;
  out_dir_parent = directory;
  trust_root = present (some 10) (some "trust");
  manifest = present (some 8) (some "manifest");
  bundle = present (some 6) (some "bundle");
  evidence = present (some 8) (some "evidence");
  public_key = present (some 3) (some "key");
  signing_secret = "secret";
}

exits_with_zero : (install_host_update host_port (λ c. false) inputs installed_before).exit_code ≡ 0
unfolding install_host_update decision_reasons verify_reasons load_files out_dir_reasons
    overlap_reasons read_text_bounded load_text load_bundle key_reasons read_trust_root
    validate_host_out_dir_path paths_overlap signing_reasons check_reasons verify_release
    policy_reasons head_reasons verify_release_manifest manifest_reasons path_reasons block_reasons
    signature_reasons some_signature get same_strings stable_sort_unique_strings
    stable_sort_unique_reasons normalize_reason_codes normalize_reason_array bound_reasons
    reason_limit collect fresh includes is_non_empty sort insert verifier_of list_blocks_from_plan
    block_ids apply_loaded apply_release apply_update run_calls perform is_called
    checkpoint_eq_or_reason has_part
exits_with_zero = refl

install_exit_zero_example : SoundInstall host_port (λ c. false) inputs installed_before
install_exit_zero_example =
    install_exit_zero host_port (λ c. false) inputs installed_before exits_with_zero

-- The release of `inputs` is in order.
inputs_load : (load_files host_port inputs).reasons ≡ []
unfolding load_files out_dir_reasons overlap_reasons read_text_bounded load_text load_bundle
    key_reasons read_trust_root validate_host_out_dir_path paths_overlap
inputs_load = refl

-- The same release with the text `null` for its manifest.
install_unread_example :
    let outcome =
      install_host_update host_port (λ c. false) (with_manifest inputs 4 "null") installed_before in
    (outcome.allowed ≡ true)
    × (outcome.verified_ok ≡ true)
    × (outcome.applied_with.result ≡ skipped)
    × (outcome.exit_code ≡ 40)
install_unread_example =
    install_unread host_port (λ c. false) inputs installed_before 4 "null" inputs_load (omega arith)
      (inr refl) refl refl

-- A release directory that lies in the host root.
abbrev overlapping : HostInputs
overlapping = record inputs { release_dir = some "/host/release" }

overlapping_is_denied :
    (install_host_update host_port (λ c. false) overlapping installed_before).allowed ≡ false
unfolding install_host_update decision_reasons out_dir_reasons overlap_reasons paths_overlap
    validate_host_out_dir_path
overlapping_is_denied = refl

overlapping_changes_nothing :
    ((install_host_update host_port (λ c. false) overlapping installed_before).applied_with.dirs
      ≡ installed_before)
    × ((install_host_update host_port (λ c. false) overlapping installed_before).applied_with.result
        ≡ skipped)
    × ((install_host_update host_port (λ c. false) overlapping installed_before).exit_code ≡ 40)
overlapping_changes_nothing =
    install_denied host_port (λ c. false) overlapping installed_before overlapping_is_denied

-- A manifest with an evidence head and an evidence file with the text `null`: the head is not
-- checked, and the update is applied.
abbrev headed : HostPort
headed = record host_port {
  parse_manifest = λ text. valid (record installed_manifest {
    body = record installed_manifest.body { evidence_journal_head = some "head" };
  });
  parse_evidence = λ text. falsy;
}

head_is_not_checked :
    (install_host_update headed (λ c. false) inputs installed_before).exit_code ≡ 0
unfolding install_host_update decision_reasons verify_reasons load_files out_dir_reasons
    overlap_reasons read_text_bounded load_text load_bundle key_reasons read_trust_root
    validate_host_out_dir_path paths_overlap signing_reasons check_reasons verify_release
    policy_reasons head_reasons verify_release_manifest manifest_reasons path_reasons block_reasons
    signature_reasons some_signature get same_strings stable_sort_unique_strings
    stable_sort_unique_reasons normalize_reason_codes normalize_reason_array bound_reasons
    reason_limit collect fresh includes is_non_empty sort insert verifier_of list_blocks_from_plan
    block_ids apply_loaded apply_release apply_update run_calls perform is_called
    checkpoint_eq_or_reason has_part
head_is_not_checked = refl
