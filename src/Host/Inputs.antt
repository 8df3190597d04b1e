-- ===== src/Host/Inputs.antt =====
-- src/runtime/host/host_update.ts and host_self_manifest.ts: how `installHostUpdateV0` reads its
-- paths, its files and its trust root, and how it checks a signature. `JSON.parse` followed by a
-- validator of src/core/validate.ts, the digests, the canonical forms and the signatures are
-- parameters (`HostPort`); `parse_evidence` answers the digest of the bundle it reads.
use Prim.Native.String.{◌++◌ as str_append}
use text.Mathlib.Text.{starts_with}
use weft_end.Prelude.{
  ℕ, String, Bool, false, not, ◌&&◌, ◌||◌, Option, none, some, List, [], ◌∷◌, ◌++◌, map, ◌*◌,
  str_eq, ltb, if◌then◌else◌,
}
use weft_end.Text.{is_non_empty}
use weft_end.Reasons.{string, stable_sort_unique_strings, push_if, or_default}
use weft_end.Kernel.Types.{Signature}
use weft_end.Release.{ReleaseManifest, ReleasePort, Verifier}

abbrev pub max_input_bytes : ℕ
max_input_bytes = 1024 * 1024

abbrev pub absent_digest : String
absent_digest = "sha256:0000000000000000000000000000000000000000000000000000000000000000"

-- `value.includes(part)`.
unfoldable pub has_part : String → String → Bool
has_part String.[] part = starts_with "" part
has_part (String.◌∷◌ c s) part = starts_with (String.◌∷◌ c s) part || has_part s part

ends_with : String → String → Bool
ends_with String.[] end = str_eq "" end
ends_with (String.◌∷◌ c s) end = str_eq (String.◌∷◌ c s) end || ends_with s end

with_separator : String → String → String
with_separator sep p = if ends_with p sep then p else str_append p sep

-- `pathsOverlap`, of two resolved paths and the separator.
unfoldable pub paths_overlap : String → String → String → Bool
unfolding with_separator ends_with
paths_overlap sep a b =
    str_eq a b || starts_with a (with_separator sep b) || starts_with b (with_separator sep a)

-- What `existsSync` and `statSync` say of a path.
pub data Probe : Type 0 where
  absent directory not_directory unreadable : Probe

-- `validateHostOutDirPath`, from the directory and its parent.
unfoldable pub validate_host_out_dir_path : Probe → Probe → Option String
validate_host_out_dir_path not_directory parent = some "HOST_OUT_PATH_NOT_DIRECTORY"
validate_host_out_dir_path unreadable parent = some "HOST_OUT_PATH_INVALID"
validate_host_out_dir_path _ not_directory = some "HOST_OUT_PATH_PARENT_NOT_DIRECTORY"
validate_host_out_dir_path _ unreadable = some "HOST_OUT_PATH_INVALID"
validate_host_out_dir_path _ _ = none

-- A path: not there, or with the size that `statSync` gives and the text that `readFileSync`
-- gives, each of which may throw.
pub data FileText : Type 0 where
  missing : FileText
  present : Option ℕ → Option String → FileText

-- `readTextBounded`: the reasons pushed and the text.
unfoldable pub read_text_bounded : FileText → String → String → List String × Option String
read_text_bounded missing missing_code invalid_code = (missing_code ∷ [], none)
read_text_bounded (present none text) missing_code invalid_code = (invalid_code ∷ [], none)
read_text_bounded (present (some size) text) missing_code invalid_code =
    if ltb max_input_bytes size
    then ("HOST_INPUT_OVERSIZE" ∷ [], none)
    else elim text [ none ↦ (invalid_code ∷ [], none) | some t ↦ ([], some t) ]

-- What a text is to `JSON.parse` and a validator: no JSON, a value that counts as false (`null`,
-- `false`, 0 or the empty string), a value with issues, or a value without.
pub data Parsed {ℓ} (A : Type ℓ) : Type ℓ where
  malformed falsy invalid : Parsed A
  valid : A → Parsed A

-- The parts of a `RuntimeBundle` that are read: `path_digest` is `computePathDigestV0` of the path
-- summary of its plan snapshot, where it has one, and a text that is missing is empty.
pub record RuntimeBundle : Type 0 where
  pub plan_hash : String
  pub node_ids : List String
  pub path_digest : Option String
  pub policy_id : String
  pub compiler_version : String

pub record HostSelf : Type 0 where
  pub host_version : String
  pub release_id : String
  pub release_manifest_digest : String
  pub runtime_bundle_digest : String
  pub evidence_digest : String
  pub public_key_digest : String
  pub policy_digest : String

pub record HostPort : Type 0 where
  pub parse_manifest : String → Parsed ReleaseManifest
  pub parse_bundle : String → Parsed RuntimeBundle
  pub parse_evidence : String → Parsed String
  pub parse_key : String → Parsed (String × String)
  pub digest : String → String
  pub demo_verify : Verifier
  pub verify_ed25519 : String → String → String → Option Bool
  pub verify_p256 : String → String → String → Option Bool
  pub derive_demo_public_key : String → String
  pub sign : String → HostSelf → String → Option Signature
  pub host_self_text : HostSelf → Signature → String
  pub release : ReleasePort

-- `hasPemPublicKey`.
has_pem_public_key : String → Bool
has_pem_public_key key = has_part key "-----BEGIN" && has_part key "PUBLIC KEY-----"

pub data TrustRoot : Type 0 where
  untrusted : String → TrustRoot
  trusted : String → String → TrustRoot

abbrev pub trust_reasons : TrustRoot → List String
trust_reasons (untrusted reason) = reason ∷ []
trust_reasons (trusted key_id key) = []

-- The paths of the options and what lies at them.
pub record HostInputs : Type 0 where
  pub release_dir : Option String
  pub release_dir_exists : Bool
  pub host_root : Option String
  pub separator : String
  pub out_dir : Probe
  pub out_dir_parent : Probe
  pub trust_root : FileText
  pub manifest : FileText
  pub bundle : FileText
  pub evidence : FileText
  pub public_key : FileText
  pub signing_secret : String

-- The reasons of one file and what it holds.
abbrev pub Loaded {ℓ} : Type ℓ → Type ℓ
Loaded A = List String × Option A

module _ {ℓ} {A : Type ℓ} where
  -- A file whose value is dropped without a reason where it counts as false, and whose text is not
  -- parsed at all where it is empty.
  unfoldable pub load_text : (String → Parsed A) → Option String → String → Loaded A
  load_text parse none code = ([], none)
  load_text parse (some text) code = if str_eq text "" then ([], none) else elim (parse text) [
    | malformed ↦ (code ∷ [], none)
    | falsy ↦ ([], none)
    | invalid ↦ (code ∷ [], none)
    | valid x ↦ ([], some x)
  ]

module _ (port : HostPort) where
  -- `readTrustRoot`.
  unfoldable pub read_trust_root : FileText → TrustRoot
  read_trust_root missing = untrusted "HOST_TRUST_ROOT_MISSING"
  read_trust_root (present size none) = untrusted "HOST_TRUST_ROOT_INVALID"
  read_trust_root (present size (some text)) = elim (port.parse_key text) [
    | malformed ↦ untrusted "HOST_TRUST_ROOT_INVALID"
    | falsy ↦ untrusted "HOST_TRUST_ROOT_INVALID"
    | invalid ↦ untrusted "HOST_TRUST_ROOT_INVALID"
    | valid fields ↦
        if str_eq fields.0 "" || str_eq fields.1 ""
        then untrusted "HOST_TRUST_ROOT_INVALID"
        else trusted fields.0 fields.1
  ]

  -- `verifySignature`.
  unfoldable pub check_signature : Verifier
  unfolding has_pem_public_key
  check_signature payload sig key =
      if not (is_non_empty sig.algo && is_non_empty sig.sig && is_non_empty key)
      then false
      else if starts_with key "pub:"
      then port.demo_verify payload (record sig { key_id = "host" }) key
      else if not (has_pem_public_key key)
      then false
      else if str_eq sig.algo "sig.ed25519.v0"
      then or_default false (port.verify_ed25519 payload sig.sig key)
      else if str_eq sig.algo "sig.p256.v0"
      then or_default false (port.verify_p256 payload sig.sig key)
      else false

  -- The crypto port that the key of the trust root chooses.
  unfoldable pub verifier_of : String → Verifier
  verifier_of key = if starts_with key "pub:" then port.demo_verify else check_signature

  -- The block of the bundle: a value that does not parse has its reason twice.
  unfoldable pub load_bundle : Option String → Loaded RuntimeBundle
  load_bundle none = ([], none)
  load_bundle (some text) = if str_eq text "" then ([], none) else elim (port.parse_bundle text) [
    | malformed ↦ ("RUNTIME_BUNDLE_INVALID" ∷ "RUNTIME_BUNDLE_INVALID" ∷ [], none)
    | falsy ↦ ("RUNTIME_BUNDLE_INVALID" ∷ [], none)
    | invalid ↦ ("RUNTIME_BUNDLE_INVALID" ∷ [], none)
    | valid b ↦ ([], some b)
  ]

  -- The block of the release's public key, which is read and checked and not used.
  unfoldable pub key_reasons : Option String → List String
  key_reasons text =
      let (reasons, fields) = load_text port.parse_key text "PUBLIC_KEY_INVALID" in
      reasons ++ elim fields [
        | none ↦ []
        | some f ↦ push_if (str_eq f.0 "" || str_eq f.1 "") "PUBLIC_KEY_INVALID"
      ]

-- `listBlocksFromPlan`: the identifiers of the nodes that are blocks.
unfoldable pub block_ids : List String → List String
block_ids [] = []
block_ids (n ∷ ns) = if starts_with n "block:" then n ∷ block_ids ns else block_ids ns

unfoldable pub list_blocks_from_plan : RuntimeBundle → List String
list_blocks_from_plan b = stable_sort_unique_strings (map string (block_ids b.node_ids))
