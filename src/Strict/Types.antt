-- ===== src/Strict/Types.antt =====
-- The data of the strict executor: the messages of src/runtime/strict/types.ts, the options and the
-- fields of the class in src/runtime/strict/strict_executor.ts. A plan snapshot and an evidence bundle
-- are what the validators of src/core/validate.ts say of them. The value of a result is the text of its
-- JSON. The seams of the class for its tests (`testReleaseVerifyOverride`) are left out.
use weft_end.Prelude.{ℕ, String, Bool, Option, List}
use weft_end.Text.Table.{Table}
use weft_end.Kernel.Types.{
  Tier, ShopStamp, Signature, StampObservation, GateReceipt, GateReceiptBody, CapKernel,
}
use weft_end.Tartarus.{RecordSansId, TartarusRecord}
use weft_end.Store.{ArtifactStore}
use weft_end.Release.{ReleaseManifest, ReleasePort, ReleaseVerifyResult, Verifier}
use weft_end.Pulse.{PulseBody, Pulse}
use weft_end.SecretZone.{SecretZoneHost, ZoneEffect, ZoneEvent}

-- A snapshot: the codes of `validatePlanSnapshotV0` and of `privacyValidateCoreTruthV0`, and the digest of
-- its path summary (`computePathDigestV0`).
pub record Snapshot : Type 0 where
  pub issues : List String
  pub privacy_codes : List String
  pub path_digest : String

-- An evidence record: the codes of `validateBuildAttestationPayloadV0`, and the plan hash of its payload
-- where that is a string.
pub record EvidenceRecord : Type 0 where
  pub kind : String
  pub payload_issues : List String
  pub plan_hash : Option String

pub record EvidenceBundle : Type 0 where
  pub issues : List String
  pub records : List EvidenceRecord

-- How a result ends: with a value, or with reason codes, which a message may lack.
pub data Outcome : Type 0 where
  succeeded : String → Outcome
  failed : Option (List String) → Outcome

-- `SandboxResult` without its envelope, which the host has checked or written itself.
pub record SandboxResult : Type 0 where
  pub req_id : String
  pub outcome : Outcome

-- What a message of the sandbox says; `other_body` is a log or an unknown kind.
pub data MessageBody : Type 0 where
  invoke : String → String → MessageBody
  self_test_result : Bool → Option (List String) → MessageBody
  result : Outcome → MessageBody
  other_body : MessageBody

-- A message with its envelope; a field of the envelope that is missing is the empty string.
pub record SandboxMessage : Type 0 where
  pub execution_mode : String
  pub plan_digest : String
  pub session_nonce : String
  pub req_id : Option String
  pub body : MessageBody

-- `StrictExecutorOptions`. `entry_timeout_ms` is there where it is a finite number from 0 on, rounded
-- down. `on_pulse` says that pulses are listened to.
pub record StrictOptions : Type 0 where
  pub plan_digest : String
  pub caller_block_hash : String
  pub granted_caps : List String
  pub source_text : String
  pub runtime_tier : Option Tier
  pub block_tier : Option Tier
  pub shop_stamp : Option ShopStamp
  pub verify_signature : Option (ShopStamp → Signature → String → Bool)
  pub stamp_key_allowlist : Table String
  pub release_manifest : Option ReleaseManifest
  pub release_verifier : Option Verifier
  pub release_key_allowlist : Table String
  pub release_expected_blocks : Option (List String)
  pub expected_source_digest : Option String
  pub secret_zone_available : Bool
  pub known_caps : Option (List String)
  pub disabled_caps : Option (List String)
  pub market_id : Option String
  pub market_policy_digest : Option String
  pub admission_receipt : Option GateReceipt
  pub market_eligible_caps : Option (List String)
  pub plan_snapshot : Option Snapshot
  pub evidence_bundle : Option EvidenceBundle
  pub require_build_attestation : Bool
  pub on_pulse : Bool
  pub entry_timeout_ms : Option ℕ

-- The digests and the release port that the executor calls.
pub record StrictPort : Type 0 where
  pub pulse_digest : PulseBody → String
  pub content_digest : String → String
  pub record_digest : RecordSansId → String
  pub receipt_digest : GateReceiptBody → String
  pub release : ReleasePort

-- The fields of the class. `entry` is the result with which the promise of the entry was resolved, and
-- none while `entryResolve` is there. `self_test_resolve` says that the function is there, and
-- `self_test_pending` that the promise waits. `waiting` are the invocations that wait for a consent, by the
-- identifier of its request.
pub record Executor : Type 0 where
  pub worker : Bool
  pub host_port : Bool
  pub entry : Option SandboxResult
  pub pending_entry : Option SandboxResult
  pub self_test_resolve : Bool
  pub self_test_pending : Bool
  pub self_test_passed : Bool
  pub untrusted_seen : Bool
  pub kernel : CapKernel
  pub runtime_observed_stamp : Option StampObservation
  pub release_verify : Option ReleaseVerifyResult
  pub path_summary_resolved : Bool
  pub path_summary_reasons : List String
  pub expected_path_digest : Option String
  pub attestation_resolved : Bool
  pub attestation_reasons : List String
  pub pulse_seq_by_subject : Table ℕ
  pub load_pulse_emitted : Bool
  pub exit_pulse_emitted : Bool
  pub entry_timeout_set : Bool
  pub artifact_store : Option ArtifactStore
  pub secret_zone : Option SecretZoneHost
  pub waiting : List (String × SandboxMessage)

-- What the executor does besides changing its fields: messages to the sandbox, callbacks, and what
-- the secret zone's host does.
pub data Effect : Type 0 where
  posted : SandboxResult → Effect
  sent_init : String → Effect
  asked_self_test : Effect
  pulsed : Pulse → Effect
  observed_stamp : StampObservation → Effect
  artifact_read : Bool → List String → Effect
  artifact_incident : TartarusRecord → Effect
  zone_effect : ZoneEffect → Effect

-- What happens to an executor: calls of its methods, and the callbacks of worker, ports and timers.
pub data StrictEvent : Type 0 where
  run_call : StrictEvent
  terminate_call : StrictEvent
  observed_stamp_call : StrictEvent
  release_status_call : StrictEvent
  worker_message : StrictEvent
  worker_error : StrictEvent
  worker_exit : Bool → StrictEvent
  port_message : SandboxMessage → StrictEvent
  deferred_timer : StrictEvent
  self_test_timer : StrictEvent
  entry_timer : StrictEvent
  zone_event : ZoneEvent → StrictEvent
