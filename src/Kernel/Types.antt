-- ===== src/Kernel/Types.antt =====
-- The data of the capability kernel: the types of src/runtime/kernel/cap_kernel.ts and, from
-- src/core/types.ts, those of stamps, receipts and consent claims. A field of a string enumeration
-- that the code checks at run time is a string. `other_keys` are the keys of an object beyond those
-- that its type allows.
use weft_end.Prelude.{ℕ, String, Bool, Option, none, some, List, str_eq, if◌then◌else◌}

pub data Tier : Type 0 where
  t0 t1 t2 t3 : Tier

-- `tierRank` of a known tier.
unfoldable pub tier_rank : Tier → ℕ
tier_rank t0 = 0
tier_rank t1 = 1
tier_rank t2 = 2
tier_rank t3 = 3

-- `tierRank` of any string; `none` is `null`.
unfoldable pub tier_rank_of : String → Option ℕ
tier_rank_of tier =
    if str_eq tier "T0"
    then some 0
    else if str_eq tier "T1"
    then some 1
    else if str_eq tier "T2"
    then some 2
    else if str_eq tier "T3"
    then some 3
    else none

pub record Signature : Type 0 where
  pub algo : String
  pub key_id : String
  pub sig : String

pub record ShopStamp : Type 0 where
  pub schema : String
  pub tier : String
  pub shop_id : String
  pub policy_digest : String
  pub block_hash : String
  pub accept_decision : String
  pub reason_codes : List String
  pub stamp_digest : String
  pub signature : Option Signature
  pub other_keys : List String

pub data StampStatus : Type 0 where
  stamp_verified stamp_invalid unstamped : StampStatus

pub data SigStatus : Type 0 where
  sig_ok sig_bad sig_unverified : SigStatus

-- `PortalRuntimeStampObservation`; a missing list of reasons is the empty one, as its reader has it.
pub record StampObservation : Type 0 where
  pub status : StampStatus
  pub sig_status : SigStatus
  pub reason_codes : List String

pub record ReceiptSignature : Type 0 where
  pub sig_kind : String
  pub key_id : String
  pub sig_b64 : String
  pub other_keys : List String

pub record GateReceiptBody : Type 0 where
  pub schema : String
  pub gate_id : String
  pub market_id : String
  pub market_policy_digest : String
  pub plan_digest : String
  pub release_id : String
  pub block_hash : String
  pub decision : String
  pub reason_codes : List String
  pub checkpoint_digest : String
  pub other_keys : List String

pub record GateReceipt : Type 0 where
  pub receipt_id : String
  pub body : GateReceiptBody
  pub signatures : Option (List ReceiptSignature)
  pub other_keys : List String

pub record ConsentClaim : Type 0 where
  pub consent_id : String
  pub action : String
  pub subject_block_hash : String
  pub subject_plan_digest : String
  pub seq : ℕ

pub data ReleaseStatus : Type 0 where
  ok unverified maybe : ReleaseStatus

pub record CapInvokeMessage : Type 0 where
  pub req_id : String
  pub cap_id : String
  pub execution_mode : String
  pub plan_digest : String
  pub session_nonce : String
  pub caller_block_hash : String

pub data CapDecision : Type 0 where
  allowed : CapDecision
  denied : List String → CapDecision

pub record CapDenyTelemetry : Type 0 where
  pub plan_digest : String
  pub caller_block_hash : String
  pub cap_id : String
  pub reason_codes : List String
  pub seq : ℕ

-- `verify_signature` is the port's `verifySignature` on the canonical JSON of the stamp without its
-- signature, that signature and a public key; `receipt_digest` is the digest of a receipt's body.
pub record CapKernelOptions : Type 0 where
  pub plan_digest : String
  pub caller_block_hash : String
  pub execution_mode : String
  pub session_nonce : String
  pub granted_caps : List String
  pub runtime_tier : Option Tier
  pub block_tier : Option Tier
  pub shop_stamp : Option ShopStamp
  pub verify_signature : Option (ShopStamp → Signature → String → Bool)
  pub stamp_key_allowlist : List (String × String)
  pub release_id : Option String
  pub secret_zone_available : Bool
  pub known_caps : Option (List String)
  pub disabled_caps : Option (List String)
  pub release_gated_caps : List String
  pub market_id : Option String
  pub market_policy_digest : Option String
  pub admission_receipt : Option GateReceipt
  pub market_eligible_caps : Option (List String)
  pub receipt_digest : GateReceiptBody → String

-- The object's fields; `observed` is the stamp observation once it has been computed.
pub record CapKernel : Type 0 where
  pub opts : CapKernelOptions
  pub seen_req_ids : List String
  pub next_seq : ℕ
  pub self_test_passed : Bool
  pub observed : Option StampObservation
  pub consent_claim : Option ConsentClaim
  pub used_consent_ids : List String
  pub last_consent_seq : Option ℕ
  pub release_status : Option ReleaseStatus
  pub release_reason_codes : List String
