-- ===== src/SecretZone.antt =====
-- src/runtime/secretzone/secret_zone_host.ts: the host's side of the secret zone, which asks the
-- zone for consents over a channel bound to a mode, a plan and a nonce. The random nonce of
-- `newNonce` is an input. A promise is its request identifier; that it is answered is an effect.
-- Of a message a field that is missing is the empty string, but for its request identifier.
use Prim.Native.String.{◌++◌ as str_append}
use weft_end.Prelude.{
  ℕ, suc, String, Bool, true, false, not, Option, none, some, List, [], ◌∷◌, ◌++◌, map, str_eq,
  if◌then◌else◌,
}
use weft_end.Text.{cmp_str, includes}
use weft_end.Text.Decimal.{decimal}
use weft_end.Sort.{sort}
use weft_end.Reasons.{string, collect, push_if, is_empty, or_default}
use weft_end.Boundary.{validate_nonce, safe_equal}
use weft_end.Kernel.Types.{ConsentClaim}
pub mod Laws
pub mod Once

-- `SecretZoneHost`; `pending_consent` has the keys of the map.
pub record SecretZoneHost : Type 0 where
  pub execution_mode : String
  pub plan_hash : String
  pub session_nonce : String
  pub host_port : Bool
  pub pending_consent : List String
  pub req_seq : ℕ

-- The answer of a consent promise.
pub data ConsentAnswer : Type 0 where
  granted : Option ConsentClaim → ConsentAnswer
  refused : List String → ConsentAnswer

-- What a message says: `consent.result`, or any other kind.
pub data ZoneBody : Type 0 where
  consent_result : ConsentAnswer → ZoneBody
  other_kind : ZoneBody

pub record ZoneMessage : Type 0 where
  pub execution_mode : String
  pub plan_hash : String
  pub session_nonce : String
  pub req_id : Option String
  pub body : ZoneBody

-- What the host does besides changing its state.
pub data ZoneEffect : Type 0 where
  asked : String → ZoneEffect
  rejected : String → List String → ZoneEffect
  settled : String → ConsentAnswer → ZoneEffect

-- `sortReasonCodes`.
unfoldable pub sort_reason_codes : List String → List String
sort_reason_codes codes = sort cmp_str (collect (λ s. true) [] (map string codes))

-- The constructor, with the nonce that it draws.
unfoldable pub new_zone : String → String → String → SecretZoneHost
new_zone plan_hash mode nonce = record {
  execution_mode = mode;
  plan_hash = plan_hash;
  session_nonce = nonce;
  host_port = false;
  pending_consent = [];
  req_seq = 0;
}

-- `initChannel`, with the nonce that it draws where that of the host is not valid; `false` stands
-- for the exception.
unfoldable pub init_channel : String → SecretZoneHost → SecretZoneHost × Bool
init_channel drawn z =
    let nonce = if validate_nonce z.session_nonce then z.session_nonce else drawn in
    if validate_nonce nonce
    then (record z { session_nonce = nonce; host_port = true }, true)
    else (record z { session_nonce = nonce }, false)

unfoldable pub remove : String → List String → List String
remove id [] = []
remove id (x ∷ xs) = if str_eq x id then remove id xs else x ∷ remove id xs

-- A pending consent is taken off the map and its promise is answered.
unfoldable pub settle : SecretZoneHost → String → ConsentAnswer → SecretZoneHost × List ZoneEffect
settle z id answer =
    if includes z.pending_consent id
    then (record z { pending_consent = remove id z.pending_consent }, settled id answer ∷ [])
    else (z, [])

-- `postToChild`, of a refusal.
unfoldable pub post_to_child : SecretZoneHost → Option String → List String → List ZoneEffect
post_to_child z id codes = if z.host_port then rejected (or_default "unknown" id) codes ∷ [] else []

-- The tests of `handlePortMessage`.
unfoldable pub binding_reasons : SecretZoneHost → ZoneMessage → List String
binding_reasons z msg =
    push_if (not (str_eq msg.execution_mode z.execution_mode)) "MODE_MISMATCH"
    ++ (push_if (not (safe_equal msg.plan_hash z.plan_hash)) "CONTEXT_MISMATCH"
        ++ push_if (not (safe_equal msg.session_nonce z.session_nonce)) "NONCE_MISMATCH")

-- What `handlePortMessage` does with a message that is bound.
unfoldable pub handle_bound : SecretZoneHost → ZoneMessage → SecretZoneHost × List ZoneEffect
handle_bound z msg = elim msg.body [
  | other_kind ↦ (z, post_to_child z msg.req_id ("SECRET_ZONE_UNAVAILABLE" ∷ []))
  | consent_result answer ↦ elim msg.req_id [
    | none ↦ (z, [])
    | some id ↦
        settle z id (elim answer [
          | granted c ↦ granted c
          | refused codes ↦ refused (sort_reason_codes codes)
        ])
  ]
]

-- `handlePortMessage`.
unfoldable pub handle_port_message : SecretZoneHost → ZoneMessage → SecretZoneHost × List ZoneEffect
handle_port_message z msg =
    let codes = sort_reason_codes (binding_reasons z msg) in
    let after = settle z (or_default "" msg.req_id) (refused codes) in
    if is_empty (binding_reasons z msg)
    then handle_bound z msg
    else (after.0, post_to_child z msg.req_id codes ++ after.1)

-- The name of the next request.
unfoldable pub consent_name : ℕ → String
consent_name n = str_append "consent-" (decimal n)

-- `requestConsent`: the identifier of the request; without a channel there is none, and the promise
-- is refused at once.
unfoldable pub request_consent : SecretZoneHost → SecretZoneHost × Option String
request_consent z =
    if z.host_port
    then (
      record z {
        pending_consent = consent_name z.req_seq ∷ z.pending_consent;
        req_seq = suc z.req_seq;
      },
      some (consent_name z.req_seq),
    )
    else (z, none)

-- The timer of a request: one that was answered is cleared.
unfoldable pub consent_timeout : SecretZoneHost → String → SecretZoneHost × List ZoneEffect
consent_timeout z id = settle z id (refused ("SECRET_ZONE_TIMEOUT" ∷ []))

-- What happens to a host.
pub data ZoneEvent : Type 0 where
  open_channel : String → ZoneEvent
  request : ZoneEvent
  receive : ZoneMessage → ZoneEvent
  time_out : String → ZoneEvent

unfoldable pub zone_step : SecretZoneHost → ZoneEvent → SecretZoneHost × List ZoneEffect
zone_step z (open_channel drawn) = ((init_channel drawn z).0, [])
zone_step z request = elim (request_consent z).1 [
  | none ↦ ((request_consent z).0, [])
  | some id ↦ ((request_consent z).0, asked id ∷ [])
]
zone_step z (receive msg) = handle_port_message z msg
zone_step z (time_out id) = consent_timeout z id

unfoldable pub zone_run : SecretZoneHost → List ZoneEvent → List ZoneEffect
zone_run z [] = []
zone_run z (e ∷ es) = (zone_step z e).1 ++ zone_run (zone_step z e).0 es

-- The consents that were answered, and with a claim.
unfoldable pub answered : List ZoneEffect → List String
answered [] = []
answered (settled id _ ∷ es) = id ∷ answered es
answered (_ ∷ es) = answered es
