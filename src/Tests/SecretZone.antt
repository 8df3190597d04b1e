-- ===== src/Tests/SecretZone.antt =====
-- The host of the secret zone: two requests, one answer, one timeout.
use weft_end.Prelude.{◌≡◌, refl, none, some, List, [], ◌∷◌, All}
use weft_end.Text.{includes}
use weft_end.Text.Decimal.{digit, decimal_from, decimal, units}
use weft_end.Text.Sets.{Distinct}
use weft_end.Boundary.{is_nonce_char, all_nonce_chars, validate_nonce, diff_units, safe_equal}
use weft_end.SecretZone.{
  SecretZoneHost, ZoneMessage, ZoneEvent, open_channel, request, receive, time_out, granted,
  consent_result, new_zone, init_channel, remove, settle, post_to_child, binding_reasons,
  handle_bound, handle_port_message, consent_name, request_consent, consent_timeout, zone_step,
  zone_run, answered, sort_reason_codes,
}
use weft_end.SecretZone.Laws.{IsLive}
use weft_end.SecretZone.Once.{answered_once}

abbrev zone : SecretZoneHost
zone = new_zone "plan" "strict-privacy" "nonce"

abbrev answer : ZoneMessage
answer = record {
  execution_mode = "strict-privacy";
  plan_hash = "plan";
  session_nonce = "nonce";
  req_id = some "consent-1";
  body = consent_result (granted none);
}

abbrev exchange : List ZoneEvent
exchange =
    open_channel "drawn"
    ∷ request
    ∷ request
    ∷ receive answer
    ∷ receive answer
    ∷ time_out "consent-0"
    ∷ time_out "consent-1"
    ∷ []

answered_twice : answered (zone_run zone exchange) ≡ "consent-1" ∷ "consent-0" ∷ []
unfolding new_zone init_channel remove settle post_to_child binding_reasons handle_bound
    handle_port_message consent_name request_consent consent_timeout zone_step zone_run answered
    sort_reason_codes digit decimal_from decimal units is_nonce_char all_nonce_chars validate_nonce
    diff_units safe_equal includes
answered_twice = refl

answered_once_example :
    Distinct (answered (zone_run zone exchange))
    × All (IsLive zone) (answered (zone_run zone exchange))
unfolding new_zone
answered_once_example = answered_once zone exchange tt
