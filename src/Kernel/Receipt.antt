-- ===== src/Kernel/Receipt.antt =====
-- src/core/validate.ts: the validation of gate receipts and the helpers that it uses. The codes of
-- the issues are kept, without their messages and paths; the kernel asks whether there are any.
use weft_end.Prelude.{
  ℕ, suc, ◌*◌, ◌/◌, ◌%◌, Ordering, String, Bool, true, false, not, ◌&&◌, ◌||◌, Option, none, some,
  List, [], ◌∷◌, ◌++◌, length, str_eq, ltb, leb, ◌==◌, if◌then◌else◌,
}
use weft_end.Text.{cmp_str, is_non_empty, has_space, includes}
use weft_end.Text.Decimal.{units}
use weft_end.Reasons.{push_if, is_empty}
use weft_end.Kernel.Types.{GateReceipt, GateReceiptBody, ReceiptSignature}

-- `isTightString`.
unfoldable pub is_tight_string : String → Bool
is_tight_string v = is_non_empty v && not (has_space v)

below : Ordering → Bool
below Ordering.lt = true
below _ = false

-- `isSortedUniqueStrings`.
unfoldable pub is_sorted_unique_strings : List String → Bool
unfolding below
is_sorted_unique_strings (x ∷ y ∷ rest) = below (cmp_str x y) && is_sorted_unique_strings (y ∷ rest)
is_sorted_unique_strings _ = true

is_base64_unit : ℕ → Bool
is_base64_unit c =
    (leb b'A' c && leb c b'Z')
    || (leb b'a' c && leb c b'z')
    || (leb b'0' c && leb c b'9')
    || c == b'+'
    || c == b'/'

all_padding : List ℕ → Bool
all_padding [] = true
all_padding (c ∷ cs) = c == b'=' && all_padding cs

-- `/^[A-Za-z0-9+/]*={0,2}$/`.
is_base64 : List ℕ → Bool
unfolding is_base64_unit all_padding
is_base64 [] = true
is_base64 (c ∷ cs) =
    let rest = is_base64 cs in
    if is_base64_unit c then rest else all_padding (c ∷ cs) && leb (length (c ∷ cs)) 2

-- How many units stand in front of the padding.
data_units : List ℕ → ℕ
data_units [] = 0
data_units (c ∷ cs) = let rest = data_units cs in if c == b'=' then rest else suc rest

-- `base64ByteLength`: four units of a text that passes the tests stand for three bytes.
unfoldable pub base64_byte_length : String → Option ℕ
unfolding is_base64 data_units
base64_byte_length b64 =
    let cs = units b64 in
    if is_empty cs || has_space b64
    then none
    else if data_units cs % 4 == 1
    then none
    else if is_base64 cs
    then some (data_units cs * 3 / 4)
    else none

abbrev max_release_sig_bytes : ℕ
max_release_sig_bytes = 4096

abbrev max_receipt_signatures : ℕ
max_receipt_signatures = 8

signature_bytes_issues : Option ℕ → List String
signature_bytes_issues none = "FIELD_INVALID" ∷ []
signature_bytes_issues (some n) = push_if (ltb max_release_sig_bytes n) "FIELD_INVALID"

receipt_signature_issues : ReceiptSignature → List String
unfolding signature_bytes_issues
receipt_signature_issues s =
    push_if (not (is_empty s.other_keys)) "FIELD_INVALID"
    ++ (push_if (not (is_tight_string s.sig_kind)) "FIELD_INVALID"
        ++ (push_if (not (is_tight_string s.key_id)) "FIELD_INVALID"
            ++ signature_bytes_issues (base64_byte_length s.sig_b64)))

all_signature_issues : List ReceiptSignature → List String
unfolding receipt_signature_issues
all_signature_issues [] = []
all_signature_issues (s ∷ ss) = receipt_signature_issues s ++ all_signature_issues ss

signatures_issues : Option (List ReceiptSignature) → List String
unfolding all_signature_issues
signatures_issues none = []
signatures_issues (some ss) =
    push_if (ltb max_receipt_signatures (length ss)) "RECEIPT_OVERSIZE" ++ all_signature_issues ss

abbrev known_gates : List String
known_gates =
    "market.admission.v0" ∷ "market.install.v0" ∷ "runtime.grant.v0" ∷ "market.takedown.v0" ∷ []

body_issues : GateReceiptBody → List String
body_issues b =
    push_if (not (is_empty b.other_keys)) "FIELD_INVALID"
    ++ (push_if (not (str_eq b.schema "weftend.gateReceipt/0")) "FIELD_INVALID"
        ++ (push_if (not (includes known_gates b.gate_id)) "ENUM_INVALID"
            ++ (push_if (not (is_tight_string b.market_id)) "FIELD_INVALID"
                ++ (push_if (not (is_tight_string b.market_policy_digest)) "FIELD_INVALID"
                    ++ (push_if (not (is_tight_string b.plan_digest)) "FIELD_INVALID"
                        ++ (push_if (not (is_tight_string b.release_id)) "FIELD_INVALID"
                            ++ (push_if (not (is_tight_string b.block_hash)) "FIELD_INVALID"
                                ++ (push_if
                                      (not (str_eq b.decision "ALLOW")
                                        && not (str_eq b.decision "DENY"))
                                      "ENUM_INVALID"
                                    ++ (push_if (not (is_sorted_unique_strings b.reason_codes))
                                          "FIELD_INVALID"
                                        ++ push_if (not (is_tight_string b.checkpoint_digest))
                                            "FIELD_INVALID")))))))))

-- `validateGateReceiptV0`, on an object with the fields of a receipt: the codes of its issues before
-- they are sorted. The identifier is compared only where it is a string without white space.
unfoldable pub gate_receipt_issues : (GateReceiptBody → String) → GateReceipt → List String
unfolding body_issues signatures_issues
gate_receipt_issues digest r =
    push_if (not (is_empty r.other_keys)) "FIELD_INVALID"
    ++ (push_if (not (is_tight_string r.receipt_id)) "FIELD_INVALID"
        ++ (body_issues r.body
            ++ (push_if (is_tight_string r.receipt_id && not (str_eq r.receipt_id (digest r.body)))
                  "RECEIPT_ID_MISMATCH"
                ++ signatures_issues r.signatures)))
