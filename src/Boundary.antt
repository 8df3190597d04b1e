-- ===== src/Boundary.antt =====
-- src/runtime/boundary/nonce.ts: the shape of a session nonce and the comparison of secrets. The
-- random bytes of `newNonce` are the host's; a nonce is a value that the parties are given.
pub mod Laws
use Prim.Native.Char.{Char, code}
use weft_end.Prelude.{
  ℕ, zero, suc, ◌+◌, ◌≡◌, ◌↔◌, refl, ap₂, String, Bool, true, false, not, ◌&&◌, ◌||◌, ltb, leb,
  ◌==◌, if◌then◌else◌, arith, str_eq, eq_iff, eq_refl, List, [], ◌∷◌, length,
}
use weft_end.Text.Decimal.{units}

abbrev pub max_nonce_len : ℕ
max_nonce_len = 128

-- A character of `NONCE_RE`: A-Z, a-z, 0-9, `_` and `-`.
unfoldable pub is_nonce_char : ℕ → Bool
is_nonce_char c =
    (leb 65 c && leb c 90)
    || (leb 97 c && leb c 122)
    || (leb 48 c && leb c 57)
    || c == 95
    || c == 45

unfoldable pub all_nonce_chars : String → Bool
all_nonce_chars String.[] = true
all_nonce_chars (String.◌∷◌ c s) = is_nonce_char (code c) && all_nonce_chars s

-- `validateNonce`.
unfoldable pub validate_nonce : String → Bool
validate_nonce nonce =
    if length (units nonce) == 0 || ltb max_nonce_len (length (units nonce))
    then false
    else all_nonce_chars nonce

-- The loop of `safeEqual` after the lengths agree; `differ` says that some unit was another one, as
-- `diff` is not 0.
unfoldable pub diff_units : Bool → List ℕ → List ℕ → Bool
diff_units differ (x ∷ xs) (y ∷ ys) = diff_units (differ || not (x == y)) xs ys
diff_units differ _ _ = differ

-- `safeEqual`.
unfoldable pub safe_equal : String → String → Bool
safe_equal a b =
    if not (length (units a) == length (units b))
    then false
    else not (diff_units false (units a) (units b))
