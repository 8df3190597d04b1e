-- ===== src/Reasons/Detail.antt =====
-- src/core/trust_algebra_v0.ts: the details of reasons, cut to a number of UTF-8 bytes at the end of
-- a character.
use Prim.Native.Char.{code}
use Prim.Native.String.{◌++◌}
use text.Mathlib.TextLemmas.{cons-append, nil-append, append-nil}
use native.Mathlib.Nat.{add_assoc}
use weft_end.Prelude.{
  ℕ, ◌+◌, ◌≤◌, ◌<◌, String, ◌≡◌, refl, ap, sym, subst, false, Option, none, some, leb, ltb, arith,
  inl, inr, ◌⊎◌, Bool-cases, if◌then◌else◌,
}
use weft_end.Text.{is_non_empty}

utf8_size : ℕ → ℕ
utf8_size c = if leb c 0x7F then 1 else if leb c 0x7FF then 2 else if leb c 0xFFFF then 3 else 4

-- `utf8ByteLength`.
unfoldable pub utf8_byte_length : String → ℕ
unfolding utf8_size
utf8_byte_length String.[] = 0
utf8_byte_length (String.◌∷◌ c s) = utf8_size (code c) + utf8_byte_length s

-- The loop of `truncateByBytes`, with `count` bytes already kept.
keep_bytes : ℕ → ℕ → String → String
keep_bytes max count String.[] = String.[]
keep_bytes max count (String.◌∷◌ c s) =
    let size = utf8_size (code c) in
    let rest = keep_bytes max (count + size) s in
    if ltb max (count + size) then String.[] else String.◌∷◌ c rest

-- `truncateByBytes`.
truncate_by_bytes : String → ℕ → String
unfolding keep_bytes
truncate_by_bytes value max =
    if leb (utf8_byte_length value) max then value else keep_bytes max 0 value

-- `truncateReasonDetailV0`, on a string.
unfoldable pub truncate_reason_detail : String → ℕ → Option String
unfolding truncate_by_bytes utf8_size
truncate_reason_detail detail max =
    if is_non_empty detail then some (truncate_by_bytes detail max) else none

-- The rest of a text is empty, or its first character would not have fitted.
abbrev pub StopsAt : ℕ → ℕ → String → Type 0
StopsAt max count String.[] = Unit
StopsAt max count (String.◌∷◌ c s) = max < count + utf8_byte_length (String.◌∷◌ c String.[])

keep_bytes_lem :
    (max count : ℕ) (s : String)
    → count ≤ max
    → (count + utf8_byte_length (keep_bytes max count s) ≤ max)
      × ((rest : String) × (s ≡ keep_bytes max count s ++ rest)
          × StopsAt max (count + utf8_byte_length (keep_bytes max count s)) rest)
unfolding keep_bytes utf8_byte_length
keep_bytes_lem max count String.[] h = (omega arith, (String.[], refl, tt))
keep_bytes_lem max count (String.◌∷◌ c s) h =
    elim (Bool-cases (ltb max (count + utf8_size (code c)))) [
      | inl e ↦
          rw (e, keep_bytes)
            (omega arith, (String.◌∷◌ c s, sym (nil-append (String.◌∷◌ c s)), ground arith))
      | inr e ↦
          let size = utf8_size (code c) in
          let (fits, (rest, split, stops)) = keep_bytes_lem max (count + size) s (ground arith) in
          rw (e, keep_bytes)
            (
              omega (arith, fits),
              (
                rest,
                rw cons-append (ap (String.◌∷◌ c) split),
                subst (λ n. StopsAt max n rest) (add_assoc count size _) stops,
              ),
            )
    ]

-- A blank detail has no answer. Any other is kept up to the last character that ends within the
-- given number of UTF-8 bytes: the answer fits, it is a beginning of the detail, and one more
-- character would not have fitted.
pub truncate_reason_detail_lem :
    (detail : String) (max : ℕ)
    → ((is_non_empty detail ≡ false) × (truncate_reason_detail detail max ≡ none))
      ⊎ ((out : String) × (truncate_reason_detail detail max ≡ some out)
          × (utf8_byte_length out ≤ max)
          × ((rest : String) × (detail ≡ out ++ rest) × StopsAt max (utf8_byte_length out) rest))
unfolding truncate_reason_detail
truncate_reason_detail_lem detail max = elim (Bool-cases (is_non_empty detail)) [
  | inr e ↦ inl (e, rw e)
  | inl e ↦ elim (Bool-cases (leb (utf8_byte_length detail) max)) [
    | inl f ↦ inr (detail, rw (e, f), ground arith, (String.[], sym (append-nil detail), tt))
    | inr f ↦
        let (fits, (rest, split, stops)) = keep_bytes_lem max 0 detail (omega arith) in
        inr (
          keep_bytes max 0 detail,
          rw (e, f),
          omega (arith, fits),
          (rest, split, subst (λ n. StopsAt max n rest) (omega arith) stops),
        )
  ]
]
