-- ===== src/Text/Join.antt =====
-- `join`, and the parts of `split` and `trim` that the source uses.
use Prim.Native.Char.{code}
use Prim.Native.String.{◌++◌ as str_append}
use weft_end.Prelude.{ℕ, String, Bool, false, ◌||◌, List, [], ◌∷◌, ◌==◌, if◌then◌else◌}
use weft_end.Text.{is_space, is_non_empty}

unfoldable pub concat : List String → String
concat [] = ""
concat (s ∷ ss) = str_append s (concat ss)

-- `xs.join(separator)`.
unfoldable pub join : String → List String → String
join separator [] = ""
join separator (s ∷ []) = s
join separator (s ∷ t ∷ ss) = str_append s (str_append separator (join separator (t ∷ ss)))

-- `s.includes(c)` for a character.
unfoldable pub has_char : ℕ → String → Bool
has_char c String.[] = false
has_char c (String.◌∷◌ d s) = code d == c || has_char c s

-- `s.split(c)[0]`.
unfoldable pub before_char : ℕ → String → String
before_char c String.[] = ""
before_char c (String.◌∷◌ d s) = if code d == c then "" else String.◌∷◌ d (before_char c s)

unfoldable pub trim_start : String → String
trim_start String.[] = ""
trim_start (String.◌∷◌ d s) = if is_space (code d) then trim_start s else String.◌∷◌ d s

unfoldable pub trim_end : String → String
trim_end String.[] = ""
trim_end (String.◌∷◌ d s) = if is_non_empty (String.◌∷◌ d s) then String.◌∷◌ d (trim_end s) else ""

-- `s.trim()`.
unfoldable pub trim : String → String
trim s = trim_end (trim_start s)
