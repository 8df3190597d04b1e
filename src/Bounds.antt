-- ===== src/Bounds.antt =====
-- src/core/bounds.ts: truncation that leaves a marker with the number of what was dropped.
-- A limit is a natural number, on which `Math.max(0, Math.floor(n))` is `n`; texts are lists of
-- UTF-16 code units, which `length` counts and `slice` cuts.
pub mod Laws
use Prim.Native.String.{◌++◌ as str_append}
use weft_end.Prelude.{ℕ, ◌-◌, String, List, [], ◌∷◌, ◌++◌, length, take, leb, ◌==◌, if◌then◌else◌}
use weft_end.Text.Decimal.{decimal, units}

-- `makeTruncationMarker`.
unfoldable pub make_truncation_marker : ℕ → String
make_truncation_marker dropped = str_append "...(+" (str_append (decimal dropped) ")")

-- `truncateListWithMarker`: the items kept, and how many were dropped.
unfoldable pub truncate_list_with_marker : List String → ℕ → List String × ℕ
truncate_list_with_marker items limit =
    let dropped = length items - limit in
    let marker = make_truncation_marker dropped in
    if leb (length items) limit
    then (items, 0)
    else if limit == 0
    then (marker ∷ [], dropped)
    else (take limit items ++ marker ∷ [], dropped)

-- `truncateTextWithMarker`.
unfoldable pub truncate_text_with_marker : List ℕ → ℕ → List ℕ × ℕ
truncate_text_with_marker value limit =
    let dropped = length value - limit in
    let marker = units (make_truncation_marker dropped) in
    if leb (length value) limit
    then (value, 0)
    else if leb limit (length marker)
    then (take limit marker, dropped)
    else (take (limit - length marker) value ++ marker, dropped)
