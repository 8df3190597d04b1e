-- ===== src/Library/Blocked.antt =====
-- src/cli/library_state.ts: the texts of the files of a view: pointers, and the line of a blocked run.
-- A line ends at its first line feed; a carriage return before it is white space that the trim after
-- it removes.
use Prim.Native.Char.{code}
use Prim.Native.String.{◌++◌ as str_append}
use weft_end.Prelude.{
  ◌==◌, String, Bool, ◌||◌, Option, none, some, List, [], ◌∷◌, map, take, str_eq, if◌then◌else◌,
}
use weft_end.Text.{is_space}
use weft_end.Text.Join.{join, trim, trim_start, before_char, has_char}
use weft_end.Reasons.{string, stable_sort_unique_strings}
use weft_end.Library.{max_blocked_reasons}
use weft_end.Library.State.{BlockedRun}

-- `readPointer`; a file that is missing or cannot be read has no text.
unfoldable pub read_pointer : Option String → Option String
read_pointer none = none
read_pointer (some raw) =
    let line = trim (before_char 10 (trim raw)) in if str_eq line "" then none else some line

-- What follows a prefix.
unfoldable pub after_prefix : String → String → Option String
after_prefix String.[] s = some s
after_prefix (String.◌∷◌ c p) String.[] = none
after_prefix (String.◌∷◌ c p) (String.◌∷◌ d s) = if code c == code d then after_prefix p s else none

-- A character that `.` does not match.
unfoldable pub has_line_end : String → Bool
has_line_end s = has_char 10 s || has_char 13 s || has_char 0x2028 s || has_char 0x2029 s

-- `\s+reasons=(.*)$` at the start of a text.
unfoldable pub match_reasons : String → Option String
match_reasons String.[] = none
match_reasons (String.◌∷◌ c s) =
    if is_space (code c)
    then elim (after_prefix "reasons=" (trim_start s)) [
      | none ↦ none
      | some reasons ↦ if has_line_end reasons then none else some reasons
    ]
    else none

-- `([^ ]+)` and what follows it, with as many characters as the rest of the pattern allows.
unfoldable pub match_run : String → Option (String × String)
match_run String.[] = none
match_run (String.◌∷◌ c s) =
    let longer = match_run s in
    if code c == 32 then none else elim longer [
      | some found ↦ some (String.◌∷◌ c found.0, found.1)
      | none ↦ elim (match_reasons s) [
        | none ↦ none
        | some reasons ↦ some (String.◌∷◌ c "", reasons)
      ]
    ]

-- `s.split(",")`.
unfoldable pub split_commas : String → List String
split_commas String.[] = "" ∷ []
split_commas (String.◌∷◌ c s) = elim (split_commas s) [
  | [] ↦ String.◌∷◌ c "" ∷ []
  | part ∷ parts ↦ if code c == 44 then "" ∷ part ∷ parts else String.◌∷◌ c part ∷ parts
]

trimmed : List String → List String
trimmed [] = []
trimmed (r ∷ rs) = if str_eq (trim r) "" then trimmed rs else trim r ∷ trimmed rs

-- The reasons of a blocked run.
unfoldable pub bounded_reasons : List String → List String
bounded_reasons codes = take max_blocked_reasons (stable_sort_unique_strings (map string codes))

-- `parseBlockedLine`.
unfoldable pub parse_blocked_line : String → Option BlockedRun
unfolding trimmed
parse_blocked_line line = elim (after_prefix "runId=" (trim line)) [
  | none ↦ none
  | some rest ↦ elim (match_run rest) [
    | none ↦ none
    | some found ↦
        let raw = trim found.1 in
        some (record {
          run_id = trim found.0;
          reason_codes = bounded_reasons (if str_eq raw "" then [] else trimmed (split_commas raw));
        })
  ]
]

-- `readBlocked`.
unfoldable pub read_blocked : Option String → Option BlockedRun
read_blocked none = none
read_blocked (some text) = parse_blocked_line (before_char 10 text)

-- The text of `writeBlocked`.
unfoldable pub blocked_text : BlockedRun → String
blocked_text b = str_append "runId=" (
    str_append b.run_id
      (str_append " reasons=" (str_append (join "," (bounded_reasons b.reason_codes)) "\n")))

-- The text of `writePointer`.
unfoldable pub pointer_text : String → String
pointer_text value = str_append value "\n"
