-- ===== src/Intake/Caps.antt =====
-- src/runtime/examiner/intake_decision_v1.ts: `mergeCaps` and `buildCapSummary`. The counts of a
-- probe are natural numbers under names that are no array indexes, which an object would list
-- first; `extractDomain`, a regular expression over URLs, is a parameter.
use weft_end.Prelude.{
  ℕ, ◌+◌, ◌-◌, ◌<◌, String, ◌≡◌, refl, Bool, true, false, Option, none, some, List, [], ◌∷◌, ◌++◌,
  map, length, take, drop, leb, if◌then◌else◌, arith, str_eq, Bool-cases, inl, inr,
}
use Prim.Native.String.{◌++◌ as str_append}
use weft_end.Text.{cmp_str}
use weft_end.Text.Table.{Table, get, set}
use weft_end.Text.Join.{has_char, before_char}
use weft_end.Sort.{sort}
use weft_end.Bounds.{make_truncation_marker, truncate_list_with_marker}
use weft_end.Reasons.{string, collect, or_default, stable_sort_unique_reasons}

-- `attemptedCaps` and `deniedCaps` of a probe (`MintProbeResultV1`).
pub record Probe : Type 0 where
  pub attempted_caps : Option (Table ℕ)
  pub denied_caps : Option (Table ℕ)

add_counts : Table ℕ → Table ℕ → Table ℕ
add_counts [] target = target
add_counts ((k, v) ∷ rest) target = add_counts rest (set target k (or_default 0 (get target k) + v))

-- `mergeCaps`.
unfoldable pub merge_caps : Option (Table ℕ) → Table ℕ → Table ℕ
unfolding add_counts
merge_caps none target = target
merge_caps (some source) target = add_counts source target

-- `Object.values(table).reduce((a, b) => a + (b ?? 0), 0)`.
unfoldable pub total : Table ℕ → ℕ
total [] = 0
total ((k, v) ∷ rest) = v + total rest

pub record Counts : Type 0 where
  pub attempted : ℕ
  pub denied : ℕ

pub record CapSummary : Type 0 where
  pub denied : ℕ
  pub attempted : ℕ
  pub by_kind : Table Counts
  pub notable : List String

-- The part of a capability's name before its first dot, else before its first colon.
unfoldable pub cap_kind : String → String
cap_kind cap =
    if has_char 46 cap
    then before_char 46 cap
    else if has_char 58 cap
    then before_char 58 cap
    else cap

keys : Table ℕ → List String
keys [] = []
keys ((k, v) ∷ rest) = k ∷ keys rest

count_kinds : Table ℕ → Table ℕ → List String → Table Counts → Table Counts
count_kinds attempted denied [] t = t
count_kinds attempted denied (cap ∷ caps) t =
    let c = or_default (record { attempted = 0; denied = 0 }) (get t (cap_kind cap)) in
    let next : Counts = record {
      attempted = c.attempted + or_default 0 (get attempted cap);
      denied = c.denied + or_default 0 (get denied cap);
    } in
    count_kinds attempted denied caps (set t (cap_kind cap) next)

-- `byKindMap`: the capabilities of both tables, each once and sorted.
unfoldable pub by_kind_map : Table ℕ → Table ℕ → Table Counts
unfolding count_kinds keys
by_kind_map attempted denied =
    let all_caps = collect (λ _. true) [] (map string (keys attempted ++ keys denied)) in
    count_kinds attempted denied (sort cmp_str all_caps) []

-- The counts of some kinds together (`droppedTotals`).
unfoldable pub sum_counts : Table Counts → Counts
sum_counts [] = record { attempted = 0; denied = 0 }
sum_counts ((k, c) ∷ rest) =
    let r = sum_counts rest in
    record { attempted = c.attempted + r.attempted; denied = c.denied + r.denied }

cmp_kind : String × Counts → String × Counts → weft_end.Prelude.Ordering
cmp_kind a b = cmp_str a.0 b.0

-- `byKind`: the kinds in order; of too many, the first ones and the rest under the marker.
unfoldable pub bound_kinds : Table Counts → ℕ → Table Counts
unfolding cmp_kind
bound_kinds kinds max_items =
    let sorted = sort cmp_kind kinds in
    let dropped = drop max_items sorted in
    if leb (length sorted) max_items
    then sorted
    else take max_items sorted ++ (make_truncation_marker (length dropped), sum_counts dropped) ∷ []

domain_reasons : (String → Option String) → List String → List String
domain_reasons extract_domain [] = []
domain_reasons extract_domain (ref ∷ refs) =
    let rest = domain_reasons extract_domain refs in
    elim (extract_domain ref) [ none ↦ rest | some domain ↦ str_append "net.domain=" domain ∷ rest ]

-- `buildCapSummary`.
unfoldable pub build_cap_summary :
    (String → Option String) → Probe → Option Probe → List String → ℕ → CapSummary
unfolding domain_reasons
build_cap_summary extract_domain load_only interaction refs max_items =
    let first_attempted = merge_caps load_only.attempted_caps [] in
    let first_denied = merge_caps load_only.denied_caps [] in
    let attempted : Table ℕ = elim interaction [
      | none ↦ first_attempted
      | some probe ↦ merge_caps probe.attempted_caps first_attempted
    ] in
    let denied : Table ℕ = elim interaction [
      | none ↦ first_denied
      | some probe ↦ merge_caps probe.denied_caps first_denied
    ] in
    let domains = stable_sort_unique_reasons (domain_reasons extract_domain refs) none none in
    record {
      denied = total denied;
      attempted = total attempted;
      by_kind = bound_kinds (by_kind_map attempted denied) max_items;
      notable = (truncate_list_with_marker domains max_items).0;
    }
