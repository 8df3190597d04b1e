-- ===== src/Library/History.antt =====
-- The history of a view, and its baseline.
use weft_end.Prelude.{
  ℕ, zero, suc, ◌-◌, ◌≤◌, String, ◌≡◌, refl, true, Option, List, [], ◌∷◌, ◌++◌, map, length, drop,
  leb, ◌⊎◌, inl, inr, Bool-cases, eq_refl, arith, length-append,
}
use weft_end.Text.{includes}
use weft_end.Text.Sets.{includes-append}
use weft_end.Library.{max_history, ensure_baseline, trim_last_n, normalize_last_n}
use weft_end.Library.Update.{baseline_of, history_of}

length-normalize_last_n : (vs runs : List String) → length (normalize_last_n vs runs) ≤ length vs
unfolding normalize_last_n
length-normalize_last_n [] runs = omega arith
length-normalize_last_n (v ∷ vs) runs = ground (arith, length-normalize_last_n vs runs)

includes-drop_snoc :
    (n : ℕ) (xs : List String) (x : String)
    → n ≤ length xs
    → includes (drop n (xs ++ x ∷ [])) x ≡ true
unfolding includes
includes-drop_snoc zero xs x h = rw (includes-append xs (x ∷ []) x) (ground (arith, eq_refl x))
includes-drop_snoc (suc n) [] x h = absurd (omega (arith, h))
includes-drop_snoc (suc n) (y ∷ ys) x h = includes-drop_snoc n ys x (omega (arith, h))

length-drop : (n : ℕ) (xs : List String) → length (drop n xs) ≡ length xs - n
length-drop zero xs = omega arith
length-drop (suc n) [] = omega arith
length-drop (suc n) (x ∷ xs) = omega (arith, length-drop n xs)

length-trim_last_n : (xs : List String) (n : ℕ) → length (trim_last_n xs n) ≤ n
unfolding trim_last_n
length-trim_last_n xs n = ground (arith, length-drop (length xs - n) xs)

trim_short : (xs : List String) (n : ℕ) → length xs ≤ n → trim_last_n xs n ≡ xs
unfolding trim_last_n
trim_short xs n h = ground (arith, h)

trim-includes :
    (xs : List String) (x : String) (n : ℕ)
    → 1 ≤ n
    → includes (trim_last_n (xs ++ x ∷ []) n) x ≡ true
unfolding trim_last_n
trim-includes xs x n h =
    let whole = length-append xs (x ∷ []) in
    elim (Bool-cases (leb (length (xs ++ x ∷ [])) n)) [
      | inl e ↦ rw e (includes-drop_snoc 0 xs x (omega arith))
      | inr e ↦
          rw e (includes-drop_snoc (length (xs ++ x ∷ []) - n) xs x (ground (arith, whole, h)))
    ]

pub length-map {ℓ κ} :
    {A : Type ℓ} → {B : Type κ} → (f : A → B) (xs : List A) → length (map f xs) ≡ length xs
length-map f [] = refl
length-map f (x ∷ xs) = omega (arith, length-map f xs)

pub length-history_of :
    (prior runs : List String) (run : String) → length (history_of prior runs run) ≤ max_history
unfolding history_of
length-history_of prior runs run = length-trim_last_n _ max_history

pub baseline_of_lem :
    (runs : List String) (run : String) (pointer : Option String)
    → (includes runs (baseline_of runs run pointer) ≡ true) ⊎ (baseline_of runs run pointer ≡ run)
unfolding baseline_of
baseline_of_lem runs run pointer =
    elim (Bool-cases (includes runs (ensure_baseline runs run pointer))) [
      | inl e ↦ inl (rw e e)
      | inr e ↦ inr (rw e refl)
    ]

-- A history that was within its limit holds the run after an update, and is within its limit.
pub history_of-includes :
    (prior runs : List String) (run : String)
    → length prior ≤ max_history
    → includes (history_of prior runs run) run ≡ true
unfolding history_of
history_of-includes prior runs run h =
    let kept = normalize_last_n prior runs in
    let short = length-normalize_last_n prior runs in
    elim (Bool-cases (includes kept run)) [
      | inl e ↦ rw (e, trim_short kept max_history (omega (arith, short, h))) e
      | inr e ↦ rw e (trim-includes kept run max_history (omega arith))
    ]
