-- ===== src/Reasons/Collect.antt =====
-- What the collecting loop keeps: each accepted string once.
use weft_end.Prelude.{
  String, ◌≡◌, refl, ap, Bool, true, false, not, ◌&&◌, List, [], ◌∷◌, map, All, arith, Bool-cases,
  inl, inr, eq_iff, eq_refl,
}
use weft_end.Text.{includes}
use weft_end.Text.Sets.{Distinct}
use weft_end.Reasons.{Unknown, string, other, fresh, collect}

-- The strings among the values.
unfoldable pub texts : List Unknown → List String
texts [] = []
texts (string s ∷ vs) = s ∷ texts vs
texts (other ∷ vs) = texts vs

pub texts-map : (xs : List String) → texts (map string xs) ≡ xs
unfolding texts
texts-map [] = refl
texts-map (x ∷ xs) = ap (◌∷◌ x) (texts-map xs)

pub includes-collect :
    (keep : String → Bool) (seen : List String) (vs : List Unknown) (a : String)
    → includes (collect keep seen vs) a ≡ (keep a && not (includes seen a) && includes (texts vs) a)
unfolding collect texts includes
includes-collect keep seen [] a = ground arith
includes-collect keep seen (other ∷ vs) a = includes-collect keep seen vs a
includes-collect keep seen (string s ∷ vs) a = elim (Bool-cases (keep s && not (includes seen s))) [
  | inl e ↦
      rw (e, collect, fresh) (ground (arith, includes-collect keep (s ∷ seen) vs a, eq_iff s a))
  | inr e ↦ rw (e, collect, fresh) (ground (arith, includes-collect keep seen vs a, eq_iff s a))
]

pub Distinct-collect :
    (keep : String → Bool) (seen : List String) (vs : List Unknown)
    → Distinct (collect keep seen vs)
unfolding collect
Distinct-collect keep seen [] = tt
Distinct-collect keep seen (other ∷ vs) = Distinct-collect keep seen vs
Distinct-collect keep seen (string s ∷ vs) = elim (Bool-cases (keep s && not (includes seen s))) [
  | inl e ↦
      rw (e, collect, fresh)
        (
          unfold includes in ground (arith, includes-collect keep (s ∷ seen) vs s, eq_refl s),
          Distinct-collect keep (s ∷ seen) vs,
        )
  | inr e ↦ rw (e, collect, fresh) (Distinct-collect keep seen vs)
]

unseen :
    (x : String) (seen xs : List String)
    → includes xs x ≡ false
    → All (λ y. includes seen y ≡ false) xs
    → All (λ y. includes (x ∷ seen) y ≡ false) xs
unfolding includes
unseen x seen [] m h = tt
unseen x seen (y ∷ ys) m h =
    (ground (arith, eq_iff x y, eq_iff y x), unseen x seen ys (ground arith) h.1)

-- A list of distinct accepted strings, none of them seen, is collected whole.
pub collect-All :
    (keep : String → Bool) (seen xs : List String)
    → Distinct xs
    → All (λ x. keep x ≡ true) xs
    → All (λ x. includes seen x ≡ false) xs
    → collect keep seen (map string xs) ≡ xs
unfolding collect fresh includes
collect-All keep seen [] d k h = refl
collect-All keep seen (x ∷ xs) d k h =
    rw (k.0, h.0, collect, fresh)
      (ap (◌∷◌ x) (collect-All keep (x ∷ seen) xs d.1 k.1 (unseen x seen xs d.0 h.1)))

pub All-unseen : (xs : List String) → All (λ x. includes [] x ≡ false) xs
unfolding includes
All-unseen [] = tt
All-unseen (x ∷ xs) = (refl, All-unseen xs)
