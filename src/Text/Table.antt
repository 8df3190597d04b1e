-- ===== src/Text/Table.antt =====
-- `Map` over strings: pairs in the order of insertion, each key once.
use weft_end.Prelude.{
  sym, ◌∙◌, subst, ◌⊎◌, some_injective, String, ◌≡◌, refl, false, Bool-cases, inl, inr, Option,
  none, some, List, [], ◌∷◌, str_eq, eq_iff, eq_refl, if◌then◌else◌, arith,
}

abbrev pub Table {ℓ} : Type ℓ → Type ℓ
Table A = List (String × A)

module _ {ℓ} {A : Type ℓ} where
  -- `map.get(key)`.
  unfoldable pub get : Table A → String → Option A
  get [] key = none
  get ((k, v) ∷ rest) key = if str_eq k key then some v else get rest key

  -- `map.set(key, value)`: in place where the key is there, else at the end.
  unfoldable pub set : Table A → String → A → Table A
  set [] key value = (key, value) ∷ []
  set ((k, v) ∷ rest) key value =
      if str_eq k key then (k, value) ∷ rest else (k, v) ∷ set rest key value

  pub get-set_same :
      (t : Table A) (key : String) (value : A) → get (set t key value) key ≡ some value
  unfolding get set
  get-set_same [] key value = rw (eq_refl key) refl
  get-set_same ((k, v) ∷ rest) key value = elim (Bool-cases (str_eq k key)) [
    | inl e ↦ rw (e, set) (rw (e, get) refl)
    | inr e ↦ rw (e, set) (rw (e, get) (get-set_same rest key value))
  ]

  pub get-set_other :
      (t : Table A) (key other : String) (value : A)
      → str_eq key other ≡ false
      → get (set t key value) other ≡ get t other
  unfolding get set
  get-set_other [] key other value h = rw h refl
  get-set_other ((k, v) ∷ rest) key other value h =
      ground (arith, get-set_other rest key other value h, eq_iff k key)

  pub get-set :
      (t : Table A) (key other : String) (value : A)
      → get (set t key value) other ≡ (if str_eq key other then some value else get t other)
  get-set t key other value = elim (Bool-cases (str_eq key other)) [
    | inl m ↦
        let e = (eq_iff key other).0 m in
        rw m (subst (λ k. get (set t key value) k ≡ some value) e (get-set_same t key value))
    | inr m ↦ rw m (get-set_other t key other value m)
  ]

  -- An entry after `set` is the new one or an old one.
  pub get-set_cases :
      (t : Table A) (key other : String) (value found : A)
      → get (set t key value) other ≡ some found
      → ((key ≡ other) × (found ≡ value)) ⊎ (get t other ≡ some found)
  get-set_cases t key other value found h = elim (Bool-cases (str_eq key other)) [
    | inl m ↦
        let e = (eq_iff key other).0 m in
        inl (
          e,
          some_injective (
              sym h
              ∙ (subst (λ k. get (set t key value) k ≡ some value) e (get-set_same t key value))),
        )
    | inr m ↦ inr (sym (get-set_other t key other value m) ∙ h)
  ]
