-- ===== src/Strict/Cleared.antt =====
-- What an empty preflight of the strict executor says.
use weft_end.Prelude.{
  ◌≡◌, refl, sym, ◌∙◌, ap, ◌⊎◌, inl, inr, String, true, false, none, List, [], ◌∷◌, ◌++◌, map,
  arith, Bool-cases, eq_refl, ◌≢◌, if◌then◌else◌, ◌||◌, ◌&&◌,
}
use weft_end.Text.{includes, is_non_empty}
use weft_end.Text.Sets.{includes-append}
use weft_end.Reasons.{string, is_empty, is_reason}
use weft_end.Reasons.Collect.{texts, texts-map}
use weft_end.Reasons.Join.{join_strings}
use weft_end.Reasons.Normal.{stable_sort_unique_strings_lem}
use weft_end.Reasons.Fixed.{stable_sort_unique_reasons-full}
use weft_end.Reasons.Whole.{stable_sort_unique_reasons_nil}
use weft_end.Release.{VerifyStatus, verified, ReleaseVerifyResult}
use weft_end.Release
use weft_end.Strict.Preflight.{normal_codes, release_reasons_of}

-- No string of the list is blank.
abbrev pub IsFull : List String → Type 0
IsFull xs = (a : String) → includes xs a ≡ true → is_non_empty a ≡ true

texts-append : (xs ys : List String) → texts (map string xs ++ map string ys) ≡ xs ++ ys
unfolding texts
texts-append [] ys = texts-map ys
texts-append (x ∷ xs) ys = ap (◌∷◌ x) (texts-append xs ys)

pub includes-join_strings :
    (xs ys : List String) (a : String)
    → includes (join_strings (map string xs) (map string ys)) a
      ≡ (is_non_empty a && (includes xs a || includes ys a))
unfolding join_strings
includes-join_strings xs ys a =
    let (up, members) = stable_sort_unique_strings_lem (map string xs ++ map string ys) in
    members a
    ∙ ap (λ m. is_non_empty a && m)
        (ap (λ zs. includes zs a) (texts-append xs ys) ∙ includes-append xs ys a)

pub join_strings-IsFull :
    (xs ys : List String) → IsFull (join_strings (map string xs) (map string ys))
join_strings-IsFull xs ys a m = ground (arith, m, includes-join_strings xs ys a)

nothing_in : (xs : List String) → ((a : String) → includes xs a ≡ false) → xs ≡ []
unfolding includes
nothing_in [] h = refl
nothing_in (x ∷ xs) h = absurd (ground (arith, h x, eq_refl x))

-- An empty join joins empty lists.
pub join_strings_nil :
    (xs ys : List String)
    → IsFull xs
    → IsFull ys
    → join_strings (map string xs) (map string ys) ≡ []
    → (xs ≡ []) × (ys ≡ [])
unfolding includes
join_strings_nil xs ys fx fy h =
    let none_of : (a : String) → (is_non_empty a && (includes xs a || includes ys a)) ≡ false =
      λ a. sym (includes-join_strings xs ys a) ∙ ap (λ zs. includes zs a) h in
    (
      nothing_in xs (λ a. elim (Bool-cases (includes xs a)) [
        | inl m ↦ absurd (ground (arith, fx a m, none_of a))
        | inr n ↦ n
      ]),
      nothing_in ys (λ a. elim (Bool-cases (includes ys a)) [
        | inl m ↦ absurd (ground (arith, fy a m, none_of a))
        | inr n ↦ n
      ]),
    )

pub normal_codes-IsFull : (xs : List String) → IsFull (normal_codes xs)
normal_codes-IsFull xs a m = stable_sort_unique_reasons-full xs none none a m

Status-cases : (s : VerifyStatus) → (s ≡ verified) ⊎ (s ≡ Release.unverified)
Status-cases verified = inl refl
Status-cases Release.unverified = inr refl

unverified_has_reason :
    (codes : List String)
    → (if is_empty codes then normal_codes ("RELEASE_UNVERIFIED" ∷ []) else codes) ≢ []
unfolding includes
unverified_has_reason [] h =
    let absent =
      stable_sort_unique_reasons_nil ("RELEASE_UNVERIFIED" ∷ []) none none "RELEASE_UNVERIFIED" h
        (unfold is_reason is_non_empty in refl) in
    cc
unverified_has_reason (c ∷ cs) h = cc

-- A release without reasons is verified.
pub release_reasons_nil :
    (v : ReleaseVerifyResult) → release_reasons_of v ≡ [] → v.status ≡ verified
unfolding release_reasons_of
release_reasons_nil v h = elim (Status-cases v.status) [
  | inl e ↦ e
  | inr e ↦ absurd (unverified_has_reason (normal_codes v.reason_codes) (rw e at h))
]

pub release_reasons-IsFull : (v : ReleaseVerifyResult) → IsFull (release_reasons_of v)
unfolding release_reasons_of
release_reasons-IsFull v a m = elim (Status-cases v.status) [
  | inl e ↦ normal_codes-IsFull v.reason_codes a (rw e at m)
  | inr e ↦ elim (Bool-cases (is_empty (normal_codes v.reason_codes))) [
    | inl f ↦ normal_codes-IsFull ("RELEASE_UNVERIFIED" ∷ []) a (rw (e, f) at m)
    | inr f ↦ normal_codes-IsFull v.reason_codes a (rw (e, f) at m)
  ]
]
