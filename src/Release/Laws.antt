-- ===== src/Release/Laws.antt =====
-- What the verification of a release manifest demands, and that a signed manifest meets it.
use weft_end.Prelude.{
  String, ◌≡◌, ◌≢◌, refl, sym, Bool, true, false, not, Option, none, some, List, [], ◌∷◌, ◌++◌, map,
  str_eq, eq_iff, eq_refl, arith, ◌⊎◌, inl, inr, Bool-cases, Option-cases,
}
use weft_end.Text.{includes, is_non_empty}
use weft_end.Text.Table.{Table, get}
use weft_end.Text.Sets.{includes-append}
use weft_end.Reasons.{
  string, is_reason, stable_sort_unique_reasons, stable_sort_unique_strings,
  checkpoint_eq_or_reason, push_if, is_empty, or_default,
}
use weft_end.Reasons.Whole.{is_empty_iff, stable_sort_unique_reasons_nil}
use weft_end.Kernel.Types.{Signature}
use weft_end.Release.{
  ReleaseBody, ReleaseManifest, ReleasePort, verified, same_strings, Verifier, some_signature,
  signature_reasons, path_reasons, block_reasons, manifest_reasons, verify_release_manifest,
}

same_strings_iff : (xs ys : List String) → same_strings xs ys ≡ true → xs ≡ ys
unfolding same_strings
same_strings_iff [] [] h = refl
same_strings_iff [] (y ∷ ys) h = cc
same_strings_iff (x ∷ xs) [] h = cc
same_strings_iff (x ∷ xs) (y ∷ ys) h = ground (arith, eq_iff x y, same_strings_iff xs ys, h)

pub same_strings_refl : (xs : List String) → same_strings xs xs ≡ true
unfolding same_strings
same_strings_refl [] = refl
same_strings_refl (x ∷ xs) = ground (arith, eq_refl x, same_strings_refl xs)

-- Some signature is right under a key of the allow list for its identifier.
pub data SignedIn (verify : Verifier) (allowlist : Table String) (payload : String)
    : List Signature → Type 0 where
  here :
      (sig : Signature)
      → (sigs : List Signature) → (key : String) → get allowlist sig.key_id ≡ some key
      → key ≢ ""
      → verify payload sig key ≡ true
      → SignedIn verify allowlist payload (sig ∷ sigs)
  there :
      (sig : Signature)
      → (sigs : List Signature) → SignedIn verify allowlist payload sigs
      → SignedIn verify allowlist payload (sig ∷ sigs)

some_signature-SignedIn :
    (verify : Verifier) (allowlist : Table String) (payload : String) (sigs : List Signature)
    → some_signature verify allowlist payload sigs ≡ true
    → SignedIn verify allowlist payload sigs
unfolding some_signature
some_signature-SignedIn verify allowlist payload [] h = cc
some_signature-SignedIn verify allowlist payload (sig ∷ sigs) h =
    let next = some_signature-SignedIn verify allowlist payload sigs in
    elim (Option-cases (get allowlist sig.key_id)) [
      | inl e ↦ there sig sigs (next (ground (arith, e, h)))
      | inr (key, e) ↦ elim (Bool-cases (str_eq key "")) [
        | inl blank ↦ there sig sigs (next (ground (arith, e, blank, h)))
        | inr filled ↦ elim (Bool-cases (verify payload sig key)) [
          | inl right ↦ here sig sigs key e (λ b. ground (arith, filled, eq_iff key "", b)) right
          | inr wrong ↦ there sig sigs (next (ground (arith, e, filled, wrong, h)))
        ]
      ]
    ]

absent_parts :
    (xs ys : List String) (a : String)
    → includes (xs ++ ys) a ≡ false
    → (includes xs a ≡ false) × (includes ys a ≡ false)
absent_parts xs ys a h = ground (arith, includes-append xs ys a)

pushed_absent : (test : Bool) (a : String) → includes (push_if test a) a ≡ false → test ≡ false
unfolding includes
pushed_absent test a h = ground (arith, eq_refl a)

checked_absent : (e o a : String) → includes (checkpoint_eq_or_reason e o a) a ≡ false → e ≡ o
unfolding includes checkpoint_eq_or_reason
checked_absent e o a h = ground (arith, eq_refl a, eq_iff e o)

path_absent :
    (path_digest : Option String) (body : ReleaseBody)
    → includes (path_reasons path_digest body) "PATH_DIGEST_MISSING" ≡ false
    → includes (path_reasons path_digest body) "PATH_DIGEST_MISMATCH" ≡ false
    → (is_non_empty body.path_digest ≡ true)
      × ((is_non_empty (or_default "" path_digest) ≡ false) ⊎ (path_digest ≡ some body.path_digest))
unfolding path_reasons includes checkpoint_eq_or_reason
path_absent none body missing other = (ground arith, inl (unfold is_non_empty in refl))
path_absent (some e) body missing other = elim (Bool-cases (is_non_empty e)) [
  | inl filled ↦ (ground arith, inr (ground (arith, filled, eq_iff e body.path_digest)))
  | inr blank ↦ (ground arith, inl blank)
]

signed_absent :
    (port : ReleasePort) (verify : Option Verifier) (allowlist : Table String) (m : ReleaseManifest)
    → includes (signature_reasons port verify allowlist m) "RELEASE_SIGNATURE_BAD" ≡ false
    → (verifier : Verifier) × (payload : String) × (verify ≡ some verifier)
      × (port.payload m.body ≡ some payload)
      × ((payload ≡ "") ⊎ SignedIn verifier allowlist payload m.signatures)
unfolding signature_reasons includes
signed_absent port none allowlist m h = ground (arith, h)
signed_absent port (some v) allowlist m h = elim (Option-cases (port.payload m.body)) [
  | inl e ↦ ground (arith, e, h)
  | inr (payload, e) ↦ elim (Bool-cases (str_eq payload "")) [
    | inl blank ↦ (v, payload, refl, e, inl (ground (arith, blank, eq_iff payload "")))
    | inr filled ↦ (
      v,
      payload,
      refl,
      e,
      inr (some_signature-SignedIn v allowlist payload m.signatures (ground (arith, h, e, filled))),
    )
  ]
]

module _ (port : ReleasePort) (plan_digest : String) (blocks : List String)
    (path_digest : Option String) (verify : Option Verifier) (allowlist : Table String)
    (m : ReleaseManifest) where
  -- A code that no part of the reasons holds.
  Absent : String → Type 0
  Absent a =
      (includes (push_if (not (is_empty (port.issues m))) "RELEASE_MANIFEST_INVALID") a ≡ false)
      × (includes (port.privacy_codes m) a ≡ false)
      × (includes
            (checkpoint_eq_or_reason plan_digest m.body.plan_digest "RELEASE_PLANDIGEST_MISMATCH") a
          ≡ false)
      × (includes (path_reasons path_digest m.body) a ≡ false)
      × (includes (block_reasons blocks m.body) a ≡ false)
      × (includes (signature_reasons port verify allowlist m) a ≡ false)

  module _
      (accepted : (verify_release_manifest port
          (some m)
          plan_digest
          blocks
          path_digest
          verify
          allowlist).status
        ≡ verified) where
    absent : (a : String) → is_reason false a ≡ true → Absent a
    unfolding verify_release_manifest manifest_reasons Absent
    absent a known =
        let codes =
          stable_sort_unique_reasons
            (manifest_reasons port plan_digest blocks path_digest verify allowlist m)
            (some m.release_id) (some "manifest") in
        let none_at_all : codes ≡ [] = is_empty_iff codes (ground (arith, accepted)) in
        let all = stable_sort_unique_reasons_nil _ _ _ a none_at_all known in
        let (p0, r0) = absent_parts _ _ a all in
        let (p1, r1) = absent_parts _ _ a r0 in
        let (p2, r2) = absent_parts _ _ a r1 in
        let (p3, r3) = absent_parts _ _ a r2 in
        let (p4, p5) = absent_parts _ _ a r3 in (p0, p1, p2, p3, p4, p5)

    -- A manifest that is reported as verified has no issue, the expected plan digest, the expected
    -- blocks, and a path digest that is not blank and is the expected one where one is expected.
    pub verified_body :
        (port.issues m ≡ [])
        × (m.body.plan_digest ≡ plan_digest)
        × (stable_sort_unique_strings (map string m.body.blocks)
            ≡ stable_sort_unique_strings (map string blocks))
        × (is_non_empty m.body.path_digest ≡ true)
        × ((is_non_empty (or_default "" path_digest) ≡ false)
            ⊎ (path_digest ≡ some m.body.path_digest))
    unfolding Absent block_reasons
    verified_body =
        let (a0, _, _, _, _, _) =
          absent "RELEASE_MANIFEST_INVALID" (unfold is_reason is_non_empty in refl) in
        let (_, _, a2, _, _, _) =
          absent "RELEASE_PLANDIGEST_MISMATCH" (unfold is_reason is_non_empty in refl) in
        let (_, _, _, a3, _, _) =
          absent "PATH_DIGEST_MISSING" (unfold is_reason is_non_empty in refl) in
        let (_, _, _, a4, _, _) =
          absent "PATH_DIGEST_MISMATCH" (unfold is_reason is_non_empty in refl) in
        let (_, _, _, _, a5, _) =
          absent "RELEASE_BLOCKSET_MISMATCH" (unfold is_reason is_non_empty in refl) in
        let (path, expected) = path_absent path_digest m.body a3 a4 in
        let same = pushed_absent _ "RELEASE_BLOCKSET_MISMATCH" a5 in
        (
          is_empty_iff _ (ground (arith, pushed_absent _ "RELEASE_MANIFEST_INVALID" a0)),
          sym (checked_absent _ _ "RELEASE_PLANDIGEST_MISMATCH" a2),
          sym (same_strings_iff _ _ (ground (arith, same))),
          path,
          expected,
        )

    -- A manifest that is reported as verified was checked by a crypto port against the canonical
    -- form of its body: it is signed under a key of the allow list, or that form is empty.
    pub verified_signature :
        (verifier : Verifier) × (payload : String) × (verify ≡ some verifier)
        × (port.payload m.body ≡ some payload)
        × ((payload ≡ "") ⊎ SignedIn verifier allowlist payload m.signatures)
    unfolding Absent
    verified_signature =
        let (_, _, _, _, _, a) =
          absent "RELEASE_SIGNATURE_BAD" (unfold is_reason is_non_empty in refl) in
        signed_absent port verify allowlist m a
