-- ===== src/Kernel/Stamp/Laws.antt =====
-- When a stamp is reported as verified.
use weft_end.Prelude.{
  String, ◌≡◌, ◌↔◌, Bool, true, false, not, Option, some, List, [], arith, eq_iff, str_eq,
}
use weft_end.Reasons.{push_if}
use weft_end.Kernel.Empty.{append_nil_parts, is_empty_nil}
use weft_end.Kernel.Types.{Tier, Signature, ShopStamp, stamp_verified, sig_ok, tier_rank_of}
use weft_end.Kernel.Stamp.{
  shop_stamp_issues, lookup_key, signature_assessment, below_tier, stamp_reasons,
  compute_runtime_observed_stamp,
}

module _ (runtime : Option Tier) (stamp : ShopStamp) (caller : String)
    (allowlist : List (String × String))
    (verify : Option (ShopStamp → Signature → String → Bool)) where
  -- The signature is verified by the port with a key of the allowlist.
  abbrev pub SignedByListedKey : Type 0
  SignedByListedKey =
      (s : Signature) × (check : ShopStamp → Signature → String → Bool) × (key : String)
      × (stamp.signature ≡ some s)
      × (verify ≡ some check)
      × (lookup_key s.key_id allowlist ≡ some key)
      × (check stamp s key ≡ true)

  abbrev pub IsGenuine : Type 0
  IsGenuine =
      (shop_stamp_issues stamp ≡ [])
      × (stamp.block_hash ≡ caller)
      × (stamp.accept_decision ≡ "ACCEPT")
      × SignedByListedKey
      × (below_tier (tier_rank_of stamp.tier) runtime ≡ false)

  assessed : (signature_assessment stamp verify allowlist).1 ≡ [] → SignedByListedKey
  unfolding signature_assessment
  assessed h = ground arith

  assessed_back : SignedByListedKey → signature_assessment stamp verify allowlist ≡ (sig_ok, [])
  unfolding signature_assessment
  assessed_back h = ground arith

  none_of_reasons :
      stamp_reasons runtime stamp caller allowlist verify ≡ []
      → shop_stamp_issues stamp ≡ []
      → IsGenuine
  unfolding stamp_reasons
  none_of_reasons h shape =
      let (p, r) =
        append_nil_parts (push_if (not (str_eq stamp.block_hash caller)) "STAMP_INVALID") _ h in
      let (q, r') =
        append_nil_parts (push_if (not (str_eq stamp.accept_decision "ACCEPT")) "STAMP_INVALID") _
          r in
      let (signed, tier) =
        append_nil_parts _ (push_if (below_tier (tier_rank_of stamp.tier) runtime) "TIER_VIOLATION")
          r' in
      (
        shape,
        ground (arith, p, eq_iff stamp.block_hash caller),
        ground (arith, q, eq_iff stamp.accept_decision "ACCEPT"),
        assessed signed,
        ground (arith, tier),
      )

  reasons_of_genuine : IsGenuine → stamp_reasons runtime stamp caller allowlist verify ≡ []
  unfolding stamp_reasons
  reasons_of_genuine (shape, block, accept, signed, tier) = ground (
    arith,
    eq_iff stamp.block_hash caller,
    eq_iff stamp.accept_decision "ACCEPT",
    assessed_back signed,
  )

  -- A stamp is reported as verified exactly when its shape is right, it is for the caller's block,
  -- it accepts, its tier is not below the runtime's, and the port verifies its signature with the
  -- key that the allowlist has for it.
  pub stamp_verified_iff :
      ((compute_runtime_observed_stamp runtime (some stamp) caller allowlist verify).status
        ≡ stamp_verified)
      ↔ IsGenuine
  unfolding compute_runtime_observed_stamp
  stamp_verified_iff = (
    λ h. none_of_reasons (is_empty_nil _ (ground arith)) (is_empty_nil _ (ground arith)),
    λ g. ground (arith, g.0, reasons_of_genuine g),
  )
