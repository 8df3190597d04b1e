-- ===== src/Kernel/Stamp.antt =====
-- src/runtime/kernel/stamp_observer_core.ts: what a runtime sees of the shop stamp of a block.
pub mod Laws
use weft_end.Prelude.{
  ℕ, Ordering, String, Bool, true, false, not, ◌&&◌, ◌||◌, Option, none, some, List, [], ◌∷◌, ◌++◌,
  str_eq, ltb, if◌then◌else◌,
}
use weft_end.Text.{cmp_str, is_non_empty}
use weft_end.Reasons.{stable_sort_unique_reasons, or_default, is_none, push_if, is_empty}
use weft_end.Kernel.Types.{
  Tier, tier_rank, tier_rank_of, Signature, ShopStamp, StampStatus, stamp_verified, stamp_invalid,
  unstamped, SigStatus, sig_ok, sig_bad, sig_unverified, StampObservation,
}

is_above : Ordering → Bool
is_above Ordering.gt = true
is_above _ = false

-- Some neighbours are in descending order.
unfoldable pub has_descent : List String → Bool
unfolding is_above
has_descent (x ∷ y ∷ rest) = is_above (cmp_str x y) || has_descent (y ∷ rest)
has_descent _ = false

has_blank : List String → Bool
has_blank [] = false
has_blank (x ∷ xs) = not (is_non_empty x) || has_blank xs

signature_issues : Option Signature → List String
signature_issues none = []
signature_issues (some s) =
    push_if (not (is_non_empty s.algo)) "FIELD_INVALID"
    ++ (push_if (not (is_non_empty s.key_id)) "FIELD_INVALID"
        ++ push_if (not (is_non_empty s.sig)) "FIELD_INVALID")

-- `validateShopStampLocal`, on an object with the fields of a stamp.
unfoldable pub shop_stamp_issues : ShopStamp → List String
unfolding has_blank signature_issues
shop_stamp_issues x =
    push_if (not (is_empty x.other_keys)) "MARKET_FIELDS_INVALID"
    ++ (push_if (not (str_eq x.schema "retni.shopstamp/1")) "MARKET_FIELDS_INVALID"
        ++ (push_if (is_none (tier_rank_of x.tier)) "MARKET_TIER_INVALID"
            ++ (push_if (not (is_non_empty x.shop_id)) "MARKET_FIELDS_INVALID"
                ++ (push_if (not (is_non_empty x.policy_digest)) "MARKET_FIELDS_INVALID"
                    ++ (push_if (not (is_non_empty x.block_hash)) "MARKET_HASH_INVALID"
                        ++ (push_if (not (is_non_empty x.stamp_digest)) "MARKET_FIELDS_INVALID"
                            ++ (push_if
                                  (not (str_eq x.accept_decision "ACCEPT")
                                    && not (str_eq x.accept_decision "REJECT"))
                                  "MARKET_FIELDS_INVALID"
                                ++ (push_if (has_blank x.reason_codes) "MARKET_FIELDS_INVALID"
                                    ++ (push_if (has_descent x.reason_codes)
                                          "MARKET_SNAPSHOT_ORDER_INVALID"
                                        ++ signature_issues x.signature)))))))))

-- `allowlist[keyId]`, where a missing and an empty key both count as unknown.
unfoldable pub lookup_key : String → List (String × String) → Option String
lookup_key key [] = none
lookup_key key ((k, v) ∷ rest) =
    if str_eq k key then (if str_eq v "" then none else some v) else lookup_key key rest

verified : Bool → SigStatus × List String
verified true = (sig_ok, [])
verified false = (sig_bad, "STAMP_SIG_INVALID" ∷ [])

-- `signatureAssessment`.
unfoldable pub signature_assessment :
    ShopStamp
    → Option (ShopStamp → Signature → String → Bool)
    → List (String × String)
    → SigStatus × List String
unfolding verified
signature_assessment stamp verify allowlist = elim stamp.signature [
  | none ↦ (sig_unverified, "STAMP_SIG_MISSING" ∷ [])
  | some s ↦ elim verify [
    | none ↦ (sig_unverified, "STAMP_SIG_PORT_MISSING" ∷ [])
    | some check ↦ elim (lookup_key s.key_id allowlist) [
      | none ↦ (sig_unverified, "STAMP_SIG_KEY_UNKNOWN" ∷ [])
      | some public_key ↦ verified (check stamp s public_key)
    ]
  ]
]

-- `stampRank < runtimeRank`, where both are known.
unfoldable pub below_tier : Option ℕ → Option Tier → Bool
below_tier (some stamp_rank) (some runtime) = ltb stamp_rank (tier_rank runtime)
below_tier _ _ = false

-- The reasons against a stamp whose shape is right.
unfoldable pub stamp_reasons :
    Option Tier
    → ShopStamp
    → String
    → List (String × String)
    → Option (ShopStamp → Signature → String → Bool)
    → List String
stamp_reasons runtime_tier stamp caller allowlist verify =
    push_if (not (str_eq stamp.block_hash caller)) "STAMP_INVALID"
    ++ (push_if (not (str_eq stamp.accept_decision "ACCEPT")) "STAMP_INVALID"
        ++ ((signature_assessment stamp verify allowlist).1
            ++ push_if (below_tier (tier_rank_of stamp.tier) runtime_tier) "TIER_VIOLATION"))

sorted : List String → List String
sorted reasons = stable_sort_unique_reasons reasons none none

missing_stamp : Option Tier → StampObservation
unfolding sorted
missing_stamp none = record { status = unstamped; sig_status = sig_unverified; reason_codes = [] }
missing_stamp (some tier) = record {
  status = unstamped;
  sig_status = sig_unverified;
  reason_codes = sorted ("STAMP_MISSING" ∷ []);
}

-- `computeRuntimeObservedStamp`.
unfoldable pub compute_runtime_observed_stamp :
    Option Tier
    → Option ShopStamp
    → String
    → List (String × String)
    → Option (ShopStamp → Signature → String → Bool)
    → StampObservation
unfolding missing_stamp sorted
compute_runtime_observed_stamp runtime_tier none caller allowlist verify =
    missing_stamp runtime_tier
compute_runtime_observed_stamp runtime_tier (some stamp) caller allowlist verify =
    let reasons = stamp_reasons runtime_tier stamp caller allowlist verify in
    if is_empty (shop_stamp_issues stamp)
    then record {
      status = if is_empty reasons then stamp_verified else stamp_invalid;
      sig_status = (signature_assessment stamp verify allowlist).0;
      reason_codes = if is_empty reasons then [] else sorted reasons;
    }
    else record {
      status = stamp_invalid;
      sig_status = sig_unverified;
      reason_codes = sorted ("STAMP_INVALID" ∷ []);
    }
