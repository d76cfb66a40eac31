-- ===== src/Keeper/Caps/Total.antt =====
-- The caps of all contracts together: `SetMaxCapLimit` of x/meshsecurity/keeper/keeper.go.
use research_cosmos.Prelude.{
  ◌≡◌, refl, sym, ap, ◌∙◌, ◌⊎◌, true, not, some, [], ◌∷◌, ◌++◌, arith, inl, inr, Bool-cases,
  if_cases, if◌then◌else◌,
}
use research_cosmos.Prelude.Int.{ℤ, pos, ◌+ℤ◌, ◌≤ℤ◌, ltb_ℤ, int_laws, zero-+ℤ}
use research_cosmos.Bytes.{Bytes, equal, before}
use research_cosmos.KvStore.{KvStore, set, IsSorted}
use research_cosmos.KvStore.Laws.{set-IsSorted}
use research_cosmos.KvStore.Prefix.{entries-set, entries-IsSorted}
use research_cosmos.Types.{
  Outcome, ok, err, panic, Coin, Params, invalid, invalid_coins, max_cap_limit_updated,
}
use research_cosmos.Sdk.{Sdk, Laws, fits_int, fits_below}
use research_cosmos.Ctx.{World}
use research_cosmos.Keys.{max_cap_limit_key_prefix, build_max_cap_limit_key}
use research_cosmos.Keeper.{Keeper}
use research_cosmos.Keeper.Params.{get_total_contracts_max_cap, get_params}
use research_cosmos.Keeper.Params.Stored.{HasParams, HasParams-set, get_params_ok}
use research_cosmos.Keeper.Caps.{iterate_caps, iterate_max_cap_limit, add_other, set_max_cap_limit}
pub use research_cosmos.Keeper.Caps.Sum.{
  amount_of, cap_sum, cap_sum_others, caps, IsReadable, IsNonneg, cap_sum_others-IsNonneg,
}
use research_cosmos.Keeper.Caps.Sum.{iterate_caps-add_other, iterate_caps-fits, cap_sum-set}

-- The state after a limit was stored.
abbrev pub store_cap : {E : Type 0} → Bytes → Coin → Bytes → World E → World E
store_cap c coin bz w = record w {
  store = set (build_max_cap_limit_key c) bz w.store;
  events = w.events ++ max_cap_limit_updated c coin ∷ [];
}

module _ {E : Type 0} (k : Keeper E) (laws : Laws k.sdk) (c : Bytes) (coin : Coin) (w : World E)
    {p : Params} {bz : Bytes} (readable : IsReadable k.sdk (caps w.store))
    (params : get_params k w ≡ (ok p, w)) (marshalled : k.sdk.marshal_int coin.amount ≡ ok bz) where
  abbrev sum : ℤ
  sum = cap_sum_others k.sdk c (caps w.store) +ℤ coin.amount

  sum_others :
      {r : Outcome ℤ × World E}
      → iterate_caps k (add_other k c) (pos 0) (caps w.store) w ≡ r
      → iterate_max_cap_limit k (add_other k c) (pos 0) w ≡ r
  unfolding iterate_max_cap_limit
  sum_others e = e

  reaches :
      iterate_caps k (add_other k c) (pos 0) (caps w.store) w
        ≡ (ok (pos 0 +ℤ cap_sum_others k.sdk c (caps w.store)), w)
      → iterate_max_cap_limit k (add_other k c) (pos 0) w
        ≡ (ok (cap_sum_others k.sdk c (caps w.store)), w)
  reaches done =
      sum_others done ∙ ap (λ (r : ℤ). (ok r, w)) (zero-+ℤ (cap_sum_others k.sdk c (caps w.store)))

  -- What follows once the others are added up.
  abbrev summed : Outcome (Unit {0}) × World E
  summed =
      if ltb_ℤ p.total_contracts_max_cap.amount sum
      then (err invalid, w)
      else (ok tt, store_cap c coin bz w)

  abbrev branches : Outcome (Unit {0}) × World E → Outcome (Unit {0}) × World E
  branches r =
      if not (equal (k.staking.bond_denom w.env) coin.denom) then (err invalid_coins, w) else r

  added :
      iterate_max_cap_limit k (add_other k c) (pos 0) w
        ≡ (ok (cap_sum_others k.sdk c (caps w.store)), w)
      → set_max_cap_limit k c coin w ≡ branches (if not (fits_int sum) then (panic, w) else summed)
  unfolding set_max_cap_limit get_total_contracts_max_cap
  added others =
      let add = laws.add_int_lem (cap_sum_others k.sdk c (caps w.store)) coin.amount in
      ground (arith, others, add, params, marshalled)

  overflown :
      iterate_max_cap_limit k (add_other k c) (pos 0) w ≡ (panic, w)
      → set_max_cap_limit k c coin w ≡ branches (panic, w)
  unfolding set_max_cap_limit get_total_contracts_max_cap
  overflown others = ground (arith, others)

  -- Whatever the amounts are, there is a panic, or the sums fit.
  pub set_max_cap_limit_cases :
      (set_max_cap_limit k c coin w ≡ branches (panic, w))
      ⊎ (set_max_cap_limit k c coin w ≡ branches summed)
  set_max_cap_limit_cases =
      elim (iterate_caps-add_other k laws c (pos 0) (caps w.store) w readable) [
        | inr stops ↦ inl (overflown (sum_others stops))
        | inl done ↦ elim (Bool-cases (fits_int sum)) [
          | inl fits ↦ inr (rw (added (reaches done), fits) refl)
          | inr large ↦ inl (rw (added (reaches done), large) refl)
        ]
      ]

  pub set_max_cap_limit_ok :
      {w' : World E}
      → set_max_cap_limit k c coin w ≡ (ok tt, w')
      → (equal (k.staking.bond_denom w.env) coin.denom ≡ true) × (w' ≡ store_cap c coin bz w)
  set_max_cap_limit_ok e = elim set_max_cap_limit_cases [
    | inl stops ↦ absurd (ground (arith, sym e ∙ stops))
    | inr done ↦ ground (arith, sym e ∙ done)
  ]

  -- With stored amounts and params that can be decoded, an amount that can be marshalled, and no
  -- amount below zero: `SetMaxCapLimit` changes nothing and returns `ErrInvalidCoins` for another
  -- denomination than the staking one, panics and changes nothing if the sum over the other
  -- contracts and the new amount has more than 256 bits, changes nothing and returns `ErrInvalid`
  -- if that sum passes the total, and otherwise stores the amount and emits the event.
  pub set_max_cap_limit_branches :
      IsNonneg k.sdk (caps w.store)
      → pos 0 ≤ℤ coin.amount
      → set_max_cap_limit k c coin w ≡ (
          if not (equal (k.staking.bond_denom w.env) coin.denom)
          then (err invalid_coins, w)
          else if not (fits_int (cap_sum_others k.sdk c (caps w.store) +ℤ coin.amount))
          then (panic, w)
          else if ltb_ℤ p.total_contracts_max_cap.amount
              (cap_sum_others k.sdk c (caps w.store) +ℤ coin.amount)
          then (err invalid, w)
          else (ok tt, store_cap c coin bz w))
  set_max_cap_limit_branches nonneg above =
      let others = cap_sum_others k.sdk c (caps w.store) in
      let below = cap_sum_others-IsNonneg k.sdk c (caps w.store) nonneg in
      elim (Bool-cases (fits_int sum)) [
        | inl fits ↦
            let f = fits_below others sum below (omega (int_laws, above)) fits in
            let done =
              iterate_caps-fits k laws c (pos 0) (caps w.store) w readable nonneg (omega arith)
                (rw (zero-+ℤ others) f) in
            added (reaches done)
        | inr large ↦ elim (iterate_caps-add_other k laws c (pos 0) (caps w.store) w readable) [
          | inl done ↦ added (reaches done)
          | inr stops ↦ rw (overflown (sum_others stops), large) refl
        ]
      ]

set-IsReadable :
    (sdk : Sdk) (c bz : Bytes) {i : ℤ} (s : KvStore)
    → sdk.unmarshal_int bz ≡ some i
    → IsReadable sdk s
    → IsReadable sdk (set c bz s)
unfolding set
set-IsReadable sdk c bz {i} [] u h = ((i, u), tt)
set-IsReadable sdk c bz {i} ((j, w) ∷ s) u h = elim (Bool-cases (equal c j)) [
  | inl q ↦ rw q ((i, u), h.1)
  | inr q ↦ elim (Bool-cases (before c j)) [
    | inl b ↦ rw (q, b) ((i, u), h)
    | inr b ↦ rw (q, b) (h.0, set-IsReadable sdk c bz s u h.1)
  ]
]

-- A store in key order whose amounts and params can be decoded, with caps that sum up to at most
-- the total of the params.
pub record IsWithinTotal (sdk : Sdk) (p : Params) (s : KvStore) : Type 0 where
  pub sorted : IsSorted s
  pub readable : IsReadable sdk (caps s)
  pub params : HasParams sdk p s
  pub within : cap_sum sdk (caps s) ≤ℤ p.total_contracts_max_cap.amount

module _ {E : Type 0} (k : Keeper E) (laws : Laws k.sdk) where
  store_cap-IsWithinTotal :
      (c : Bytes) (coin : Coin) (w : World E) {p : Params} {bz : Bytes}
      → IsWithinTotal k.sdk p w.store
      → k.sdk.unmarshal_int bz ≡ some coin.amount
      → cap_sum_others k.sdk c (caps w.store) +ℤ coin.amount ≤ℤ p.total_contracts_max_cap.amount
      → IsWithinTotal k.sdk p (store_cap c coin bz w).store
  unfolding build_max_cap_limit_key
  store_cap-IsWithinTotal c coin w {p} {bz} h u fits =
      let view = entries-set max_cap_limit_key_prefix c bz w.store h.sorted in
      record {
        sorted = set-IsSorted (max_cap_limit_key_prefix ++ c) bz w.store h.sorted;
        readable = rw view (set-IsReadable k.sdk c bz (caps w.store) u h.readable);
        params =
            HasParams-set k.sdk p (max_cap_limit_key_prefix ++ c) bz w.store (unfold equal in refl)
              h.params;
        within =
            rw
              (
                view,
                cap_sum-set k.sdk c bz (caps w.store)
                    (entries-IsSorted max_cap_limit_key_prefix w.store h.sorted),
                u,
              )
              fits;
      }

  -- With the laws of the SDK: if the store is sorted, its amounts and params can be decoded, and
  -- the caps of all contracts together are within the total of the params, then all that holds
  -- again after `SetMaxCapLimit`, for any contract and coin and however the call ends.
  pub set_max_cap_limit-IsWithinTotal :
      (c : Bytes) (coin : Coin) (w : World E) (p : Params)
      → IsWithinTotal k.sdk p w.store
      → IsWithinTotal k.sdk p (set_max_cap_limit k c coin w).1.store
  set_max_cap_limit-IsWithinTotal c coin w p h =
      let (bz, m, u) = laws.int_round_trip coin.amount in
      let after = λ (r : Outcome (Unit {0}) × World E). IsWithinTotal k.sdk p r.1.store in
      let exceeds =
        ltb_ℤ p.total_contracts_max_cap.amount
          (cap_sum_others k.sdk c (caps w.store) +ℤ coin.amount) in
      elim (set_max_cap_limit_cases k laws c coin w h.readable (get_params_ok k p w h.params) m) [
        | inl e ↦ rw e (
            if_cases after (not (equal (k.staking.bond_denom w.env) coin.denom))
              (err invalid_coins, w) (panic, w) (λ _. h) (λ _. h))
        | inr e ↦ rw e (
            if_cases after (not (equal (k.staking.bond_denom w.env) coin.denom))
              (err invalid_coins, w)
              (if exceeds then (err invalid, w) else (ok tt, store_cap c coin bz w)) (λ _. h)
              (λ _.
                if_cases after exceeds (err invalid, w) (ok tt, store_cap c coin bz w) (λ _. h)
                  (λ fits. store_cap-IsWithinTotal c coin w h u (ground arith))))
      ]
