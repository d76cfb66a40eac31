-- ===== src/Keeper/Queries/Listing.antt =====
-- The list query of x/meshsecurity/keeper/querier.go against the query of one contract.
use research_cosmos.Prelude.{◌≡◌, refl, sym, ap, ◌∙◌, some, List, [], ◌∷◌, ◌++◌, append_assoc, All}
use mathlib.Core.List.{append-nil}
use research_cosmos.Prelude.Int.{ℤ, pos, ◌≤ℤ◌}
use research_cosmos.Bytes.{Bytes}
use research_cosmos.KvStore.{KvStore, get, IsSorted}
use research_cosmos.KvStore.Laws.{All-get}
use research_cosmos.KvStore.Prefix.{get-entries, entries-IsSorted}
use research_cosmos.Types.{ok, Coin}
use research_cosmos.Ctx.{World}
use research_cosmos.Keys.{
  max_cap_limit_key_prefix, build_max_cap_limit_key, build_total_delegated_amount_key,
}
use research_cosmos.Keeper.{Keeper, KeeperLaws}
use research_cosmos.Keeper.Caps.{iterate_caps, iterate_max_cap_limit}
use research_cosmos.Keeper.Caps.Total.{caps}
use research_cosmos.Keeper.Caps.Limit.{read_int, get_max_cap_limit_ok, get_total_delegated_ok}
use research_cosmos.Keeper.Queries.{
  MaxCapInfo, virtual_staking_max_cap_limit, virtual_staking_max_cap_limits, append_info,
}

module _ {E : Type 0} (k : Keeper E) (w : World E) where
  -- A stored limit that can be listed: it and the contract's total decode to at least zero.
  abbrev pub IsListed : Bytes × Bytes → Type 0
  IsListed e =
      ((i : ℤ) × (k.sdk.unmarshal_int e.1 ≡ some i) × (pos 0 ≤ℤ i))
      × ((d : ℤ) × (read_int k.sdk (get (build_total_delegated_amount_key e.0) w.store) ≡ some d)
          × (pos 0 ≤ℤ d))

  -- One info for each stored limit, each of which the query of its contract confirms.
  abbrev pub Matches : KvStore → List MaxCapInfo → Type 0
  Matches [] [] = Unit
  Matches [] (i ∷ infos) = ⊥
  Matches (e ∷ s) [] = ⊥
  Matches ((a, bz) ∷ s) (i ∷ infos) =
      (i.contract ≡ k.sdk.acc_string a)
      × (virtual_staking_max_cap_limit k i.contract w
          ≡ (ok (record { cap = i.cap; delegated = i.delegated }), w))
      × Matches s infos

  module _ (laws : KeeperLaws k)
      (bech32 : (a : Bytes) → k.sdk.acc_address_from_bech32 (k.sdk.acc_string a) ≡ some a) where
    abbrev coin : ℤ → Coin
    coin i = record { denom = k.staking.bond_denom w.env; amount = i }

    query_one :
        (a bz : Bytes) (i d : ℤ)
        → get a (caps w.store) ≡ some bz
        → k.sdk.unmarshal_int bz ≡ some i
        → pos 0 ≤ℤ i
        → read_int k.sdk (get (build_total_delegated_amount_key a) w.store) ≡ some d
        → pos 0 ≤ℤ d
        → virtual_staking_max_cap_limit k (k.sdk.acc_string a) w
          ≡ (ok (record { cap = coin i; delegated = coin d }), w)
    unfolding virtual_staking_max_cap_limit build_max_cap_limit_key
    query_one a bz i d stored u nonneg t nonneg' =
        let found : get (build_max_cap_limit_key a) w.store ≡ some bz =
          sym (get-entries max_cap_limit_key_prefix a w.store) ∙ stored in
        rw
          (
            bech32 a,
            get_max_cap_limit_ok k laws a i w (rw found u) nonneg,
            get_total_delegated_ok k laws a d w t nonneg',
          )
          refl

    loop_lists :
        (infos : List MaxCapInfo) (s : KvStore)
        → All IsListed s
        → All (λ (e : Bytes × Bytes). get e.0 (caps w.store) ≡ some e.1) s
        → (more : List MaxCapInfo) × (iterate_caps k (append_info k) infos s w
            ≡ (ok (infos ++ more), w))
          × Matches s more
    unfolding iterate_caps
    loop_lists infos [] h found =
        ([], ap (λ (l : List MaxCapInfo). (ok l, w)) (sym (append-nil infos)), tt)
    loop_lists infos ((a, bz) ∷ s) (((i, u, nonneg), (d, t, nonneg')), h) found =
        let info : MaxCapInfo = record {
          contract = k.sdk.acc_string a;
          delegated = coin d;
          cap = coin i;
        } in
        let (more, rest, same) = loop_lists (infos ++ info ∷ []) s h found.1 in
        (
          info ∷ more,
          rw
              (
                u,
                get_total_delegated_ok k laws a d w t nonneg',
                laws.new_coin_ok (k.staking.bond_denom w.env) i (laws.bond_denom_valid w.env)
                    nonneg,
              )
              (rest
                ∙ ap (λ (l : List MaxCapInfo). (ok l, w)) (append_assoc infos (info ∷ []) more)),
          (refl, query_one a bz i d found.0 u nonneg t nonneg', same),
        )

    -- With the laws of the SDK and addresses that their texts decode to, on a sorted store whose
    -- limits, and whose totals of the contracts with a limit, decode to at least zero:
    -- `VirtualStakingMaxCapLimits` succeeds, changes nothing, and returns one info for each stored
    -- limit in key order, with the contract's text and the cap and the delegated amount that
    -- `VirtualStakingMaxCapLimit` returns for this text.
    pub virtual_staking_max_cap_limits_lem :
        IsSorted w.store
        → All IsListed (caps w.store)
        → (infos : List MaxCapInfo) × (virtual_staking_max_cap_limits k w ≡ (ok infos, w))
          × Matches (caps w.store) infos
    unfolding virtual_staking_max_cap_limits iterate_max_cap_limit
    virtual_staking_max_cap_limits_lem sorted h =
        loop_lists [] (caps w.store) h
          (All-get (caps w.store) (entries-IsSorted max_cap_limit_key_prefix w.store sorted))
