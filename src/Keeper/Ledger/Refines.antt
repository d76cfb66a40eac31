-- ===== src/Keeper/Ledger/Refines.antt =====
-- The writes of x/meshsecurity/keeper, on the ledger that the store shows.
use research_cosmos.Prelude.{◌≡◌, refl, inl, inr, Option, none, some, [], ◌∷◌, arith, Bool-cases}
use research_cosmos.Prelude.Int.{ℤ, pos, ◌≤ℤ◌, ◌+ℤ◌, ltb_ℤ, int_laws}
use research_cosmos.Prelude.{not, if◌then◌else◌, if_cases}
use research_cosmos.Bytes.{Bytes, equal}
use research_cosmos.Bytes.Order.{equal_refl, equal_sound, before-ne}
use research_cosmos.KvStore.{KvStore, IsSorted, get}
use research_cosmos.KvStore.Laws.{Above, equal_comm}
use research_cosmos.KvStore.Prefix.{get-entries, entries-IsSorted}
use research_cosmos.Sdk.{Sdk}
use research_cosmos.Keys.{max_cap_limit_key_prefix, build_max_cap_limit_key}
use research_cosmos.Keeper.Caps.Limit.{read_int}
use research_cosmos.Types.{Outcome, ok, err, panic, Coin, CoinArg, Params, invalid, invalid_coins}
use research_cosmos.Ctx.{World}
use research_cosmos.Ctx.Keeps.{Keeps}
use research_cosmos.Keeper.{Keeper, KeeperLaws}
use research_cosmos.Keeper.Params.Stored.{get_params_ok}
use research_cosmos.Keeper.Caps.{set_max_cap_limit}
use research_cosmos.Keeper.Caps.Total.{
  IsWithinTotal, caps, cap_sum_others, store_cap, set_max_cap_limit_cases, amount_of, IsNonneg,
  cap_sum_others-IsNonneg,
}
use research_cosmos.Keeper.Stake.{delegate, undelegate}
use research_cosmos.Keeper.Safe.{total-IsWriteClosed}
use research_cosmos.Keeper.Writes.{IsWriteClosed}
use research_cosmos.Keeper.Ledger.{Ledger, put, IsLedgerOf}
use research_cosmos.Keeper.Ledger.Writes.{
  set_task-IsLedgerOf, delete_task-IsLedgerOf, set_limit-IsLedgerOf, set_total-IsLedgerOf,
}
use research_cosmos.Keeper.Ledger.Delegate.{delegate_world}
use research_cosmos.Keeper.Ledger.Undelegate.{undelegate_ledger}

-- The amount of a contract among entries.
abbrev amount_at : Sdk → Option Bytes → ℤ
amount_at sdk none = pos 0
amount_at sdk (some bz) = amount_of sdk bz

amount_at_read :
    (sdk : Sdk) (o : Option Bytes) (i : ℤ) → read_int sdk o ≡ some i → amount_at sdk o ≡ i
amount_at_read sdk none i e = ground (arith, e)
amount_at_read sdk (some bz) i e = rw e refl

get-Above : (a : Bytes) (s : KvStore) → Above a s → get a s ≡ none
unfolding get
get-Above a [] h = refl
get-Above a ((j, v) ∷ s) h = ground (arith, before-ne a j h.0, equal_comm a j, get-Above a s h.1)

-- Entries in key order are at least zero if every contract's amount is.
entries-IsNonneg :
    (sdk : Sdk) (s : KvStore)
    → IsSorted s
    → ((c : Bytes) → pos 0 ≤ℤ amount_at sdk (get c s))
    → IsNonneg sdk s
unfolding get
entries-IsNonneg sdk [] sorted h = tt
entries-IsNonneg sdk ((a, bz) ∷ s) sorted h = (
  (let first = h a in rw (equal_refl a) at first),
  entries-IsNonneg sdk s sorted.1 (λ c. elim (Bool-cases (equal a c)) [
    | inl q ↦ rw (← equal_sound a c q, get-Above a s sorted.0) (omega arith)
    | inr q ↦ (let here = h c in rw (equal_comm c a, q) at here)
  ]),
)

module _ {E : Type 0} (k : Keeper E) (laws : KeeperLaws k) (p : Params) where
  -- The caps of a store that shows a ledger are not below zero.
  pub caps-IsNonneg :
      (s : KvStore) {l : Ledger} → IsSorted s → IsLedgerOf k.sdk s l → IsNonneg k.sdk (caps s)
  unfolding build_max_cap_limit_key
  caps-IsNonneg s {l} sorted h =
      entries-IsNonneg k.sdk (caps s) (entries-IsSorted max_cap_limit_key_prefix s sorted) (λ c.
        let e = get-entries max_cap_limit_key_prefix c s in
        rw (e, amount_at_read k.sdk (get (build_max_cap_limit_key c) s) (l.limit c) (h.limits c))
          (h.limit_nonneg c))

  -- A ledger with every limit and every delegated total within a bound.
  abbrev pub IsBounded : ℤ → Ledger → Type 0
  IsBounded b l = (c : Bytes) → (l.limit c ≤ℤ b) × (l.total c ≤ℤ b)

  put_limit-IsBounded :
      (c : Bytes) (x b : ℤ) (l : Ledger)
      → x ≤ℤ b
      → IsBounded b l
      → IsBounded b (record l { limit = put c x l.limit })
  put_limit-IsBounded c x b l hx h d = elim (Bool-cases (equal c d)) [
    | inl q ↦ rw q (hx, (h d).1)
    | inr q ↦ rw q (h d)
  ]

  put_total-IsBounded :
      (c : Bytes) (x b : ℤ) (l : Ledger)
      → x ≤ℤ b
      → IsBounded b l
      → IsBounded b (record l { total = put c x l.total })
  put_total-IsBounded c x b l hx h d = elim (Bool-cases (equal c d)) [
    | inl q ↦ rw q ((h d).0, hx)
    | inr q ↦ rw q (h d)
  ]

  -- The store shows a ledger within the total of the params.
  abbrev pub Shown : World E → Type 0
  Shown w = (l : Ledger) × IsLedgerOf k.sdk w.store l × IsBounded p.total_contracts_max_cap.amount l

  -- The same with caps within the total, which the changes of a limit need.
  abbrev pub IsFollowed : World E → Type 0
  IsFollowed w = IsWithinTotal k.sdk p w.store × Shown w

  delegate-Shown :
      (actor val_addr : Bytes) (arg : CoinArg) → Keeps Shown (delegate k actor val_addr arg)
  delegate-Shown actor val_addr arg w (l, h, b) =
      elim (delegate_world k laws actor val_addr (l.total actor) (l.limit actor) w (h.totals actor)
        (h.limits actor) (h.total_nonneg actor) (h.limit_nonneg actor) arg) [
          | inl e ↦ rw e (l, h, b)
          | inr (x, bz, v, above, within, u, e) ↦ rw e (
            record l { total = put actor x l.total },
            set_total-IsLedgerOf k.sdk w.store h actor x u (omega (int_laws, h.total_nonneg actor)),
            put_total-IsBounded actor x p.total_contracts_max_cap.amount l
                (omega (int_laws, (b actor).0)) b,
          )
        ]

  undelegate-Shown :
      (actor val_addr : Bytes) (arg : CoinArg) → Keeps Shown (undelegate k actor val_addr arg)
  undelegate-Shown actor val_addr arg w (l, h, b) =
      elim (undelegate_ledger k laws actor val_addr w h arg) [
        | inl e ↦ rw e (l, h, b)
        | inr (x, nonneg, below, h') ↦ (
          record l { total = put actor x l.total },
          h',
          put_total-IsBounded actor x p.total_contracts_max_cap.amount l
              (omega (int_laws, (b actor).1)) b,
        )
      ]

  set_cap-Shown :
      (c : Bytes) (coin : Coin) (w : World E)
      → k.sdk.validate_coin coin ≡ none
      → IsFollowed w
      → Shown (set_max_cap_limit k c coin w).1
  set_cap-Shown c coin w valid (i, (l, h, b)) =
      let (bz, m, u) = laws.int_round_trip coin.amount in
      let nonneg = laws.validate_coin_nonneg coin valid in
      let after = λ (r : Outcome (Unit {0}) × World E). Shown r.1 in
      let others = cap_sum_others k.sdk c (caps w.store) in
      let exceeds = ltb_ℤ p.total_contracts_max_cap.amount (others +ℤ coin.amount) in
      let rest =
        cap_sum_others-IsNonneg k.sdk c (caps w.store) (caps-IsNonneg w.store i.sorted h) in
      let same : Shown w = (l, h, b) in
      let set : coin.amount ≤ℤ p.total_contracts_max_cap.amount → Shown (store_cap c coin bz w) =
        λ fits. (
          record l { limit = put c coin.amount l.limit },
          set_limit-IsLedgerOf k.sdk w.store h c coin.amount u nonneg,
          put_limit-IsBounded c coin.amount p.total_contracts_max_cap.amount l fits b,
        ) in
      let denied = not (equal (k.staking.bond_denom w.env) coin.denom) in
      elim (set_max_cap_limit_cases k laws.sdk_laws c coin w i.readable
        (get_params_ok k p w i.params) m) [
          | inl e ↦
              rw e (if_cases after denied (err invalid_coins, w) (panic, w) (λ _. same) (λ _. same))
          | inr e ↦ rw e (
              if_cases after denied (err invalid_coins, w)
                (if exceeds then (err invalid, w) else (ok tt, store_cap c coin bz w)) (λ _. same)
                (λ _.
                  if_cases after exceeds (err invalid, w) (ok tt, store_cap c coin bz w) (λ _. same)
                    (λ fits.
                      let sum : others +ℤ coin.amount ≤ℤ p.total_contracts_max_cap.amount =
                        ground arith in
                      set (omega (int_laws, sum, rest)))))
        ]

  pub IsFollowed-IsWriteClosed : IsWriteClosed k IsFollowed
  IsFollowed-IsWriteClosed =
      let total = total-IsWriteClosed k laws.sdk_laws p in
      record {
        tasks = record {
          env = λ w v h. h;
          events = λ w es h. h;
          mem = λ w m h. h;
          set_task = λ w tp ht c b (i, (l, h, q)).
              (total.tasks.set_task w tp ht c b i, (l, set_task-IsLedgerOf k.sdk w.store h _ _, q));
          delete_task = λ w tp ht c (i, (l, h, q)). (
            total.tasks.delete_task w tp ht c i,
            (l, delete_task-IsLedgerOf k.sdk w.store h _, q),
          );
        };
        stake = λ c v arg w h. (total.stake c v arg w h.0, delegate-Shown c v arg w h.1);
        unstake = λ c v arg w h. (total.unstake c v arg w h.0, undelegate-Shown c v arg w h.1);
        set_cap =
            λ c coin valid w h. (total.set_cap c coin valid w h.0, set_cap-Shown c coin w valid h);
      }
