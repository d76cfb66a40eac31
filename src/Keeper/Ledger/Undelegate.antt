-- ===== src/Keeper/Ledger/Undelegate.antt =====
-- What `Undelegate` of x/meshsecurity/keeper/stake.go does to the ledger, however it ends.
use research_cosmos.Prelude.{
  true, false, ◌≡◌, ◌≢◌, refl, ◌∙◌, ap, sym, ◌⊎◌, inl, inr, Bool-cases, Option, none, some, arith,
  [], ◌∷◌,
}
use research_cosmos.Prelude.Int.{ℤ, pos, ◌-ℤ◌, ◌≤ℤ◌, int_laws}
use research_cosmos.Bytes.{Bytes, equal}
use research_cosmos.Bytes.Order.{equal_refl, equal-append, equal_sound}
use research_cosmos.KvStore.{KvStore, get}
use research_cosmos.Types.{Outcome, ok, err, panic, CoinArg}
use research_cosmos.Sdk.{Sdk}
use research_cosmos.Ctx.{World}
use research_cosmos.Keys.{build_max_cap_limit_key, build_total_delegated_amount_key}
use research_cosmos.Keeper.{Keeper, KeeperLaws}
use research_cosmos.Keeper.Caps.Limit.{read_int}
use research_cosmos.Keeper.Stake.{positive_amount, undelegate}
use research_cosmos.Keeper.Stake.Release.{undelegate_bounded, undelegate_atomic}
use research_cosmos.Keeper.Ledger.{Ledger, put, IsLedgerOf}
use research_cosmos.Keeper.Ledger.Writes.{put_nonneg}

total_key_other :
    (c d : Bytes)
    → equal c d ≡ false
    → build_total_delegated_amount_key d ≢ build_total_delegated_amount_key c
unfolding build_total_delegated_amount_key
total_key_other c d ne e =
    let same : equal (0x3 ∷ c) (0x3 ∷ d) ≡ true = rw (e) (equal_refl (0x3 ∷ c)) in
    ground (arith, same, equal-append (0x3 ∷ []) c d, ne)

limit_key_other : (c d : Bytes) → build_max_cap_limit_key d ≢ build_total_delegated_amount_key c
unfolding build_max_cap_limit_key build_total_delegated_amount_key
limit_key_other c d e = cc

-- A store that differs from another one at most in a contract's total.
module _ (sdk : Sdk) (s s' : KvStore) (c : Bytes) (x : ℤ) {l : Ledger} (h : IsLedgerOf sdk s l)
    (written : read_int sdk (get (build_total_delegated_amount_key c) s') ≡ some x)
    (nonneg : pos 0 ≤ℤ x)
    (others : (j : Bytes) → j ≢ build_total_delegated_amount_key c → get j s' ≡ get j s) where
  put_total-IsLedgerOf : IsLedgerOf sdk s' (record l { total = put c x l.total })
  put_total-IsLedgerOf = record {
    limits = λ d. rw (others (build_max_cap_limit_key d) (limit_key_other c d)) (h.limits d);
    totals = λ d. elim (Bool-cases (equal c d)) [
      | inl q ↦ rw (q, ← equal_sound c d q) written
      | inr q ↦
          rw (q, others (build_total_delegated_amount_key d) (total_key_other c d q)) (h.totals d)
    ];
    limit_nonneg = h.limit_nonneg;
    total_nonneg = put_nonneg c x l.total nonneg h.total_nonneg;
  }

module _ {E : Type 0} (k : Keeper E) where
  refused :
      (actor val_addr denom : Bytes) (w : World E)
      → (undelegate k actor val_addr (record { denom = denom; amount = none }) w).0 ≢ ok tt
  unfolding undelegate positive_amount
  refused actor val_addr denom w e = ground (arith, e)

  module _ (laws : KeeperLaws k) (actor val_addr : Bytes) (w : World E) {l : Ledger}
      (h : IsLedgerOf k.sdk w.store l) where
    abbrev Lowered : World E → Type 0
    Lowered w' =
        (x : ℤ) × (pos 0 ≤ℤ x)
        × (x ≤ℤ l.total actor)
        × IsLedgerOf k.sdk w'.store (record l { total = put actor x l.total })

    undelegate_results :
        (denom : Bytes) (o : Option ℤ) (r : Outcome (Unit {0})) (w' : World E)
        → undelegate k actor val_addr (record { denom = denom; amount = o }) w ≡ (r, w')
        → (w'.store ≡ w.store) ⊎ Lowered w'
    undelegate_results denom none (ok tt) w' e =
        absurd (refused actor val_addr denom w (ap (λ q. q.0) e))
    undelegate_results denom (some a) (ok tt) w' e =
        let (above, below, left) =
          undelegate_bounded k laws actor val_addr denom a (l.total actor) w w' (h.totals actor)
            (h.total_nonneg actor) e in
        elim left [
          | inl (missing, same) ↦ inl (ap (λ (v : World E). v.store) same)
          | inr (shares, known, (coins, given, nonneg, lower, written, others, mem)) ↦
              let x = l.total actor -ℤ k.sdk.amount_of (k.staking.bond_denom w.env) coins in
              let left : pos 0 ≤ℤ x = omega (int_laws, lower) in
              inr (
                x,
                left,
                omega (int_laws, nonneg),
                put_total-IsLedgerOf k.sdk w.store w'.store actor x h written left others,
              )
        ]
    undelegate_results denom o (err x) w' e = inl (
        ap (λ q. q.1.store) (sym e)
        ∙ ap (λ (v : World E). v.store)
            (undelegate_atomic k actor val_addr (record { denom = denom; amount = o }) w
              (rw e (λ f. cc))))
    undelegate_results denom o panic w' e = inl (
        ap (λ q. q.1.store) (sym e)
        ∙ ap (λ (v : World E). v.store)
            (undelegate_atomic k actor val_addr (record { denom = denom; amount = o }) w
              (rw e (λ f. cc))))

    -- An undelegation leaves the store, or lowers the contract's total in the store.
    pub undelegate_ledger :
        (arg : CoinArg)
        → ((undelegate k actor val_addr arg w).1.store ≡ w.store)
          ⊎ Lowered (undelegate k actor val_addr arg w).1
    undelegate_ledger arg =
        let ran = undelegate k actor val_addr arg w in
        undelegate_results arg.denom arg.amount ran.0 ran.1 refl
