-- ===== src/Keeper/Ledger/Calls.antt =====
-- What each call of x/meshsecurity does to the ledger of limits and delegated totals.
use mathlib.Core.Path.{fun_ext}
use research_cosmos.Prelude.{
  none, Option, ◌≡◌, refl, ap, sym, ◌∙◌, ◌⊎◌, inl, inr, some, arith, Bool-cases, if◌then◌else◌, not,
  if_cases,
}
use research_cosmos.Prelude.Int.{ℤ, pos, ◌≤ℤ◌, ◌+ℤ◌, ltb_ℤ, int_laws}
use research_cosmos.Bytes.{Bytes, equal}
use research_cosmos.Bytes.Order.{equal_refl}
use research_cosmos.Types.{Outcome, ok, err, panic, Params, Coin, CoinArg, invalid, invalid_coins}
use research_cosmos.Messages.{MsgSetVirtualStakingMaxCap}
use research_cosmos.Ctx.{World}
use research_cosmos.Ctx.Keeps.{Keeps}
use research_cosmos.Keeper.{Keeper, KeeperLaws}
use research_cosmos.Keeper.Params.Stored.{get_params_ok}
use research_cosmos.Keeper.Caps.{set_max_cap_limit}
use research_cosmos.Keeper.Caps.Total.{
  IsWithinTotal, caps, cap_sum_others, store_cap, set_max_cap_limit_cases,
}
use research_cosmos.Keeper.MsgServer.{set_virtual_staking_max_cap}
use research_cosmos.Keeper.Stake.{delegate, undelegate}
use research_cosmos.Keeper.Adapter.{SlashingTarget}
use research_cosmos.Keeper.Safe.{total-IsWriteClosed}
use research_cosmos.Keeper.Writes.{IsTaskClosed}
use research_cosmos.Keeper.Writes.Handlers.{Keeps-set_virtual_staking_max_cap, Keeps-dispatch_msg}
use research_cosmos.Keeper.Writes.Valset.{
  Keeps-run_hook, Keeps-tombstone, Keeps-jail, Keeps-unjail, Keeps-slash,
}
use research_cosmos.Keeper.Steps.{
  Step, message, dispatch, hook, tombstoned, slashed, jailed, unjailed, elsewhere, Reach, here,
  next, Reach-keeps,
}
use research_cosmos.Keeper.Ledger.{Ledger, put, IsLedgerOf}
use research_cosmos.Keeper.Ledger.Writes.{
  set_task-IsLedgerOf, delete_task-IsLedgerOf, set_limit-IsLedgerOf, set_total-IsLedgerOf,
}
use research_cosmos.Keeper.Ledger.Delegate.{delegate_world}
use research_cosmos.Keeper.Ledger.Undelegate.{undelegate_ledger}

put_twice : (c : Bytes) (x y : ℤ) (f : Bytes → ℤ) → put c x (put c y f) ≡ put c x f
put_twice c x y f =
    fun_ext (λ d. elim (Bool-cases (equal c d)) [ inl q ↦ rw q refl | inr q ↦ rw q refl ])

-- At most a contract's total has changed: to one within its limit, or to no more than it was.
abbrev pub Staked : Bytes → Ledger → Ledger → Type 0
Staked c l m =
    (m ≡ l)
    ⊎ ((x : ℤ) × (m ≡ record l { total = put c x l.total })
        × (pos 0 ≤ℤ x)
        × ((x ≤ℤ l.limit c) ⊎ (x ≤ℤ l.total c)))

-- At most a contract's limit has changed: to a given amount.
abbrev pub Limited : Bytes → ℤ → Ledger → Ledger → Type 0
Limited c a l m = (m ≡ l) ⊎ (m ≡ record l { limit = put c a l.limit })

-- One more change of a contract's total.
Staked-total :
    (c : Bytes) (l m : Ledger) (x : ℤ)
    → Staked c l m
    → pos 0 ≤ℤ x
    → (x ≤ℤ m.limit c) ⊎ (x ≤ℤ m.total c)
    → Staked c l (record m { total = put c x m.total })
Staked-total c l m x (inl same) nonneg b =
    inr (x, ap (λ (n : Ledger). record n { total = put c x n.total }) same, nonneg, rw same at b)
Staked-total c l m x (inr (y, same, ny, by)) nonneg b = inr (
  x,
  ap (λ (n : Ledger). record n { total = put c x n.total }) same
      ∙ ap (λ (f : Bytes → ℤ). record l { total = f }) (put_twice c x y l.total),
  nonneg,
  elim b [
    | inl within ↦ inl (rw same at within)
    | inr below ↦
        let less : x ≤ℤ y = rw (same, equal_refl c) at below in
        elim by [
          | inl limit ↦ inl (omega (arith, less, limit))
          | inr total ↦ inr (omega (arith, less, total))
        ]
  ],
)

module _ {E : Type 0} (k : Keeper E) (laws : KeeperLaws k) (p : Params) (l : Ledger) where
  -- The store shows a ledger that a relation leads to.
  abbrev pub Shows : (Ledger → Type 0) → World E → Type 0
  Shows R w = (m : Ledger) × IsLedgerOf k.sdk w.store m × R m

  Shows-IsTaskClosed : (R : Ledger → Type 0) → IsTaskClosed (Shows R)
  Shows-IsTaskClosed R = record {
    env = λ w v h. h;
    events = λ w es h. h;
    mem = λ w m h. h;
    set_task = λ w tp ht c b (m, h, r). (m, set_task-IsLedgerOf k.sdk w.store h _ _, r);
    delete_task = λ w tp ht c (m, h, r). (m, delete_task-IsLedgerOf k.sdk w.store h _, r);
  }

  delegate-Staked :
      (c val_addr : Bytes) (arg : CoinArg) → Keeps (Shows (Staked c l)) (delegate k c val_addr arg)
  delegate-Staked c val_addr arg w (m, h, r) =
      elim (delegate_world k laws c val_addr (m.total c) (m.limit c) w (h.totals c) (h.limits c)
        (h.total_nonneg c) (h.limit_nonneg c) arg) [
          | inl e ↦ rw e (m, h, r)
          | inr (x, bz, v, above, within, u, e) ↦
              let nonneg : pos 0 ≤ℤ x = omega (int_laws, h.total_nonneg c) in
              rw e (
                record m { total = put c x m.total },
                set_total-IsLedgerOf k.sdk w.store h c x u nonneg,
                Staked-total c l m x r nonneg (inl within),
              )
        ]

  undelegate-Staked :
      (c val_addr : Bytes) (arg : CoinArg)
      → Keeps (Shows (Staked c l)) (undelegate k c val_addr arg)
  undelegate-Staked c val_addr arg w (m, h, r) =
      elim (undelegate_ledger k laws c val_addr w h arg) [
        | inl e ↦ rw e (m, h, r)
        | inr (x, nonneg, below, h') ↦
            (record m { total = put c x m.total }, h', Staked-total c l m x r nonneg (inr below))
      ]

  set_cap-Limited :
      (c : Bytes) (coin : Coin)
      → k.sdk.validate_coin coin ≡ none
      → Keeps
          (λ w. IsWithinTotal k.sdk p w.store × Shows (Limited c coin.amount l) w)
          (set_max_cap_limit k c coin)
  set_cap-Limited c coin valid w (i, (m, h, r)) =
      let (bz, e, u) = laws.int_round_trip coin.amount in
      let nonneg = laws.validate_coin_nonneg coin valid in
      let Shown = Shows (Limited c coin.amount l) in
      let after = λ (q : Outcome (Unit {0}) × World E). Shown q.1 in
      let same : Shown w = (m, h, r) in
      let written : Limited c coin.amount l (record m { limit = put c coin.amount m.limit }) =
        elim r [
          | inl q ↦ inr (ap (λ (n : Ledger). record n { limit = put c coin.amount n.limit }) q)
          | inr q ↦ inr (
              ap (λ (n : Ledger). record n { limit = put c coin.amount n.limit }) q
              ∙ ap (λ (f : Bytes → ℤ). record l { limit = f })
                  (put_twice c coin.amount coin.amount l.limit))
        ] in
      let set : Shown (store_cap c coin bz w) = (
        record m { limit = put c coin.amount m.limit },
        set_limit-IsLedgerOf k.sdk w.store h c coin.amount u nonneg,
        written,
      ) in
      let denied = not (equal (k.staking.bond_denom w.env) coin.denom) in
      let exceeds =
        ltb_ℤ p.total_contracts_max_cap.amount
          (cap_sum_others k.sdk c (caps w.store) +ℤ coin.amount) in
      (
        (total-IsWriteClosed k laws.sdk_laws p).set_cap c coin valid w i,
        elim (set_max_cap_limit_cases k laws.sdk_laws c coin w i.readable
            (get_params_ok k p w i.params) e) [
              | inl q ↦
                  rw q (
                    if_cases after denied (err invalid_coins, w) (panic, w) (λ _. same) (λ _. same))
              | inr q ↦ rw q (
                  if_cases after denied (err invalid_coins, w)
                    (if exceeds then (err invalid, w) else (ok tt, store_cap c coin bz w))
                    (λ _. same)
                    (λ _.
                      if_cases after exceeds (err invalid, w) (ok tt, store_cap c coin bz w)
                        (λ _. same) (λ _. set)))
            ],
      )

module _ {E : Type 0} (k : Keeper E) (s : SlashingTarget E) where
  -- What a call may do to the ledger: a max cap message may set the limit of its contract to its
  -- amount, a message of a contract may change that contract's total, and no other call changes it.
  abbrev pub Effect : {w v : World E} → Step k s w v → Ledger → Ledger → Type 0
  Effect (message req) l m =
      (m ≡ l)
      ⊎ ((c : Bytes) × (k.sdk.acc_address_from_bech32 req.contract ≡ some c)
          × (m ≡ record l { limit = put c req.max_cap.amount l.limit }))
  Effect (dispatch c msg) l m = Staked c l m
  Effect (hook h) l m = m ≡ l
  Effect (tombstoned a) l m = m ≡ l
  Effect (slashed a power height ratio) l m = m ≡ l
  Effect (jailed a) l m = m ≡ l
  Effect (unjailed a) l m = m ≡ l
  Effect (elsewhere v es) l m = m ≡ l

  -- The effects of a sequence of calls, one after the other.
  abbrev pub Effects : {w v : World E} → Reach k s w v → Ledger → Ledger → Type 0
  Effects here l m = m ≡ l
  Effects (next r st) l n = (m : Ledger) × Effects r l m × Effect st m n

  module _ (laws : KeeperLaws k) (p : Params) where
    message-Effect :
        (req : MsgSetVirtualStakingMaxCap) (w : World E) {l : Ledger}
        → IsWithinTotal k.sdk p w.store
        → IsLedgerOf k.sdk w.store l
        → (m : Ledger) × IsLedgerOf k.sdk (set_virtual_staking_max_cap k req w).1.store m
          × Effect {w = w} (message req) l m
    message-Effect req w {l} i h = by_address (k.sdk.acc_address_from_bech32 req.contract) refl
      where
        by_address :
            (o : Option Bytes)
            → k.sdk.acc_address_from_bech32 req.contract ≡ o
            → (m : Ledger) × IsLedgerOf k.sdk (set_virtual_staking_max_cap k req w).1.store m
              × Effect {w = w} (message req) l m
        by_address none e =
            let same = λ (m : Ledger). m ≡ l in
            let (m, shown, q) =
              Keeps-set_virtual_staking_max_cap k (Shows k laws p l same)
                (Shows-IsTaskClosed k laws p l same) req
                (λ acc known valid. absurd (ground (arith, sym e ∙ known))) w (l, h, refl) in
            (m, shown, inl q)
        by_address (some c) e =
            let R = Limited c req.max_cap.amount l in
            let total = (total-IsWriteClosed k laws.sdk_laws p).tasks in
            let tasks = Shows-IsTaskClosed k laws p l R in
            let P = λ (u : World E). IsWithinTotal k.sdk p u.store × Shows k laws p l R u in
            let both : IsTaskClosed P = record {
              env = λ u v x. x;
              events = λ u es x. x;
              mem = λ u m x. x;
              set_task =
                  λ u tp ht a b x. (total.set_task u tp ht a b x.0, tasks.set_task u tp ht a b x.1);
              delete_task =
                  λ u tp ht a x. (total.delete_task u tp ht a x.0, tasks.delete_task u tp ht a x.1);
            } in
            let set_cap : (acc : Bytes)
                → k.sdk.acc_address_from_bech32 req.contract ≡ some acc
                → k.sdk.validate_coin req.max_cap ≡ none
                → Keeps P (set_max_cap_limit k acc req.max_cap) =
              λ acc known valid.
                let it : c ≡ acc = ground (arith, sym e ∙ known) in
                rw (← it) (set_cap-Limited k laws p l c req.max_cap valid) in
            let (within, (m, shown, q)) =
              Keeps-set_virtual_staking_max_cap k P both req set_cap w (i, (l, h, inl refl)) in
            (m, shown, elim q [ inl same ↦ inl same | inr set ↦ inr (c, e, set) ])

    Step-Effect :
        {w v : World E} {l : Ledger} (st : Step k s w v)
        → IsWithinTotal k.sdk p w.store
        → IsLedgerOf k.sdk w.store l
        → (m : Ledger) × IsLedgerOf k.sdk v.store m × Effect st l m
    Step-Effect {w} {v} {l} (message req) i h = message-Effect req w i h
    Step-Effect {w} {v} {l} (dispatch c msg) i h =
        Keeps-dispatch_msg k (Shows k laws p l (Staked c l))
          (Shows-IsTaskClosed k laws p l (Staked c l)) c (delegate-Staked k laws p l c)
          (undelegate-Staked k laws p l c) msg w (l, h, inl refl)
    Step-Effect {w} {v} {l} (hook x) i h =
        Keeps-run_hook k (Shows k laws p l (λ m. m ≡ l))
          (Shows-IsTaskClosed k laws p l (λ m. m ≡ l)) x w (l, h, refl)
    Step-Effect {w} {v} {l} (tombstoned a) i h =
        Keeps-tombstone k (Shows k laws p l (λ m. m ≡ l))
          (Shows-IsTaskClosed k laws p l (λ m. m ≡ l)) s a w (l, h, refl)
    Step-Effect {w} {v} {l} (slashed a power height ratio) i h =
        Keeps-slash k (Shows k laws p l (λ m. m ≡ l)) (Shows-IsTaskClosed k laws p l (λ m. m ≡ l)) s
          a power height ratio w (l, h, refl)
    Step-Effect {w} {v} {l} (jailed a) i h =
        Keeps-jail k (Shows k laws p l (λ m. m ≡ l)) (Shows-IsTaskClosed k laws p l (λ m. m ≡ l)) s
          a w (l, h, refl)
    Step-Effect {w} {v} {l} (unjailed a) i h =
        Keeps-unjail k (Shows k laws p l (λ m. m ≡ l)) (Shows-IsTaskClosed k laws p l (λ m. m ≡ l))
          s a w (l, h, refl)
    Step-Effect {w} {v} {l} (elsewhere x es) i h = (l, h, refl)

    -- With the laws of the SDK, from a store that shows a ledger of limits and delegated totals,
    -- with caps within the total of the params: every sequence of calls leads to a store that
    -- shows the ledger that the effects of these calls, one after the other, have made. A max cap
    -- message changes at most the limit of its own contract, to its own amount; a message of a
    -- contract changes at most that contract's total, to one within its limit or not above the
    -- total before; a hook, a slash and a jailing change nothing. That holds however a call ends.
    pub Reach-Effects :
        {w v : World E} {l : Ledger} (r : Reach k s w v)
        → IsWithinTotal k.sdk p w.store
        → IsLedgerOf k.sdk w.store l
        → (m : Ledger) × IsLedgerOf k.sdk v.store m × Effects r l m
    Reach-Effects {w} {v} {l} here i h = (l, h, refl)
    Reach-Effects (next r st) i h =
        let (m, shown, effects) = Reach-Effects r i h in
        let within =
          Reach-keeps k s (λ u. IsWithinTotal k.sdk p u.store)
            (total-IsWriteClosed k laws.sdk_laws p) r i in
        let (n, last, effect) = Step-Effect st within shown in (n, last, (m, effects, effect))
