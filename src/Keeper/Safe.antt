-- ===== src/Keeper/Safe.antt =====
-- What the writes of x/meshsecurity/keeper keep: the block height, the params, and the shape of the
-- store.
use research_cosmos.Prelude.{ℕ, ◌≡◌, refl, ◌∷◌}
use research_cosmos.Bytes.{Bytes, equal, strip_prefix}
use research_cosmos.KvStore.{KvStore, set, delete}
use research_cosmos.KvStore.Laws.{set-IsSorted, delete-IsSorted}
use research_cosmos.KvStore.Prefix.{entries-set_other, entries-delete_other}
use research_cosmos.Types.{Params}
use research_cosmos.Sdk.{Sdk, Laws}
use research_cosmos.Keys.{
  max_cap_limit_key_prefix, build_max_cap_limit_key, build_total_delegated_amount_key,
}
use research_cosmos.Keys.Scheduler.{task_key}
use research_cosmos.Keeper.{Keeper}
use research_cosmos.Keeper.Writes.{IsWriteClosed}
use research_cosmos.Keeper.Writes.Caps.{Keeps-set_max_cap_limit}
use research_cosmos.Keeper.Writes.Stake.{Keeps-delegate, Keeps-undelegate}
use research_cosmos.Keeper.Params.Stored.{HasParams, HasParams-set, HasParams-delete}
use research_cosmos.Keeper.Caps.Total.{IsWithinTotal, set_max_cap_limit-IsWithinTotal}
use research_cosmos.Keeper.Scheduler.Tasks.{
  IsTaskStore, set_task-IsTaskStore, delete_task-IsTaskStore, set_other-IsTaskStore,
}

-- Tasks and totals are stored apart from the params and the caps.
module _ (sdk : Sdk) (p : Params) (key : Bytes) (s : KvStore) (h : IsWithinTotal sdk p s) where
  set_task-IsWithinTotal : (v : Bytes) → IsWithinTotal sdk p (set (0x4 ∷ key) v s)
  set_task-IsWithinTotal v =
      let same =
        entries-set_other max_cap_limit_key_prefix (0x4 ∷ key) v s (unfold strip_prefix in refl) in
      record {
        sorted = set-IsSorted (0x4 ∷ key) v s h.sorted;
        readable = rw same h.readable;
        params = HasParams-set sdk p (0x4 ∷ key) v s (unfold equal in refl) h.params;
        within = rw same h.within;
      }

  delete_task-IsWithinTotal : IsWithinTotal sdk p (delete (0x4 ∷ key) s)
  delete_task-IsWithinTotal =
      let same =
        entries-delete_other max_cap_limit_key_prefix (0x4 ∷ key) s (unfold strip_prefix in refl) in
      record {
        sorted = delete-IsSorted (0x4 ∷ key) s h.sorted;
        readable = rw same h.readable;
        params = HasParams-delete sdk p (0x4 ∷ key) s (unfold equal in refl) h.params;
        within = rw same h.within;
      }

  set_total-IsWithinTotal : (v : Bytes) → IsWithinTotal sdk p (set (0x3 ∷ key) v s)
  set_total-IsWithinTotal v =
      let same =
        entries-set_other max_cap_limit_key_prefix (0x3 ∷ key) v s (unfold strip_prefix in refl) in
      record {
        sorted = set-IsSorted (0x3 ∷ key) v s h.sorted;
        readable = rw same h.readable;
        params = HasParams-set sdk p (0x3 ∷ key) v s (unfold equal in refl) h.params;
        within = rw same h.within;
      }

-- The caps are within the total of the params, and every task has a key that can be read.
pub record IsSafe (sdk : Sdk) (p : Params) (s : KvStore) : Type 0 where
  pub caps : IsWithinTotal sdk p s
  pub tasks : IsTaskStore s

module _ {E : Type 0} (k : Keeper E) where
  pub height-IsWriteClosed : (n : ℕ) → IsWriteClosed k (λ w. w.height ≡ n)
  height-IsWriteClosed n = record {
    tasks = record {
      env = λ w v h. h;
      events = λ w es h. h;
      mem = λ w m h. h;
      set_task = λ w tp ht c b h. h;
      delete_task = λ w tp ht c h. h;
    };
    stake = Keeps-delegate k (λ w. w.height ≡ n) (λ w v h. h) (λ w c bz h. h);
    unstake = Keeps-undelegate k (λ w. w.height ≡ n) (λ w v h. h) (λ w c bz h. h);
    set_cap = λ c coin valid.
        Keeps-set_max_cap_limit k (λ w. w.height ≡ n) c coin (λ w es h. h) (λ w bz h. h);
  }

  pub params-IsWriteClosed : (p : Params) → IsWriteClosed k (λ w. HasParams k.sdk p w.store)
  unfolding build_total_delegated_amount_key build_max_cap_limit_key equal
  params-IsWriteClosed p = record {
    tasks = record {
      env = λ w v h. h;
      events = λ w es h. h;
      mem = λ w m h. h;
      set_task = λ w tp ht c b h. HasParams-set k.sdk p (task_key tp ht c) _ w.store refl h;
      delete_task = λ w tp ht c h. HasParams-delete k.sdk p (task_key tp ht c) w.store refl h;
    };
    stake =
        Keeps-delegate k (λ w. HasParams k.sdk p w.store) (λ w v h. h)
          (λ w c bz h.
            HasParams-set k.sdk p (build_total_delegated_amount_key c) bz w.store refl h);
    unstake =
        Keeps-undelegate k (λ w. HasParams k.sdk p w.store) (λ w v h. h)
          (λ w c bz h.
            HasParams-set k.sdk p (build_total_delegated_amount_key c) bz w.store refl h);
    set_cap = λ c coin valid.
        Keeps-set_max_cap_limit k (λ w. HasParams k.sdk p w.store) c coin (λ w es h. h)
          (λ w bz h. HasParams-set k.sdk p (build_max_cap_limit_key c) bz w.store refl h);
  }

  tasks-IsWriteClosed : IsWriteClosed k (λ w. IsTaskStore w.store)
  unfolding build_total_delegated_amount_key build_max_cap_limit_key
  tasks-IsWriteClosed = record {
    tasks = record {
      env = λ w v h. h;
      events = λ w es h. h;
      mem = λ w m h. h;
      set_task = λ w tp ht c b h. set_task-IsTaskStore w.store h tp ht c _;
      delete_task = λ w tp ht c h. delete_task-IsTaskStore w.store h tp ht c;
    };
    stake =
        Keeps-delegate k (λ w. IsTaskStore w.store) (λ w v h. h)
          (λ w c bz h. set_other-IsTaskStore w.store h 0x3 c bz refl);
    unstake =
        Keeps-undelegate k (λ w. IsTaskStore w.store) (λ w v h. h)
          (λ w c bz h. set_other-IsTaskStore w.store h 0x3 c bz refl);
    set_cap = λ c coin valid.
        Keeps-set_max_cap_limit k (λ w. IsTaskStore w.store) c coin (λ w es h. h)
          (λ w bz h. set_other-IsTaskStore w.store h 0x2 c bz refl);
  }

  module _ (laws : Laws k.sdk) (p : Params) where
    pub total-IsWriteClosed : IsWriteClosed k (λ w. IsWithinTotal k.sdk p w.store)
    unfolding build_total_delegated_amount_key
    total-IsWriteClosed = record {
      tasks = record {
        env = λ w v h. h;
        events = λ w es h. h;
        mem = λ w m h. h;
        set_task = λ w tp ht c b h. set_task-IsWithinTotal k.sdk p _ w.store h _;
        delete_task = λ w tp ht c h. delete_task-IsWithinTotal k.sdk p _ w.store h;
      };
      stake =
          Keeps-delegate k (λ w. IsWithinTotal k.sdk p w.store) (λ w v h. h)
            (λ w c bz h. set_total-IsWithinTotal k.sdk p c w.store h bz);
      unstake =
          Keeps-undelegate k (λ w. IsWithinTotal k.sdk p w.store) (λ w v h. h)
            (λ w c bz h. set_total-IsWithinTotal k.sdk p c w.store h bz);
      set_cap = λ c coin valid w h. set_max_cap_limit-IsWithinTotal k laws c coin w p h;
    }

    pub IsSafe-IsWriteClosed : IsWriteClosed k (λ w. IsSafe k.sdk p w.store)
    IsSafe-IsWriteClosed =
        let total = total-IsWriteClosed in
        let tasks = tasks-IsWriteClosed in
        record {
          tasks = record {
            env = λ w v h. h;
            events = λ w es h. h;
            mem = λ w m h. h;
            set_task = λ w tp ht c b h. record {
              caps = total.tasks.set_task w tp ht c b h.caps;
              tasks = tasks.tasks.set_task w tp ht c b h.tasks;
            };
            delete_task = λ w tp ht c h. record {
              caps = total.tasks.delete_task w tp ht c h.caps;
              tasks = tasks.tasks.delete_task w tp ht c h.tasks;
            };
          };
          stake = λ c v arg w h. record {
            caps = total.stake c v arg w h.caps;
            tasks = tasks.stake c v arg w h.tasks;
          };
          unstake = λ c v arg w h. record {
            caps = total.unstake c v arg w h.caps;
            tasks = tasks.unstake c v arg w h.tasks;
          };
          set_cap = λ c coin valid w h. record {
            caps = total.set_cap c coin valid w h.caps;
            tasks = tasks.set_cap c coin valid w h.tasks;
          };
        }
