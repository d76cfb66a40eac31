-- ===== src/Keeper/Ledger/Writes.antt =====
-- Writes of the store against the ledger that it shows.
use research_cosmos.Prelude.{ℕ, ◌≡◌, refl, [], ◌∷◌, some, false, Bool-cases, inl, inr}
use research_cosmos.Prelude.Int.{ℤ, pos, ◌≤ℤ◌}
use research_cosmos.Bytes.{Bytes, equal}
use research_cosmos.Bytes.Order.{equal-append}
use research_cosmos.KvStore.{KvStore, get, set, delete}
use research_cosmos.KvStore.Laws.{get-set, get-delete}
use research_cosmos.Sdk.{Sdk}
use research_cosmos.Keys.{build_max_cap_limit_key, build_total_delegated_amount_key}
use research_cosmos.Keeper.Caps.Limit.{read_int}
use research_cosmos.Keeper.Ledger.{Ledger, put, IsLedgerOf}

pub put_nonneg :
    (c : Bytes) (x : ℤ) (f : Bytes → ℤ)
    → pos 0 ≤ℤ x
    → ((d : Bytes) → pos 0 ≤ℤ f d)
    → (d : Bytes) → pos 0 ≤ℤ put c x f d
put_nonneg c x f hx hf d = elim (Bool-cases (equal c d)) [ inl q ↦ rw q hx | inr q ↦ rw q (hf d) ]

module _ (sdk : Sdk) (s : KvStore) where
  -- The amounts under one prefix, after one of them was written.
  read-put :
      (b : ℕ) (c : Bytes) (x : ℤ) (f : Bytes → ℤ) {bz : Bytes}
      → sdk.unmarshal_int bz ≡ some x
      → ((d : Bytes) → read_int sdk (get (b ∷ d) s) ≡ some (f d))
      → (d : Bytes) → read_int sdk (get (b ∷ d) (set (b ∷ c) bz s)) ≡ some (put c x f d)
  read-put b c x f {bz} u h d = elim (Bool-cases (equal c d)) [
    | inl q ↦ rw (get-set (b ∷ c) (b ∷ d) bz s, equal-append (b ∷ []) c d, q) u
    | inr q ↦ rw (get-set (b ∷ c) (b ∷ d) bz s, equal-append (b ∷ []) c d, q) (h d)
  ]

  read_other :
      (j i bz : Bytes) {x : ℤ}
      → equal j i ≡ false
      → read_int sdk (get i s) ≡ some x
      → read_int sdk (get i (set j bz s)) ≡ some x
  read_other j i bz ne h = rw (get-set j i bz s, ne) h

  read_deleted :
      (j i : Bytes) {x : ℤ}
      → equal j i ≡ false
      → read_int sdk (get i s) ≡ some x
      → read_int sdk (get i (delete j s)) ≡ some x
  read_deleted j i ne h = rw (get-delete j i s, ne) h

module _ (sdk : Sdk) (s : KvStore) {l : Ledger} (h : IsLedgerOf sdk s l) where
  -- A write under the prefix of the tasks does not show.
  pub set_task-IsLedgerOf : (key v : Bytes) → IsLedgerOf sdk (set (0x4 ∷ key) v s) l
  unfolding equal build_max_cap_limit_key build_total_delegated_amount_key
  set_task-IsLedgerOf key v = record {
    limits = λ c. read_other sdk s (0x4 ∷ key) (build_max_cap_limit_key c) v refl (h.limits c);
    totals =
        λ c. read_other sdk s (0x4 ∷ key) (build_total_delegated_amount_key c) v refl (h.totals c);
    limit_nonneg = h.limit_nonneg;
    total_nonneg = h.total_nonneg;
  }

  pub delete_task-IsLedgerOf : (key : Bytes) → IsLedgerOf sdk (delete (0x4 ∷ key) s) l
  unfolding equal build_max_cap_limit_key build_total_delegated_amount_key
  delete_task-IsLedgerOf key = record {
    limits = λ c. read_deleted sdk s (0x4 ∷ key) (build_max_cap_limit_key c) refl (h.limits c);
    totals =
        λ c. read_deleted sdk s (0x4 ∷ key) (build_total_delegated_amount_key c) refl (h.totals c);
    limit_nonneg = h.limit_nonneg;
    total_nonneg = h.total_nonneg;
  }

  module _ (c : Bytes) (x : ℤ) {bz : Bytes} (u : sdk.unmarshal_int bz ≡ some x)
      (nonneg : pos 0 ≤ℤ x) where
    pub set_limit-IsLedgerOf :
        IsLedgerOf sdk (set (build_max_cap_limit_key c) bz s) (record l { limit = put c x l.limit })
    unfolding equal build_max_cap_limit_key build_total_delegated_amount_key
    set_limit-IsLedgerOf = record {
      limits = read-put sdk s 0x2 c x l.limit u h.limits;
      totals = λ d.
          read_other sdk s (build_max_cap_limit_key c) (build_total_delegated_amount_key d) bz refl
            (h.totals d);
      limit_nonneg = put_nonneg c x l.limit nonneg h.limit_nonneg;
      total_nonneg = h.total_nonneg;
    }

    pub set_total-IsLedgerOf :
        IsLedgerOf sdk
          (set (build_total_delegated_amount_key c) bz s)
          (record l { total = put c x l.total })
    unfolding equal build_max_cap_limit_key build_total_delegated_amount_key
    set_total-IsLedgerOf = record {
      limits = λ d.
          read_other sdk s (build_total_delegated_amount_key c) (build_max_cap_limit_key d) bz refl
            (h.limits d);
      totals = read-put sdk s 0x3 c x l.total u h.totals;
      limit_nonneg = h.limit_nonneg;
      total_nonneg = put_nonneg c x l.total nonneg h.total_nonneg;
    }
