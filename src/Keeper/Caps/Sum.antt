-- ===== src/Keeper/Caps/Sum.antt =====
-- The sum of the caps, as the loop of `SetMaxCapLimit` of x/meshsecurity/keeper/keeper.go adds them
-- up.
use research_cosmos.Prelude.{
  ◌≡◌, refl, sym, ap, ◌∙◌, ◌⊎◌, true, some, [], ◌∷◌, arith, inl, inr, Bool-cases, if◌then◌else◌,
}
use mathlib.Core.Option.{get_or}
use research_cosmos.Prelude.Int.{ℤ, pos, ◌+ℤ◌, ◌≤ℤ◌, int_laws, +ℤ_comm}
use research_cosmos.Bytes.{Bytes, equal, before}
use research_cosmos.Bytes.Order.{equal_sound, before-ne}
use research_cosmos.KvStore.{KvStore, set, entries, IsSorted}
use research_cosmos.KvStore.Laws.{Above, equal_comm, Above-trans}
use research_cosmos.Types.{ok, panic}
use research_cosmos.Sdk.{Sdk, Laws, fits_int, fits_below}
use research_cosmos.Ctx.{World}
use research_cosmos.Keys.{max_cap_limit_key_prefix}
use research_cosmos.Keeper.{Keeper}
use research_cosmos.Keeper.Caps.{iterate_caps, add_other}

-- The amount that stored bytes stand for.
abbrev pub amount_of : Sdk → Bytes → ℤ
amount_of sdk bz = get_or (sdk.unmarshal_int bz) (pos 0)

-- The sum of the amounts in a list of entries, and the sum without one contract.
abbrev pub cap_sum : Sdk → KvStore → ℤ
cap_sum sdk [] = pos 0
cap_sum sdk ((a, bz) ∷ s) = amount_of sdk bz +ℤ cap_sum sdk s

abbrev pub cap_sum_others : Sdk → Bytes → KvStore → ℤ
cap_sum_others sdk c [] = pos 0
cap_sum_others sdk c ((a, bz) ∷ s) =
    let rest = cap_sum_others sdk c s in if equal a c then rest else amount_of sdk bz +ℤ rest

-- The caps that a store holds, and their sum.
abbrev pub caps : KvStore → KvStore
caps s = entries max_cap_limit_key_prefix s

-- Every stored amount can be decoded.
abbrev pub IsReadable : Sdk → KvStore → Type 0
IsReadable sdk [] = Unit
IsReadable sdk ((a, bz) ∷ s) = ((i : ℤ) × (sdk.unmarshal_int bz ≡ some i)) × IsReadable sdk s

-- No stored amount is below zero.
abbrev pub IsNonneg : Sdk → KvStore → Type 0
IsNonneg sdk [] = Unit
IsNonneg sdk ((a, bz) ∷ s) = (pos 0 ≤ℤ amount_of sdk bz) × IsNonneg sdk s

pub cap_sum_others-IsNonneg :
    (sdk : Sdk) (c : Bytes) (s : KvStore) → IsNonneg sdk s → pos 0 ≤ℤ cap_sum_others sdk c s
cap_sum_others-IsNonneg sdk c [] h = omega arith
cap_sum_others-IsNonneg sdk c ((a, bz) ∷ s) (n, h) =
    let rest = cap_sum_others-IsNonneg sdk c s h in
    elim (Bool-cases (equal a c)) [ inl q ↦ rw q rest | inr q ↦ rw q (omega (int_laws, n, rest)) ]

module _ {E : Type 0} (k : Keeper E) (laws : Laws k.sdk) (c : Bytes) where
  -- The loop reaches the sum, unless a number on the way has more than 256 bits.
  pub iterate_caps-add_other :
      (t : ℤ) (s : KvStore) (w : World E)
      → IsReadable k.sdk s
      → (iterate_caps k (add_other k c) t s w ≡ (ok (t +ℤ cap_sum_others k.sdk c s), w))
        ⊎ (iterate_caps k (add_other k c) t s w ≡ (panic, w))
  unfolding iterate_caps add_other
  iterate_caps-add_other t [] w h = inl (ap (λ (r : ℤ). (ok r, w)) (omega int_laws))
  iterate_caps-add_other t ((a, bz) ∷ s) w ((i, e), h) = elim (Bool-cases (equal a c)) [
    | inl q ↦ rw (e, q) (iterate_caps-add_other t s w h)
    | inr q ↦ elim (Bool-cases (fits_int (t +ℤ i))) [
      | inr large ↦ inr (rw (e, q, laws.add_int_lem t i, large) refl)
      | inl fits ↦
          rw (e, q, laws.add_int_lem t i, fits)
            (elim (iterate_caps-add_other (t +ℤ i) s w h) [
              | inl done ↦ inl (done ∙ ap (λ (r : ℤ). (ok r, w)) (omega int_laws))
              | inr stops ↦ inr stops
            ])
    ]
  ]

  -- The numbers on the way are below the sum.
  pub iterate_caps-fits :
      (t : ℤ) (s : KvStore) (w : World E)
      → IsReadable k.sdk s
      → IsNonneg k.sdk s
      → pos 0 ≤ℤ t
      → fits_int (t +ℤ cap_sum_others k.sdk c s) ≡ true
      → iterate_caps k (add_other k c) t s w ≡ (ok (t +ℤ cap_sum_others k.sdk c s), w)
  unfolding iterate_caps add_other
  iterate_caps-fits t [] w h n nt f = ap (λ (r : ℤ). (ok r, w)) (omega int_laws)
  iterate_caps-fits t ((a, bz) ∷ s) w ((i, e), h) (ni, n) nt f = elim (Bool-cases (equal a c)) [
    | inl q ↦ rw (e, q) (iterate_caps-fits t s w h n nt (rw q at f))
    | inr q ↦
        let rest = cap_sum_others-IsNonneg k.sdk c s n in
        let above : pos 0 ≤ℤ i = rw e at ni in
        let next : pos 0 ≤ℤ t +ℤ i = omega (int_laws, nt, above) in
        let same : t +ℤ (i +ℤ cap_sum_others k.sdk c s) ≡ t +ℤ i +ℤ cap_sum_others k.sdk c s =
          omega int_laws in
        let all : fits_int (t +ℤ i +ℤ cap_sum_others k.sdk c s) ≡ true =
          ap fits_int (sym same) ∙ (rw (q, e) at f) in
        let first =
          fits_below (t +ℤ i) (t +ℤ i +ℤ cap_sum_others k.sdk c s) next (omega (int_laws, rest))
            all in
        rw (e, q, laws.add_int_lem t i, first)
          (iterate_caps-fits (t +ℤ i) s w h n next all ∙ ap (λ (r : ℤ). (ok r, w)) (sym same))
  ]

cap_sum_others-Above :
    (sdk : Sdk) (c : Bytes) (s : KvStore) → Above c s → cap_sum_others sdk c s ≡ cap_sum sdk s
cap_sum_others-Above sdk c [] a = refl
cap_sum_others-Above sdk c ((j, bz) ∷ s) a =
    ground (arith, cap_sum_others-Above sdk c s a.1, before-ne c j a.0, equal_comm c j)

-- After a write of `c` the sum is the sum over the others and the new amount.
pub cap_sum-set :
    (sdk : Sdk) (c bz : Bytes) (s : KvStore)
    → IsSorted s
    → cap_sum sdk (set c bz s) ≡ cap_sum_others sdk c s +ℤ amount_of sdk bz
unfolding set
cap_sum-set sdk c bz [] h = omega int_laws
cap_sum-set sdk c bz ((j, w) ∷ s) h = elim (Bool-cases (equal c j)) [
  | inl q ↦
      rw (q, equal_comm j c ∙ q, cap_sum_others-Above sdk c s (rw (← equal_sound c j q) at h.0))
        (+ℤ_comm (amount_of sdk bz) (cap_sum sdk s))
  | inr q ↦ elim (Bool-cases (before c j)) [
    | inl b ↦
        rw (q, b, equal_comm j c ∙ q, cap_sum_others-Above sdk c s (Above-trans c j s b h.0))
          (+ℤ_comm (amount_of sdk bz) (amount_of sdk w +ℤ cap_sum sdk s))
    | inr b ↦ rw (q, b, equal_comm j c ∙ q, cap_sum-set sdk c bz s h.1) (omega int_laws)
  ]
]
