-- ===== src/Demo/Export/Validators.antt =====
-- The validators that demo/app/export.go leaves.
use research_cosmos.Prelude.{
  ◌≡◌, ◌≢◌, ◌⊎◌, true, false, Any, refl, ap, ◌∙◌, Option, none, some, List, [], ◌∷◌, All, inl, inr,
  Bool-cases, if◌then◌else◌, arith,
}
use research_cosmos.Prelude.Int.{pos}
use research_cosmos.Bytes.{Bytes, equal}
use research_cosmos.Bytes.Order.{equal_sound, equal_complete}
use research_cosmos.Types.{ok}
use research_cosmos.Ctx.{World}
use research_cosmos.Demo.Export.{
  StakingValidator, ExportKeepers, is_member, reset_fields, for_each, is_jailed, reset_validator,
  reset_validators,
}

-- Documented behaviour of the staking keeper: a validator is stored under its operator, and a
-- write is what the next read of it returns.
pub record IsValidatorStore {E : Type 0} (k : ExportKeepers E) : Type 0 where
  pub set_validator_ok : (v : StakingValidator) (w : World E) → (k.set_validator v w).0 ≡ ok tt
  pub get_set :
      (v : StakingValidator) (a : Bytes) (w : World E)
      → k.get_validator (k.set_validator v w).1 a
        ≡ (if equal v.operator a then some v else k.get_validator w a)
  pub found_operator :
      (v : StakingValidator) (a : Bytes) (w : World E)
      → k.get_validator w a ≡ some v
      → v.operator ≡ a

module _ {E : Type 0} (k : ExportKeepers E) (store : IsValidatorStore k)
    (allowed : List Bytes) where
  abbrev pub reset : Bytes → Option StakingValidator → Option StakingValidator
  reset a none = none
  reset a (some v) = some (reset_fields (is_jailed k allowed a) v)

  reset_idem : (a : Bytes) (o : Option StakingValidator) → reset a (reset a o) ≡ reset a o
  unfolding reset_fields
  reset_idem a none = refl
  reset_idem a (some v) = ground arith

  abbrev IsFound : World E → Bytes → Type 0
  IsFound w a = (v : StakingValidator) × (k.get_validator w a ≡ some v)

  module _ (w : World E) (a : Bytes) (v : StakingValidator)
      (found : k.get_validator w a ≡ some v) where
    abbrev after : World E
    after = (k.set_validator (reset_fields (is_jailed k allowed a) v) w).1

    get_after :
        (b : Bytes)
        → k.get_validator after b
          ≡ (if equal a b then reset b (k.get_validator w b) else k.get_validator w b)
    unfolding reset_fields
    get_after b =
        let op = ap (λ (x : Bytes). equal x b) (store.found_operator v a w found) in
        store.get_set (reset_fields (is_jailed k allowed a) v) b w
        ∙ rw op (elim (Bool-cases (equal a b)) [
          | inl same ↦ rw (same, ← equal_sound a b same, found) refl
          | inr other ↦ rw other refl
        ])

    All-IsFound : (addrs : List Bytes) → All (IsFound w) addrs → All (IsFound after) addrs
    All-IsFound [] h = tt
    All-IsFound (b ∷ bs) ((u, e), hs) = (
      elim (Bool-cases (equal a b)) [
        | inl same ↦ (reset_fields (is_jailed k allowed b) u, get_after b ∙ rw (same, e) refl)
        | inr other ↦ (u, get_after b ∙ rw (other, e) refl)
      ],
      All-IsFound bs hs,
    )

  -- If all visited validators are found, the
  -- loop succeeds, and then a validator that it visited is as before but for an unbonding height of
  -- 0, and for being jailed if there are allowed addresses and it is not one of them; every other
  -- validator is as before.
  reset_validators_lookup :
      (addrs : List Bytes) (w : World E)
      → All (IsFound w) addrs
      → (v : World E) × (reset_validators k allowed addrs w ≡ (ok tt, v))
        × ((a : Bytes)
            → k.get_validator v a
              ≡ (if is_member a addrs then reset a (k.get_validator w a) else k.get_validator w a))
  unfolding reset_validators for_each reset_validator is_member
  reset_validators_lookup [] w h = (w, refl, λ a. refl)
  reset_validators_lookup (a ∷ addrs) w ((v, found), h) =
      let (u, done, all) =
        reset_validators_lookup addrs (after w a v found) (All-IsFound w a v found addrs h) in
      let written = store.set_validator_ok (reset_fields (is_jailed k allowed a) v) w in
      (
        u,
        rw (found, written) done,
        λ b.
            all b
            ∙ rw (get_after w a v found b) (elim (Bool-cases (equal a b)) [
              | inl same ↦ elim (Bool-cases (is_member b addrs)) [
                | inl again ↦ rw (same, again) (reset_idem b (k.get_validator w b))
                | inr once ↦ rw (same, once) refl
              ]
              | inr other ↦ rw other refl
            ]),
      )

-- What an export makes of a validator, by the addresses that are allowed: without any, or for an
-- allowed one, only the unbonding height is reset, and any other validator is jailed as well.
module _ (allowed : List Bytes) (address : Bytes) (v : StakingValidator) where
  pub data IsReset : StakingValidator → Type 0 where
    all_allowed : allowed ≡ [] → IsReset (record v { unbonding_height = pos 0 })
    spared :
        Any (λ (b : Bytes). b ≡ address) allowed → IsReset (record v { unbonding_height = pos 0 })
    sent_to_jail :
        allowed ≢ []
        → All (λ (b : Bytes). b ≢ address) allowed
        → IsReset (record v { unbonding_height = pos 0; jailed = true })

is_member_cases :
    (a : Bytes) (l : List Bytes)
    → ((is_member a l ≡ true) × Any (λ (b : Bytes). b ≡ a) l)
      ⊎ ((is_member a l ≡ false) × All (λ (b : Bytes). b ≢ a) l)
unfolding is_member
is_member_cases a [] = inr (refl, tt)
is_member_cases a (b ∷ l) = elim (Bool-cases (equal b a)) [
  | inl same ↦ inl (rw same refl, inl (equal_sound b a same))
  | inr other ↦
      let ne : b ≢ a = λ e. (let same = equal_complete b a e in cc) in
      elim (is_member_cases a l) [
        | inl (e, h) ↦ inl (rw other e, inr h)
        | inr (e, h) ↦ inr (rw other e, (ne, h))
      ]
]

module _ {E : Type 0} (k : ExportKeepers E) (store : IsValidatorStore k) where
  reset_fields-IsReset :
      (allowed : List Bytes) (a : Bytes) (v : StakingValidator)
      → IsReset allowed (k.val_string a) v (reset_fields (is_jailed k allowed a) v)
  unfolding reset_fields is_jailed
  reset_fields-IsReset [] a v = all_allowed refl
  reset_fields-IsReset (b ∷ allowed) a v = elim (is_member_cases (k.val_string a) (b ∷ allowed)) [
    | inl (e, h) ↦
        let free : is_jailed k (b ∷ allowed) a ≡ false = ground (arith, e) in rw free (spared h)
    | inr (e, h) ↦
        let held : is_jailed k (b ∷ allowed) a ≡ true = ground (arith, e) in
        rw held (sent_to_jail (λ same. cc) h)
  ]

  -- With a staking keeper that returns what was set last: if all visited validators are found, the
  -- loop succeeds. Then a validator that it visited is as before but for an unbonding height of 0,
  -- and for being jailed if there are allowed addresses and its own is not one of them; every
  -- other validator is as before.
  pub reset_validators_lem :
      (allowed addrs : List Bytes) (w : World E)
      → All (λ (a : Bytes). (v : StakingValidator) × (k.get_validator w a ≡ some v)) addrs
      → (v : World E) × (reset_validators k allowed addrs w ≡ (ok tt, v))
        × ((a : Bytes)
            → (Any (λ (b : Bytes). b ≡ a) addrs
                × ((before : StakingValidator) × (after : StakingValidator) × (k.get_validator w a
                      ≡ some before)
                    × (k.get_validator v a ≡ some after)
                    × IsReset allowed (k.val_string a) before after))
              ⊎ (All (λ (b : Bytes). b ≢ a) addrs × (k.get_validator v a ≡ k.get_validator w a)))
  reset_validators_lem allowed addrs w h =
      let (v, done, all) = reset_validators_lookup k store allowed addrs w h in
      (
        v,
        done,
        λ a. elim (is_member_cases a addrs) [
          | inr (out, others) ↦ inr (others, all a ∙ rw out refl)
          | inl (visited, listed) ↦
              let (before, found) = found_of a addrs w h listed in
              inl (
                listed,
                (
                  before,
                  reset_fields (is_jailed k allowed a) before,
                  found,
                  all a ∙ rw (visited, found) refl,
                  reset_fields-IsReset allowed a before,
                ),
              )
        ],
      )
    where
      found_of :
          (a : Bytes) (l : List Bytes) (u : World E)
          → All (λ (b : Bytes). (x : StakingValidator) × (k.get_validator u b ≡ some x)) l
          → Any (λ (b : Bytes). b ≡ a) l
          → (x : StakingValidator) × (k.get_validator u a ≡ some x)
      found_of a [] u h i = absurd i
      found_of a (b ∷ l) u (here, rest) (inl e) = rw (← e) here
      found_of a (b ∷ l) u (here, rest) (inr i) = found_of a l u rest i
