-- ===== src/Demo/Modules/Blocked.antt =====
-- The addresses that may not receive funds in demo/app/app.go.
use research_cosmos.Prelude.{
  ◌≡◌, refl, sym, ◌∙◌, ap, Bool, true, false, not, List, [], ◌∷◌, arith, if◌then◌else◌, inl, inr,
  Bool-cases,
}
use research_cosmos.Bytes.{Bytes, equal}
use research_cosmos.Bytes.Order.{equal_refl, equal_sound}
use research_cosmos.Demo.Export.{is_member}
use research_cosmos.Demo.Modules.{
  ModuleAccount, gov_account, delete_address, blocked_addresses, account_addresses, get_macc_perms,
}

is_member-delete_address :
    (a b : Bytes) (l : List Bytes)
    → is_member a (delete_address b l) ≡ (if equal b a then false else is_member a l)
unfolding is_member
is_member-delete_address a b [] = ground arith
is_member-delete_address a b (c ∷ l) = elim (Bool-cases (equal b c)) [
  | inl same ↦ rw (same, is_member-delete_address a b l, ← equal_sound b c same) (ground arith)
  | inr other ↦
      rw (other, is_member-delete_address a b l)
        (elim (Bool-cases (equal c a)) [
          | inl here ↦ rw (here, ← equal_sound c a here, other) refl
          | inr there ↦ rw there refl
        ])
]

abbrev pub is_gov : ModuleAccount → Bool
is_gov gov_account = true
is_gov _ = false

is_gov_sound : (acc : ModuleAccount) → is_gov acc ≡ true → acc ≡ gov_account
is_gov_sound acc h = ground (arith, h)

module _ (module_address : ModuleAccount → Bytes) where
  -- Every constant is a key of `maccPerms`.
  has_account :
      (acc : ModuleAccount)
      → is_member (module_address acc) (account_addresses module_address get_macc_perms) ≡ true
  unfolding is_member
  has_account acc = ground (arith, equal_refl (module_address acc))

  -- If the module accounts have different addresses: the address of a module account is blocked,
  -- unless it is the one of the governance account.
  pub blocked_addresses_lem :
      ((a b : ModuleAccount) → module_address a ≡ module_address b → a ≡ b)
      → (acc : ModuleAccount)
      → is_member (module_address acc) (blocked_addresses module_address) ≡ not (is_gov acc)
  unfolding blocked_addresses
  blocked_addresses_lem distinct acc =
      let gov = module_address gov_account in
      let a = module_address acc in
      is_member-delete_address a gov (account_addresses module_address get_macc_perms)
      ∙ elim (Bool-cases (equal gov a)) [
        | inl same ↦
            let e : gov_account ≡ acc = distinct gov_account acc (equal_sound gov a same) in
            rw (same, ← e) refl
        | inr other ↦ elim (Bool-cases (is_gov acc)) [
          | inl g ↦ absurd (
              let e : gov ≡ a = ap module_address (sym (is_gov_sound acc g)) in
              ground (arith, other, rw e at (equal_refl gov)))
          | inr g ↦ rw (other, g) (has_account acc)
        ]
      ]
