-- ===== src/Keeper/Valset/Content.antt =====
-- What `ValsetUpdateReport` of x/meshsecurity/keeper/valset_updates.go returns.
use research_cosmos.Prelude.{
  ◌≡◌, refl, ◌∙◌, ap, Option, none, some, List, [], ◌∷◌, ◌++◌, ◌==◌, append_assoc, false,
  if◌then◌else◌,
}
use mathlib.Core.List.{append-nil}
use research_cosmos.Prelude.Int.{pos}
use research_cosmos.Bytes.{Bytes}
use research_cosmos.KvStore.{KvStore, entries}
use research_cosmos.Types.{
  ok, Validator, WasmValidator, ValidatorSlash, ValsetUpdate, SlashInfo, PipedValsetOperation,
  validator_bonded, validator_unbonded, validator_jailed, validator_tombstoned, validator_unjailed,
  validator_modified, validator_slashed,
}
use research_cosmos.Ctx.{World}
use research_cosmos.Keys.{piped_valset_prefix}
use research_cosmos.Keeper.{Keeper}
use research_cosmos.Keeper.Piped.{PipedOp, decode_piped_key}
use research_cosmos.Keeper.Valset.{iterate_piped, iterate_piped_valset_operations}
use research_cosmos.Keeper.Valset.Report.{
  convert_sdk_validator_to_wasm, add_to_report, empty_report, valset_update_report,
}

-- The values that a function picks from a list, in order.
abbrev put : {A : Type 0} → Option A → List A → List A
put none l = l
put (some a) l = a ∷ l

abbrev pub pick : {A : Type 0} → (PipedOp → Option A) → List PipedOp → List A
pick f [] = []
pick f (p ∷ ps) = put (f p) (pick f ps)

-- The keys behind the prefix are those of the operations.
abbrev pub Decodes : KvStore → List PipedOp → Type 0
Decodes [] [] = Unit
Decodes [] (p ∷ ps) = ⊥
Decodes (e ∷ s) [] = ⊥
Decodes ((key, value) ∷ s) (p ∷ ps) = (decode_piped_key key ≡ ok p) × Decodes s ps

module _ {E : Type 0} (k : Keeper E) (w : World E) where
  -- An operation that can be reported: a validator that exists where its data is asked for, and the
  -- data of a slash.
  pub data IsReported (p : PipedOp) : Type 0 where
    bonded :
        (v : Validator)
        → p.op ≡ validator_bonded
        → k.staking.get_validator w.env p.val_address ≡ some v
        → IsReported p
    unbonded : p.op ≡ validator_unbonded → IsReported p
    jailed : p.op ≡ validator_jailed → IsReported p
    tombstoned : p.op ≡ validator_tombstoned → IsReported p
    unjailed : p.op ≡ validator_unjailed → IsReported p
    modified :
        (v : Validator)
        → p.op ≡ validator_modified
        → k.staking.get_validator w.env p.val_address ≡ some v
        → IsReported p
    slashed : (i : SlashInfo) → p.op ≡ validator_slashed → p.slash_info ≡ some i → IsReported p

  pub data AllReported : List PipedOp → Type 0 where
    none_left : AllReported []
    one_more :
        {p : PipedOp} {ps : List PipedOp} → IsReported p → AllReported ps → AllReported (p ∷ ps)

  -- What an operation of a kind has to say.
  abbrev convert : Option Validator → Option WasmValidator
  convert none = none
  convert (some v) = some (convert_sdk_validator_to_wasm k.sdk v)

  abbrev pub validator_data : PipedValsetOperation → PipedOp → Option WasmValidator
  validator_data kind p =
      if p.op == kind then convert (k.staking.get_validator w.env p.val_address) else none

  abbrev pub validator_text : PipedValsetOperation → PipedOp → Option Bytes
  validator_text kind p = if p.op == kind then some (k.sdk.val_string p.val_address) else none

  abbrev pub slash : Bytes → SlashInfo → ValidatorSlash
  slash a i = record {
    validator_addr = k.sdk.val_string a;
    height = pos w.height;
    time = w.time;
    infraction_height = i.infraction_height;
    infraction_time = pos 0;
    power = i.power;
    slash_amount = i.total_slash_amount;
    slash_ratio = i.slash_fraction;
  }

  abbrev slash_of : Bytes → Option SlashInfo → Option ValidatorSlash
  slash_of a none = none
  slash_of a (some i) = some (slash a i)

  abbrev pub slash_data : PipedOp → Option ValidatorSlash
  slash_data p = if p.op == validator_slashed then slash_of p.val_address p.slash_info else none

  -- A report with more operations: each list has what the operations of its kind have to say.
  abbrev pub extended : ValsetUpdate → List PipedOp → ValsetUpdate
  extended r ps = record {
    additions = r.additions ++ pick (validator_data validator_bonded) ps;
    removals = r.removals ++ pick (validator_text validator_unbonded) ps;
    updated = r.updated ++ pick (validator_data validator_modified) ps;
    jailed = r.jailed ++ pick (validator_text validator_jailed) ps;
    unjailed = r.unjailed ++ pick (validator_text validator_unjailed) ps;
    tombstoned = r.tombstoned ++ pick (validator_text validator_tombstoned) ps;
    slashed = r.slashed ++ pick slash_data ps;
  }

  -- One operation extends the report by what it says.
  add_one :
      (r : ValsetUpdate) (p : PipedOp) (ps : List PipedOp)
      → IsReported p
      → (r' : ValsetUpdate) × (add_to_report k r p w ≡ (ok (r', false), w))
        × (extended r' ps ≡ extended r (p ∷ ps))
  unfolding add_to_report
  add_one r p ps (bonded v e f) =
      let r' = record r { additions = r.additions ++ convert_sdk_validator_to_wasm k.sdk v ∷ [] } in
      (r', rw (e, f) refl, rw (e, f, append_assoc r.additions) refl)
  add_one r p ps (unbonded e) =
      let r' = record r { removals = r.removals ++ k.sdk.val_string p.val_address ∷ [] } in
      (r', rw e refl, rw (e, append_assoc r.removals) refl)
  add_one r p ps (jailed e) =
      let r' = record r { jailed = r.jailed ++ k.sdk.val_string p.val_address ∷ [] } in
      (r', rw e refl, rw (e, append_assoc r.jailed) refl)
  add_one r p ps (tombstoned e) =
      let r' = record r { tombstoned = r.tombstoned ++ k.sdk.val_string p.val_address ∷ [] } in
      (r', rw e refl, rw (e, append_assoc r.tombstoned) refl)
  add_one r p ps (unjailed e) =
      let r' = record r { unjailed = r.unjailed ++ k.sdk.val_string p.val_address ∷ [] } in
      (r', rw e refl, rw (e, append_assoc r.unjailed) refl)
  add_one r p ps (modified v e f) =
      let r' = record r { updated = r.updated ++ convert_sdk_validator_to_wasm k.sdk v ∷ [] } in
      (r', rw (e, f) refl, rw (e, f, append_assoc r.updated) refl)
  add_one r p ps (slashed i e f) =
      let r' = record r { slashed = r.slashed ++ slash p.val_address i ∷ [] } in
      (r', rw (e, f) refl, rw (e, f, append_assoc r.slashed) refl)

  loop_extends :
      (r : ValsetUpdate) (s : KvStore) (ps : List PipedOp)
      → Decodes s ps
      → AllReported ps
      → iterate_piped (add_to_report k) r s w ≡ (ok (extended r ps), w)
  unfolding iterate_piped
  loop_extends r [] [] d h =
      rw
        (
          append-nil r.additions,
          append-nil r.removals,
          append-nil r.updated,
          append-nil r.jailed,
          append-nil r.unjailed,
          append-nil r.tombstoned,
          append-nil r.slashed,
        )
        refl
  loop_extends r [] (p ∷ ps) d h = absurd d
  loop_extends r (e ∷ s) [] d h = absurd d
  loop_extends r ((key, value) ∷ s) (p ∷ ps) (d, ds) (one_more h hs) =
      let (r', added, same) = add_one r p ps h in
      rw (d, added) (loop_extends r' s ps ds hs ∙ ap (λ (x : ValsetUpdate). (ok x, w)) same)

  -- Where the keys behind the prefix are those of operations that can be reported, `ValsetUpdateReport`
  -- changes nothing and returns the report each list of which has, in key order, what the operations
  -- of its kind have to say: the data of the bonded and of the modified validators, the addresses of
  -- the unbonded, jailed, tombstoned and unjailed ones, and the data of the slashes.
  pub valset_update_report_lem :
      (ps : List PipedOp)
      → Decodes (entries piped_valset_prefix w.mem) ps
      → AllReported ps
      → valset_update_report k w ≡ (
        ok (record {
          additions = pick (validator_data validator_bonded) ps;
          removals = pick (validator_text validator_unbonded) ps;
          updated = pick (validator_data validator_modified) ps;
          jailed = pick (validator_text validator_jailed) ps;
          unjailed = pick (validator_text validator_unjailed) ps;
          tombstoned = pick (validator_text validator_tombstoned) ps;
          slashed = pick slash_data ps;
        }),
        w,
      )
  unfolding valset_update_report iterate_piped_valset_operations
  valset_update_report_lem ps d h =
      loop_extends empty_report (entries piped_valset_prefix w.mem) ps d h
