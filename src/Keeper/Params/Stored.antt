-- ===== src/Keeper/Params/Stored.antt =====
-- The params that a store holds: x/meshsecurity/keeper/params.go and genesis.go.
use research_cosmos.Prelude.{◌<◌, ◌^◌, ◌≡◌, refl, Option, none, some, false, arith}
use research_cosmos.Bytes.{Bytes, equal}
use research_cosmos.KvStore.{KvStore, get, set, delete}
use research_cosmos.KvStore.Laws.{get-set, get-delete}
use research_cosmos.Types.{ok, Params}
use research_cosmos.Sdk.{Sdk, Laws}
use research_cosmos.Ctx.{World}
use research_cosmos.Keys.{params_key}
use research_cosmos.Keeper.{Keeper}
use research_cosmos.Keeper.Params.{
  no_params, get_params, set_params, get_max_sudo_gas, init_genesis, export_genesis,
}

-- What the stored bytes decode to.
abbrev pub read_params : Sdk → Option Bytes → Option Params
read_params sdk none = some no_params
read_params sdk (some bz) = sdk.unmarshal_params bz

-- The params of a store.
abbrev pub HasParams : Sdk → Params → KvStore → Type 0
HasParams sdk p s = read_params sdk (get params_key s) ≡ some p

module _ {E : Type 0} (k : Keeper E) where
  read_get_params :
      (p : Params) (o : Option Bytes) (w : World E)
      → read_params k.sdk o ≡ some p
      → get params_key w.store ≡ o
      → get_params k w ≡ (ok p, w)
  unfolding get_params
  read_get_params p none w h e = rw e (ground (arith, h))
  read_get_params p (some bz) w h e = rw e (rw h refl)

  pub get_params_ok :
      (p : Params) (w : World E) → HasParams k.sdk p w.store → get_params k w ≡ (ok p, w)
  get_params_ok p w h = read_get_params p (get params_key w.store) w h refl

  pub get_max_sudo_gas_ok :
      (p : Params) (w : World E)
      → HasParams k.sdk p w.store
      → get_max_sudo_gas k w ≡ (ok p.max_gas_end_blocker, w)
  unfolding get_max_sudo_gas
  get_max_sudo_gas_ok p w h = rw (get_params_ok p w h)

pub HasParams-set :
    (sdk : Sdk) (p : Params) (key bz : Bytes) (s : KvStore)
    → equal key params_key ≡ false
    → HasParams sdk p s
    → HasParams sdk p (set key bz s)
HasParams-set sdk p key bz s d h = rw (get-set key params_key bz s, d) h

pub HasParams-delete :
    (sdk : Sdk) (p : Params) (key : Bytes) (s : KvStore)
    → equal key params_key ≡ false
    → HasParams sdk p s
    → HasParams sdk p (delete key s)
HasParams-delete sdk p key s d h = rw (get-delete key params_key s, d) h

module _ {E : Type 0} (k : Keeper E) (laws : Laws k.sdk) where
  -- With the laws of the SDK and numbers of 32 bits, genesis params that are initialised are the
  -- ones that are exported, whatever was stored before.
  pub export_genesis-init_genesis :
      (p : Params) (w : World E)
      → p.epoch_length < 2 ^ 32
      → p.max_gas_end_blocker < 2 ^ 32
      → (w' : World E) × (init_genesis k p w ≡ (ok tt, w')) × (export_genesis k w' ≡ (ok p, w'))
  unfolding init_genesis set_params export_genesis
  export_genesis-init_genesis p w epoch gas =
      let (bz, m, u) = laws.params_round_trip p epoch gas in
      let w' : World E = record w { store = set params_key bz w.store } in
      (
        w',
        rw m refl,
        get_params_ok k p w' (rw (get-set params_key params_key bz w.store) (unfold equal in u)),
      )
