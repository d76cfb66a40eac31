-- ===== src/Keeper/MsgServer/Invariant.antt =====
-- The whole `SetVirtualStakingMaxCap` handler of x/meshsecurity/keeper/msg_server.go.
use research_cosmos.Prelude.{◌≡◌, ◌≢◌, sym, arith}
use research_cosmos.Bytes.Order.{not_equal}
use research_cosmos.Types.{ok, Params}
use research_cosmos.Messages.{MsgSetVirtualStakingMaxCap}
use research_cosmos.Sdk.{Laws}
use research_cosmos.Ctx.{World}
use research_cosmos.Keeper.{Keeper}
use research_cosmos.Keeper.Caps.Total.{IsWithinTotal}
use research_cosmos.Keeper.MsgServer.{set_virtual_staking_max_cap}
use research_cosmos.Keeper.Safe.{total-IsWriteClosed}
use research_cosmos.Keeper.Writes.Handlers.{Keeps-set_virtual_staking_max_cap}

module _ {E : Type 0} (k : Keeper E) (laws : Laws k.sdk) (p : Params) where
  -- With the laws of the SDK: if the store is sorted, its amounts and params can be decoded, and
  -- the caps of all contracts together are within the total of the params, then all that holds
  -- again after the handler of `MsgSetVirtualStakingMaxCap`, for any message and however the
  -- handler ends.
  pub set_virtual_staking_max_cap-IsWithinTotal :
      (req : MsgSetVirtualStakingMaxCap) (w : World E)
      → IsWithinTotal k.sdk p w.store
      → IsWithinTotal k.sdk p (set_virtual_staking_max_cap k req w).1.store
  set_virtual_staking_max_cap-IsWithinTotal req =
      Keeps-set_virtual_staking_max_cap k (λ w. IsWithinTotal k.sdk p w.store)
        (total-IsWriteClosed k laws p).tasks req
        (λ acc known valid. (total-IsWriteClosed k laws p).set_cap acc req.max_cap valid)

module _ {E : Type 0} (k : Keeper E) where
  -- A message whose authority is not the keeper's changes nothing, and does not succeed.
  pub set_virtual_staking_max_cap_unauthorized :
      (req : MsgSetVirtualStakingMaxCap) (w : World E)
      → req.authority ≢ k.authority
      → ((set_virtual_staking_max_cap k req w).1 ≡ w)
        × ((set_virtual_staking_max_cap k req w).0 ≢ ok tt)
  unfolding set_virtual_staking_max_cap
  set_virtual_staking_max_cap_unauthorized req w other =
      let refused = not_equal k.authority req.authority (λ e. other (sym e)) in
      (ground (arith, refused), ground (arith, refused))
