-- ===== src/Keeper/Messages/Access.antt =====
-- The access tests of x/meshsecurity/keeper/handler_plugin.go.
use research_cosmos.Prelude.{◌≡◌, ◌≢◌, ◌&&◌, ◌||◌, none, List, arith, if◌then◌else◌}
use research_cosmos.Bytes.{Bytes}
use research_cosmos.KvStore.{get, has}
use research_cosmos.Types.{ok, err, Event, unknown_msg, unsupported}
use research_cosmos.Messages.{CosmosMsg}
use research_cosmos.Ctx.{World}
use research_cosmos.Keys.{build_max_cap_limit_key}
use research_cosmos.Keeper.{Keeper}
use research_cosmos.Keeper.Caps.{has_max_cap_limit}
use research_cosmos.Keeper.Messages.{
  new_default_custom_msg_handler, dispatch_msg, integrity_handler,
}

module _ {E : Type 0} (k : Keeper E) (contract : Bytes) (msg : CosmosMsg) (w : World E) where
  -- For a contract with no stored max cap limit the default message handler changes nothing and
  -- does not succeed, whatever the message is.
  pub dispatch_msg_without_limit :
      get (build_max_cap_limit_key contract) w.store ≡ none
      → ((dispatch_msg (new_default_custom_msg_handler k) contract msg w).1 ≡ w)
        × ((es : List Event)
            → (dispatch_msg (new_default_custom_msg_handler k) contract msg w).0 ≢ ok es)
  unfolding dispatch_msg new_default_custom_msg_handler has_max_cap_limit has
  dispatch_msg_without_limit h = (ground arith, λ es. ground arith)

  -- The integrity handler changes nothing; it rejects a message exactly if that is a Stargate or a
  -- Staking message of a contract with a stored limit, and passes on every other one.
  pub integrity_handler_lem : integrity_handler (has_max_cap_limit k) contract msg w ≡ (
    err (
        if (msg.stargate || msg.staking) && has (build_max_cap_limit_key contract) w.store
        then unsupported
        else unknown_msg),
    w,
  )
  unfolding integrity_handler has_max_cap_limit
  integrity_handler_lem = ground arith
