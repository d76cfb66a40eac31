-- ===== src/Keeper/Steps.antt =====
-- The calls of x/meshsecurity that change its state within a block, as steps, and the blocks.
use research_cosmos.Prelude.{List}
use research_cosmos.Prelude.Int.{ℤ}
use research_cosmos.Bytes.{Bytes}
use research_cosmos.Types.{Event}
use research_cosmos.Messages.{MsgSetVirtualStakingMaxCap, CosmosMsg}
use research_cosmos.Ctx.{World, Env}
use research_cosmos.Ctx.Keeps.{Keeps}
use research_cosmos.Keeper.{Keeper}
use research_cosmos.Keeper.MsgServer.{set_virtual_staking_max_cap}
use research_cosmos.Keeper.Messages.{new_default_custom_msg_handler, dispatch_msg}
use research_cosmos.Keeper.Hooks.{Hook, run_hook}
use research_cosmos.Keeper.Adapter.{SlashingTarget, tombstone, slash, jail, unjail}
use research_cosmos.Keeper.Writes.{IsWriteClosed}
use research_cosmos.Keeper.Writes.Handlers.{Keeps-set_virtual_staking_max_cap, Keeps-dispatch_msg}
use research_cosmos.Keeper.Writes.Valset.{
  Keeps-run_hook, Keeps-tombstone, Keeps-jail, Keeps-unjail, Keeps-slash,
}

module _ {E : Type 0} (k : Keeper E) (s : SlashingTarget E) where
  -- Who calls what and when is open. Other modules change their own side and the events.
  pub data Step (w : World E) : World E → Type 0 where
    message : (req : MsgSetVirtualStakingMaxCap) → Step w (set_virtual_staking_max_cap k req w).1
    dispatch :
        (c : Bytes) (msg : CosmosMsg)
        → Step w (dispatch_msg (new_default_custom_msg_handler k) c msg w).1
    hook : (h : Hook) → Step w (run_hook k h w).1
    tombstoned : (a : Bytes) → Step w (tombstone k s a w).1
    slashed : (a : Bytes) (power height ratio : ℤ) → Step w (slash k s a power height ratio w).1
    jailed : (a : Bytes) → Step w (jail k s a w).1
    unjailed : (a : Bytes) → Step w (unjail k s a w).1
    elsewhere : (v : Env E) (es : List Event) → Step w (record w { env = v; events = es })

  pub data Reach (w : World E) : World E → Type 0 where
    here : Reach w w
    next : {u v : World E} → Reach w u → Step u v → Reach w v

  -- A sudo call runs a contract, which reaches this module only by such calls.
  abbrev pub SudoReaches : Type 0
  SudoReaches = (c bz : Bytes) (w : World E) → Reach w (k.wasm.sudo c bz w).1

  module _ (P : World E → Type 0) (closed : IsWriteClosed k P) where
    pub Step-keeps : {w v : World E} → Step w v → P w → P v
    Step-keeps {w} (message req) h =
        Keeps-set_virtual_staking_max_cap k P closed.tasks req
          (λ acc known valid. closed.set_cap acc req.max_cap valid) w h
    Step-keeps {w} (dispatch c msg) h =
        Keeps-dispatch_msg k P closed.tasks c (closed.stake c) (closed.unstake c) msg w h
    Step-keeps {w} (hook x) h = Keeps-run_hook k P closed.tasks x w h
    Step-keeps {w} (tombstoned a) h = Keeps-tombstone k P closed.tasks s a w h
    Step-keeps {w} (slashed a power height ratio) h =
        Keeps-slash k P closed.tasks s a power height ratio w h
    Step-keeps {w} (jailed a) h = Keeps-jail k P closed.tasks s a w h
    Step-keeps {w} (unjailed a) h = Keeps-unjail k P closed.tasks s a w h
    Step-keeps {w} (elsewhere v es) h =
        closed.tasks.events (record w { env = v }) es (closed.tasks.env w v h)

    pub Reach-keeps : {w v : World E} → Reach w v → P w → P v
    Reach-keeps here h = h
    Reach-keeps (next r st) h = Step-keeps st (Reach-keeps r h)

    pub Keeps-sudo : SudoReaches → (c bz : Bytes) → Keeps P (k.wasm.sudo c bz)
    Keeps-sudo reaches c bz w h = Reach-keeps (reaches c bz w) h
