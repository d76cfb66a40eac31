-- ===== src/Demo/Handlers.antt =====
-- The message handlers that demo/app/app.go hands to the wasm keeper.
use research_cosmos.Prelude.{
  ap, ◌≡◌, refl, ◌∙◌, Bool, true, false, ◌||◌, ◌&&◌, List, [], ◌∷◌, if◌then◌else◌, inl, inr,
  Bool-cases,
}
use mathlib.Core.Path.{fun_ext}
use research_cosmos.Bytes.{Bytes}
use research_cosmos.KvStore.{has}
use research_cosmos.Types.{Outcome, err, Event, unknown_msg, unsupported}
use research_cosmos.Messages.{CosmosMsg}
use research_cosmos.Ctx.{World, M}
use research_cosmos.Keys.{build_max_cap_limit_key}
use research_cosmos.Keeper.{Keeper}
use research_cosmos.Keeper.Caps.{has_max_cap_limit}
use research_cosmos.Keeper.Messages.{
  new_default_custom_msg_handler, dispatch_msg, integrity_handler,
}
use research_cosmos.Keeper.Messages.Access.{integrity_handler_lem}

-- `wasmkeeper.Messenger`
abbrev pub Messenger : Type 0 → Type 0
Messenger E = Bytes → CosmosMsg → M E (List Event)

abbrev is_unknown : Outcome (List Event) → Bool
is_unknown (err unknown_msg) = true
is_unknown _ = false

-- A result, unless it is `ErrUnknownMsg`: then another call goes on where the first one ended.
abbrev pub if_unknown :
    {E : Type 0}
    → Outcome (List Event) × World E
    → M E (List Event)
    → Outcome (List Event) × World E
if_unknown (r, v) next = if is_unknown r then next v else (r, v)

-- Documented behaviour of `wasmkeeper.NewMessageHandlerChain`: the handlers are called one by one
-- as long as they return `ErrUnknownMsg`, which is also the result if none is left.
pub record IsHandlerChain {E : Type 0} (chain : List (Messenger E) → Messenger E) : Type 0 where
  pub no_handler :
      (c : Bytes) (msg : CosmosMsg) (w : World E) → chain [] c msg w ≡ (err unknown_msg, w)
  pub first_handler :
      (h : Messenger E) (hs : List (Messenger E)) (c : Bytes) (msg : CosmosMsg) (w : World E)
      → chain (h ∷ hs) c msg w ≡ if_unknown (h c msg w) (chain hs c msg)

module _ {E : Type 0} (k : Keeper E) (chain : List (Messenger E) → Messenger E) where
  -- `meshMessageHandler`: the integrity handler comes first, the custom handler last.
  unfoldable pub mesh_message_handler : Messenger E → Messenger E
  unfolding integrity_handler dispatch_msg new_default_custom_msg_handler has_max_cap_limit
  mesh_message_handler nested = chain (
      integrity_handler (has_max_cap_limit k)
      ∷ nested
      ∷ dispatch_msg (new_default_custom_msg_handler k)
      ∷ [])

  -- The messages that the handler must refuse.
  abbrev pub is_guarded : Bytes → CosmosMsg → World E → Bool
  is_guarded c msg w = (msg.stargate || msg.staking) && has (build_max_cap_limit_key c) w.store

  -- With a chain of the documented behaviour and any nested handler: a Stargate or Staking message
  -- of a contract with a stored limit is refused as unsupported and changes nothing; every other
  -- message goes to the nested handler, and if that one does not know it, to the custom message
  -- handler of the module.
  pub mesh_message_handler_lem :
      IsHandlerChain chain
      → (nested : Messenger E) (c : Bytes) (msg : CosmosMsg) (w : World E)
      → mesh_message_handler nested c msg w ≡ (
          if is_guarded c msg w
          then (err unsupported, w)
          else if_unknown (nested c msg w) (λ v.
            if_unknown
              (dispatch_msg (new_default_custom_msg_handler k) c msg v)
              (λ u. (err unknown_msg, u))))
  unfolding mesh_message_handler
  mesh_message_handler_lem law nested c msg w =
      let guard = integrity_handler (has_max_cap_limit k) in
      let custom : Messenger E = dispatch_msg (new_default_custom_msg_handler k) in
      let last : (v : World E)
          → chain (custom ∷ []) c msg v ≡ if_unknown (custom c msg v) (λ u. (err unknown_msg, u)) =
        λ v.
          law.first_handler custom [] c msg v
          ∙ ap (if_unknown (custom c msg v)) (fun_ext (law.no_handler c msg)) in
      let middle : chain (nested ∷ custom ∷ []) c msg w
          ≡ if_unknown (nested c msg w)
              (λ v. if_unknown (custom c msg v) (λ u. (err unknown_msg, u))) =
        law.first_handler nested (custom ∷ []) c msg w
        ∙ ap (if_unknown (nested c msg w)) (fun_ext last) in
      law.first_handler guard (nested ∷ custom ∷ []) c msg w
      ∙ rw (integrity_handler_lem k c msg w) (elim (Bool-cases (is_guarded c msg w)) [
        | inl guarded ↦ rw guarded refl
        | inr free ↦ rw free middle
      ])
