-- ===== src/Client.antt =====
-- x/meshsecurity/client/cli/gov_tx.go: the command that submits a proposal to set a max cap.
pub mod Submitted
pub mod Queries
use research_cosmos.Prelude.{Option, none, some, List, [], ◌∷◌, ◌==◌, length, if◌then◌else◌}
use research_cosmos.Bytes.{Bytes}
use research_cosmos.Types.{Error, Outcome, ok, err, panic, Coin, no_authority}
use research_cosmos.Messages.{MsgSetVirtualStakingMaxCap}
use research_cosmos.Fallible.{◌>>=◌}

-- What the code reads of `client.Context`, and the flags of the command.
pub record ClientContext : Type 0 where
  pub from_address : Bytes

pub data Flag : Type 0 where
  flag_title flag_summary flag_metadata flag_deposit flag_authority : Flag

-- `cobra.Command`: the client context and the flags' texts
pub record Command : Type 0 where
  pub client_tx_context : Outcome ClientContext
  pub get_string : Flag → Outcome Bytes

-- The SDK's client functions: coins are parsed, a gov message of type `P` is made and validated, and
-- handed to the node or printed, which is a change of `S`.
pub record GovClient (P S : Type 0) : Type 0 where
  pub parse_coin_normalized : Bytes → Outcome Coin
  pub parse_coins_normalized : Bytes → Outcome (List Coin)
  pub acc_string : Bytes → Bytes
  pub new_msg_submit_proposal :
      List MsgSetVirtualStakingMaxCap → List Coin → Bytes → Bytes → Bytes → Bytes → Outcome P
  pub validate_basic : P → Option Error
  pub generate_or_broadcast : ClientContext → P → S → Outcome Unit × S

-- the results of `getProposalInfo`
pub record ProposalInfo : Type 0 where
  pub client_ctx : ClientContext
  pub title : Bytes
  pub summary : Bytes
  pub metadata : Bytes
  pub deposit : List Coin

module _ {P S : Type 0} (g : GovClient P S) where
  unfoldable pub get_proposal_info : Command → Outcome ProposalInfo
  get_proposal_info cmd = do
    client_ctx ← cmd.client_tx_context
    title ← cmd.get_string flag_title
    summary ← cmd.get_string flag_summary
    metadata ← cmd.get_string flag_metadata
    deposit_arg ← cmd.get_string flag_deposit
    deposit ← g.parse_coins_normalized deposit_arg
    ok (record {
      client_ctx = client_ctx;
      title = title;
      summary = summary;
      metadata = metadata;
      deposit = deposit;
    })

  -- `args[0]` and `args[1]` panic out of range; the command has exactly two arguments.
  unfoldable pub parse_set_virtual_staking_max_cap_args :
      List Bytes → Bytes → Outcome MsgSetVirtualStakingMaxCap
  parse_set_virtual_staking_max_cap_args (contract ∷ max_cap_arg ∷ rest) authority = do
    max_cap ← g.parse_coin_normalized max_cap_arg
    ok (record { authority = authority; contract = contract; max_cap = max_cap })
  parse_set_virtual_staking_max_cap_args _ authority = panic

  abbrev pub require_authority : Bytes → Outcome Unit
  require_authority authority = if length authority == 0 then err no_authority else ok tt

  abbrev pub check : Option Error → Outcome Unit
  check none = ok tt
  check (some e) = err e

  -- `RunE` up to the last call: the proposal.
  unfoldable pub prepare_proposal : Command → List Bytes → Outcome (ClientContext × P)
  unfolding get_proposal_info parse_set_virtual_staking_max_cap_args
  prepare_proposal cmd args = do
    info ← get_proposal_info cmd
    authority ← cmd.get_string flag_authority
    u ← require_authority authority
    src ← parse_set_virtual_staking_max_cap_args args authority
    proposal ←
        g.new_msg_submit_proposal (src ∷ []) info.deposit
          (g.acc_string info.client_ctx.from_address) info.metadata info.title info.summary
    v ← check (g.validate_basic proposal)
    ok (info.client_ctx, proposal)

  abbrev pub submit : Outcome (ClientContext × P) → S → Outcome (Unit {0}) × S
  submit (ok (ctx, proposal)) s = g.generate_or_broadcast ctx proposal s
  submit (err e) s = (err e, s)
  submit panic s = (panic, s)

  -- `RunE` of `ProposalSetVirtualStakingMaxCapCmd`
  unfoldable pub run_set_virtual_staking_max_cap : Command → List Bytes → S → Outcome (Unit {0}) × S
  unfolding prepare_proposal
  run_set_virtual_staking_max_cap cmd args s = submit (prepare_proposal cmd args) s
