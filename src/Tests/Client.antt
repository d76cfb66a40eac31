-- ===== src/Tests/Client.antt =====
-- The command line at concrete inputs.
use research_cosmos.Prelude.{◌≡◌, ◌≢◌, ◌⊎◌, none, List, [], ◌∷◌}
use research_cosmos.Prelude.Int.{pos}
use research_cosmos.Bytes.{Bytes}
use research_cosmos.Types.{ok}
use research_cosmos.Messages.{MsgSetVirtualStakingMaxCap}
use research_cosmos.Client.{ClientContext, Command, GovClient, run_set_virtual_staking_max_cap}
use research_cosmos.Client.Submitted.{IsProposalOf, run_set_virtual_staking_max_cap_lem}

-- A proposal is the list of its messages, and the client's state lists what was broadcast.
abbrev Proposal : Type 0
Proposal = List MsgSetVirtualStakingMaxCap

abbrev sample_client : GovClient Proposal (List Proposal)
sample_client = record {
  parse_coin_normalized = λ b. ok (record { denom = b; amount = pos 100 });
  parse_coins_normalized = λ b. ok [];
  acc_string = λ a. a;
  new_msg_submit_proposal = λ msgs deposit proposer metadata title summary. ok msgs;
  validate_basic = λ p. none;
  generate_or_broadcast = λ ctx p s. (ok tt, p ∷ s);
}

abbrev sample_command : Command
sample_command = record {
  client_tx_context = ok (record { from_address = 1 ∷ [] });
  get_string = λ f. ok (8 ∷ []);
}

abbrev sample_args : List Bytes
sample_args = (7 ∷ []) ∷ (9 ∷ []) ∷ []

run_set_virtual_staking_max_cap_lem_example :
    let r = run_set_virtual_staking_max_cap sample_client sample_command sample_args [] in
    (((ctx : ClientContext) (proposal : Proposal)
        → ¬ IsProposalOf sample_client sample_command sample_args ctx proposal)
      × (r.1 ≡ [])
      × (r.0 ≢ ok tt))
    ⊎ ((ctx : ClientContext) × (proposal : Proposal) × IsProposalOf sample_client sample_command
          sample_args ctx proposal
        × (r ≡ (ok tt, proposal ∷ [])))
run_set_virtual_staking_max_cap_lem_example =
    run_set_virtual_staking_max_cap_lem sample_client sample_command sample_args []
