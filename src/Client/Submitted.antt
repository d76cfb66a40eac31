-- ===== src/Client/Submitted.antt =====
-- What the command of x/meshsecurity/client/cli/gov_tx.go submits.
use research_cosmos.Prelude.{
  ◌≡◌, ◌≢◌, refl, subst, sym, ap, ◌∙◌, ◌⊎◌, inl, inr, Option, none, some, List, [], ◌∷◌, arith,
}
use research_cosmos.Bytes.{Bytes}
use research_cosmos.Types.{Outcome, ok, err, panic, Error}
use research_cosmos.Messages.{MsgSetVirtualStakingMaxCap}
use research_cosmos.Fallible.{◌>>=◌}
use research_cosmos.Client.{
  ClientContext, Command, flag_authority, flag_title, flag_summary, flag_metadata, flag_deposit,
  GovClient, ProposalInfo, get_proposal_info, parse_set_virtual_staking_max_cap_args,
  require_authority, check, prepare_proposal, submit, run_set_virtual_staking_max_cap,
}

-- A chain that succeeds has a first call that succeeds.
bind_ok :
    {A B : Type 0} (m : Outcome A) (f : A → Outcome B) (b : B)
    → (m >>= f) ≡ ok b
    → (a : A) × (m ≡ ok a) × (f a ≡ ok b)
bind_ok (ok a) f b e = (a, refl, e)
bind_ok (err x) f b e = absurd (ground (arith, e))
bind_ok panic f b e = absurd (ground (arith, e))

module _ {P S : Type 0} (g : GovClient P S) where
  require_authority_ok : (a : Bytes) {u : Unit} → require_authority g a ≡ ok u → a ≢ []
  require_authority_ok [] e = absurd (ground (arith, e))
  require_authority_ok (x ∷ a) e = λ same. ground (arith, same)

  require_set : (a : Bytes) → a ≢ [] → require_authority g a ≡ ok tt
  require_set [] h = absurd (h refl)
  require_set (x ∷ a) h = ground arith

  check_ok : (o : Option Error) {u : Unit} → check g o ≡ ok u → o ≡ none
  check_ok none e = refl
  check_ok (some x) e = absurd (ground (arith, e))

  -- A message of the arguments: a contract and the text of a coin.
  pub record IsMessageOf (args : List Bytes) (m : MsgSetVirtualStakingMaxCap) : Type 0 where
    pub cap_text : Bytes
    pub rest : List Bytes
    pub arguments : args ≡ m.contract ∷ cap_text ∷ rest
    pub cap : g.parse_coin_normalized cap_text ≡ ok m.max_cap

  parsed-IsMessageOf :
      (args : List Bytes) (authority : Bytes) (m : MsgSetVirtualStakingMaxCap)
      → parse_set_virtual_staking_max_cap_args g args authority ≡ ok m
      → IsMessageOf args m × (m.authority ≡ authority)
  unfolding parse_set_virtual_staking_max_cap_args
  parsed-IsMessageOf [] authority m e = absurd (ground (arith, e))
  parsed-IsMessageOf (a ∷ []) authority m e = absurd (ground (arith, e))
  parsed-IsMessageOf (a ∷ b ∷ rest) authority m e =
      let (c, e₁, e₂) = bind_ok (g.parse_coin_normalized b) _ m e in
      let made : record { authority = authority; contract = a; max_cap = c } ≡ m =
        ground (arith, e₂) in
      (
        record {
          cap_text = b;
          rest = rest;
          arguments = ap (λ (x : MsgSetVirtualStakingMaxCap). x.contract ∷ b ∷ rest) made;
          cap = e₁ ∙ ap (λ (x : MsgSetVirtualStakingMaxCap). ok x.max_cap) made;
        },
        ap (λ (x : MsgSetVirtualStakingMaxCap). x.authority) (sym made),
      )

  -- The flags and the context that a proposal is made of.
  pub record IsInfoOf (cmd : Command) (info : ProposalInfo) : Type 0 where
    pub deposit_text : Bytes
    pub context : cmd.client_tx_context ≡ ok info.client_ctx
    pub title : cmd.get_string flag_title ≡ ok info.title
    pub summary : cmd.get_string flag_summary ≡ ok info.summary
    pub metadata : cmd.get_string flag_metadata ≡ ok info.metadata
    pub deposit_flag : cmd.get_string flag_deposit ≡ ok deposit_text
    pub deposit : g.parse_coins_normalized deposit_text ≡ ok info.deposit

  get_proposal_info-IsInfoOf :
      (cmd : Command) (info : ProposalInfo) → get_proposal_info g cmd ≡ ok info → IsInfoOf cmd info
  unfolding get_proposal_info
  get_proposal_info-IsInfoOf cmd info e =
      let (c, e₁, n₁) = bind_ok cmd.client_tx_context _ info e in
      let (t, e₂, n₂) = bind_ok (cmd.get_string flag_title) _ info n₁ in
      let (s, e₃, n₃) = bind_ok (cmd.get_string flag_summary) _ info n₂ in
      let (m, e₄, n₄) = bind_ok (cmd.get_string flag_metadata) _ info n₃ in
      let (d, e₅, n₅) = bind_ok (cmd.get_string flag_deposit) _ info n₄ in
      let (ds, e₆, n₆) = bind_ok (g.parse_coins_normalized d) _ info n₅ in
      let made : record { client_ctx = c; title = t; summary = s; metadata = m; deposit = ds }
          ≡ info =
        ground (arith, n₆) in
      record {
        deposit_text = d;
        context = e₁ ∙ ap (λ (x : ProposalInfo). ok x.client_ctx) made;
        title = e₂ ∙ ap (λ (x : ProposalInfo). ok x.title) made;
        summary = e₃ ∙ ap (λ (x : ProposalInfo). ok x.summary) made;
        metadata = e₄ ∙ ap (λ (x : ProposalInfo). ok x.metadata) made;
        deposit_flag = e₅;
        deposit = e₆ ∙ ap (λ (x : ProposalInfo). ok x.deposit) made;
      }

  -- A valid proposal that is made of the one message of the arguments and the authority's flag.
  pub record IsProposalOf (cmd : Command) (args : List Bytes) (ctx : ClientContext) (proposal : P)
      : Type 0 where
    pub info : ProposalInfo
    pub message : MsgSetVirtualStakingMaxCap
    pub has_info : IsInfoOf cmd info
    pub has_context : info.client_ctx ≡ ctx
    pub has_authority : cmd.get_string flag_authority ≡ ok message.authority
    pub authority_set : message.authority ≢ []
    pub parsed : IsMessageOf args message
    pub made :
        g.new_msg_submit_proposal
          (message ∷ [])
          info.deposit
          (g.acc_string info.client_ctx.from_address)
          info.metadata
          info.title
          info.summary
        ≡ ok proposal
    pub valid : g.validate_basic proposal ≡ none

  prepare_proposal-IsProposalOf :
      (cmd : Command) (args : List Bytes) (ctx : ClientContext) (proposal : P)
      → prepare_proposal g cmd args ≡ ok (ctx, proposal)
      → IsProposalOf cmd args ctx proposal
  unfolding prepare_proposal
  prepare_proposal-IsProposalOf cmd args ctx proposal e =
      let r : ClientContext × P = (ctx, proposal) in
      let (info, has_info, e₁) = bind_ok (get_proposal_info g cmd) _ r e in
      let (a, flag, e₂) = bind_ok (cmd.get_string flag_authority) _ r e₁ in
      let (u, required, e₃) = bind_ok (require_authority g a) _ r e₂ in
      let (m, parsed, e₄) = bind_ok (parse_set_virtual_staking_max_cap_args g args a) _ r e₃ in
      let (q, made, e₅) =
        bind_ok
          (g.new_msg_submit_proposal (m ∷ []) info.deposit
            (g.acc_string info.client_ctx.from_address) info.metadata info.title info.summary)
          _ r e₄ in
      let (v, checked, e₆) = bind_ok (check g (g.validate_basic q)) _ r e₅ in
      let (of_args, same) = parsed-IsMessageOf args a m parsed in
      let ctx_same : info.client_ctx ≡ ctx = ground (arith, e₆) in
      let q_same : q ≡ proposal = ground (arith, e₆) in
      record {
        info = info;
        message = m;
        has_info = get_proposal_info-IsInfoOf cmd info has_info;
        has_context = ctx_same;
        has_authority = flag ∙ ap ok (sym same);
        authority_set = subst (λ (b : Bytes). b ≢ []) (sym same) (require_authority_ok a required);
        parsed = of_args;
        made = made ∙ ap ok q_same;
        valid = ap g.validate_basic (sym q_same) ∙ check_ok (g.validate_basic q) checked;
      }

  -- Such a proposal is the one that is prepared.
  IsProposalOf-prepared :
      (cmd : Command) (args : List Bytes) (ctx : ClientContext) (proposal : P)
      → IsProposalOf cmd args ctx proposal
      → prepare_proposal g cmd args ≡ ok (ctx, proposal)
  unfolding prepare_proposal get_proposal_info parse_set_virtual_staking_max_cap_args
  IsProposalOf-prepared cmd args ctx proposal h =
      let i = h.has_info in
      let named : require_authority g h.message.authority ≡ ok tt =
        require_set h.message.authority h.authority_set in
      rw (i.context, i.title, i.summary, i.metadata, i.deposit_flag, i.deposit, h.has_authority)
        (rw (named, h.parsed.arguments, h.parsed.cap, h.made, h.valid, h.has_context) refl)

  -- Either there is no such proposal, and the command changes nothing and does not succeed, or it is one call of the client's
  -- broadcast, with a proposal that passes its validation and is made of exactly one message: the
  -- authority is the flag's, and not empty, the contract is the first argument, and the cap is the
  -- coin of the second one. The context, title, summary, metadata and deposit are the command's.
  pub run_set_virtual_staking_max_cap_lem :
      (cmd : Command) (args : List Bytes) (s : S)
      → let r = run_set_virtual_staking_max_cap g cmd args s in
        (((ctx : ClientContext) (proposal : P) → ¬ IsProposalOf cmd args ctx proposal)
          × (r.1 ≡ s)
          × (r.0 ≢ ok tt))
        ⊎ ((ctx : ClientContext) × (proposal : P) × IsProposalOf cmd args ctx proposal
            × (r ≡ g.generate_or_broadcast ctx proposal s))
  unfolding run_set_virtual_staking_max_cap
  run_set_virtual_staking_max_cap_lem cmd args s = go (prepare_proposal g cmd args) refl
    where
      go :
          (o : Outcome (ClientContext × P))
          → prepare_proposal g cmd args ≡ o
          → (((ctx : ClientContext) (proposal : P) → ¬ IsProposalOf cmd args ctx proposal)
              × ((submit g o s).1 ≡ s)
              × ((submit g o s).0 ≢ ok tt))
            ⊎ ((ctx : ClientContext) × (proposal : P) × IsProposalOf cmd args ctx proposal
                × (submit g o s ≡ g.generate_or_broadcast ctx proposal s))
      go (ok (ctx, proposal)) e =
          inr (ctx, proposal, prepare_proposal-IsProposalOf cmd args ctx proposal e, refl)
      go (err x) e = inl (
        λ ctx q h. (let made = IsProposalOf-prepared cmd args ctx q h in ground (arith, e, made)),
        refl,
        λ same. ground (arith, same),
      )
      go panic e = inl (
        λ ctx q h. (let made = IsProposalOf-prepared cmd args ctx q h in ground (arith, e, made)),
        refl,
        λ same. ground (arith, same),
      )
