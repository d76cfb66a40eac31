-- ===== src/Provider/Genesis.antt =====
-- The params of the provider module: x/meshsecurityprovider/keeper.
use research_cosmos.Prelude.{◌≡◌, ◌≢◌, ◌⊎◌, ◌∙◌, refl, sym, some, inl, inr, Bool-cases}
use research_cosmos.Bytes.{Bytes, equal}
use research_cosmos.Bytes.Order.{equal_refl, equal_sound, equal_complete, not_equal}
use research_cosmos.KvStore.{get}
use research_cosmos.KvStore.Laws.{get-set}
use research_cosmos.Types.{Outcome, ok, err, invalid_signer}
use research_cosmos.Ctx.{World}
use research_cosmos.Provider.{
  ProviderKeeper, ProviderParams, provider_params_key, validate_params, set_provider_params,
  get_provider_params, update_params,
}

-- Documented behaviour of the codec: it reads back what it has written.
abbrev pub ReadsBack : ProviderKeeper → Type 0
ReadsBack k =
    (p : ProviderParams) → (bz : Bytes) × (k.marshal p ≡ ok bz) × (k.unmarshal bz ≡ some p)

module _ {E : Type 0} (k : ProviderKeeper) (codec : ReadsBack k) (p : ProviderParams)
    (w : World E) where
  -- What an update by the authority leaves.
  abbrev pub Updated : Outcome Unit × World E → Type 0
  Updated r =
      (r.0 ≡ ok tt)
      × (get_provider_params k r.1 ≡ (ok p, r.1))
      × ((j : Bytes) → j ≢ provider_params_key → get j r.1.store ≡ get j w.store)
      × (r.1.mem ≡ w.mem)

  updated : Updated (update_params k k.authority p w)
  unfolding update_params set_provider_params validate_params get_provider_params
  updated =
      let (bz, m, u) = codec p in
      rw (equal_refl k.authority, m)
        (
          refl,
          rw
              (
                get-set provider_params_key provider_params_key bz w.store,
                equal_refl provider_params_key,
                u,
              )
              refl,
          λ j other.
              get-set provider_params_key j bz w.store
              ∙ rw (not_equal provider_params_key j (λ same. other (sym same))) refl,
          refl,
        )

  -- With a codec that reads back what it has written: an update of the params by the authority
  -- succeeds, `GetParams` then returns the new params, and no other key of the stores has changed;
  -- an update by anyone else fails with the error of an invalid signer and changes nothing.
  pub update_params_lem :
      (sender : Bytes)
      → ((sender ≡ k.authority) × Updated (update_params k sender p w))
        ⊎ ((sender ≢ k.authority) × (update_params k sender p w ≡ (err invalid_signer, w)))
  unfolding update_params
  update_params_lem sender = elim (Bool-cases (equal k.authority sender)) [
    | inl same ↦ let e = sym (equal_sound k.authority sender same) in inl (e, rw e updated)
    | inr differs ↦
        inr (λ e. (let same = equal_complete k.authority sender (sym e) in cc), rw differs refl)
  ]
