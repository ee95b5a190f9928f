-- ===== src/Nft/Setup.antt =====
-- The administration keeps the invariant of the tokens, and the tokens themselves.
use mathlib.Core.Path.{subst}
use commitlabs_contracts.Prelude.{
  ℕ, ◌<◌, ◌≡◌, refl, sym, ap, ◌∙◌, Bool, true, false, is_some, List, [], ◌∷◌, length, arith, ltb,
  nat_key, mem,
}
use commitlabs_contracts.Prelude.Index.{Indexes-at}
use commitlabs_contracts.Shared.Outcome.{ok}
use commitlabs_contracts.Core.Types.{Address, Env}
use commitlabs_contracts.Nft.Types.{Nfts}
use commitlabs_contracts.Nft.Id.{format_commitment_id}
use commitlabs_contracts.Nft.Store.{
  initialize, pause, unpause, set_core_contract, add_authorized_contract,
  remove_authorized_contract, set_admin, upgrade, migrate, set_emergency_mode,
}
use commitlabs_contracts.Nft.Effects.{KeepsTokens}
use commitlabs_contracts.Nft.Invariant.{IsCollection, IsNft, owned_by}

module _ (env : Env) (s s' : Nfts) where
  -- An administrator is set, and the tokens are kept.
  abbrev pub Administers : Type 0
  Administers = (is_some s'.admin ≡ true) × KeepsTokens s s'

  pub pause_effect : pause env s ≡ ok s' → Administers
  unfolding pause
  pause_effect e = ground arith

  pub unpause_effect : unpause env s ≡ ok s' → Administers
  unfolding unpause
  unpause_effect e = ground arith

  pub set_core_contract_effect :
      (core : Address) → set_core_contract env core s ≡ ok s' → Administers
  unfolding set_core_contract
  set_core_contract_effect core e = ground arith

  module _ (caller : Address) where
    pub add_authorized_contract_effect :
        (minter : Address) → add_authorized_contract env caller minter s ≡ ok s' → Administers
    unfolding add_authorized_contract
    add_authorized_contract_effect minter e = ground arith

    pub remove_authorized_contract_effect :
        (minter : Address) → remove_authorized_contract env caller minter s ≡ ok s' → Administers
    unfolding remove_authorized_contract
    remove_authorized_contract_effect minter e = ground arith

    pub set_admin_effect : (new : Address) → set_admin env caller new s ≡ ok s' → Administers
    unfolding set_admin
    set_admin_effect new e = ground arith

    pub upgrade_effect : (hash : ℕ) → upgrade env caller hash s ≡ ok s' → Administers
    unfolding upgrade
    upgrade_effect hash e = ground arith

    pub migrate_effect : (from : ℕ) → migrate env caller from s ≡ ok s' → Administers
    unfolding migrate
    migrate_effect from e = ground arith

    pub set_emergency_mode_effect :
        (enabled : Bool) → set_emergency_mode env caller enabled s ≡ ok s' → Administers
    unfolding set_emergency_mode
    set_emergency_mode_effect enabled e = ground arith

  module _ (v : IsCollection s) where
    pub administered : Administers → IsCollection s'
    administered (set, (next, stored, counts, lists, ids, index, calm)) = record {
      numbered = λ j. ap (λ f. is_some (f j)) stored ∙ v.numbered j ∙ ap (ltb j) (sym next);
      nft_ok = λ j. subst (λ f. IsNft j (f j)) (sym stored) (v.nft_ok j);
      listed = Indexes-at ids (λ j. ap (λ f. is_some (f j)) stored) v.listed;
      owned = λ who.
          Indexes-at (ap (λ f. f who) lists) (λ j. ap (λ f. owned_by who (f j)) stored)
            (v.owned who);
      balances =
          λ who. ap (λ f. f who) counts ∙ v.balances who ∙ ap (λ f. length (f who)) (sym lists);
      indexed = λ j small below.
          ap (λ f. f (format_commitment_id j)) index
          ∙ v.indexed j small (subst (λ c. j < c) next below);
      calm = calm ∙ v.calm;
      untouched = λ unset. absurd (ground arith);
    }

    initialize_effect :
        (admin : Address)
        → initialize env admin s ≡ ok s'
        → (is_some s.admin ≡ false)
          × (is_some s'.admin ≡ true)
          × (s'.token_counter ≡ 0)
          × (s'.nft ≡ s.nft)
          × (s'.owner_balance ≡ s.owner_balance)
          × (s'.owner_tokens ≡ s.owner_tokens)
          × (s'.token_ids ≡ [])
          × (s'.commitment_id_index ≡ s.commitment_id_index)
          × (s'.reentrancy_guard ≡ s.reentrancy_guard)
    unfolding initialize
    initialize_effect admin e = ground arith

    -- Nothing was minted before, so that the reset counter and list are what they were.
    pub initialize_keeps : (admin : Address) → initialize env admin s ≡ ok s' → Administers
    initialize_keeps admin e =
        let (fresh, set, zero', stored, counts, lists, empty, index, calm) =
          initialize_effect admin e in
        let none_yet = v.untouched fresh in
        (
          set,
          (
            zero' ∙ sym none_yet,
            stored,
            counts,
            lists,
            empty ∙ sym (nothing s.token_ids (none_listed none_yet)),
            index,
            calm,
          ),
        )
      where
        none_listed : s.token_counter ≡ 0 → (j : ℕ) → mem j s.token_ids ≡ false
        none_listed none_yet j = v.listed.exact j ∙ v.numbered j ∙ ground arith

        nothing : (ids : List ℕ) → ((j : ℕ) → mem j ids ≡ false) → ids ≡ []
        nothing [] h = refl
        nothing (id ∷ ids) h = absurd (ground (arith, h id))
