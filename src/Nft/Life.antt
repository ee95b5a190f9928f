-- ===== src/Nft/Life.antt =====
-- The life of a token: an active one is locked, and an inactive one stays so.
use mathlib.Core.Path.{subst}
use commitlabs_contracts.Prelude.{
  ℕ, ◌+◌, ◌^◌, ◌<◌, ◌≡◌, refl, sym, ap, true, false, Option, none, some, List, [], ◌∷◌, length,
  arith, ◌==◌, update, nat_key, Bool-cases, inl, inr, ◌⊎◌,
}
use commitlabs_contracts.Shared.Outcome.{Result, ok, panic}
use commitlabs_contracts.Core.Types.{Address, Env}
use commitlabs_contracts.Core.Store.{is_the}
use commitlabs_contracts.Nft.Types.{Nfts, CommitmentNft}
use commitlabs_contracts.Nft.Tokens.{mint}
use commitlabs_contracts.Nft.Contract.{Call, invoke, after, run}
use commitlabs_contracts.Nft.Effects.{
  mint_stores, store_minted_effect, transfer_guards, transfer_writes, mark_inactive_effect,
  settle_effect,
}
use commitlabs_contracts.Nft.Invariant.{IsCollection}
use commitlabs_contracts.Nft.Preserved.{next_unused}
use commitlabs_contracts.Nft.Preserved.Moves.{transfer_found, mark_inactive_found, settle_found}
use commitlabs_contracts.Nft.Setup.{
  Administers, initialize_keeps, pause_effect, unpause_effect, set_core_contract_effect,
  add_authorized_contract_effect, remove_authorized_contract_effect, set_admin_effect,
  upgrade_effect, migrate_effect, set_emergency_mode_effect,
}
use commitlabs_contracts.Nft.Reachable.{new_state_found, after-IsCollection}

-- What one call may do to the token that is stored under an id, with the configured core contract.
pub data Ages (env : Env) (core : Option Address) (o o' : Option CommitmentNft) : Type 0 where
  stays : o' ≡ o → Ages env core o o'
  mints :
      (n : CommitmentNft)
      → o ≡ none
      → o' ≡ some n
      → n.is_active ≡ true
      → n.metadata.created_at ≡ env.now
      → Ages env core o o'
  moves :
      (n : CommitmentNft) (to : Address)
      → o ≡ some n
      → n.is_active ≡ false
      → env.signed n.owner ≡ true
      → o' ≡ some (record n { owner = to })
      → Ages env core o o'
  retires :
      (n : CommitmentNft) (by : Address)
      → o ≡ some n
      → n.is_active ≡ true
      → is_the core by ≡ true
      → env.signed by ≡ true
      → o' ≡ some (record n { is_active = false })
      → Ages env core o o'

module _ (env : Env) (s s' : Nfts) (id : ℕ) where
  rewrite-Ages :
      (at : ℕ) (n n' : CommitmentNft)
      → s.nft at ≡ some n
      → s'.nft ≡ update s.nft at (some n')
      → Ages env s.core_contract (some n) (some n')
      → Ages env s.core_contract (s.nft id) (s'.nft id)
  rewrite-Ages at n n' found writes step = elim (Bool-cases (at == id)) [
    | inl here ↦
        let e : at ≡ id = ground arith in
        let before : s.nft id ≡ some n = subst (λ k. s.nft k ≡ some n) e found in
        let now : s'.nft id ≡ some n' = rw (writes, here) refl in rw (before, now) step
    | inr apart ↦ stays (rw (writes, apart) refl)
  ]

  kept_nft : Administers env s s' → Ages env s.core_contract (s.nft id) (s'.nft id)
  kept_nft (set, kept) = stays (ap (λ f. f id) kept.1)

  mint-Ages :
      (n : CommitmentNft)
      → s.nft s.token_counter ≡ none
      → s'.nft ≡ update s.nft s.token_counter (some n)
      → n.is_active ≡ true
      → n.metadata.created_at ≡ env.now
      → Ages env s.core_contract (s.nft id) (s'.nft id)
  mint-Ages n unused writes active' now' = elim (Bool-cases (s.token_counter == id)) [
    | inl here ↦
        let e : s.token_counter ≡ id = ground arith in
        mints n (subst (λ k. s.nft k ≡ none) e unused) (rw (writes, here) refl) active' now'
    | inr apart ↦ stays (rw (writes, apart) refl)
  ]

  -- Every successful call on a well-formed collection (`IsCollection`) whose counter is below 2 ^ 32 - 1 moves what an id holds along the
  -- life of a token: it stays; it is minted active and now, under an unused id; it is moved, when it is
  -- inactive, with its owner's signature; or it is retired, when it is active, by the core contract.
  pub invoke-Ages :
      (call : Call)
      → IsCollection s
      → s.token_counter + 1 < 2 ^ 32
      → invoke env call s ≡ ok s'
      → Ages env s.core_contract (s.nft id) (s'.nft id)
  unfolding invoke
  invoke-Ages (Call.initialize a) v small e = kept_nft (initialize_keeps env s s' v a e)
  invoke-Ages Call.pause v small e = kept_nft (pause_effect env s s' e)
  invoke-Ages Call.unpause v small e = kept_nft (unpause_effect env s s' e)
  invoke-Ages (Call.set_core_contract c) v small e =
      kept_nft (set_core_contract_effect env s s' c e)
  invoke-Ages (Call.add_authorized_contract w c) v small e =
      kept_nft (add_authorized_contract_effect env s s' w c e)
  invoke-Ages (Call.remove_authorized_contract w c) v small e =
      kept_nft (remove_authorized_contract_effect env s s' w c e)
  invoke-Ages (Call.set_admin w a) v small e = kept_nft (set_admin_effect env s s' w a e)
  invoke-Ages (Call.upgrade w h) v small e = kept_nft (upgrade_effect env s s' w h e)
  invoke-Ages (Call.migrate w n) v small e = kept_nft (migrate_effect env s s' w n e)
  invoke-Ages (Call.set_emergency_mode w b) v small e =
      kept_nft (set_emergency_mode_effect env s s' w b e)
  invoke-Ages (Call.mint w o c d l k a t p) v small e =
      let (new, made) = new_state_found (mint env w o c d l k a t p s) s' e in
      let (_, _, _, _, _, _, _, _, stores) = mint_stores env s s' w o c d l k a t p new made in
      let (_, _, _, stored, _, _, _, _, _) =
        store_minted_effect env (record s { reentrancy_guard = true }) s' o d l k a t p _ new small
          stores in
      mint-Ages _ (next_unused env s s' v) stored refl refl
  invoke-Ages (Call.transfer f t at) v small e =
      let (n, found) = transfer_found env s s' at f t e in
      let (signed, _, own, idle, _) = transfer_guards env s s' at n found f t e in
      rewrite-Ages at n _ found (transfer_writes env s s' at n found f t e).0
        (moves n t refl idle (subst (λ k. env.signed k ≡ true) (sym own) signed) refl)
  invoke-Ages (Call.mark_inactive w at) v small e =
      let (n, found) = mark_inactive_found env s s' at w e in
      let (signed, core, live, writes) = mark_inactive_effect env s s' at n found w e in
      rewrite-Ages at n _ found writes.0 (retires n w refl live core signed refl)
  invoke-Ages (Call.settle w at) v small e =
      let (n, found) = settle_found env s s' at w e in
      let (signed, core, live, _, writes) = settle_effect env s s' at n found w e in
      rewrite-Ages at n _ found writes.0 (retires n w refl live core signed refl)

-- What is left of a token later: it is stored with the same terms, and is inactive or as it was.
abbrev pub Remains : CommitmentNft → Option CommitmentNft → Type 0
Remains n none = ⊥
Remains n (some n') = (n'.metadata ≡ n.metadata) × ((n'.is_active ≡ false) ⊎ (n' ≡ n))

Ages-Remains :
    {env : Env} {core : Option Address} {o o' : Option CommitmentNft} (n : CommitmentNft)
    → Remains n o
    → Ages env core o o'
    → Remains n o'
Ages-Remains n r (stays same) = subst (Remains n) (sym same) r
Ages-Remains n r (mints m unused _ _ _) = absurd (subst (Remains n) unused r)
Ages-Remains n r (moves m to was idle _ is) =
    let before : Remains n (some m) = subst (Remains n) was r in
    subst (Remains n) (sym is) (before.0, inl idle)
Ages-Remains n r (retires m by was live _ _ is) =
    let before : Remains n (some m) = subst (Remains n) was r in
    subst (Remains n) (sym is) (before.0, inl refl)

after-Remains :
    (env : Env) (call : Call) (s : Nfts) (id : ℕ) (n : CommitmentNft) (r : Result Nfts)
    → invoke env call s ≡ r
    → IsCollection s
    → s.token_counter + 1 < 2 ^ 32
    → Remains n (s.nft id)
    → Remains n ((after s r).nft id)
after-Remains env call s id n (ok s') e v small was =
    Ages-Remains n was (invoke-Ages env s s' id call v small e)
after-Remains env call s id n (panic p) e v small was = was

Remains-from :
    (calls : List (Env × Call)) (s : Nfts) (id : ℕ) (n : CommitmentNft)
    → IsCollection s
    → s.token_counter + length calls < 2 ^ 32
    → Remains n (s.nft id)
    → Remains n ((run calls s).nft id)
unfolding run
Remains-from [] s id n v small was = was
Remains-from ((env, call) ∷ rest) s id n v small was =
    let (v', next) = after-IsCollection env call s _ refl v (omega (arith, small)) in
    Remains-from rest _ id n v' (omega (arith, small, next))
      (after-Remains env call s id n _ refl v (omega (arith, small)) was)

-- A token of a well-formed collection (`IsCollection`) outlives all further calls, as long as the ids last, with its
-- terms unchanged, and then is inactive or exactly as it was: so an active token keeps its owner, and an
-- inactive one is never active again.
pub run-Remains :
    (calls : List (Env × Call)) (s : Nfts) (id : ℕ) (n : CommitmentNft)
    → IsCollection s
    → s.token_counter + length calls < 2 ^ 32
    → s.nft id ≡ some n
    → Remains n ((run calls s).nft id)
run-Remains calls s id n v small found =
    Remains-from calls s id n v small (subst (Remains n) (sym found) (refl, inr refl))
