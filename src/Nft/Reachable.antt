-- ===== src/Nft/Reachable.antt =====
-- Every collection of tokens that fewer than 2 ^ 32 calls reach is well formed.
use commitlabs_contracts.Prelude.{
  ℕ, ◌+◌, ◌^◌, ◌≤◌, ◌<◌, ◌≡◌, refl, true, List, [], ◌∷◌, length, arith,
}
use commitlabs_contracts.Shared.Outcome.{Result, ok, panic}
use commitlabs_contracts.Core.Types.{Env}
use commitlabs_contracts.Nft.Types.{Nfts}
use commitlabs_contracts.Nft.Tokens.{mint}
use commitlabs_contracts.Nft.Contract.{Call, invoke, new_state, after, run, deployed}
use commitlabs_contracts.Nft.Effects.{
  mint_stores, store_minted_effect, transfer_writes, mark_inactive_effect, settle_effect,
}
use commitlabs_contracts.Nft.Invariant.{IsCollection, deployed-IsCollection}
use commitlabs_contracts.Nft.Preserved.{mint-IsCollection}
use commitlabs_contracts.Nft.Preserved.Moves.{
  transfer-IsCollection, mark_inactive-IsCollection, settle-IsCollection, transfer_found,
  mark_inactive_found, settle_found,
}
use commitlabs_contracts.Nft.Setup.{
  Administers, administered, initialize_keeps, pause_effect, unpause_effect,
  set_core_contract_effect, add_authorized_contract_effect, remove_authorized_contract_effect,
  set_admin_effect, upgrade_effect, migrate_effect, set_emergency_mode_effect,
}

-- The token that a successful call of `mint` gives.
pub new_state_found :
    (r : Result (ℕ × Nfts)) (s' : Nfts) → new_state r ≡ ok s' → (id : ℕ) × (r ≡ ok (id, s'))
new_state_found (ok (id, s)) s' e = (id, ground arith)
new_state_found (panic p) s' e = absurd (ground arith)

-- The invariant, with the bound on the counter after one call.
abbrev Step : Nfts → Nfts → Type 0
Step s s' = IsCollection s' × (s'.token_counter ≤ s.token_counter + 1)

module _ (env : Env) (s s' : Nfts) (v : IsCollection s) (small : s.token_counter + 1 < 2 ^ 32) where
  administers-Step : Administers env s s' → Step s s'
  administers-Step (set, kept) = (administered env s s' v (set, kept), omega (arith, kept.0))

  pub invoke-IsCollection : (call : Call) → invoke env call s ≡ ok s' → Step s s'
  unfolding invoke
  invoke-IsCollection (Call.initialize a) e = administers-Step (initialize_keeps env s s' v a e)
  invoke-IsCollection Call.pause e = administers-Step (pause_effect env s s' e)
  invoke-IsCollection Call.unpause e = administers-Step (unpause_effect env s s' e)
  invoke-IsCollection (Call.set_core_contract c) e =
      administers-Step (set_core_contract_effect env s s' c e)
  invoke-IsCollection (Call.add_authorized_contract w c) e =
      administers-Step (add_authorized_contract_effect env s s' w c e)
  invoke-IsCollection (Call.remove_authorized_contract w c) e =
      administers-Step (remove_authorized_contract_effect env s s' w c e)
  invoke-IsCollection (Call.set_admin w a) e = administers-Step (set_admin_effect env s s' w a e)
  invoke-IsCollection (Call.upgrade w h) e = administers-Step (upgrade_effect env s s' w h e)
  invoke-IsCollection (Call.migrate w n) e = administers-Step (migrate_effect env s s' w n e)
  invoke-IsCollection (Call.set_emergency_mode w b) e =
      administers-Step (set_emergency_mode_effect env s s' w b e)
  invoke-IsCollection (Call.mint w o c d l k a t p) e =
      let (id, minted) = new_state_found (mint env w o c d l k a t p s) s' e in
      let (_, _, _, _, _, _, _, _, stores) = mint_stores env s s' w o c d l k a t p id minted in
      let (_, next, _, _, _, _, _, _, _) =
        store_minted_effect env (record s { reentrancy_guard = true }) s' o d l k a t p _ id small
          stores in
      (mint-IsCollection env s s' v w o c d l k a t p id small minted, omega (arith, next))
  invoke-IsCollection (Call.transfer f t id) e =
      let (n, found) = transfer_found env s s' id f t e in
      let (_, next, _, _, _, _, _, _) = transfer_writes env s s' id n found f t e in
      (transfer-IsCollection env s s' v id f t e, omega (arith, next))
  invoke-IsCollection (Call.mark_inactive w id) e =
      let (n, found) = mark_inactive_found env s s' id w e in
      let (_, _, _, (_, next, _, _, _, _, _, _)) = mark_inactive_effect env s s' id n found w e in
      (mark_inactive-IsCollection env s s' v id w e, omega (arith, next))
  invoke-IsCollection (Call.settle w id) e =
      let (n, found) = settle_found env s s' id w e in
      let (_, _, _, _, (_, next, _, _, _, _, _, _)) = settle_effect env s s' id n found w e in
      (settle-IsCollection env s s' v id w e, omega (arith, next))

pub after-IsCollection :
    (env : Env) (call : Call) (s : Nfts) (r : Result Nfts)
    → invoke env call s ≡ r
    → IsCollection s
    → s.token_counter + 1 < 2 ^ 32
    → Step s (after s r)
after-IsCollection env call s (ok s') e v small = invoke-IsCollection env s s' v small call e
after-IsCollection env call s (panic p) e v small = (v, omega arith)

pub run_from :
    (calls : List (Env × Call)) (s : Nfts)
    → IsCollection s
    → s.token_counter + length calls < 2 ^ 32
    → IsCollection (run calls s)
unfolding run
run_from [] s v small = v
run_from ((env, call) ∷ rest) s v small =
    let (v', next) = after-IsCollection env call s _ refl v (omega (arith, small)) in
    run_from rest _ v' (omega (arith, small, next))

-- After fewer than 2 ^ 32 calls of a newly deployed contract, whoever signed them: exactly the ids below
-- the token counter are in use, each once in the list of all tokens; an account's list of tokens names
-- each token that it owns once and no other, and its balance is the length of that list; each token
-- stands under its own number and id, its type is one of the three, its duration at least a day, its loss
-- at most 100 percent, its amount not negative, its expiry its duration after its creation, its owner and
-- asset not the zero address, and both copies of its penalty are equal; the ids COMMIT_0 to COMMIT_99 in
-- use lead to their tokens; the reentrancy flag is down; and without an admin there are no tokens.
pub run-IsCollection :
    (calls : List (Env × Call)) → length calls < 2 ^ 32 → IsCollection (run calls deployed)
run-IsCollection calls small = run_from calls deployed deployed-IsCollection (omega (arith, small))
