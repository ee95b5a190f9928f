-- ===== src/Nft/Views.antt =====
-- What the read-only entry points of the token contract show.
use mathlib.Core.Path.{subst}
use commitlabs_contracts.Prelude.{
  ℕ, ◌+◌, ◌*◌, ◌^◌, ◌<◌, ◌≡◌, refl, sym, ap, ◌∙◌, Bool, true, false, not, ◌&&◌, Option, none, some,
  is_some, List, map, length, mem, arith, ltb, leb, ◌==◌, nat_key, Option-cases, inl, inr,
}
use commitlabs_contracts.Prelude.Int.{ℤ, pos, leb_ℤ}
use commitlabs_contracts.Shared.Outcome.{Result, ok, panic}
use commitlabs_contracts.Shared.Collect.{collect_each, length-map}
use commitlabs_contracts.Core.Types.{Address, Bytes, CommitmentType, Env}
use commitlabs_contracts.Core.Store.{is_zero_address}
use commitlabs_contracts.Nft.Types.{Nfts, CommitmentNft}
use commitlabs_contracts.Nft.Store.{is_authorized}
use commitlabs_contracts.Nft.Tokens.{
  get_commitment_by_id, get_all_metadata, get_nfts_by_owner, mint, store_minted, one_more,
  is_valid_commitment_type,
}
use commitlabs_contracts.Nft.Contract.{Call, run, deployed}
use commitlabs_contracts.Nft.Reachable.{run-IsCollection}
use commitlabs_contracts.Nft.Effects.{next_token_id_small}
use commitlabs_contracts.Nft.Invariant.{IsCollection, IsNft, owned_by}

module _ (s : Nfts) (v : IsCollection s) where
  by_id :
      (id : ℕ) (n : CommitmentNft)
      → id < 100
      → s.nft id ≡ some n
      → get_commitment_by_id n.metadata.commitment_id s ≡ ok n
  unfolding get_commitment_by_id
  by_id id n small found =
      let own : IsNft id (some n) = subst (λ o. IsNft id o) found (v.nft_ok id) in
      let used : id < s.token_counter = ground (arith, v.numbered id) in
      let index : s.commitment_id_index n.metadata.commitment_id ≡ some id =
        ap s.commitment_id_index own.1 ∙ v.indexed id small used in
      ground arith

  a_token :
      (j : ℕ)
      → is_some (s.nft j) ≡ true
      → (n : CommitmentNft) × (s.nft j ≡ some n) × (n.token_id ≡ j)
  a_token j used = elim (Option-cases (s.nft j)) [
    | inl absent ↦ absurd (ground arith)
    | inr (n, found) ↦
        let own : IsNft j (some n) = subst (λ o. IsNft j o) found (v.nft_ok j) in (n, found, own.0)
  ]

  listings :
      (who : Address)
      → (map (λ n. n.token_id) (get_nfts_by_owner who s) ≡ s.owner_tokens who)
        × (length (get_nfts_by_owner who s) ≡ s.owner_balance who)
        × (map (λ n. n.token_id) (get_all_metadata s) ≡ s.token_ids)
  unfolding get_nfts_by_owner get_all_metadata
  listings who =
      let shown =
        collect_each s.nft (λ n. n.token_id) (s.owner_tokens who)
          (λ j there. a_token j (is_used j (s.nft j) (sym ((v.owned who).exact j) ∙ there))) in
      (
        shown,
        sym (length-map (λ n. n.token_id) (get_nfts_by_owner who s))
            ∙ ap length shown
            ∙ sym (v.balances who),
        collect_each s.nft (λ n. n.token_id) s.token_ids
            (λ j there. a_token j (sym (v.listed.exact j) ∙ there)),
      )
    where
      is_used : (j : ℕ) (o : Option CommitmentNft) → owned_by who o ≡ true → is_some o ≡ true
      is_used j none h = absurd (ground arith)
      is_used j (some n) h = refl

-- After fewer than 2 ^ 32 calls of a newly deployed contract, `get_commitment_by_id` leads from the
-- commitment id of each stored token whose number is below 100 to that token.
pub get_commitment_by_id_lem :
    (calls : List (Env × Call)) (id : ℕ) (n : CommitmentNft)
    → length calls < 2 ^ 32
    → id < 100
    → (run calls deployed).nft id ≡ some n
    → get_commitment_by_id n.metadata.commitment_id (run calls deployed) ≡ ok n
get_commitment_by_id_lem calls id n few small found =
    by_id (run calls deployed) (run-IsCollection calls few) id n small found

-- After fewer than 2 ^ 32 calls of a newly deployed contract, `get_nfts_by_owner` shows the tokens of the
-- account's list in its order, each of them found, all owned by the account, and as many as
-- `balance_of` counts; `get_all_metadata` shows one token for each number of the list of all.
pub get_nfts_by_owner_lem :
    (calls : List (Env × Call)) (who : Address)
    → length calls < 2 ^ 32
    → let s = run calls deployed in
      (map (λ n. n.token_id) (get_nfts_by_owner who s) ≡ s.owner_tokens who)
      × ((id : ℕ)
          → mem id (map (λ n. n.token_id) (get_nfts_by_owner who s)) ≡ owned_by who (s.nft id))
      × (length (get_nfts_by_owner who s) ≡ s.owner_balance who)
      × (map (λ n. n.token_id) (get_all_metadata s) ≡ s.token_ids)
get_nfts_by_owner_lem calls who few =
    let v = run-IsCollection calls few in
    let (shown, counted, all) = listings (run calls deployed) v who in
    (shown, (λ id. ap (mem id) shown ∙ (v.owned who).exact id), counted, all)

abbrev pub is_ok : Result (ℕ × Nfts) → Bool
is_ok (ok r) = true
is_ok (panic p) = false

-- While the token counter is below 2 ^ 32 - 1, `mint` succeeds exactly if: the contract is set up, not paused, not in an emergency and not already
-- entered; the caller signed and is the admin, the core contract or a whitelisted minter; owner and asset
-- are not the zero address; the duration is positive, the loss at most 100 percent, the type one of the
-- three, the amount not negative, the expiry a 64-bit time; and the owner's balance is below its limit.
pub mint-is_ok :
    (env : Env) (s : Nfts) (caller owner : Address) (given : Bytes) (duration loss : ℕ)
    (kind : CommitmentType) (amount : ℤ) (asset : Address) (penalty : ℕ)
    → s.token_counter + 1 < 2 ^ 32
    → is_ok (mint env caller owner given duration loss kind amount asset penalty s) ≡ (
        not s.reentrancy_guard
        && not s.emergency_mode
        && not s.paused
        && is_some s.admin
        && is_authorized caller s
        && env.signed caller
        && not (is_zero_address owner)
        && not (is_zero_address asset)
        && not (duration == 0)
        && leb loss 100
        && is_valid_commitment_type kind
        && leb_ℤ (pos 0) amount
        && ltb (env.now + duration * 86400) (2 ^ 64)
        && ltb (s.owner_balance owner + 1) (2 ^ 32))
unfolding mint is_authorized store_minted one_more
mint-is_ok env s caller owner given duration loss kind amount asset penalty small =
    ground (arith, next_token_id_small s.token_counter small)
