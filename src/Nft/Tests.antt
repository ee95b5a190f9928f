-- ===== src/Nft/Tests.antt =====
-- A run of the token contract: two tokens are minted by the core contract, the first is retired and
-- transferred.
use commitlabs_contracts.Prelude.{
  ℕ, ◌+◌, ◌*◌, ◌^◌, ◌<◌, ◌≡◌, refl, Bool, true, false, not, ◌&&◌, some, is_some, List, [], ◌∷◌,
  length, arith, ltb, leb, ◌==◌,
}
use commitlabs_contracts.Prelude.Int.{pos, leb_ℤ, ◌+ℤ◌}
use commitlabs_contracts.Shared.Outcome.{Result, ok, panic}
use commitlabs_contracts.Shared.Math
use commitlabs_contracts.Core.Types.{Address, Env, safe}
use commitlabs_contracts.Core.Store.{is_zero_address}
use commitlabs_contracts.Nft.Types.{Nfts, CommitmentNft}
use commitlabs_contracts.Nft.Id.{format_commitment_id}
use commitlabs_contracts.Nft.Store
use commitlabs_contracts.Nft.Tokens
use commitlabs_contracts.Nft.Contract.{Call, invoke, after, run, deployed}
use commitlabs_contracts.Nft.Invariant.{IsCollection, owned_by}
use commitlabs_contracts.Nft.Reachable.{run-IsCollection}
use commitlabs_contracts.Nft.Life.{Ages, Remains, invoke-Ages, run-Remains}
use commitlabs_contracts.Nft.Balances.{count, balance_of_lem}
use commitlabs_contracts.Nft.Views.{
  get_commitment_by_id_lem, get_nfts_by_owner_lem, mint-is_ok, is_ok,
}

-- Account 1 is the admin, 50 the core contract, 3 and 4 owners.
abbrev at : ℕ → Address → Env
at t who = record { now = t; signed = λ a. a == who; this = 60 }

abbrev calls : List (Env × Call)
calls =
    (at 10 1, Call.initialize 1)
    ∷ (at 10 1, Call.set_core_contract 50)
    ∷ (at 20 50, Call.mint 50 3 [] 30 10 safe (pos 500) 70 5)
    ∷ (at 30 50, Call.mint 50 3 [] 30 10 safe (pos 600) 70 5)
    ∷ (at 40 50, Call.mark_inactive 50 0)
    ∷ []

abbrev nfts : Nfts
nfts = run calls deployed

abbrev first : CommitmentNft
first = record {
  owner = 3;
  token_id = 0;
  metadata = record {
    commitment_id = format_commitment_id 0;
    duration_days = 30;
    max_loss_percent = 10;
    commitment_type = safe;
    created_at = 20;
    expires_at = 20 + 30 * 86400;
    initial_amount = pos 500;
    asset_address = 70;
    early_exit_penalty = 5;
  };
  is_active = false;
  early_exit_penalty = 5;
}

few : length calls < 2 ^ 32
few = omega arith

counted : nfts.token_counter ≡ 2
unfolding run invoke Tokens.mark_inactive Tokens.mint Store.set_core_contract Store.initialize
    Tokens.store_minted Math.add ◌+ℤ◌
counted = refl

stored : nfts.nft 0 ≡ some first
unfolding run invoke Tokens.mark_inactive Tokens.mint Store.set_core_contract Store.initialize
    Tokens.store_minted Math.add ◌+ℤ◌
stored = refl

run-IsCollection_example : IsCollection nfts
run-IsCollection_example = run-IsCollection calls few

abbrev moved : Nfts
moved = after nfts (invoke (at 50 3) (Call.transfer 3 4 0) nfts)

abbrev is_fine : Result Nfts → Bool
is_fine (ok s) = true
is_fine (panic p) = false

is_fine-after : (s : Nfts) (r : Result Nfts) → is_fine r ≡ true → r ≡ ok (after s r)
is_fine-after s (ok t) h = refl
is_fine-after s (panic p) h = absurd (ground arith)

it_moves : is_fine (invoke (at 50 3) (Call.transfer 3 4 0) nfts) ≡ true
unfolding run invoke Tokens.transfer Tokens.mark_inactive Tokens.mint Store.set_core_contract
    Store.initialize Tokens.store_minted Math.add ◌+ℤ◌
it_moves = refl

below : nfts.token_counter + 1 < 2 ^ 32
unfolding run invoke Tokens.mark_inactive Tokens.mint Store.set_core_contract Store.initialize
    Tokens.store_minted Math.add ◌+ℤ◌
below = omega arith

invoke-Ages_example : Ages (at 50 3) nfts.core_contract (nfts.nft 0) (moved.nft 0)
invoke-Ages_example =
    invoke-Ages (at 50 3) nfts moved 0 (Call.transfer 3 4 0) (run-IsCollection calls few) below
      (is_fine-after nfts (invoke (at 50 3) (Call.transfer 3 4 0) nfts) it_moves)

run-Remains_example : Remains first ((run ((at 50 3, Call.transfer 3 4 0) ∷ []) nfts).nft 0)
run-Remains_example =
    run-Remains ((at 50 3, Call.transfer 3 4 0) ∷ []) nfts 0 first (run-IsCollection calls few)
      below stored

balance_of_lem_example :
    nfts.owner_balance 3 ≡ count (λ id. owned_by 3 (nfts.nft id)) nfts.token_counter
balance_of_lem_example = balance_of_lem calls 3 few

get_commitment_by_id_lem_example :
    Tokens.get_commitment_by_id (format_commitment_id 0) nfts ≡ ok first
get_commitment_by_id_lem_example = get_commitment_by_id_lem calls 0 first few (omega arith) stored

get_nfts_by_owner_lem_example : length (Tokens.get_nfts_by_owner 3 nfts) ≡ nfts.owner_balance 3
get_nfts_by_owner_lem_example = (get_nfts_by_owner_lem calls 3 few).2

mint-is_ok_example : is_ok (Tokens.mint (at 60 50) 50 4 [] 30 101 safe (pos 500) 70 5 nfts) ≡ (
    not nfts.reentrancy_guard
    && not nfts.emergency_mode
    && not nfts.paused
    && is_some nfts.admin
    && Store.is_authorized 50 nfts
    && (at 60 50).signed 50
    && not (is_zero_address 4)
    && not (is_zero_address 70)
    && not (30 == 0)
    && leb 101 100
    && Tokens.is_valid_commitment_type safe
    && leb_ℤ (pos 0) (pos 500)
    && ltb ((at 60 50).now + 30 * 86400) (2 ^ 64)
    && ltb (nfts.owner_balance 4 + 1) (2 ^ 32))
mint-is_ok_example = mint-is_ok (at 60 50) nfts 50 4 [] 30 101 safe (pos 500) 70 5 below

-- All tokens from 100 on have the same id.
same_ids : format_commitment_id 100 ≡ format_commitment_id 101
unfolding format_commitment_id
same_ids = refl
