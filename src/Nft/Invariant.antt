-- ===== src/Nft/Invariant.antt =====
-- What holds of every collection of tokens that calls reach.
use commitlabs_contracts.Prelude.{
  ℕ, ◌+◌, ◌*◌, ◌≤◌, ◌<◌, ◌≡◌, refl, Bool, true, false, Option, none, some, is_some, List, [], ◌∷◌,
  length, arith, ltb, ◌==◌, mem, remove_first, nat_key, Bool-cases, inl, inr,
}
use commitlabs_contracts.Prelude.Index.{Indexes}
use commitlabs_contracts.Prelude.Int.{pos, ◌≤ℤ◌}
use commitlabs_contracts.Core.Types.{Address}
use commitlabs_contracts.Core.Store.{is_zero_address}
use commitlabs_contracts.Nft.Types.{Nfts, CommitmentNft}
use commitlabs_contracts.Nft.Id.{format_commitment_id}
use commitlabs_contracts.Nft.Tokens.{is_valid_commitment_type}
use commitlabs_contracts.Nft.Contract.{deployed}

abbrev pub owned_by : Address → Option CommitmentNft → Bool
owned_by who none = false
owned_by who (some n) = n.owner == who

-- A stored token has its own number and id, terms that `mint` accepts, and an owner and an asset that
-- are not the zero address.
abbrev pub IsNft : ℕ → Option CommitmentNft → Type 0
IsNft id none = Unit
IsNft id (some n) =
    (n.token_id ≡ id)
    × (n.metadata.commitment_id ≡ format_commitment_id id)
    × (n.metadata.expires_at ≡ n.metadata.created_at + n.metadata.duration_days * 86400)
    × (1 ≤ n.metadata.duration_days)
    × (n.metadata.max_loss_percent ≤ 100)
    × (pos 0 ≤ℤ n.metadata.initial_amount)
    × (n.early_exit_penalty ≡ n.metadata.early_exit_penalty)
    × (is_valid_commitment_type n.metadata.commitment_type ≡ true)
    × (is_zero_address n.metadata.asset_address ≡ false)
    × (is_zero_address n.owner ≡ false)

pub record IsCollection (s : Nfts) : Type 0 where
  pub numbered : (id : ℕ) → is_some (s.nft id) ≡ ltb id s.token_counter
  pub nft_ok : (id : ℕ) → IsNft id (s.nft id)
  pub listed : Indexes (λ id. is_some (s.nft id)) s.token_ids
  pub owned : (who : Address) → Indexes (λ id. owned_by who (s.nft id)) (s.owner_tokens who)
  pub balances : (who : Address) → s.owner_balance who ≡ length (s.owner_tokens who)
  pub indexed :
      (id : ℕ)
      → id < 100
      → id < s.token_counter
      → s.commitment_id_index (format_commitment_id id) ≡ some id
  pub calm : s.reentrancy_guard ≡ false
  pub untouched : is_some s.admin ≡ false → s.token_counter ≡ 0

pub deployed-IsCollection : IsCollection deployed
deployed-IsCollection = record {
  numbered = λ id. ground arith;
  nft_ok = λ id. tt;
  listed = record { exact = λ id. refl; once = tt };
  owned = λ who. record { exact = λ id. refl; once = tt };
  balances = λ who. refl;
  indexed = λ id small below. absurd (omega (arith, below));
  calm = refl;
  untouched = λ unset. refl;
}

pub length-remove_first :
    (k : ℕ) (xs : List ℕ) → mem k xs ≡ true → length (remove_first k xs) + 1 ≡ length xs
length-remove_first k [] inside = absurd (ground arith)
length-remove_first k (x ∷ xs) inside = elim (Bool-cases (x == k)) [
  | inl here ↦ ground arith
  | inr apart ↦
      let rest : mem k xs ≡ true = ground arith in ground (arith, length-remove_first k xs rest)
]
