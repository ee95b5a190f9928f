-- ===== src/Nft/Preserved.antt =====
-- The operations on tokens keep the invariant.
pub mod Moves
use mathlib.Core.Path.{subst}
use commitlabs_contracts.Prelude.{
  ℕ, ◌+◌, ◌-◌, ◌*◌, ◌^◌, ◌≤◌, ◌<◌, ◌≡◌, refl, sym, ap, ◌∙◌, Bool, true, false, not, ◌&&◌, ◌||◌,
  Option, none, some, is_some, List, [], ◌∷◌, ◌++◌, length, length-append, arith, ltb, ◌==◌,
  if◌then◌else◌, update, mem, remove_first, nat_key, Bool-cases, Option-cases, inl, inr,
}
use commitlabs_contracts.Prelude.Index.{
  Indexes, Indexes-at, Indexes-same, Indexes-add, Indexes-remove,
}
use commitlabs_contracts.Prelude.Int.{ℤ, pos, ◌≤ℤ◌}
use commitlabs_contracts.Shared.Outcome.{Result, ok, panic}
use commitlabs_contracts.Core.Types.{Address, Bytes, bytes_eq, bytes_key, CommitmentType, Env}
use commitlabs_contracts.Prelude.Index.{updated}
use commitlabs_contracts.Nft.Types.{Nfts, CommitmentNft}
use commitlabs_contracts.Nft.Id.{format_commitment_id, format-apart}
use commitlabs_contracts.Nft.Tokens.{store_minted, mint, transfer, mark_inactive, settle}
use commitlabs_contracts.Nft.Effects.{
  minted, store_minted_effect, mint_stores, mark_inactive_effect, settle_effect, transfer_guards,
  transfer_writes,
}
use commitlabs_contracts.Nft.Invariant.{owned_by, IsNft, IsCollection, length-remove_first}

module _ (env : Env) (s s' : Nfts) (v : IsCollection s) where
  -- The next id is unused.
  pub next_unused : s.nft s.token_counter ≡ none
  next_unused = elim (Option-cases (s.nft s.token_counter)) [
    | inl unused ↦ unused
    | inr (n, used) ↦ absurd (ground (arith, v.numbered s.token_counter))
  ]

  module _ (n : CommitmentNft) (small : s.token_counter + 1 < 2 ^ 32)
      (stored : s'.nft ≡ update s.nft s.token_counter (some n)) where
    mint_numbered :
        s'.token_counter ≡ s.token_counter + 1
        → (id : ℕ) → is_some (s'.nft id) ≡ ltb id s'.token_counter
    mint_numbered next id =
        let here : s'.nft id ≡ update s.nft s.token_counter (some n) id = ap (λ f. f id) stored in
        ground (arith, v.numbered id)

    mint_listed :
        s'.token_ids ≡ s.token_ids ++ (s.token_counter ∷ [])
        → Indexes (λ id. is_some (s'.nft id)) s'.token_ids
    mint_listed ids =
        Indexes-at ids (λ j. refl)
          (Indexes-add s.token_counter (ap is_some next_unused)
            (λ j. ap (λ f. is_some (f j)) stored ∙ ground arith) v.listed)

    mint_owned :
        s'.owner_tokens
          ≡ update s.owner_tokens n.owner (s.owner_tokens n.owner ++ (s.token_counter ∷ []))
        → (who : Address) → Indexes (λ id. owned_by who (s'.nft id)) (s'.owner_tokens who)
    mint_owned lists who = elim (Bool-cases (n.owner == who)) [
      | inl own ↦
          let e : n.owner ≡ who = ground arith in
          let list : s'.owner_tokens who ≡ s.owner_tokens who ++ (s.token_counter ∷ []) =
            ground arith in
          Indexes-at list (λ j. refl)
            (Indexes-add s.token_counter (ap (owned_by who) next_unused)
              (λ j. ap (λ f. owned_by who (f j)) stored ∙ ground (arith, next_unused))
              (v.owned who))
      | inr apart ↦
          let list : s'.owner_tokens who ≡ s.owner_tokens who = ground arith in
          Indexes-at list (λ j. ap (λ f. owned_by who (f j)) stored ∙ ground (arith, next_unused))
            (v.owned who)
    ]

    mint_balances :
        s'.owner_tokens
          ≡ update s.owner_tokens n.owner (s.owner_tokens n.owner ++ (s.token_counter ∷ []))
        → s'.owner_balance ≡ update s.owner_balance n.owner (s.owner_balance n.owner + 1)
        → (who : Address) → s'.owner_balance who ≡ length (s'.owner_tokens who)
    mint_balances lists counts who =
        ground
          (arith, v.balances who, length-append (s.owner_tokens n.owner) (s.token_counter ∷ []))

  mint_indexed :
      s'.token_counter ≡ s.token_counter + 1
      → s'.commitment_id_index
        ≡ update s.commitment_id_index (format_commitment_id s.token_counter) (some s.token_counter)
      → (id : ℕ) → id < 100
      → id < s'.token_counter
      → s'.commitment_id_index (format_commitment_id id) ≡ some id
  mint_indexed next index id small below = elim (Bool-cases (s.token_counter == id)) [
    | inl here ↦
        let e : s.token_counter ≡ id = ground arith in
        rw (index, e) (rw (bytes_key.beq_refl (format_commitment_id id)) refl)
    | inr apart ↦
        let before : id < s.token_counter = ground arith in
        rw (index, format-apart s.token_counter id small apart) (v.indexed id small before)
  ]

  pub mint-IsCollection :
      (caller owner : Address) (given : Bytes) (duration loss : ℕ) (kind : CommitmentType)
      (amount : ℤ) (asset : Address) (penalty id : ℕ)
      → s.token_counter + 1 < 2 ^ 32
      → mint env caller owner given duration loss kind amount asset penalty s ≡ ok (id, s')
      → IsCollection s'
  mint-IsCollection caller owner given duration loss kind amount asset penalty id small e =
      let (set, _, long, bound, sum, kinds, has_asset, has_owner, stores) =
        mint_stores env s s' caller owner given duration loss kind amount asset penalty id e in
      let (_, next, index, stored, counts, lists, ids, calm, adm) =
        store_minted_effect env (record s { reentrancy_guard = true }) s' owner duration loss kind
          amount asset penalty (env.now + duration * 86400) id small stores in
      let n =
        minted env s s' owner duration loss kind amount asset penalty
          (env.now + duration * 86400) in
      record {
        numbered = mint_numbered n small stored next;
        nft_ok = λ j.
            subst (λ f. IsNft j (f j)) (sym stored)
              (updated IsNft s.nft s.token_counter (some n) v.nft_ok
                (refl, refl, refl, long, bound, sum, refl, kinds, has_asset, has_owner) j);
        listed = mint_listed n small stored ids;
        owned = mint_owned n small stored lists;
        balances = mint_balances n small stored lists counts;
        indexed = mint_indexed next index;
        calm = calm;
        untouched = λ unset. absurd (ground arith);
      }
