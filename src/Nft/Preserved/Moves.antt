-- ===== src/Nft/Preserved/Moves.antt =====
-- Transfers and the end of a commitment keep the invariant of the tokens.
use mathlib.Core.Path.{subst}
use commitlabs_contracts.Prelude.{
  ℕ, ◌+◌, ◌-◌, ◌<◌, ◌≡◌, refl, sym, ap, ◌∙◌, true, false, some, is_some, [], ◌∷◌, ◌++◌, length,
  length-append, arith, ltb, ◌==◌, if◌then◌else◌, update, mem, remove_first, nat_key, Bool-cases,
  Option-cases, inl, inr,
}
use commitlabs_contracts.Prelude.Index.{Indexes, Indexes-at, Indexes-add, Indexes-remove, updated}
use commitlabs_contracts.Shared.Outcome.{ok}
use commitlabs_contracts.Core.Types.{Address, Env}
use commitlabs_contracts.Core.Store.{is_zero_address}
use commitlabs_contracts.Nft.Types.{Nfts, CommitmentNft}
use commitlabs_contracts.Nft.Id.{format_commitment_id}
use commitlabs_contracts.Nft.Tokens.{transfer, mark_inactive, settle}
use commitlabs_contracts.Nft.Effects.{
  mark_inactive_effect, settle_effect, transfer_guards, transfer_writes,
}
use commitlabs_contracts.Nft.Invariant.{owned_by, IsNft, IsCollection, length-remove_first}

-- Every operation on a stored token found it.
module _ (env : Env) (s s' : Nfts) (id : ℕ) where
  pub mark_inactive_found :
      (caller : Address)
      → mark_inactive env caller id s ≡ ok s'
      → (n : CommitmentNft) × (s.nft id ≡ some n)
  unfolding mark_inactive
  mark_inactive_found caller e = elim (Option-cases (s.nft id)) [
    | inl absent ↦ absurd (ground arith)
    | inr found ↦ found
  ]

  pub settle_found :
      (caller : Address)
      → settle env caller id s ≡ ok s'
      → (n : CommitmentNft) × (s.nft id ≡ some n)
  unfolding settle
  settle_found caller e = elim (Option-cases (s.nft id)) [
    | inl absent ↦ absurd (ground arith)
    | inr found ↦ found
  ]

  pub transfer_found :
      (from to : Address)
      → transfer env from to id s ≡ ok s'
      → (n : CommitmentNft) × (s.nft id ≡ some n)
  unfolding transfer
  transfer_found from to e = elim (Option-cases (s.nft id)) [
    | inl absent ↦ absurd (ground arith)
    | inr found ↦ found
  ]

module _ (s s' : Nfts) (v : IsCollection s) (id : ℕ) (n n' : CommitmentNft)
    (found : s.nft id ≡ some n) (stored : s'.nft ≡ update s.nft id (some n')) where
  -- A stored token is rewritten.
  pub still_stored : (j : ℕ) → is_some (s'.nft j) ≡ is_some (s.nft j)
  still_stored j = elim (Bool-cases (id == j)) [
    | inl here ↦
        let e : id ≡ j = ground arith in
        let was : s.nft j ≡ some n = ap s.nft (sym e) ∙ found in
        let now : s'.nft j ≡ some n' = rw (stored, here) refl in
        ap is_some now ∙ sym (ap is_some was)
    | inr apart ↦ ap is_some (rw (stored, apart) refl)
  ]

  pub rewritten_ok : IsNft id (some n') → (j : ℕ) → IsNft j (s'.nft j)
  rewritten_ok new j =
      subst (λ f. IsNft j (f j)) (sym stored) (updated IsNft s.nft id (some n') v.nft_ok new j)

  -- The owner of a token that a retirement rewrites is kept.
  pub same_owner :
      n'.owner ≡ n.owner
      → (who : Address) (j : ℕ) → owned_by who (s'.nft j) ≡ owned_by who (s.nft j)
  same_owner same who j = elim (Bool-cases (id == j)) [
    | inl here ↦
        let e : id ≡ j = ground arith in
        let was : s.nft j ≡ some n = ap s.nft (sym e) ∙ found in
        let now : s'.nft j ≡ some n' = rw (stored, here) refl in
        ap (owned_by who) now ∙ ap (λ o. o == who) same ∙ sym (ap (owned_by who) was)
    | inr apart ↦ ap (owned_by who) (rw (stored, apart) refl)
  ]

module _ (s s' : Nfts) (v : IsCollection s) (id : ℕ) (n : CommitmentNft)
    (found : s.nft id ≡ some n) where
  retired :
      (s'.nft ≡ update s.nft id (some (record n { is_active = false })))
        × (s'.token_counter ≡ s.token_counter)
        × (s'.owner_balance ≡ s.owner_balance)
        × (s'.owner_tokens ≡ s.owner_tokens)
        × (s'.token_ids ≡ s.token_ids)
        × (s'.commitment_id_index ≡ s.commitment_id_index)
        × (s'.reentrancy_guard ≡ false)
        × (s'.admin ≡ s.admin)
      → IsCollection s'
  retired (stored, next, counts, lists, ids, index, calm, adm) =
      let n' = record n { is_active = false } in
      let was : IsNft id (some n) = subst (λ o. IsNft id o) found (v.nft_ok id) in
      record {
        numbered =
            λ j. still_stored s s' v id n n' found stored j ∙ v.numbered j ∙ ap (ltb j) (sym next);
        nft_ok = rewritten_ok s s' v id n n' found stored was;
        listed = Indexes-at ids (still_stored s s' v id n n' found stored) v.listed;
        owned = λ who.
            Indexes-at (ap (λ f. f who) lists) (same_owner s s' v id n n' found stored refl who)
              (v.owned who);
        balances =
            λ who. ap (λ f. f who) counts ∙ v.balances who ∙ ap (λ f. length (f who)) (sym lists);
        indexed = λ j small below.
            ap (λ f. f (format_commitment_id j)) index
            ∙ v.indexed j small (subst (λ c. j < c) next below);
        calm = calm;
        untouched = λ unset. next ∙ v.untouched (sym (ap is_some adm) ∙ unset);
      }

module _ (env : Env) (s s' : Nfts) (v : IsCollection s) (id : ℕ) where
  pub mark_inactive-IsCollection :
      (caller : Address) → mark_inactive env caller id s ≡ ok s' → IsCollection s'
  mark_inactive-IsCollection caller e =
      let (n, found) = mark_inactive_found env s s' id caller e in
      let (_, _, _, writes) = mark_inactive_effect env s s' id n found caller e in
      retired s s' v id n found writes

  pub settle-IsCollection : (caller : Address) → settle env caller id s ≡ ok s' → IsCollection s'
  settle-IsCollection caller e =
      let (n, found) = settle_found env s s' id caller e in
      let (_, _, _, _, writes) = settle_effect env s s' id n found caller e in
      retired s s' v id n found writes

-- A transfer moves the token from one list to the other.
module _ (s s' : Nfts) (v : IsCollection s) (id : ℕ) (n : CommitmentNft) (found : s.nft id ≡ some n)
    (to : Address) (apart : (to == n.owner) ≡ false)
    (stored : s'.nft ≡ update s.nft id (some (record n { owner = to })))
    (lists : s'.owner_tokens
      ≡ update (update s.owner_tokens n.owner (remove_first id (s.owner_tokens n.owner))) to (
          update s.owner_tokens n.owner (remove_first id (s.owner_tokens n.owner)) to
          ++ (id ∷ []))) where
  owner_after :
      (who : Address) (j : ℕ)
      → owned_by who (s'.nft j) ≡ (if id == j then to == who else owned_by who (s.nft j))
  owner_after who j = elim (Bool-cases (id == j)) [
    | inl here ↦ rw (stored, here) refl
    | inr elsewhere ↦ rw (stored, elsewhere) refl
  ]

  owner_before :
      (who : Address) (j : ℕ) → (id == j) ≡ true → owned_by who (s.nft j) ≡ (n.owner == who)
  owner_before who j here =
      let e : id ≡ j = ground arith in
      let was : s.nft j ≡ some n = ap s.nft (sym e) ∙ found in ap (owned_by who) was

  in_list : mem id (s.owner_tokens n.owner) ≡ true
  in_list = (v.owned n.owner).exact id ∙ ap (owned_by n.owner) found ∙ ground arith

  transfer_owned : (who : Address) → Indexes (λ j. owned_by who (s'.nft j)) (s'.owner_tokens who)
  transfer_owned who = elim (Bool-cases (n.owner == who)) [
    | inl was ↦
        let e : n.owner ≡ who = ground arith in
        let list : s'.owner_tokens who ≡ remove_first id (s.owner_tokens who) = ground arith in
        Indexes-at list (λ j. refl)
          (Indexes-remove id (λ j. ground (arith, owner_after who j, owner_before who j))
            (v.owned who))
    | inr other ↦ elim (Bool-cases (to == who)) [
      | inl now ↦
          let e : to ≡ who = ground arith in
          let list : s'.owner_tokens who ≡ s.owner_tokens who ++ (id ∷ []) = ground arith in
          Indexes-at list (λ j. refl)
            (Indexes-add id (owner_before who id (ground arith) ∙ other)
              (λ j. ground (arith, owner_after who j, owner_before who j)) (v.owned who))
      | inr never ↦
          let list : s'.owner_tokens who ≡ s.owner_tokens who = ground arith in
          Indexes-at list (λ j. ground (arith, owner_after who j, owner_before who j)) (v.owned who)
    ]
  ]

  transfer_balances :
      s'.owner_balance
        ≡ update
            (if ltb 0 (s.owner_balance n.owner)
              then update s.owner_balance n.owner (s.owner_balance n.owner - 1)
              else s.owner_balance)
            to
            (s.owner_balance to + 1)
      → (who : Address) → s'.owner_balance who ≡ length (s'.owner_tokens who)
  transfer_balances counts who =
      let shorter = length-remove_first id (s.owner_tokens n.owner) in_list in
      let was = v.balances n.owner in
      elim (Bool-cases (n.owner == who)) [
        | inl here ↦
            let e : n.owner ≡ who = ground arith in
            let list : s'.owner_tokens who ≡ remove_first id (s.owner_tokens n.owner) =
              ground arith in
            let count : s'.owner_balance who ≡ s.owner_balance n.owner - 1 = ground arith in
            omega (arith, ap length list, count, shorter, was)
        | inr other ↦ ground (arith, v.balances who, length-append (s.owner_tokens to) (id ∷ []))
      ]

module _ (env : Env) (s s' : Nfts) (v : IsCollection s) (id : ℕ) where
  pub transfer-IsCollection :
      (from to : Address) → transfer env from to id s ≡ ok s' → IsCollection s'
  transfer-IsCollection from to e =
      let (n, found) = transfer_found env s s' id from to e in
      let (_, other, own, _, real) = transfer_guards env s s' id n found from to e in
      moved n found real (rw own other) (subst (λ k. transfer env k to id s ≡ ok s') (sym own) e)
    where
      moved :
          (n : CommitmentNft)
          → s.nft id ≡ some n
          → is_zero_address to ≡ false
          → (to == n.owner) ≡ false
          → transfer env n.owner to id s ≡ ok s'
          → IsCollection s'
      moved n found real apart e =
          let (stored, next, counts, lists, ids, index, calm, adm) =
            transfer_writes env s s' id n found n.owner to e in
          let n' = record n { owner = to } in
          let was : IsNft id (some n) = subst (λ o. IsNft id o) found (v.nft_ok id) in
          record {
            numbered = λ j.
                still_stored s s' v id n n' found stored j ∙ v.numbered j ∙ ap (ltb j) (sym next);
            nft_ok =
                rewritten_ok s s' v id n n' found stored
                  (was.0, was.1, was.2, was.3, was.4, was.5, was.6, was.7, was.8, real);
            listed = Indexes-at ids (still_stored s s' v id n n' found stored) v.listed;
            owned = transfer_owned s s' v id n found to apart stored lists;
            balances = transfer_balances s s' v id n found to apart stored lists counts;
            indexed = λ j small below.
                ap (λ f. f (format_commitment_id j)) index
                ∙ v.indexed j small (subst (λ c. j < c) next below);
            calm = calm;
            untouched = λ unset. next ∙ v.untouched (sym (ap is_some adm) ∙ unset);
          }
