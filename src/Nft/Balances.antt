-- ===== src/Nft/Balances.antt =====
-- Balances count tokens.
use commitlabs_contracts.Prelude.{
  ℕ, zero, suc, ◌+◌, ◌^◌, ◌<◌, ◌≡◌, refl, sym, ◌∙◌, Bool, true, false, not, ◌&&◌, List, [], ◌∷◌,
  length, arith, ◌==◌, if◌then◌else◌, mem, remove_first, nat_key, Bool-cases, inl, inr,
}
use commitlabs_contracts.Prelude.Index.{Indexes, Indexes-remove}
use commitlabs_contracts.Core.Types.{Address, Env}
use commitlabs_contracts.Nft.Types.{Nfts}
use commitlabs_contracts.Nft.Contract.{Call, run, deployed}
use commitlabs_contracts.Nft.Invariant.{IsCollection, owned_by, length-remove_first}
use commitlabs_contracts.Nft.Reachable.{run-IsCollection}

-- How many of the ids below `n` pass a test.
abbrev pub count : (ℕ → Bool) → ℕ → ℕ
count g zero = 0
count g (suc n) = (if g n then 1 else 0) + count g n

count_congr : (g h : ℕ → Bool) (n : ℕ) → ((j : ℕ) → j < n → g j ≡ h j) → count g n ≡ count h n
count_congr g h zero same = refl
count_congr g h (suc n) same =
    ground
      (arith, same n (omega arith), count_congr g h n (λ j below. same j (omega (arith, below))))

-- A list that names each key that a test accepts once, all of them below `n`, is as long as their number.
length-count :
    (n : ℕ) (g : ℕ → Bool) (xs : List ℕ)
    → Indexes g xs
    → ((j : ℕ) → g j ≡ true → j < n)
    → length xs ≡ count g n
length-count zero g [] v below = refl
length-count zero g (x ∷ xs) v below =
    let used : g x ≡ true = sym (v.exact x) ∙ ground arith in absurd (omega (arith, below x used))
length-count (suc n) g xs v below = elim (Bool-cases (g n)) [
  | inl top ↦
      let inside : mem n xs ≡ true = v.exact n ∙ top in
      let rest : length (remove_first n xs) ≡ count (λ j. not (n == j) && g j) n =
        length-count n (λ j. not (n == j) && g j) (remove_first n xs)
          (Indexes-remove n (λ j. refl) v)
          (λ j h. lower j (below j (ground arith)) (ground arith)) in
      let same : count (λ j. not (n == j) && g j) n ≡ count g n =
        count_congr (λ j. not (n == j) && g j) g n (λ j less. ground arith) in
      let one : count g (suc n) ≡ 1 + count g n = rw top (omega arith) in
      omega (arith, length-remove_first n xs inside, rest, same, one)
  | inr gone ↦
      let rest : length xs ≡ count g n =
        length-count n g xs v (λ j h. lower j (below j h) (apart j h gone)) in
      let one : count g (suc n) ≡ count g n = rw gone (omega arith) in rest ∙ sym one
]
  where
    lower : (j : ℕ) → j < suc n → (n == j) ≡ false → j < n
    lower j less other = ground arith

    apart : (j : ℕ) → g j ≡ true → g n ≡ false → (n == j) ≡ false
    apart j h gone = elim (Bool-cases (n == j)) [
      | inl here ↦ let e : n ≡ j = ground arith in absurd (ground arith)
      | inr other ↦ other
    ]

-- After fewer than 2 ^ 32 calls of a newly deployed contract, `balance_of` gives for every account the
-- number of the tokens minted so far that it owns.
pub balance_of_lem :
    (calls : List (Env × Call)) (who : Address)
    → length calls < 2 ^ 32
    → (run calls deployed).owner_balance who
      ≡ count (λ id. owned_by who ((run calls deployed).nft id)) (run calls deployed).token_counter
balance_of_lem calls who small =
    let v = run-IsCollection calls small in
    let s = run calls deployed in
    v.balances who
    ∙ length-count s.token_counter (λ id. owned_by who (s.nft id)) (s.owner_tokens who)
        (v.owned who) (λ j h. below s v j h)
  where
    below :
        (s : Nfts) → IsCollection s → (j : ℕ) → owned_by who (s.nft j) ≡ true → j < s.token_counter
    below s v j h = ground (arith, v.numbered j)
