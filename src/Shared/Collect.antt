-- ===== src/Shared/Collect.antt =====
-- The loops of the contracts that gather what is stored under each key of a list.
use commitlabs_contracts.Prelude.{
  ℕ, ◌≡◌, refl, true, Option, none, some, List, [], ◌∷◌, map, length, suc, ap, arith, mem, nat_key,
}

-- `for id in ids.iter() { if let Some(a) = … { out.push_back(a) } }`
unfoldable pub collect : {A : Type 0} → (ℕ → Option A) → List ℕ → List A
collect stored [] = []
collect stored (id ∷ ids) =
    let out = collect stored ids in elim (stored id) [ none ↦ out | some a ↦ a ∷ out ]

-- Where each key of the list holds something with its own number, nothing is left out.
pub collect_each :
    {A : Type 0} (stored : ℕ → Option A) (number : A → ℕ) (ids : List ℕ)
    → ((j : ℕ) → mem j ids ≡ true → (a : A) × (stored j ≡ some a) × (number a ≡ j))
    → map number (collect stored ids) ≡ ids
unfolding collect
collect_each stored number [] all = refl
collect_each stored number (id ∷ ids) all =
    let (a, found, own) = all id (ground arith) in
    let rest : map number (collect stored ids) ≡ ids =
      collect_each stored number ids (λ j there. all j (later j there)) in
    rw (map, found) (rw (own, rest) refl)
  where
    later : (j : ℕ) → mem j ids ≡ true → mem j (id ∷ ids) ≡ true
    later j there = ground arith

pub length-map : {A : Type 0} (f : A → ℕ) (xs : List A) → length (map f xs) ≡ length xs
length-map f [] = refl
length-map f (x ∷ xs) = ap suc (length-map f xs)
