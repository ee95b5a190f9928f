-- ===== src/Prelude/Index.antt =====
-- A list that names, once each, the keys that a test accepts.
use Prim.Native.Nat.{ℕ}
use mathlib.Core.Path.{◌≡◌, sym, ◌∙◌, subst}
use mathlib.Core.Option.{Option}
use mathlib.Core.Bool.{Bool, true, false, not, ◌&&◌, ◌||◌}
use mathlib.Core.List.{List, [], ◌∷◌, ◌++◌}
use native.Mathlib.Omega.{arith}
use commitlabs_contracts.Prelude.Maps.{
  Key, update, nat_key, mem, remove_first, Distinct, mem-append, Distinct-snoc, mem-remove_first_ne,
  mem-remove_first_self, Distinct-remove_first,
}
use commitlabs_contracts.Prelude.Tests.{Bool-cases, ◌==◌, if◌then◌else◌}
use mathlib.Core.Logic.{inl, inr}

module _ {ℓ} {K : Type ℓ} ⦃key : Key K⦄ where
  pub record Indexes (g : K → Bool) (xs : List K) : Type ℓ where
    pub exact : (k : K) → mem k xs ≡ g k
    pub once : Distinct xs

  pub Indexes-same :
      {g g' : K → Bool} {xs : List K} → ((j : K) → g' j ≡ g j) → Indexes g xs → Indexes g' xs
  Indexes-same same v = record { exact = λ k. v.exact k ∙ sym (same k); once = v.once }

  pub Indexes-at :
      {g g' : K → Bool} {xs ys : List K}
      → ys ≡ xs
      → ((j : K) → g' j ≡ g j)
      → Indexes g xs
      → Indexes g' ys
  Indexes-at {g'} e same v = subst (λ zs. Indexes g' zs) (sym e) (Indexes-same same v)

  -- A key that the test newly accepts is appended.
  pub Indexes-add :
      {g g' : K → Bool} {xs : List K} (k : K)
      → g k ≡ false
      → ((j : K) → g' j ≡ (key.beq k j || g j))
      → Indexes g xs
      → Indexes g' (xs ++ (k ∷ []))
  Indexes-add {g} {g'} {xs} k new step v = record {
    exact = λ j. ground (arith, mem-append j xs (k ∷ []), v.exact j, step j);
    once = Distinct-snoc xs k v.once (v.exact k ∙ new);
  }

  -- A key that the test no longer accepts is removed.
  pub Indexes-remove :
      {g g' : K → Bool} {xs : List K} (k : K)
      → ((j : K) → g' j ≡ (not (key.beq k j) && g j))
      → Indexes g xs
      → Indexes g' (remove_first k xs)
  Indexes-remove {g} {g'} {xs} k step v = record {
    exact = λ j. removed j;
    once = Distinct-remove_first k xs v.once;
  }
    where
      removed : (j : K) → mem j (remove_first k xs) ≡ g' j
      removed j = elim (Bool-cases (key.beq k j)) [
        | inl same ↦
            ground (arith, key.beq_sound k j same, mem-remove_first_self k xs v.once, step j)
        | inr apart ↦ ground (arith, mem-remove_first_ne j k xs apart, v.exact j, step j)
      ]

-- A predicate of what each key holds survives the rewriting of one key.
pub updated :
    {A : Type 0} (P : ℕ → Option A → Type 0) (f : ℕ → Option A) (at : ℕ) (o : Option A)
    → ((id : ℕ) → P id (f id))
    → P at o
    → (id : ℕ) → P id (update f at o id)
updated P f at o all new id = elim (Bool-cases (at == id)) [
  | inl here ↦
      let e : at ≡ id = ground arith in
      subst (λ k. P k (update f at o k)) e
        (subst (λ b. P at (if b then o else f at)) (sym (same at)) new)
  | inr apart ↦ rw apart (all id)
]
  where
    same : (at : ℕ) → (at == at) ≡ true
    same at = ground arith
