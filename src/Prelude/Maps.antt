-- ===== src/Prelude/Maps.antt =====
-- Storage maps, read at an absent key as the map's default, and lists of keys without repetition.
use Prim.Native.Nat.{ℕ, ◌+◌, ◌≤◌}
use mathlib.Core.Path.{◌≡◌, refl, ap}
use mathlib.Core.Bool.{Bool, true, false, ◌||◌}
use mathlib.Core.List.{List, [], ◌∷◌, ◌++◌}
use native.Mathlib.Omega.{arith}
use commitlabs_contracts.Prelude.Tests.{◌==◌, if◌then◌else◌, Bool-cases}
use mathlib.Core.Logic.{inl, inr}

-- Keys with a test for equality.
pub record Key {ℓ} (K : Type ℓ) : Type ℓ where
  pub beq : K → K → Bool
  pub beq_refl : (k : K) → beq k k ≡ true
  pub beq_sound : (j k : K) → beq j k ≡ true → j ≡ k

pub nat_beq_refl : (k : ℕ) → (k == k) ≡ true
nat_beq_refl k = ground arith

pub nat_beq_sound : (j k : ℕ) → (j == k) ≡ true → j ≡ k
nat_beq_sound j k h = ground arith

instance abbrev pub nat_key : Key ℕ
nat_key = record { beq = ◌==◌; beq_refl = nat_beq_refl; beq_sound = nat_beq_sound }

module _ {ℓ} {K : Type ℓ} ⦃key : Key K⦄ where
  abbrev pub update {κ} : {V : Type κ} → (K → V) → K → V → K → V
  update f k v j = if key.beq k j then v else f j

  abbrev pub mem : K → List K → Bool
  mem k [] = false
  mem k (x ∷ xs) = key.beq x k || mem k xs

  -- `position` and `remove`: the first occurrence goes, if there is one.
  abbrev pub remove_first : K → List K → List K
  remove_first k [] = []
  remove_first k (x ∷ xs) = if key.beq x k then xs else x ∷ remove_first k xs

  abbrev pub Distinct : List K → Type 0
  Distinct [] = Unit
  Distinct (x ∷ xs) = (mem x xs ≡ false) × Distinct xs

  abbrev pub sum_over : (K → ℕ) → List K → ℕ
  sum_over f [] = 0
  sum_over f (x ∷ xs) = f x + sum_over f xs

  pub beq_sym : (j k : K) → key.beq j k ≡ key.beq k j
  beq_sym j k = ground (arith, key.beq_sound j k, key.beq_sound k j, key.beq_refl k)

  pub mem-append : (k : K) (xs ys : List K) → mem k (xs ++ ys) ≡ (mem k xs || mem k ys)
  mem-append k [] ys = refl
  mem-append k (x ∷ xs) ys = ground (arith, mem-append k xs ys)

  pub Distinct-snoc :
      (xs : List K) (k : K) → Distinct xs → mem k xs ≡ false → Distinct (xs ++ (k ∷ []))
  Distinct-snoc [] k d m = (refl, tt)
  Distinct-snoc (x ∷ xs) k d m =
      ground (arith, Distinct-snoc xs k d.1, mem-append x xs (k ∷ []), beq_sym x k)

  pub mem-remove_first_ne :
      (j k : K) (xs : List K) → key.beq k j ≡ false → mem j (remove_first k xs) ≡ mem j xs
  mem-remove_first_ne j k [] h = refl
  mem-remove_first_ne j k (x ∷ xs) h =
      ground (arith, mem-remove_first_ne j k xs h, key.beq_sound x k, key.beq_sound x j)

  pub mem-remove_first_self :
      (k : K) (xs : List K) → Distinct xs → mem k (remove_first k xs) ≡ false
  mem-remove_first_self k [] d = refl
  mem-remove_first_self k (x ∷ xs) d =
      ground (arith, mem-remove_first_self k xs d.1, key.beq_sound x k)

  pub Distinct-remove_first : (k : K) (xs : List K) → Distinct xs → Distinct (remove_first k xs)
  Distinct-remove_first k [] d = tt
  Distinct-remove_first k (x ∷ xs) d =
      ground (arith, Distinct-remove_first k xs d.1, mem-remove_first_ne x k xs, beq_sym x k)

  pub sum_over-append :
      (f : K → ℕ) (xs ys : List K) → sum_over f (xs ++ ys) ≡ sum_over f xs + sum_over f ys
  sum_over-append f [] ys = omega arith
  sum_over-append f (x ∷ xs) ys = omega (arith, sum_over-append f xs ys)

  -- Two functions that agree on the list have one sum.
  pub sum_over_congr :
      (f g : K → ℕ) (xs : List K)
      → ((j : K) → mem j xs ≡ true → f j ≡ g j)
      → sum_over f xs ≡ sum_over g xs
  sum_over_congr f g [] h = refl
  sum_over_congr f g (x ∷ xs) h =
      omega (arith, h x (mem_head x xs), sum_over_congr f g xs (λ j m. h j (mem_tail j x xs m)))
    where
      mem_head : (x : K) (xs : List K) → mem x (x ∷ xs) ≡ true
      mem_head x xs = ground (arith, key.beq_refl x)

      mem_tail : (j x : K) (xs : List K) → mem j xs ≡ true → mem j (x ∷ xs) ≡ true
      mem_tail j x xs m = ground arith

  -- A key outside the list differs from every key in it.
  pub mem_apart : (k j : K) (xs : List K) → mem k xs ≡ false → mem j xs ≡ true → key.beq k j ≡ false
  mem_apart k j xs out inside = elim (Bool-cases (key.beq k j)) [
    | inl same ↦
        let e : k ≡ j = key.beq_sound k j same in
        let both : mem j xs ≡ false = rw (← e) out in absurd (cc)
    | inr apart ↦ apart
  ]

  -- Functions that differ at one key of a list without repetition.
  pub sum_over_change :
      (f g : K → ℕ) (k : K) (xs : List K)
      → ((j : K) → key.beq k j ≡ false → g j ≡ f j)
      → Distinct xs
      → mem k xs ≡ true
      → sum_over g xs + f k ≡ sum_over f xs + g k
  sum_over_change f g k [] h d m = cc
  sum_over_change f g k (x ∷ xs) h d m = elim (Bool-cases (key.beq k x)) [
    | inl same ↦
        let e : k ≡ x = key.beq_sound k x same in
        omega (
          arith,
          ap f e,
          ap g e,
          sum_over_congr g f xs (λ j mj. h j (mem_apart k j xs (rw e d.0) mj)),
        )
    | inr apart ↦ omega (arith, h x apart, sum_over_change f g k xs h d.1 (tail_mem x apart m))
  ]
    where
      tail_mem : (x : K) → key.beq k x ≡ false → mem k (x ∷ xs) ≡ true → mem k xs ≡ true
      tail_mem x apart m = ground (arith, beq_sym k x)

  pub sum_over-remove_first :
      (f : K → ℕ) (k : K) (xs : List K)
      → mem k xs ≡ true
      → sum_over f (remove_first k xs) + f k ≡ sum_over f xs
  sum_over-remove_first f k [] m = cc
  sum_over-remove_first f k (x ∷ xs) m = elim (Bool-cases (key.beq x k)) [
    | inl same ↦ rw same (omega (arith, ap f (key.beq_sound x k same)))
    | inr apart ↦ rw apart (omega (arith, sum_over-remove_first f k xs (rw apart at m)))
  ]

  pub sum_over-mem : (f : K → ℕ) (k : K) (xs : List K) → mem k xs ≡ true → f k ≤ sum_over f xs
  sum_over-mem f k [] m = cc
  sum_over-mem f k (x ∷ xs) m = elim (Bool-cases (key.beq x k)) [
    | inl same ↦ omega (arith, ap f (key.beq_sound x k same))
    | inr apart ↦ omega (arith, sum_over-mem f k xs (rw apart at m))
  ]
