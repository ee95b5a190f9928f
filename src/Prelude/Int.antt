-- ===== src/Prelude/Int.antt =====
-- Signed integers over the native numbers, under the library's names (its ℤ stands on the unary ℕ),
-- and the range of `i128`.
use commitlabs_contracts.Prelude.{
  ℕ, zero, suc, ◌+◌, ◌-◌, ◌*◌, ◌/◌, ◌^◌, ◌≤◌, ◌<◌, ◌≡◌, refl, ap, ◌⊎◌, Bool, true, false, arith,
  ltb, leb, ◌==◌, ◌&&◌, if◌then◌else◌,
}

-- `negsuc n` is -(n + 1).
pub data ℤ : Type 0 where
  pos : ℕ → ℤ
  negsuc : ℕ → ℤ

abbrev pub pos_part : ℤ → ℕ
pos_part (pos n) = n
pos_part (negsuc n) = 0

abbrev pub neg_part : ℤ → ℕ
neg_part (pos n) = 0
neg_part (negsuc n) = suc n

-- a - b, as an integer.
abbrev pub sub_ℕ : ℕ → ℕ → ℤ
sub_ℕ a b = if leb b a then pos (a - b) else negsuc (b - a - 1)

infixl 65 ◌+ℤ◌ ◌-ℤ◌
infixl 70 ◌*ℤ◌ ◌/ℤ◌
infix 50 ◌≤ℤ◌ ◌<ℤ◌
unfoldable pub ◌+ℤ◌ : ℤ → ℤ → ℤ
a +ℤ b = sub_ℕ (pos_part a + pos_part b) (neg_part a + neg_part b)

unfoldable pub ◌-ℤ◌ : ℤ → ℤ → ℤ
a -ℤ b = sub_ℕ (pos_part a + neg_part b) (neg_part a + pos_part b)

unfoldable pub ◌*ℤ◌ : ℤ → ℤ → ℤ
a *ℤ b =
    sub_ℕ (pos_part a * pos_part b + neg_part a * neg_part b)
      (pos_part a * neg_part b + neg_part a * pos_part b)

-- Division of machine integers truncates towards zero.
unfoldable pub ◌/ℤ◌ : ℤ → ℤ → ℤ
◌/ℤ◌ (pos a) (pos b) = pos (a / b)
◌/ℤ◌ (pos a) (negsuc b) = sub_ℕ 0 (a / suc b)
◌/ℤ◌ (negsuc a) (pos b) = sub_ℕ 0 (suc a / b)
◌/ℤ◌ (negsuc a) (negsuc b) = pos (suc a / suc b)

abbrev pub ◌≤ℤ◌ : ℤ → ℤ → Type 0
a ≤ℤ b = pos_part a + neg_part b ≤ pos_part b + neg_part a

abbrev pub ◌<ℤ◌ : ℤ → ℤ → Type 0
a <ℤ b = pos_part a + neg_part b < pos_part b + neg_part a

abbrev pub ltb_ℤ : ℤ → ℤ → Bool
ltb_ℤ a b = ltb (pos_part a + neg_part b) (pos_part b + neg_part a)

abbrev pub leb_ℤ : ℤ → ℤ → Bool
leb_ℤ a b = leb (pos_part a + neg_part b) (pos_part b + neg_part a)

abbrev pub eq_ℤ : ℤ → ℤ → Bool
eq_ℤ a b = pos_part a + neg_part b == pos_part b + neg_part a

-- `i128::MIN <= z <= i128::MAX`
abbrev pub in_i128 : ℤ → Bool
in_i128 z = ltb (pos_part z) (2 ^ 127) && leb (neg_part z) (2 ^ 127)

pub +ℤ_parts :
    (a b : ℤ)
    → pos_part (a +ℤ b) + neg_part a + neg_part b ≡ neg_part (a +ℤ b) + pos_part a + pos_part b
unfolding ◌+ℤ◌
+ℤ_parts a b = ground arith

pub -ℤ_parts :
    (a b : ℤ)
    → pos_part (a -ℤ b) + neg_part a + pos_part b ≡ neg_part (a -ℤ b) + pos_part a + neg_part b
unfolding ◌-ℤ◌
-ℤ_parts a b = ground arith

pub eq_of_parts : (a b : ℤ) → pos_part a + neg_part b ≡ pos_part b + neg_part a → a ≡ b
eq_of_parts a b h = ground arith

pub ruleset int_laws = (arith, +ℤ_parts, -ℤ_parts, eq_of_parts)

-- At numbers that are not negative the product is that of the naturals.
pub *ℤ_pos : (a b : ℕ) → pos a *ℤ pos b ≡ pos (a * b)
unfolding ◌*ℤ◌
*ℤ_pos a b = ground arith

-- A number is at least zero exactly when it is a natural.
pub nonneg_pos : (z : ℤ) → pos 0 ≤ℤ z → z ≡ pos (pos_part z)
nonneg_pos (pos n) h = refl
nonneg_pos (negsuc n) h = absurd (omega arith)

-- A total `t` of `n` that moves as `n` moves to `n'` becomes `n'`.
pub balance_moves :
    (t' t : ℤ) (n' n a b : ℕ) → t' +ℤ pos a ≡ t +ℤ pos b → t ≡ pos n → n' + a ≡ n + b → t' ≡ pos n'
balance_moves t' t n' n a b moved start sums = omega (
  arith,
  +ℤ_parts t' (pos a),
  +ℤ_parts t (pos b),
  ap pos_part moved,
  ap neg_part moved,
  ap pos_part start,
  ap neg_part start,
  eq_of_parts t' (pos n'),
)

pub add_pos : (m n : ℕ) → pos m +ℤ pos n ≡ pos (m + n)
unfolding ◌+ℤ◌
add_pos m n = ground arith

sub_pos_pos : (n a : ℕ) → a ≤ n → pos_part (pos n -ℤ pos a) ≡ n - a
unfolding ◌-ℤ◌
sub_pos_pos n a h = ground arith

sub_pos_neg : (n a : ℕ) → pos_part (pos n -ℤ negsuc a) ≡ n + suc a
unfolding ◌-ℤ◌
sub_pos_neg n a = ground arith

-- How a total moves with the value of one holding: by an amount taken, to another value, to nothing.
pub take_from_total :
    (t v a : ℤ) → pos 0 ≤ℤ v → a ≤ℤ v → t -ℤ a +ℤ pos (pos_part v) ≡ t +ℤ pos (pos_part (v -ℤ a))
take_from_total t (pos n) (pos a) h k = omega (int_laws, sub_pos_pos n a)
take_from_total t (pos n) (negsuc a) h k = omega (int_laws, sub_pos_neg n a)
take_from_total t (negsuc n) a h k = absurd (omega arith)

pub change_total :
    (t v w : ℤ) → pos 0 ≤ℤ v → pos 0 ≤ℤ w → t -ℤ v +ℤ w +ℤ pos (pos_part v) ≡ t +ℤ pos (pos_part w)
change_total t (pos n) (pos m) h k = omega int_laws
change_total t (pos n) (negsuc m) h k = absurd (omega arith)
change_total t (negsuc n) w h k = absurd (omega arith)

pub clear_total : (t v : ℤ) → pos 0 ≤ℤ v → t -ℤ v +ℤ pos (pos_part v) ≡ t +ℤ pos 0
clear_total t (pos n) h = omega int_laws
clear_total t (negsuc n) h = absurd (omega arith)

-- A subtraction that stops at zero does not stop early if the total holds the value.
pub settle_total :
    (t' t v : ℤ) (n : ℕ)
    → pos 0 ≤ℤ v
    → t ≡ pos n
    → pos_part v ≤ n
    → t' ≡ (if ltb_ℤ v t then t -ℤ v else pos 0)
    → t' +ℤ pos (pos_part v) ≡ t +ℤ pos 0
unfolding ◌+ℤ◌ ◌-ℤ◌
settle_total t' t (pos k) n h e le moved = rw (moved, e) (ground arith)
settle_total t' t (negsuc k) n h e le moved = absurd (omega arith)
