-- ===== src/Core/Id.antt =====
-- `generate_commitment_id`: `COMMIT_` and the counter in decimal.
use mathlib.Core.List.{reverse, reverse-reverse}
use native.Mathlib.Nat.{pow-suc}
use commitlabs_contracts.Prelude.{
  ℕ, zero, suc, ◌+◌, ◌-◌, ◌*◌, ◌/◌, ◌%◌, ◌^◌, ◌<◌, ◌≤◌, ◌≡◌, ap, ◌∙◌, sym, [], ◌∷◌, ◌++◌, arith,
  ◌==◌, if◌then◌else◌, drop, length, Bool-cases, inl, inr,
}
use commitlabs_contracts.Core.Types.{Bytes}

-- The `while` loop, which fills `digits` from its start with the last digit first. `room` is how
-- many of the twenty places are left.
unfoldable pub digit_loop : (room n : ℕ) → Bytes
digit_loop zero n = []
digit_loop (suc room) n =
    let rest = digit_loop room (n / 10) in if n == 0 then [] else (n % 10 + b'0') ∷ rest

abbrev prefix : Bytes
prefix = b'C' ∷ b'O' ∷ b'M' ∷ b'M' ∷ b'I' ∷ b'T' ∷ b'_' ∷ []

-- The `for` loop copies the digits backwards. All bytes are ASCII, so `from_utf8` accepts them.
unfoldable pub generate_commitment_id : ℕ → Bytes
generate_commitment_id counter =
    prefix ++ (if counter == 0 then b'0' ∷ [] else reverse (digit_loop 20 counter))

-- The number that a string of decimal digits stands for, last digit first.
abbrev digits_value : Bytes → ℕ
digits_value [] = 0
digits_value (d ∷ ds) = (d - b'0') + 10 * digits_value ds

-- The counter that an id was made from.
pub parse_commitment_id : Bytes → ℕ
parse_commitment_id id = digits_value (reverse (drop 7 id))

digits_value-digit_loop : (room n : ℕ) → n < 10 ^ room → digits_value (digit_loop room n) ≡ n
unfolding digit_loop
digits_value-digit_loop zero n h = omega arith
digits_value-digit_loop (suc room) n h =
    let small : n / 10 < 10 ^ room = omega (arith, pow-suc 10 room) in
    ground (arith, digits_value-digit_loop room (n / 10) small)

length-digit_loop : (room n : ℕ) → length (digit_loop room n) ≤ room
unfolding digit_loop
length-digit_loop zero n = omega arith
length-digit_loop (suc room) n = ground (arith, length-digit_loop room (n / 10))

-- Every `u64` counter is read back from the id that it was made into.
pub parse-generate : (n : ℕ) → n < 2 ^ 64 → parse_commitment_id (generate_commitment_id n) ≡ n
unfolding parse_commitment_id generate_commitment_id
parse-generate n h = elim (Bool-cases (n == 0)) [
  | inl z ↦ rw z (ground arith)
  | inr p ↦ rw p (rw reverse-reverse (digits_value-digit_loop 20 n (omega arith)))
]

-- Different `u64` counters make different ids.
pub generate_commitment_id_injective :
    (m n : ℕ)
    → m < 2 ^ 64
    → n < 2 ^ 64
    → generate_commitment_id m ≡ generate_commitment_id n
    → m ≡ n
generate_commitment_id_injective m n h k e =
    sym (parse-generate m h) ∙ ap parse_commitment_id e ∙ parse-generate n k
