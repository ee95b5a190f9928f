-- ===== src/Nft/Id.antt =====
-- `format_commitment_id` of contracts/commitment_nft/src/lib.rs.
use commitlabs_contracts.Prelude.{
  ℕ, ◌+◌, ◌/◌, ◌%◌, ◌<◌, ◌≡◌, false, [], ◌∷◌, arith, ltb, ◌==◌, if◌then◌else◌,
}
use commitlabs_contracts.Core.Types.{Bytes, bytes_eq}

-- "COMMIT_" and "MAX"
abbrev prefixed : Bytes → Bytes
prefixed rest = 67 ∷ 79 ∷ 77 ∷ 77 ∷ 73 ∷ 84 ∷ 95 ∷ rest

abbrev maximum : Bytes
maximum = 77 ∷ 65 ∷ 88 ∷ []

-- The hundred entries of the table are the numbers 0 to 99 in decimal.
unfoldable pub format_commitment_id : (token_id : ℕ) → Bytes
format_commitment_id token_id =
    if ltb token_id 10
    then prefixed ((48 + token_id) ∷ [])
    else (if ltb token_id 100
        then prefixed ((48 + token_id / 10) ∷ (48 + token_id % 10) ∷ [])
        else prefixed maximum)

-- The id of a token below 100 is not that of another token.
pub format-apart :
    (i j : ℕ)
    → j < 100
    → (i == j) ≡ false
    → bytes_eq (format_commitment_id i) (format_commitment_id j) ≡ false
unfolding format_commitment_id
format-apart i j small apart = ground arith
