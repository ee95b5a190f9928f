-- ===== src/Market/Store.antt =====
-- The internal helpers of contracts/commitment_marketplace/src/lib.rs, its administration, and the
-- payments that several entry points make.
pub mod Effects
use commitlabs_contracts.Prelude.{
  ℕ, Bool, true, false, not, Option, none, some, is_some, List, [], ◌∷◌, ◌++◌, if◌then◌else◌,
  update, mem, remove_first, nat_key,
}
use commitlabs_contracts.Prelude.Int.{ℤ, pos, ltb_ℤ, leb_ℤ, ◌*ℤ◌, ◌-ℤ◌, ◌/ℤ◌}
use commitlabs_contracts.Shared.Outcome
use commitlabs_contracts.Shared.Outcome.{
  Result, ok, panic, ◌>>=◌, ◌>>◌, require, or_panic, call_failed, not_authorized,
}
use commitlabs_contracts.Shared.Math
use commitlabs_contracts.Core.Types.{Address, Env}
use commitlabs_contracts.Market.Types.{
  Market, Tokens, fail_if, or_fail, not_initialized, already_initialized, payment_token_not_allowed,
  reentrancy_detected,
}

-- What is left of a price after the fee in basis points, with the fee: `SafeMath` throughout.
unfoldable pub split_fee : (price : ℤ) (fee_basis_points : ℕ) → Result (ℤ × ℤ)
split_fee price fee_basis_points = do
  scaled ← Math.mul price (pos fee_basis_points)
  marketplace_fee ← Math.div scaled (pos 10000)
  seller_proceeds ← Math.sub price marketplace_fee
  ok (marketplace_fee, seller_proceeds)

-- The same with plain operators, whose overflow the release profile checks.
unfoldable pub split_fee_plain : (price : ℤ) (fee_basis_points : ℕ) → Result (ℤ × ℤ)
split_fee_plain price fee_basis_points = do
  scaled ← Math.checked (price *ℤ pos fee_basis_points) Outcome.arithmetic_overflow
  let marketplace_fee = scaled /ℤ pos 10000
  seller_proceeds ← Math.checked (price -ℤ marketplace_fee) Outcome.arithmetic_overflow
  ok (marketplace_fee, seller_proceeds)

unfoldable pub require_auth : Env → Address → Result (Unit {0})
require_auth env who = require (env.signed who) not_authorized

module _ {W : Type 0} where
  unfoldable pub enter : Market W → Result (Market W)
  enter s = do
    fail_if s.reentrancy_guard reentrancy_detected
    ok (record s { reentrancy_guard = true })

  abbrev pub leave : Market W → Market W
  leave s = record s { reentrancy_guard = false }

  unfoldable pub require_admin : Env → Market W → Result (Unit {0})
  unfolding require_auth
  require_admin env s = do admin ← or_fail s.admin not_initialized; require_auth env admin

  unfoldable pub require_allowed_payment_token : Market W → Address → Result (Unit {0})
  require_allowed_payment_token s payment_token =
      fail_if (not (s.allowed_payment_token payment_token)) payment_token_not_allowed

  unfoldable pub remove_listing : ℕ → Market W → Market W
  remove_listing token_id s = record s {
    listing = update s.listing token_id none;
    active_listings = remove_first token_id s.active_listings;
  }

  abbrev pub transferred : Option W → Market W → Result (Market W)
  transferred none s = panic call_failed
  transferred (some w) s = ok (record s { world = w })

  -- The proceeds go to the seller, and the fee, if there is one, to its recipient.
  unfoldable pub pay :
      Tokens W
      → (payment_token payer seller fee_recipient : Address) (seller_proceeds marketplace_fee : ℤ)
      → Market W
      → Result (Market W)
  pay x payment_token payer seller fee_recipient seller_proceeds marketplace_fee s = do
    paid ← transferred (x.transfer payment_token payer seller seller_proceeds s.world) s
    if ltb_ℤ (pos 0) marketplace_fee
        then transferred (x.transfer payment_token payer fee_recipient marketplace_fee paid.world)
            paid
        else ok paid

module _ {W : Type 0} (env : Env) where
  unfoldable pub initialize :
      (admin nft_contract : Address) (fee_basis_points : ℕ) (fee_recipient : Address)
      → Market W
      → Result (Market W)
  unfolding require_auth
  initialize admin nft_contract fee_basis_points fee_recipient s = do
    fail_if (is_some s.admin) already_initialized
    require_auth env admin
    ok (record s {
      admin = some admin;
      nft_contract = some nft_contract;
      marketplace_fee = fee_basis_points;
      fee_recipient = some fee_recipient;
      active_listings = [];
      active_auctions = [];
      allowed_payment_tokens = [];
    })

  unfoldable pub update_fee : (fee_basis_points : ℕ) → Market W → Result (Market W)
  unfolding require_admin
  update_fee fee_basis_points s = do
    require_admin env s
    ok (record s { marketplace_fee = fee_basis_points })

  unfoldable pub add_payment_token : (payment_token : Address) → Market W → Result (Market W)
  unfolding require_admin
  add_payment_token payment_token s = do
    require_admin env s
    if s.allowed_payment_token payment_token
        then ok s
        else ok (record s {
          allowed_payment_token = update s.allowed_payment_token payment_token true;
          allowed_payment_tokens = s.allowed_payment_tokens ++ (payment_token ∷ []);
        })

  unfoldable pub remove_payment_token : (payment_token : Address) → Market W → Result (Market W)
  unfolding require_admin
  remove_payment_token payment_token s = do
    require_admin env s
    ok (record s {
      allowed_payment_token = update s.allowed_payment_token payment_token false;
      allowed_payment_tokens = remove_first payment_token s.allowed_payment_tokens;
    })
