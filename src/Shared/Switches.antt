-- ===== src/Shared/Switches.antt =====
-- contracts/shared_utils/src/pausable.rs and emergency.rs: two flags in instance storage, each of
-- which reads `false` while it is absent.
use commitlabs_contracts.Prelude.{Bool, true, false}
use commitlabs_contracts.Shared.Outcome.{
  Result, ok, ◌>>◌, require, reject_if, already_paused, already_unpaused, contract_paused,
  contract_not_paused, emergency_forbids, emergency_required,
}

-- Each function takes the flag, and returns its new value if it writes it.
unfoldable pub pause : Bool → Result Bool
pause paused = reject_if paused already_paused >> ok true

unfoldable pub unpause : Bool → Result Bool
unpause paused = require paused already_unpaused >> ok false

unfoldable pub require_not_paused : Bool → Result (Unit {0})
require_not_paused paused = reject_if paused contract_paused

unfoldable pub require_paused : Bool → Result (Unit {0})
require_paused paused = require paused contract_not_paused

unfoldable pub require_not_emergency : Bool → Result (Unit {0})
require_not_emergency emergency = reject_if emergency emergency_forbids

unfoldable pub require_emergency : Bool → Result (Unit {0})
require_emergency emergency = require emergency emergency_required
