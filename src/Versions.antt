-- ===== src/Versions.antt =====
-- contracts/version-system/src/lib.rs: the registry of protocol versions.

pub mod Tests
pub mod Ordering
pub mod Contract
pub mod Registry
pub mod Reachable
pub mod Permanence
use commitlabs_contracts.Prelude.{
  ℕ, ◌+◌, ◌^◌, ◌≡◌, refl, Bool, true, false, not, ◌&&◌, Option, none, some, List, [], ◌∷◌, ◌++◌,
  arith, ltb, leb, ◌==◌, if◌then◌else◌, update, Key,
}
use commitlabs_contracts.Prelude.Int.{ℤ, pos, negsuc, leb_ℤ, ltb_ℤ}
use commitlabs_contracts.Shared.Outcome.{
  Result, ok, panic, ◌>>=◌, ◌>>◌, require, reject_if, or_panic, already_initialized,
  not_initialized, invalid_version_increment, version_not_found, minimum_above_current,
  already_deprecated, unwrap_none, not_authorized, arithmetic_overflow,
}

pub record Version : Type 0 where
  pub major : ℕ
  pub minor : ℕ
  pub patch : ℕ

abbrev pub version_eq : Version → Version → Bool
version_eq v w = v.major == w.major && (v.minor == w.minor && v.patch == w.patch)

pub version_eq_refl : (v : Version) → version_eq v v ≡ true
version_eq_refl v = ground arith

pub version_eq_sound : (v w : Version) → version_eq v w ≡ true → v ≡ w
version_eq_sound v w h = ground arith

instance abbrev pub version_key : Key Version
version_key = record { beq = version_eq; beq_refl = version_eq_refl; beq_sound = version_eq_sound }

pub record VersionMetadata : Type 0 where
  pub version : Version
  pub timestamp : ℕ
  pub description : List ℕ
  pub deployed_by : ℕ
  pub deprecated : Bool

pub record CompatibilityInfo : Type 0 where
  pub is_compatible : Bool
  pub notes : List ℕ
  pub checked_at : ℕ

-- The storage, one field for each `DataKey`.
pub record Versions : Type 0 where
  pub current_version : Option Version
  pub minimum_version : Option Version
  pub version_history : Option (List Version)
  pub version_count : Option ℕ
  pub metadata : Version → Option VersionMetadata
  pub compatibility : Version → Version → Option CompatibilityInfo
  pub initialized : Bool

-- The ledger timestamp and who signed the invocation.
pub record Host : Type 0 where
  pub now : ℕ
  pub signed : ℕ → Bool

-- The version of the binary.
abbrev pub contract_version : Version
contract_version = record { major = 0; minor = 1; patch = 0 }

unfoldable pub compare_versions : Version → Version → ℤ
compare_versions v w =
    if not (v.major == w.major)
    then (if ltb w.major v.major then pos 1 else negsuc 0)
    else if not (v.minor == w.minor)
    then (if ltb w.minor v.minor then pos 1 else negsuc 0)
    else if not (v.patch == w.patch)
    then (if ltb w.patch v.patch then pos 1 else negsuc 0)
    else pos 0

unfoldable pub is_valid_increment : (old new : Version) → Bool
is_valid_increment old new =
    if not (old.major == new.major)
    then (if ltb new.major old.major then false else true)
    else if not (old.minor == new.minor)
    then (if ltb new.minor old.minor then false else old.major == new.major)
    else if not (old.patch == new.patch)
    then (if ltb new.patch old.patch
        then false
        else old.major == new.major && old.minor == new.minor)
    else false

unfoldable pub binary_meets_minimum : Version → Bool
unfolding compare_versions
binary_meets_minimum required = leb_ℤ (pos 0) (compare_versions contract_version required)

unfoldable pub require_initialized : Versions → Result (Unit {0})
require_initialized s = require s.initialized not_initialized

unfoldable pub require_auth : Host → ℕ → Result (Unit {0})
require_auth env who = require (env.signed who) not_authorized

-- The metadata that `initialize` and `update_version` store.
abbrev pub new_metadata : Host → Version → List ℕ → (deployed_by : ℕ) → VersionMetadata
new_metadata env version description deployed_by = record {
  version = version;
  timestamp = env.now;
  description = description;
  deployed_by = deployed_by;
  deprecated = false;
}

module _ (env : Host) where
  unfoldable pub initialize : (deployer : ℕ) → Version → List ℕ → Versions → Result Versions
  unfolding require_auth
  initialize deployer version description s = do
    require_auth env deployer
    reject_if s.initialized already_initialized
    ok (record s {
      current_version = some version;
      minimum_version = some version;
      metadata = update s.metadata version (some (new_metadata env version description deployer));
      version_history = some (version ∷ []);
      version_count = some 1;
      initialized = true;
    })

  unfoldable pub update_version : (updater : ℕ) → Version → List ℕ → Versions → Result Versions
  unfolding require_auth require_initialized is_valid_increment
  update_version updater new_version description s = do
    require_auth env updater
    require_initialized s
    current_version ← or_panic s.current_version unwrap_none
    require (is_valid_increment current_version new_version) invalid_version_increment
    history ← or_panic s.version_history unwrap_none
    count ← or_panic s.version_count unwrap_none
    reject_if (leb (2 ^ 32) (count + 1)) arithmetic_overflow
    ok (record s {
      current_version = some new_version;
      metadata =
          update s.metadata new_version (some (new_metadata env new_version description updater));
      version_history = some (history ++ (new_version ∷ []));
      version_count = some (count + 1);
    })

  unfoldable pub update_minimum_version : (updater : ℕ) → Version → Versions → Result Versions
  unfolding require_auth require_initialized compare_versions
  update_minimum_version updater new_min s = do
    require_auth env updater
    require_initialized s
    current ← or_panic s.current_version unwrap_none
    reject_if (ltb_ℤ (pos 0) (compare_versions new_min current)) minimum_above_current
    ok (record s { minimum_version = some new_min })

  unfoldable pub deprecate_version : (admin : ℕ) → Version → Versions → Result Versions
  unfolding require_auth require_initialized
  deprecate_version admin version s = do
    require_auth env admin
    require_initialized s
    found ← or_panic (s.metadata version) version_not_found
    reject_if found.deprecated already_deprecated
    ok (record s {
      metadata = update s.metadata version (some (record found { deprecated = true }));
    })

  unfoldable pub set_compatibility :
      (admin : ℕ) (v1 v2 : Version) → Bool → List ℕ → Versions → Result Versions
  unfolding require_auth require_initialized
  set_compatibility admin v1 v2 is_compatible notes s = do
    require_auth env admin
    require_initialized s
    let info : CompatibilityInfo = record {
      is_compatible = is_compatible;
      notes = notes;
      checked_at = env.now;
    }
    let first = update s.compatibility v1 (update (s.compatibility v1) v2 (some info))
    ok (record s { compatibility = update first v2 (update (first v2) v1 (some info)) })

unfoldable pub is_version_supported : Version → Versions → Result Bool
unfolding require_initialized compare_versions
is_version_supported version s = do
  require_initialized s
  min_version ← or_panic s.minimum_version unwrap_none
  current_version ← or_panic s.current_version unwrap_none
  let min_cmp = compare_versions version min_version
  let max_cmp = compare_versions version current_version
  ok (leb_ℤ (pos 0) min_cmp && leb_ℤ max_cmp (pos 0))

unfoldable pub meets_minimum_version : Version → Versions → Result Bool
unfolding require_initialized compare_versions
meets_minimum_version required s = do
  require_initialized s
  current ← or_panic s.current_version unwrap_none
  ok (leb_ℤ (pos 0) (compare_versions current required))

unfoldable pub is_version_deprecated : Version → Versions → Result Bool
unfolding require_initialized
is_version_deprecated version s = do
  require_initialized s
  elim (s.metadata version) [ none ↦ ok false | some found ↦ ok found.deprecated ]

-- The explanation of a verdict: one of the literal texts, or the notes that were stored.
pub data Notes : Type 0 where
  same_major different_major zero_same_minor zero_different_minor unknown : Notes
  given : List ℕ → Notes

unfoldable pub default_compatibility_check : Version → Version → Bool × Notes
default_compatibility_check v1 v2 =
    if v1.major == v2.major && ltb 0 v1.major
    then (true, same_major)
    else if not (v1.major == v2.major)
    then (false, different_major)
    else if v1.major == 0 && v2.major == 0
    then (if v1.minor == v2.minor then (true, zero_same_minor) else (false, zero_different_minor))
    else (false, unknown)

unfoldable pub check_compatibility : Version → Version → Versions → Result (Bool × Notes)
unfolding require_initialized default_compatibility_check
check_compatibility v1 v2 s = do
  require_initialized s
  elim (s.compatibility v1 v2) [
    | some info ↦ ok (info.is_compatible, given info.notes)
    | none ↦ ok (default_compatibility_check v1 v2)
  ]

unfoldable pub is_client_compatible : Version → Versions → Result Bool
unfolding require_initialized check_compatibility
is_client_compatible client_version s = do
  require_initialized s
  current ← or_panic s.current_version unwrap_none
  (compatible, _) ← check_compatibility client_version current s
  ok compatible
