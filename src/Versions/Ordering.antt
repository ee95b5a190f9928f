-- ===== src/Versions/Ordering.antt =====
-- The order of versions, and the two functions of the code that decide it.
use commitlabs_contracts.Prelude.{
  ℕ, ◌+◌, ◌*◌, ◌^◌, ◌<◌, ◌≡◌, true, false, arith, ltb, if◌then◌else◌,
}
use commitlabs_contracts.Prelude.Int.{pos, negsuc, eq_ℤ, leb_ℤ}
use commitlabs_contracts.Versions.{
  Version, version_eq, compare_versions, is_valid_increment, default_compatibility_check,
}

-- The fields are `u32`.
abbrev pub IsU32 : Version → Type 0
IsU32 v = (v.major < 2 ^ 32) × (v.minor < 2 ^ 32) × (v.patch < 2 ^ 32)

-- A version as one number.
abbrev pub rank : Version → ℕ
rank v = (v.major * 2 ^ 32 + v.minor) * 2 ^ 32 + v.patch

-- Comparing two versions with 32-bit fields compares the numbers that the fields spell in base
-- 2^32, so it is a total order whose equality is that of the versions.
pub compare_versions-rank :
    (v w : Version)
    → IsU32 v
    → IsU32 w
    → compare_versions v w
      ≡ (if ltb (rank v) (rank w) then negsuc 0 else if ltb (rank w) (rank v) then pos 1 else pos 0)
unfolding compare_versions
compare_versions-rank v w a b = ground arith

-- The update rule accepts a version exactly if the comparison puts it above the current one.
pub is_valid_increment-compare_versions :
    (old new : Version) → is_valid_increment old new ≡ eq_ℤ (compare_versions old new) (negsuc 0)
unfolding is_valid_increment compare_versions
is_valid_increment-compare_versions old new = ground arith

pub compare_self : (v : Version) → compare_versions v v ≡ pos 0
unfolding compare_versions
compare_self v = ground arith

pub compare_below :
    (u v w : Version)
    → compare_versions u v ≡ negsuc 0
    → leb_ℤ (compare_versions v w) (pos 0) ≡ true
    → leb_ℤ (compare_versions u w) (pos 0) ≡ true
unfolding compare_versions
compare_below u v w h k = ground arith

pub compare_le :
    (u v w : Version)
    → leb_ℤ (compare_versions u v) (pos 0) ≡ true
    → compare_versions v w ≡ negsuc 0
    → leb_ℤ (compare_versions u w) (pos 0) ≡ true
unfolding compare_versions
compare_le u v w h k = ground arith

-- The version that the update rule accepts differs from every version up to the current one.
pub compare_apart :
    (v c n : Version)
    → leb_ℤ (compare_versions v c) (pos 0) ≡ true
    → compare_versions c n ≡ negsuc 0
    → version_eq n v ≡ false
unfolding compare_versions
compare_apart v c n h k = ground arith

pub default_compatibility_sym :
    (v w : Version) → default_compatibility_check v w ≡ default_compatibility_check w v
unfolding default_compatibility_check
default_compatibility_sym v w = ground arith
