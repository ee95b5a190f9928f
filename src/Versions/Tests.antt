-- ===== src/Versions/Tests.antt =====
-- Concrete runs of the version registry.
use commitlabs_contracts.Prelude.{◌≡◌, refl, true, false, some, List, [], ◌∷◌}
use commitlabs_contracts.Shared.Outcome.{ok}
use commitlabs_contracts.Versions.{
  Version, VersionMetadata, Versions, Host, initialize, update_version, set_compatibility,
  new_metadata,
}
use commitlabs_contracts.Versions.Contract.{Call, invoke, after, run, deployed}
use commitlabs_contracts.Versions.Registry.{IsRegistry}
use commitlabs_contracts.Versions.Reachable.{run-IsRegistry}
use commitlabs_contracts.Versions.Permanence.{Keeps, run-Keeps}

abbrev host : Host
host = record { now = 1000; signed = λ _. true }

abbrev old_version : Version
old_version = record { major = 1; minor = 9; patch = 3 }

abbrev new_version : Version
new_version = record { major = 2; minor = 0; patch = 0 }

-- Version 1.9.3, an update to 2.0.0, and a declared compatibility of the two.
abbrev calls : List (Host × Call)
calls =
    (host, Call.initialize 7 old_version [])
    ∷ (host, Call.update_version 8 new_version (65 ∷ []))
    ∷ (host, Call.set_compatibility 7 old_version new_version true (66 ∷ []))
    ∷ []

abbrev registry : Versions
registry = run calls deployed

abbrev stored_old : VersionMetadata
stored_old = new_metadata host old_version [] 7

stored : registry.metadata old_version ≡ some stored_old
unfolding run invoke initialize update_version set_compatibility
stored = refl

current : registry.current_version ≡ some new_version
unfolding run invoke initialize update_version set_compatibility
current = refl

minimum : registry.minimum_version ≡ some old_version
unfolding run invoke initialize update_version set_compatibility
minimum = refl

run-IsRegistry_example : IsRegistry registry
run-IsRegistry_example = run-IsRegistry calls

run-Keeps_example :
    Keeps stored_old
      ((run ((host, Call.deprecate_version 9 old_version) ∷ []) registry).metadata old_version)
run-Keeps_example =
    run-Keeps ((host, Call.deprecate_version 9 old_version) ∷ []) registry old_version stored_old
      (run-IsRegistry calls) stored

abbrev declared : Versions
declared =
    after registry (set_compatibility host 7 new_version old_version false (67 ∷ []) registry)

declares : set_compatibility host 7 new_version old_version false (67 ∷ []) registry ≡ ok declared
unfolding run invoke initialize update_version set_compatibility
declares = refl
