-- ===== src/Versions/Contract.antt =====
-- The entry points of contracts/version-system/src/lib.rs that write, as calls, and runs of them.
use commitlabs_contracts.Prelude.{ℕ, Bool, false, none, List, [], ◌∷◌}
use commitlabs_contracts.Shared.Outcome.{Result, ok, panic}
use commitlabs_contracts.Versions
use commitlabs_contracts.Versions.{Version, Versions, Host}

pub data Call : Type 0 where
  initialize update_version : (caller : ℕ) → Version → List ℕ → Call
  update_minimum_version deprecate_version : (caller : ℕ) → Version → Call
  set_compatibility : (caller : ℕ) (v1 v2 : Version) → Bool → List ℕ → Call

unfoldable pub invoke : Host → Call → Versions → Result Versions
invoke env (Call.initialize who v text) s = Versions.initialize env who v text s
invoke env (Call.update_version who v text) s = Versions.update_version env who v text s
invoke env (Call.update_minimum_version who v) s = Versions.update_minimum_version env who v s
invoke env (Call.deprecate_version who v) s = Versions.deprecate_version env who v s
invoke env (Call.set_compatibility who v1 v2 verdict notes) s =
    Versions.set_compatibility env who v1 v2 verdict notes s

abbrev pub after : Versions → Result Versions → Versions
after s (ok s') = s'
after s (panic p) = s

unfoldable pub run : List (Host × Call) → Versions → Versions
unfolding invoke
run [] s = s
run ((env, call) ∷ rest) s = run rest (after s (invoke env call s))

abbrev pub deployed : Versions
deployed = record {
  current_version = none;
  minimum_version = none;
  version_history = none;
  version_count = none;
  metadata = λ _. none;
  compatibility = λ _ _. none;
  initialized = false;
}
