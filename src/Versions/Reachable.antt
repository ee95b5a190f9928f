-- ===== src/Versions/Reachable.antt =====
-- Every reachable registry is valid; what follows for its readers.
use commitlabs_contracts.Prelude.{
  ℕ, ◌≡◌, refl, sym, ap, ◌∙◌, Bool, true, ◌||◌, Option, some, is_some, List, [], ◌∷◌, ◌++◌, arith,
  update, length-append, mem-append, Option-cases, inl, inr,
}
use commitlabs_contracts.Prelude.Int.{ℤ, pos, negsuc, leb_ℤ, eq_ℤ}
use commitlabs_contracts.Shared.Outcome.{Result, ok, panic}
use commitlabs_contracts.Versions.{
  Version, version_eq, version_key, version_eq_sound, Versions, Host, compare_versions,
  require_auth, require_initialized, initialize, update_version, update_minimum_version,
  deprecate_version, set_compatibility,
}
use commitlabs_contracts.Versions.Ordering.{
  compare_self, compare_le, is_valid_increment-compare_versions,
}
use commitlabs_contracts.Versions.Contract.{Call, invoke, after, run, deployed}
use commitlabs_contracts.Versions.Registry.{
  IsRegistry, fresh, live, Ascends-snoc, initialize_effect, update_version_effect,
  update_minimum_version_effect, deprecate_version_effect, set_compatibility_effect,
  set_compatibility_at,
}

pub eq_ℤ_sound : (a b : ℤ) → eq_ℤ a b ≡ true → a ≡ b
eq_ℤ_sound a b h = ground arith

-- Storing metadata for a version adds it, and nothing else, to the versions that have some.
is_some-update :
    {V : Type 0} (f : Version → Option V) (n v : Version) (a : V)
    → is_some (update f n (some a) v) ≡ (version_eq n v || is_some (f v))
is_some-update f n v a = ground arith

module _ (env : Host) (who : ℕ) (s s' : Versions) where
  initialize-IsRegistry :
      (v : Version) (text : List ℕ)
      → IsRegistry s
      → initialize env who v text s ≡ ok s'
      → IsRegistry s'
  initialize-IsRegistry v text (live c m h on _ _ _ _ _ _ _ _) e =
      absurd (ground (arith, (initialize_effect env who v text s s' e).0))
  initialize-IsRegistry v text (fresh off none_stored none_set) e =
      let (_, on, cur, low, hist, cnt, metas, compat) = initialize_effect env who v text s s' e in
      live v v (v ∷ []) on cur low hist cnt (ap (λ z. leb_ℤ z (pos 0)) (compare_self v)) refl
        (λ w. rw metas (ground (arith, none_stored w)))
        (λ a b. rw compat (none_set a b ∙ sym (none_set b a)))

  update_version-IsRegistry :
      (n : Version) (text : List ℕ)
      → IsRegistry s
      → update_version env who n text s ≡ ok s'
      → IsRegistry s'
  unfolding update_version require_auth require_initialized
  update_version-IsRegistry n text (fresh off none_stored none_set) e = absurd (ground arith)
  update_version-IsRegistry n text (live c m h on cur low hist cnt le asc metas compat) e =
      let (step, on', cur', low', hist', cnt', metas', compat') =
        update_version_effect env who n s s' c h text cur hist cnt e in
      let up : compare_versions c n ≡ negsuc 0 =
        eq_ℤ_sound _ _ (sym (is_valid_increment-compare_versions c n) ∙ step) in
      live n m (h ++ (n ∷ [])) (on' ∙ on) cur' (low' ∙ low) hist'
        (cnt' ∙ ap some (sym (length-append h (n ∷ [])))) (compare_le m c n le up)
        (Ascends-snoc h c n asc up)
        (λ v. ap is_some (ap (λ f. f v) metas') ∙ ground (arith, metas v, mem-append v h (n ∷ [])))
        (λ a b. rw compat' (compat a b))

  update_minimum_version-IsRegistry :
      (n : Version) → IsRegistry s → update_minimum_version env who n s ≡ ok s' → IsRegistry s'
  unfolding update_minimum_version require_auth require_initialized
  update_minimum_version-IsRegistry n (fresh off none_stored none_set) e = absurd (ground arith)
  update_minimum_version-IsRegistry n (live c m h on cur low hist cnt le asc metas compat) e =
      let (le', on', cur', low', hist', cnt', metas', compat') =
        update_minimum_version_effect env who n s s' c cur e in
      live c n h (on' ∙ on) (cur' ∙ cur) low' (hist' ∙ hist) (cnt' ∙ cnt) le' asc
        (λ v. rw metas' (metas v)) (λ a b. rw compat' (compat a b))

  deprecate_version-IsRegistry :
      (n : Version) → IsRegistry s → deprecate_version env who n s ≡ ok s' → IsRegistry s'
  unfolding deprecate_version require_auth require_initialized
  deprecate_version-IsRegistry n (fresh off none_stored none_set) e = absurd (ground arith)
  deprecate_version-IsRegistry n (live c m h on cur low hist cnt le asc metas compat) e =
      elim (Option-cases (s.metadata n)) [
        | inl absent ↦ absurd (ground arith)
        | inr (d, found) ↦
            let (_, on', cur', low', hist', cnt', metas', compat') =
              deprecate_version_effect env who n s s' d found e in
            live c m h (on' ∙ on) (cur' ∙ cur) (low' ∙ low) (hist' ∙ hist) (cnt' ∙ cnt) le asc
              (λ v.
                ap is_some (ap (λ f. f v) metas')
                ∙ ground (arith, found, metas v, metas n, version_eq_sound n v))
              (λ a b. rw compat' (compat a b))
      ]

  set_compatibility-IsRegistry :
      (v1 v2 : Version) (verdict : Bool) (notes : List ℕ)
      → IsRegistry s
      → set_compatibility env who v1 v2 verdict notes s ≡ ok s'
      → IsRegistry s'
  set_compatibility-IsRegistry v1 v2 verdict notes (fresh off none_stored none_set) e =
      let (_, on, _, _, _, _, _) = set_compatibility_effect env who v1 s s' v2 verdict notes e in
      absurd (ground arith)
  set_compatibility-IsRegistry v1 v2 verdict notes
        (live c m h on cur low hist cnt le asc metas compat) e =
      let (on', _, cur', low', hist', cnt', metas') =
        set_compatibility_effect env who v1 s s' v2 verdict notes e in
      live c m h (on' ∙ on) (cur' ∙ cur) (low' ∙ low) (hist' ∙ hist) (cnt' ∙ cnt) le asc
        (λ v. rw metas' (metas v))
        (λ a b. ground (
          arith,
          set_compatibility_at env who v1 s s' v2 verdict notes a b e,
          set_compatibility_at env who v1 s s' v2 verdict notes b a e,
          compat a b,
        ))

pub invoke-IsRegistry :
    (env : Host) (call : Call) (s s' : Versions)
    → IsRegistry s
    → invoke env call s ≡ ok s'
    → IsRegistry s'
unfolding invoke
invoke-IsRegistry env (Call.initialize who v text) s s' good e =
    initialize-IsRegistry env who s s' v text good e
invoke-IsRegistry env (Call.update_version who v text) s s' good e =
    update_version-IsRegistry env who s s' v text good e
invoke-IsRegistry env (Call.update_minimum_version who v) s s' good e =
    update_minimum_version-IsRegistry env who s s' v good e
invoke-IsRegistry env (Call.deprecate_version who v) s s' good e =
    deprecate_version-IsRegistry env who s s' v good e
invoke-IsRegistry env (Call.set_compatibility who v1 v2 verdict notes) s s' good e =
    set_compatibility-IsRegistry env who s s' v1 v2 verdict notes good e

pub after-IsRegistry :
    (env : Host) (call : Call) (s : Versions) (r : Result Versions)
    → invoke env call s ≡ r
    → IsRegistry s
    → IsRegistry (after s r)
after-IsRegistry env call s (ok s') e good = invoke-IsRegistry env call s s' good e
after-IsRegistry env call s (panic p) e good = good

run_from : (calls : List (Host × Call)) (s : Versions) → IsRegistry s → IsRegistry (run calls s)
unfolding run
run_from [] s good = good
run_from ((env, call) ∷ rest) s good = run_from rest _ (after-IsRegistry env call s _ refl good)

-- After any calls to a newly deployed registry it is untouched, or its history ascends strictly to
-- the current version, metadata is stored for exactly the versions of the history, the count is the
-- length of the history, the minimum is at most the current version, and the compatibility table is
-- symmetric.
pub run-IsRegistry : (calls : List (Host × Call)) → IsRegistry (run calls deployed)
run-IsRegistry calls = run_from calls deployed (fresh refl (λ v. refl) (λ v w. refl))
