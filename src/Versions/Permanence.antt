-- ===== src/Versions/Permanence.antt =====
-- What a registered version keeps for ever, and what the readers of a valid registry answer.
use commitlabs_contracts.Prelude.{
  ℕ, ◌≡◌, refl, sym, ap, ◌∙◌, Bool, true, false, not, ◌&&◌, Option, none, some, is_some, List, [],
  ◌∷◌, arith, mem, Bool-cases, Option-cases, inl, inr,
}
use commitlabs_contracts.Prelude.Int.{pos, negsuc, leb_ℤ}
use commitlabs_contracts.Shared.Outcome.{Result, ok, panic}
use commitlabs_contracts.Versions.{
  Version, version_eq, version_key, version_eq_refl, version_eq_sound, VersionMetadata, Versions,
  Host, compare_versions, require_auth, require_initialized, initialize, update_version,
  update_minimum_version, deprecate_version, set_compatibility, is_version_supported,
  check_compatibility, given,
}
use commitlabs_contracts.Versions.Ordering.{
  compare_apart, default_compatibility_sym, is_valid_increment-compare_versions,
}
use commitlabs_contracts.Versions.Contract.{Call, invoke, after, run}
use commitlabs_contracts.Versions.Registry.{
  IsRegistry, fresh, live, Ascends-le, initialize_effect, update_version_effect,
  deprecate_version_effect, set_compatibility_effect, set_compatibility_at,
}
use commitlabs_contracts.Versions.Reachable.{eq_ℤ_sound, after-IsRegistry}

-- Metadata that is still there: its deprecation may have been set, and nothing else has changed.
abbrev pub Keeps : VersionMetadata → Option VersionMetadata → Type 0
Keeps d none = ⊥
Keeps d (some d') =
    (d'.version ≡ d.version)
    × (d'.timestamp ≡ d.timestamp)
    × (d'.description ≡ d.description)
    × (d'.deployed_by ≡ d.deployed_by)
    × ((d.deprecated && not d'.deprecated) ≡ false)

Keeps-same : (d : VersionMetadata) (o : Option VersionMetadata) → o ≡ some d → Keeps d o
Keeps-same d none e = absurd (ground arith)
Keeps-same d (some d') e = ground arith

Keeps-deprecated :
    (d found : VersionMetadata) (o : Option VersionMetadata)
    → some found ≡ some d
    → o ≡ some (record found { deprecated = true })
    → Keeps d o
Keeps-deprecated d found none e k = absurd (ground arith)
Keeps-deprecated d found (some d') e k = ground arith

Keeps-some :
    (d : VersionMetadata) (o : Option VersionMetadata)
    → Keeps d o
    → (d' : VersionMetadata) × (o ≡ some d') × Keeps d (some d')
Keeps-some d none k = absurd k
Keeps-some d (some d') k = (d', refl, k)

Keeps-trans :
    (d d' : VersionMetadata) (o : Option VersionMetadata)
    → Keeps d (some d')
    → Keeps d' o
    → Keeps d o
Keeps-trans d d' none k l = l
Keeps-trans d d' (some d'') k l = ground arith

module _ (env : Host) (who : ℕ) (s s' : Versions) (v : Version) (d : VersionMetadata)
    (was : s.metadata v ≡ some d) where
  update_version-Keeps :
      (n : Version) (text : List ℕ)
      → IsRegistry s
      → update_version env who n text s ≡ ok s'
      → Keeps d (s'.metadata v)
  update_version-Keeps n text (fresh off none_stored none_set) e =
      absurd (ground (arith, none_stored v))
  update_version-Keeps n text (live c m h on cur low hist cnt le asc metas compat) e =
      let (step, _, _, _, _, _, metas', _) =
        update_version_effect env who n s s' c h text cur hist cnt e in
      let up : compare_versions c n ≡ negsuc 0 =
        eq_ℤ_sound _ _ (sym (is_valid_increment-compare_versions c n) ∙ step) in
      let listed : mem v h ≡ true = sym (metas v) ∙ ap is_some was in
      let other : version_eq n v ≡ false = compare_apart v c n (Ascends-le h c v asc listed) up in
      Keeps-same d _ (ap (λ f. f v) metas' ∙ ground (arith, other))

  deprecate_version-Keeps :
      (n : Version) → deprecate_version env who n s ≡ ok s' → Keeps d (s'.metadata v)
  unfolding deprecate_version require_auth require_initialized
  deprecate_version-Keeps n e = elim (Option-cases (s.metadata n)) [
    | inl absent ↦ absurd (ground arith)
    | inr (found, at) ↦
        let (_, _, _, _, _, _, metas', _) = deprecate_version_effect env who n s s' found at e in
        elim (Bool-cases (version_eq n v)) [
          | inl same ↦
              Keeps-deprecated d found _ (sym at ∙ ap s.metadata (version_eq_sound n v same) ∙ was)
                (rw (metas', same) refl)
          | inr apart ↦ Keeps-same d _ (rw (metas', apart) was)
        ]
  ]

  update_minimum_version-Keeps :
      (n : Version) → update_minimum_version env who n s ≡ ok s' → Keeps d (s'.metadata v)
  unfolding update_minimum_version require_auth require_initialized
  update_minimum_version-Keeps n e = Keeps-same d _ (ground arith)

  initialize-Keeps :
      (n : Version) (text : List ℕ)
      → IsRegistry s
      → initialize env who n text s ≡ ok s'
      → Keeps d (s'.metadata v)
  initialize-Keeps n text (fresh off none_stored none_set) e =
      absurd (ground (arith, none_stored v))
  initialize-Keeps n text (live c m h on _ _ _ _ _ _ _ _) e =
      absurd (ground (arith, (initialize_effect env who n text s s' e).0))

invoke-Keeps :
    (env : Host) (call : Call) (s s' : Versions) (v : Version) (d : VersionMetadata)
    → IsRegistry s
    → s.metadata v ≡ some d
    → invoke env call s ≡ ok s'
    → Keeps d (s'.metadata v)
unfolding invoke
invoke-Keeps env (Call.initialize who n text) s s' v d good was e =
    initialize-Keeps env who s s' v d was n text good e
invoke-Keeps env (Call.update_version who n text) s s' v d good was e =
    update_version-Keeps env who s s' v d was n text good e
invoke-Keeps env (Call.update_minimum_version who n) s s' v d good was e =
    update_minimum_version-Keeps env who s s' v d was n e
invoke-Keeps env (Call.deprecate_version who n) s s' v d good was e =
    deprecate_version-Keeps env who s s' v d was n e
invoke-Keeps env (Call.set_compatibility who v1 v2 verdict notes) s s' v d good was e =
    let (_, _, _, _, _, _, metas') = set_compatibility_effect env who v1 s s' v2 verdict notes e in
    Keeps-same d _ (rw metas' was)

after-Keeps :
    (env : Host) (call : Call) (s : Versions) (v : Version) (d : VersionMetadata)
    (r : Result Versions)
    → invoke env call s ≡ r
    → IsRegistry s
    → s.metadata v ≡ some d
    → Keeps d ((after s r).metadata v)
after-Keeps env call s v d (ok s') e good was = invoke-Keeps env call s s' v d good was e
after-Keeps env call s v d (panic p) e good was = Keeps-same d _ was

-- The metadata of a registered version of a valid registry outlives all further calls: its version,
-- timestamp, description and registrant never change, and a deprecation is never taken back.
pub run-Keeps :
    (calls : List (Host × Call)) (s : Versions) (v : Version) (d : VersionMetadata)
    → IsRegistry s
    → s.metadata v ≡ some d
    → Keeps d ((run calls s).metadata v)
unfolding run
run-Keeps [] s v d good was = Keeps-same d _ was
run-Keeps ((env, call) ∷ rest) s v d good was =
    let (d', there, kept) = Keeps-some d _ (after-Keeps env call s v d _ refl good was) in
    Keeps-trans d d' _ kept (run-Keeps rest _ v d' (after-IsRegistry env call s _ refl good) there)

-- In a valid registry compatibility does not depend on the order of the two versions.
pub check_compatibility_sym :
    (s : Versions) (v w : Version)
    → IsRegistry s
    → check_compatibility v w s ≡ check_compatibility w v s
unfolding check_compatibility require_initialized
check_compatibility_sym s v w (fresh off none_stored none_set) = rw off refl
check_compatibility_sym s v w (live c m h on cur low hist cnt le asc metas compat) =
    ground (arith, on, compat v w, default_compatibility_sym v w)

-- After a successful `set_compatibility` the two versions have the given verdict and notes in both
-- orders, whatever the default rule says.
pub set_compatibility_lem :
    (env : Host) (who : ℕ) (v w : Version) (verdict : Bool) (notes : List ℕ) (s s' : Versions)
    → set_compatibility env who v w verdict notes s ≡ ok s'
    → (check_compatibility v w s' ≡ ok (verdict, given notes))
      × (check_compatibility w v s' ≡ ok (verdict, given notes))
unfolding check_compatibility require_initialized
set_compatibility_lem env who v w verdict notes s s' e =
    let (on', on, _, _, _, _, _) = set_compatibility_effect env who v s s' w verdict notes e in
    let forth = set_compatibility_at env who v s s' w verdict notes v w e in
    let back = set_compatibility_at env who v s s' w verdict notes w v e in
    ground (arith, forth, back, version_eq_refl v, version_eq_refl w)

-- In a valid registry a registered version is supported exactly if it is not below the minimum.
pub is_version_supported_lem :
    (s : Versions) (v m : Version) (d : VersionMetadata)
    → IsRegistry s
    → s.metadata v ≡ some d
    → s.minimum_version ≡ some m
    → is_version_supported v s ≡ ok (leb_ℤ (pos 0) (compare_versions v m))
unfolding is_version_supported require_initialized
is_version_supported_lem s v m d (fresh off none_stored none_set) was low =
    absurd (ground (arith, none_stored v))
is_version_supported_lem s v m d (live c m' h on cur low' hist cnt le asc metas compat) was low =
    let listed : mem v h ≡ true = sym (metas v) ∙ ap is_some was in
    let top : leb_ℤ (compare_versions v c) (pos 0) ≡ true = Ascends-le h c v asc listed in
    rw (on, low, cur, top) (ground arith)
