-- ===== src/Versions/Registry.antt =====
-- What holds of every reachable registry, and the effect of each operation.
use commitlabs_contracts.Prelude.{
  ℕ, ◌+◌, ◌≡◌, refl, sym, ap, ◌∙◌, Bool, true, false, ◌&&◌, ◌||◌, none, some, is_some, List, [],
  ◌∷◌, ◌++◌, arith, if◌then◌else◌, update, mem, length, Bool-cases, inl, inr,
}
use commitlabs_contracts.Prelude.Int.{pos, negsuc, leb_ℤ}
use commitlabs_contracts.Shared.Outcome.{ok}
use commitlabs_contracts.Versions.{
  Version, version_eq, version_key, version_eq_sound, VersionMetadata, Versions, Host,
  compare_versions, is_valid_increment, new_metadata, require_auth, require_initialized, initialize,
  update_version, update_minimum_version, deprecate_version, set_compatibility,
}
use commitlabs_contracts.Versions.Ordering.{compare_self, compare_below}

-- Each version of a history is below the next one, and the last is the given one.
abbrev pub Ascends : List Version → Version → Type 0
Ascends [] c = ⊥
Ascends (v ∷ []) c = v ≡ c
Ascends (v ∷ w ∷ rest) c = (compare_versions v w ≡ negsuc 0) × Ascends (w ∷ rest) c

-- A history that is never empty goes up to the current version, metadata is stored exactly for its
-- versions, the count is its length, the minimum is not above the current version, and the
-- compatibility table is symmetric.
pub data IsRegistry (s : Versions) : Type 0 where
  fresh :
      s.initialized ≡ false
      → ((v : Version) → s.metadata v ≡ none)
      → ((v w : Version) → s.compatibility v w ≡ none)
      → IsRegistry s
  live :
      (c m : Version) (h : List Version)
      → s.initialized ≡ true
      → s.current_version ≡ some c
      → s.minimum_version ≡ some m
      → s.version_history ≡ some h
      → s.version_count ≡ some (length h)
      → leb_ℤ (compare_versions m c) (pos 0) ≡ true
      → Ascends h c
      → ((v : Version) → is_some (s.metadata v) ≡ mem v h)
      → ((v w : Version) → s.compatibility v w ≡ s.compatibility w v)
      → IsRegistry s

pub Ascends-snoc :
    (h : List Version) (c n : Version)
    → Ascends h c
    → compare_versions c n ≡ negsuc 0
    → Ascends (h ++ (n ∷ [])) n
Ascends-snoc [] c n a k = absurd a
Ascends-snoc (v ∷ []) c n a k = (ap (λ u. compare_versions u n) a ∙ k, refl)
Ascends-snoc (v ∷ w ∷ rest) c n a k = (a.0, Ascends-snoc (w ∷ rest) c n a.1 k)

-- Every version of a history is at most its last.
pub Ascends-le :
    (h : List Version) (c v : Version)
    → Ascends h c
    → mem v h ≡ true
    → leb_ℤ (compare_versions v c) (pos 0) ≡ true
Ascends-le [] c v a m = absurd a
Ascends-le (u ∷ []) c v a m =
    let e : u ≡ v = version_eq_sound u v (ground arith) in
    ap (λ z. leb_ℤ z (pos 0)) (ap (λ z. compare_versions z c) (sym e ∙ a) ∙ compare_self c)
Ascends-le (u ∷ w ∷ rest) c v a m = elim (Bool-cases (version_eq u v)) [
  | inl same ↦
      let e : u ≡ v = version_eq_sound u v same in
      ap (λ k. leb_ℤ (compare_versions k c) (pos 0)) (sym e)
      ∙ compare_below u w c a.0 (Ascends-le (w ∷ rest) c w a.1 (head_mem w rest))
  | inr apart ↦ Ascends-le (w ∷ rest) c v a.1 (ground arith)
]
  where
    head_mem : (w : Version) (rest : List Version) → mem w (w ∷ rest) ≡ true
    head_mem w rest = ground arith

pub initialize_effect :
    (env : Host) (who : ℕ) (v : Version) (text : List ℕ) (s s' : Versions)
    → initialize env who v text s ≡ ok s'
    → (s.initialized ≡ false)
      × (s'.initialized ≡ true)
      × (s'.current_version ≡ some v)
      × (s'.minimum_version ≡ some v)
      × (s'.version_history ≡ some (v ∷ []))
      × (s'.version_count ≡ some 1)
      × (s'.metadata ≡ update s.metadata v (some (new_metadata env v text who)))
      × (s'.compatibility ≡ s.compatibility)
unfolding initialize require_auth
initialize_effect env who v text s s' e = ground arith

module _ (env : Host) (who : ℕ) (n : Version) (s s' : Versions) where
  pub update_version_effect :
      (c : Version) (h : List Version) (text : List ℕ)
      → s.current_version ≡ some c
      → s.version_history ≡ some h
      → s.version_count ≡ some (length h)
      → update_version env who n text s ≡ ok s'
      → (is_valid_increment c n ≡ true)
        × (s'.initialized ≡ s.initialized)
        × (s'.current_version ≡ some n)
        × (s'.minimum_version ≡ s.minimum_version)
        × (s'.version_history ≡ some (h ++ (n ∷ [])))
        × (s'.version_count ≡ some (length h + 1))
        × (s'.metadata ≡ update s.metadata n (some (new_metadata env n text who)))
        × (s'.compatibility ≡ s.compatibility)
  unfolding update_version require_auth require_initialized
  update_version_effect c h text cur hist cnt e = ground arith

  pub update_minimum_version_effect :
      (c : Version)
      → s.current_version ≡ some c
      → update_minimum_version env who n s ≡ ok s'
      → (leb_ℤ (compare_versions n c) (pos 0) ≡ true)
        × (s'.initialized ≡ s.initialized)
        × (s'.current_version ≡ s.current_version)
        × (s'.minimum_version ≡ some n)
        × (s'.version_history ≡ s.version_history)
        × (s'.version_count ≡ s.version_count)
        × (s'.metadata ≡ s.metadata)
        × (s'.compatibility ≡ s.compatibility)
  unfolding update_minimum_version require_auth require_initialized
  update_minimum_version_effect c cur e = ground arith

  pub deprecate_version_effect :
      (d : VersionMetadata)
      → s.metadata n ≡ some d
      → deprecate_version env who n s ≡ ok s'
      → (d.deprecated ≡ false)
        × (s'.initialized ≡ s.initialized)
        × (s'.current_version ≡ s.current_version)
        × (s'.minimum_version ≡ s.minimum_version)
        × (s'.version_history ≡ s.version_history)
        × (s'.version_count ≡ s.version_count)
        × (s'.metadata ≡ update s.metadata n (some (record d { deprecated = true })))
        × (s'.compatibility ≡ s.compatibility)
  unfolding deprecate_version require_auth require_initialized
  deprecate_version_effect d found e = ground arith

  pub set_compatibility_effect :
      (w : Version) (verdict : Bool) (notes : List ℕ)
      → set_compatibility env who n w verdict notes s ≡ ok s'
      → (s'.initialized ≡ s.initialized)
        × (s.initialized ≡ true)
        × (s'.current_version ≡ s.current_version)
        × (s'.minimum_version ≡ s.minimum_version)
        × (s'.version_history ≡ s.version_history)
        × (s'.version_count ≡ s.version_count)
        × (s'.metadata ≡ s.metadata)
  unfolding set_compatibility require_auth require_initialized
  set_compatibility_effect w verdict notes e = ground arith

  pub set_compatibility_at :
      (w : Version) (verdict : Bool) (notes : List ℕ) (a b : Version)
      → set_compatibility env who n w verdict notes s ≡ ok s'
      → s'.compatibility a b ≡ (
          if version_eq n a && version_eq w b || version_eq w a && version_eq n b
          then some (record { is_compatible = verdict; notes = notes; checked_at = env.now })
          else s.compatibility a b)
  unfolding set_compatibility require_auth require_initialized
  set_compatibility_at w verdict notes a b e = ground (
    arith,
    version_eq_sound n a,
    version_eq_sound w b,
    version_eq_sound w a,
    version_eq_sound n b,
  )
