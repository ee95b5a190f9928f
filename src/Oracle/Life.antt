-- ===== src/Oracle/Life.antt =====
-- The life of a stored price.
use mathlib.Core.Path.{subst}
use commitlabs_contracts.Prelude.{
  ℕ, ◌≡◌, refl, sym, ap, Bool, true, Option, none, some, List, [], ◌∷◌, arith, ◌==◌, update,
  nat_key, Bool-cases, inl, inr,
}
use commitlabs_contracts.Prelude.Int.{ℤ, pos, ◌≤ℤ◌}
use commitlabs_contracts.Shared.Outcome.{Result, ok, panic}
use commitlabs_contracts.Core.Types.{Address, Env}
use commitlabs_contracts.Oracle.Types.{Oracle, PriceData}
use commitlabs_contracts.Oracle.Store
use commitlabs_contracts.Oracle.Store.{read_config}
use commitlabs_contracts.Oracle.Prices.{set_price}
use commitlabs_contracts.Oracle.Contract.{Call, invoke, after, run, deployed}

-- What one call may do to the price that is stored for an asset, with the oracles of the whitelist.
pub data Publishes (env : Env) (whitelist : Address → Bool) (o o' : Option PriceData) : Type 0 where
  stays : o' ≡ o → Publishes env whitelist o o'
  sets :
      (by : Address) (d : PriceData)
      → env.signed by ≡ true
      → whitelist by ≡ true
      → pos 0 ≤ℤ d.price
      → d.updated_at ≡ env.now
      → o' ≡ some d
      → Publishes env whitelist o o'

module _ (env : Env) (s s' : Oracle) (asset : Address) where
  kept_price :
      s'.price ≡ s.price → Publishes env s.oracle_whitelist (s.price asset) (s'.price asset)
  kept_price e = stays (ap (λ f. f asset) e)

  initialize_keeps : (admin : Address) → Store.initialize admin s ≡ ok s' → s'.price ≡ s.price
  unfolding Store.initialize
  initialize_keeps admin e = ground arith

  module _ (caller : Address) where
    add_oracle_keeps :
        (oracle : Address) → Store.add_oracle env caller oracle s ≡ ok s' → s'.price ≡ s.price
    unfolding Store.add_oracle
    add_oracle_keeps oracle e = ground arith

    remove_oracle_keeps :
        (oracle : Address) → Store.remove_oracle env caller oracle s ≡ ok s' → s'.price ≡ s.price
    unfolding Store.remove_oracle
    remove_oracle_keeps oracle e = ground arith

    set_max_staleness_keeps :
        (n : ℕ) → Store.set_max_staleness env caller n s ≡ ok s' → s'.price ≡ s.price
    unfolding Store.set_max_staleness
    set_max_staleness_keeps n e = ground arith

    set_admin_keeps :
        (new : Address) → Store.set_admin env caller new s ≡ ok s' → s'.price ≡ s.price
    unfolding Store.set_admin
    set_admin_keeps new e = ground arith

    upgrade_keeps : (hash : ℕ) → Store.upgrade env caller hash s ≡ ok s' → s'.price ≡ s.price
    unfolding Store.upgrade
    upgrade_keeps hash e = ground arith

    migrate_keeps : (from : ℕ) → Store.migrate env caller from s ≡ ok s' → s'.price ≡ s.price
    unfolding Store.migrate
    migrate_keeps from e = elim (Bool-cases (from == 0)) [
      | inl old ↦ ground arith
      | inr new ↦ ground arith
    ]

    set_price_effect :
        (at : Address) (price : ℤ) (decimals : ℕ)
        → set_price env caller at price decimals s ≡ ok s'
        → (env.signed caller ≡ true)
          × (s.oracle_whitelist caller ≡ true)
          × (pos 0 ≤ℤ price)
          × (s'.price
              ≡ update s.price at
                  (some (record { price = price; updated_at = env.now; decimals = decimals })))
    unfolding set_price
    set_price_effect at price decimals e = ground arith

    set_price-Publishes :
        (at : Address) (price : ℤ) (decimals : ℕ)
        → set_price env caller at price decimals s ≡ ok s'
        → Publishes env s.oracle_whitelist (s.price asset) (s'.price asset)
    set_price-Publishes at price decimals e =
        let (signed, listed, positive, writes) = set_price_effect at price decimals e in
        elim (Bool-cases (at == asset)) [
          | inl here ↦
              sets caller (record { price = price; updated_at = env.now; decimals = decimals })
                signed listed positive refl (rw (writes, here) refl)
          | inr apart ↦ stays (rw (writes, apart) refl)
        ]

  -- A successful call leaves the price of an asset as it is, or is signed by an oracle of the whitelist and
  -- replaces it by a price that is not negative, dated now.
  pub invoke-Publishes :
      (call : Call)
      → invoke env call s ≡ ok s'
      → Publishes env s.oracle_whitelist (s.price asset) (s'.price asset)
  unfolding invoke
  invoke-Publishes (Call.initialize a) e = kept_price (initialize_keeps a e)
  invoke-Publishes (Call.add_oracle w o) e = kept_price (add_oracle_keeps w o e)
  invoke-Publishes (Call.remove_oracle w o) e = kept_price (remove_oracle_keeps w o e)
  invoke-Publishes (Call.set_price w a p d) e = set_price-Publishes w a p d e
  invoke-Publishes (Call.set_max_staleness w n) e = kept_price (set_max_staleness_keeps w n e)
  invoke-Publishes (Call.set_admin w a) e = kept_price (set_admin_keeps w a e)
  invoke-Publishes (Call.upgrade w h) e = kept_price (upgrade_keeps w h e)
  invoke-Publishes (Call.migrate w n) e = kept_price (migrate_keeps w n e)

-- A stored price is not negative.
abbrev pub IsPrice : Option PriceData → Type 0
IsPrice none = Unit
IsPrice (some d) = pos 0 ≤ℤ d.price

abbrev pub IsFeed : Oracle → Type 0
IsFeed s = (asset : Address) → IsPrice (s.price asset)

Publishes-IsPrice :
    {env : Env} {whitelist : Address → Bool} {o o' : Option PriceData}
    → IsPrice o
    → Publishes env whitelist o o'
    → IsPrice o'
Publishes-IsPrice v (stays same) = subst IsPrice (sym same) v
Publishes-IsPrice v (sets by d _ _ positive _ is) = subst IsPrice (sym is) positive

after-IsFeed :
    (env : Env) (call : Call) (s : Oracle) (r : Result Oracle)
    → invoke env call s ≡ r
    → IsFeed s
    → IsFeed (after s r)
after-IsFeed env call s (ok s') e v =
    λ asset. Publishes-IsPrice (v asset) (invoke-Publishes env s s' asset call e)
after-IsFeed env call s (panic p) e v = v

IsFeed-from : (calls : List (Env × Call)) (s : Oracle) → IsFeed s → IsFeed (run calls s)
unfolding run
IsFeed-from [] s v = v
IsFeed-from ((env, call) ∷ rest) s v = IsFeed-from rest _ (after-IsFeed env call s _ refl v)

pub run-IsFeed : (calls : List (Env × Call)) → IsFeed (run calls deployed)
run-IsFeed calls = IsFeed-from calls deployed (λ asset. tt)
