-- ===== src/Oracle/Consumers.antt =====
-- What the readers of prices get.
use mathlib.Core.Path.{subst}
use commitlabs_contracts.Prelude.{
  ℕ, ◌+◌, ◌≤◌, ◌≡◌, refl, ap, ◌∙◌, Option, none, some, List, [], ◌∷◌, arith, ◌==◌, nat_key,
  unwrap_or, Bool-cases, Option-cases, inl, inr, ◌↔◌,
}
use commitlabs_contracts.Prelude.Int.{ℤ, pos, ◌≤ℤ◌}
use commitlabs_contracts.Shared.Outcome.{ok, panic, contract_error, Result-cases}
use commitlabs_contracts.Core.Types.{Address, Env}
use commitlabs_contracts.Oracle.Types.{Oracle, PriceData, error_code, already_migrated}
use commitlabs_contracts.Oracle.Store
use commitlabs_contracts.Oracle.Store.{read_config}
use commitlabs_contracts.Oracle.Prices.{
  get_price_valid, get_price_for_commitment, get_price_high_value, staleness_for,
  check_max_variation, check_variation, get_batch_prices,
}
use commitlabs_contracts.Oracle.Contract.{Call, run, deployed}
use commitlabs_contracts.Oracle.Life.{IsPrice, run-IsFeed}

module _ (env : Env) (s : Oracle) (asset : Address) where
  valid_of_positive :
      (override : Option ℕ) (d : PriceData)
      → s.price asset ≡ some d
      → pos 0 ≤ℤ d.price
      → get_price_valid env asset override s ≡ ok d
        ↔ (d.updated_at ≤ env.now)
          × (env.now ≤ d.updated_at + unwrap_or override (read_config s).max_staleness_seconds)
  unfolding get_price_valid
  valid_of_positive override d found positive =
      ((λ e. ground arith), (λ (early, late). ground arith))

  -- The bound on the variation that a commitment asks for is never compared with one: for every bound of
  -- at most 100 percent the result is that without a bound.
  pub get_price_for_commitment_lem :
      (bound : ℕ)
      → bound ≤ 100
      → get_price_for_commitment env asset (some bound) s
        ≡ get_price_for_commitment env asset none s
  unfolding get_price_for_commitment get_price_valid check_max_variation check_variation
  get_price_for_commitment_lem bound small = elim (Option-cases (s.price asset)) [
    | inl absent ↦ ground arith
    | inr (d, found) ↦ ground arith
  ]

  -- A reader for operations of more value gets nothing that one for less value does not get.
  pub get_price_high_value_lem :
      (value more : ℤ) (deviation : ℕ) (d : PriceData)
      → value ≤ℤ more
      → get_price_high_value env asset more deviation s ≡ ok d
      → get_price_high_value env asset value deviation s ≡ ok d
  unfolding get_price_high_value get_price_valid staleness_for
  get_price_high_value_lem value more deviation d le e = elim (Option-cases (s.price asset)) [
    | inl absent ↦ absurd (ground arith)
    | inr (p, found) ↦ ground arith
  ]

-- After any calls of a newly deployed oracle, a reader gets the stored price of an asset exactly if it is
-- not dated after now, and is not older than the override or else the configured staleness.
pub get_price_valid_lem :
    (calls : List (Env × Call)) (env : Env) (asset : Address) (override : Option ℕ) (d : PriceData)
    → (run calls deployed).price asset ≡ some d
    → get_price_valid env asset override (run calls deployed) ≡ ok d
      ↔ (d.updated_at ≤ env.now)
        × (env.now
            ≤ d.updated_at
              + unwrap_or override (read_config (run calls deployed)).max_staleness_seconds)
get_price_valid_lem calls env asset override d found =
    let positive : pos 0 ≤ℤ d.price = subst IsPrice found (run-IsFeed calls asset) in
    valid_of_positive env (run calls deployed) asset override d found positive

-- A list of results that has the price of each asset in its place.
abbrev pub Each : Env → Oracle → ℕ → List Address → List (Address × PriceData) → Type 0
Each env s staleness [] [] = Unit
Each env s staleness [] (r ∷ results) = ⊥
Each env s staleness (asset ∷ assets) [] = ⊥
Each env s staleness (asset ∷ assets) ((a, d) ∷ results) =
    (a ≡ asset)
    × (get_price_valid env asset (some staleness) s ≡ ok d)
    × Each env s staleness assets results

batch-Each :
    (env : Env) (s : Oracle) (staleness : ℕ) (assets : List Address)
    (results : List (Address × PriceData))
    → get_batch_prices env assets staleness s ≡ ok results
    → Each env s staleness assets results
unfolding get_batch_prices
batch-Each env s staleness [] [] e = tt
batch-Each env s staleness [] (r ∷ results) e = absurd (ground arith)
batch-Each env s staleness (asset ∷ assets) [] e = absurd (ground arith)
batch-Each env s staleness (asset ∷ assets) ((a, d) ∷ results) e =
    elim (Result-cases (get_price_valid env asset (some staleness) s)) [
      | inr (p, failed) ↦ absurd (ground arith)
      | inl (found, first) ↦ elim (Result-cases (get_batch_prices env assets staleness s)) [
        | inr (p, failed) ↦ absurd (ground arith)
        | inl (others, rest) ↦
            let same : others ≡ results = ground arith in
            (
              ground arith,
              ground arith,
              batch-Each env s staleness assets results (rest ∙ ap ok same),
            )
      ]
    ]

batch_found :
    (env : Env) (s : Oracle) (staleness : ℕ) (assets : List Address)
    (results : List (Address × PriceData))
    → Each env s staleness assets results
    → get_batch_prices env assets staleness s ≡ ok results
unfolding get_batch_prices
batch_found env s staleness [] [] each = refl
batch_found env s staleness [] (r ∷ results) each = absurd each
batch_found env s staleness (asset ∷ assets) [] each = absurd each
batch_found env s staleness (asset ∷ assets) ((a, d) ∷ results) (same, first, each) =
    let rest = batch_found env s staleness assets results each in ground arith

-- The batch gives a list of results exactly if that has, for each asset in its place, the price that a
-- single reader gets; one price that cannot be read fails the batch.
pub get_batch_prices_lem :
    (env : Env) (s : Oracle) (staleness : ℕ) (assets : List Address)
    (results : List (Address × PriceData))
    → get_batch_prices env assets staleness s ≡ ok results ↔ Each env s staleness assets results
get_batch_prices_lem env s staleness assets results =
    (batch-Each env s staleness assets results, batch_found env s staleness assets results)

-- Migration keeps the prices and the staleness that was in force, whichever of the two keys held it,
-- leads from version 0 to version 1, and is refused to the same caller afterwards.
pub migrate_lem :
    (env : Env) (caller : Address) (from again : ℕ) (s s' : Oracle)
    → Store.migrate env caller from s ≡ ok s'
    → (read_config s' ≡ read_config s)
      × (s'.price ≡ s.price)
      × (s.version ≡ 0)
      × (s'.version ≡ Store.current_version)
      × (Store.migrate env caller again s' ≡ panic (contract_error (error_code already_migrated)))
unfolding Store.migrate read_config
migrate_lem env caller from again s s' e = elim (Bool-cases (from == 0)) [
  | inl old ↦ (ground arith, ground arith, ground arith, ground arith, ground arith)
  | inr new ↦ absurd (ground arith)
]
