-- ===== src/Oracle/Tests.antt =====
-- A run of the price oracle, with one price, and its readers.
use commitlabs_contracts.Prelude.{
  ℕ, ◌+◌, ◌≤◌, ◌≡◌, ◌↔◌, refl, none, some, List, [], ◌∷◌, arith, ◌==◌,
}
use commitlabs_contracts.Prelude.Int.{pos}
use commitlabs_contracts.Shared.Outcome.{ok, panic, contract_error}
use commitlabs_contracts.Core.Types.{Address, Env}
use commitlabs_contracts.Oracle.Types.{Oracle, PriceData}
use commitlabs_contracts.Oracle.Store
use commitlabs_contracts.Oracle.Prices
use commitlabs_contracts.Oracle.Contract.{Call, invoke, after, run, deployed}
use commitlabs_contracts.Oracle.Life.{Publishes, invoke-Publishes}
use commitlabs_contracts.Oracle.Consumers.{
  get_price_valid_lem, get_price_for_commitment_lem, get_batch_prices_lem, migrate_lem, Each,
}

-- Account 1 is the admin, 9 an oracle, 70 an asset.
abbrev at : ℕ → Address → Env
at t who = record { now = t; signed = λ a. a == who; this = 80 }

abbrev calls : List (Env × Call)
calls =
    (at 10 1, Call.initialize 1)
    ∷ (at 10 1, Call.add_oracle 1 9)
    ∷ (at 100 9, Call.set_price 9 70 (pos 2500) 2)
    ∷ []

abbrev oracle : Oracle
oracle = run calls deployed

abbrev quote : PriceData
quote = record { price = pos 2500; updated_at = 100; decimals = 2 }

stored : oracle.price 70 ≡ some quote
unfolding run invoke Prices.set_price Store.add_oracle Store.initialize
stored = refl

abbrev before : Oracle
before = run ((at 10 1, Call.initialize 1) ∷ (at 10 1, Call.add_oracle 1 9) ∷ []) deployed

sets_it :
    invoke (at 100 9) (Call.set_price 9 70 (pos 2500) 2) before
    ≡ ok (after before (invoke (at 100 9) (Call.set_price 9 70 (pos 2500) 2) before))
unfolding run invoke Prices.set_price Store.add_oracle Store.initialize
sets_it = refl

invoke-Publishes_example :
    Publishes
      (at 100 9)
      before.oracle_whitelist
      (before.price 70)
      ((after before (invoke (at 100 9) (Call.set_price 9 70 (pos 2500) 2) before)).price 70)
invoke-Publishes_example =
    invoke-Publishes (at 100 9) before
      (after before (invoke (at 100 9) (Call.set_price 9 70 (pos 2500) 2) before)) 70
      (Call.set_price 9 70 (pos 2500) 2) sets_it

get_price_valid_lem_example :
    Prices.get_price_valid (at 130 1) 70 (some 60) oracle ≡ ok quote
    ↔ (100 ≤ 130) × (130 ≤ 100 + 60)
get_price_valid_lem_example = get_price_valid_lem calls (at 130 1) 70 (some 60) quote stored

get_price_for_commitment_lem_example :
    Prices.get_price_for_commitment (at 130 1) 70 (some 5) oracle
    ≡ Prices.get_price_for_commitment (at 130 1) 70 none oracle
get_price_for_commitment_lem_example =
    get_price_for_commitment_lem (at 130 1) oracle 70 5 (omega arith)

get_batch_prices_lem_example :
    Prices.get_batch_prices (at 130 1) (70 ∷ []) 60 oracle ≡ ok ((70, quote) ∷ [])
    ↔ Each (at 130 1) oracle 60 (70 ∷ []) ((70, quote) ∷ [])
get_batch_prices_lem_example =
    get_batch_prices_lem (at 130 1) oracle 60 (70 ∷ []) ((70, quote) ∷ [])

-- A contract of the older version, with the older key, is migrated.
abbrev older : Oracle
older = record oracle { version = 0; oracle_config = none; max_staleness_seconds = some 900 }

abbrev migrated : Oracle
migrated = after older (Store.migrate (at 200 1) 1 0 older)

it_migrates : Store.migrate (at 200 1) 1 0 older ≡ ok migrated
unfolding run invoke Prices.set_price Store.add_oracle Store.initialize Store.migrate
    Store.read_config
it_migrates = refl

migrate_lem_example :
    (Store.read_config migrated ≡ Store.read_config older)
    × (migrated.price ≡ older.price)
    × (older.version ≡ 0)
    × (migrated.version ≡ Store.current_version)
    × (Store.migrate (at 200 1) 1 1 migrated ≡ panic (contract_error 11))
migrate_lem_example = migrate_lem (at 200 1) 1 0 1 older migrated it_migrates
