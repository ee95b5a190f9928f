-- ===== src/Transform/Records.antt =====
-- Collateral, instruments and guarantees of contracts/commitment_transformation/src/lib.rs.
use commitlabs_contracts.Prelude.{some, [], ◌∷◌, ◌++◌, update}
use commitlabs_contracts.Prelude.Int.{ℤ}
use commitlabs_contracts.Shared.Outcome.{Result, ok, ◌>>=◌, ◌>>◌}
use commitlabs_contracts.Shared.Validation.{require_positive}
use commitlabs_contracts.Core.Types.{Address, Bytes, bytes_key, Env}
use commitlabs_contracts.Transform.Types.{
  Transformation, Others, CollateralizedAsset, SecondaryInstrument, ProtocolGuarantee,
}
use commitlabs_contracts.Transform.Store.{
  format_tranformation_id, next_counter, enter, leave, load_commitment, require_owner_or_protocol,
  require_protocol_role,
}

module _ {W : Type 0} (env : Env) (x : Others W) (caller : Address) (commitment_id : Bytes) where
  unfoldable pub collateralize :
      (collateral_amount : ℤ) (asset_address : Address)
      → Transformation W
      → Result (Bytes × Transformation W)
  unfolding require_owner_or_protocol enter require_positive next_counter
  collateralize collateral_amount asset_address s = do
    commitment ← require_owner_or_protocol env caller x commitment_id s
    entered ← enter s
    require_positive collateral_amount
    let asset_id = format_tranformation_id (b'c' ∷ b'o' ∷ b'l' ∷ []) entered.tranche_set_counter
    next ← next_counter entered.tranche_set_counter
    let collateral : CollateralizedAsset = record {
      asset_id = asset_id;
      commitment_id = commitment_id;
      owner = commitment.owner;
      collateral_amount = collateral_amount;
      asset_address = asset_address;
      created_at = env.now;
    }
    ok (
      asset_id,
      leave (record entered {
        tranche_set_counter = next;
        collateralized_asset = update entered.collateralized_asset asset_id (some collateral);
        commitment_collateral =
            update entered.commitment_collateral commitment_id
              (entered.commitment_collateral commitment_id ++ (asset_id ∷ []));
      }),
    )

  unfoldable pub create_secondary_instrument :
      (instrument_type : Bytes) (amount : ℤ) → Transformation W → Result (Bytes × Transformation W)
  unfolding require_owner_or_protocol enter require_positive next_counter
  create_secondary_instrument instrument_type amount s = do
    commitment ← require_owner_or_protocol env caller x commitment_id s
    entered ← enter s
    require_positive amount
    let instrument_id =
        format_tranformation_id (b's' ∷ b'e' ∷ b'c' ∷ []) entered.tranche_set_counter
    next ← next_counter entered.tranche_set_counter
    let instrument : SecondaryInstrument = record {
      instrument_id = instrument_id;
      commitment_id = commitment_id;
      owner = commitment.owner;
      instrument_type = instrument_type;
      amount = amount;
      created_at = env.now;
    }
    ok (
      instrument_id,
      leave (record entered {
        tranche_set_counter = next;
        secondary_instrument = update entered.secondary_instrument instrument_id (some instrument);
        commitment_instruments =
            update entered.commitment_instruments commitment_id
              (entered.commitment_instruments commitment_id ++ (instrument_id ∷ []));
      }),
    )

  unfoldable pub add_protocol_guarantee :
      (guarantee_type terms_hash : Bytes) → Transformation W → Result (Bytes × Transformation W)
  unfolding require_protocol_role load_commitment enter next_counter
  add_protocol_guarantee guarantee_type terms_hash s = do
    require_protocol_role env caller s
    commitment ← load_commitment x commitment_id s
    entered ← enter s
    let guarantee_id =
        format_tranformation_id (b'g' ∷ b'u' ∷ b'a' ∷ b'r' ∷ []) entered.tranche_set_counter
    next ← next_counter entered.tranche_set_counter
    let guarantee : ProtocolGuarantee = record {
      guarantee_id = guarantee_id;
      commitment_id = commitment_id;
      guarantee_type = guarantee_type;
      terms_hash = terms_hash;
      created_at = env.now;
    }
    ok (
      guarantee_id,
      leave (record entered {
        tranche_set_counter = next;
        protocol_guarantee = update entered.protocol_guarantee guarantee_id (some guarantee);
        commitment_guarantees =
            update entered.commitment_guarantees commitment_id
              (entered.commitment_guarantees commitment_id ++ (guarantee_id ∷ []));
      }),
    )
