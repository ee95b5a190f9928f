-- ===== src/Core/Invariant/Preserved.antt =====
-- Every operation of the core contract keeps the ledger invariant.
use commitlabs_contracts.Prelude.{
  ◌≤◌, ◌≡◌, refl, some, arith, Option-cases, inl, inr, if◌then◌else◌, sum_over,
}
use mathlib.Core.Path.{subst}
use commitlabs_contracts.Prelude.Int.{
  ℤ, pos, pos_part, ◌-ℤ◌, int_laws, ltb_ℤ, take_from_total, change_total, clear_total, settle_total,
}
use commitlabs_contracts.Shared.Outcome.{ok, Result-cases}
use commitlabs_contracts.Shared.Math
use commitlabs_contracts.Shared.Math.{penalty_amount}
use commitlabs_contracts.Core.Types.{
  Address, Bytes, bytes_key, Commitment, Env, External, Core, active, violated, settled, Status,
}
use commitlabs_contracts.Core.Lifecycle.{settle, early_exit, allocate, update_value, loss_of_value}
use commitlabs_contracts.Core.Effects.{
  settle_effect, early_exit_effect, allocate_effect, update_value_effect,
}
use commitlabs_contracts.Core.Invariant.{
  IsValid, IsValid-replace, locked, locked_at, locked_active, locked-le,
}

module _ {W : Type 0} (x : External W) (env : Env) {s : Core W} (v : IsValid s) (s' : Core W) where
  pub allocate-IsValid :
      (caller : Address) (id : Bytes) (pool : Address) (amount : ℤ)
      → allocate x env caller id pool amount s ≡ ok s'
      → IsValid s'
  unfolding allocate
  allocate-IsValid caller id pool amount e = elim (Option-cases (s.commitment id)) [
    | inl absent ↦ absurd (ground arith)
    | inr (c, found) ↦
        let (_, _, _, _, live, _, covered, ec, ea, et, ev, _, _) =
          allocate_effect x env s s' id c found e in
        let c' : Commitment = record c { current_value = c.current_value -ℤ amount } in
        let worth = (v.stored id c found).1 in
        IsValid-replace v s' id c c' found refl (omega int_laws) ec ea et (
          rw (ev, locked_active c live, locked_active c' live)
            (take_from_total s.total_value_locked c.current_value amount worth covered))
  ]

  pub early_exit-IsValid :
      (id : Bytes) (caller : Address) → early_exit x env id caller s ≡ ok s' → IsValid s'
  unfolding early_exit
  early_exit-IsValid id caller e = elim (Option-cases (s.commitment id)) [
    | inl absent ↦ absurd (ground arith)
    | inr (c, found) ↦
        elim (Result-cases (penalty_amount c.current_value c.rules.early_exit_penalty)) [
          | inr (p, no_penalty) ↦ absurd (ground arith)
          | inl (penalty, split) ↦ elim (Result-cases (Math.sub c.current_value penalty)) [
            | inr (p, no_rest) ↦ absurd (ground arith)
            | inl (rest, rest_is) ↦
                let (_, _, _, _, live, ec, ea, et, ev, _, _) =
                  early_exit_effect x env s s' id c found split rest_is e in
                let c' : Commitment = record c {
                  status = Status.early_exit;
                  current_value = pos 0;
                } in
                IsValid-replace v s' id c c' found refl (omega arith) ec ea et (
                  rw (ev, locked_active c live)
                    (clear_total s.total_value_locked c.current_value (v.stored id c found).1))
          ]
        ]
  ]

  pub settle-IsValid : (id : Bytes) → settle x env id s ≡ ok s' → IsValid s'
  unfolding settle
  settle-IsValid id e = elim (Option-cases (s.commitment id)) [
    | inl absent ↦ absurd (ground arith)
    | inr (c, found) ↦ elim (Option-cases s.nft_contract) [
      | inl unknown ↦ absurd (ground arith)
      | inr (nft, known) ↦
          let (_, _, _, live, ec, ea, et, ev, _, _, _) =
            settle_effect x env s s' id c found known e in
          let c' : Commitment = record c { status = settled } in
          let worth = (v.stored id c found).1 in
          IsValid-replace v s' id c c' found refl worth ec ea et (
            rw (locked_active c live) (
              settle_total s'.total_value_locked s.total_value_locked c.current_value _ worth v.tvl
                (subst (λ n. n ≤ sum_over (locked_at s.commitment) s.all_commitment_ids)
                  (locked_active c live) (locked-le v id c found))
                ev))
    ]
  ]

  pub update_value-IsValid :
      (caller : Address) (id : Bytes) (value : ℤ)
      → update_value x env caller id value s ≡ ok s'
      → IsValid s'
  unfolding update_value
  update_value-IsValid caller id value e = elim (Option-cases (s.commitment id)) [
    | inl absent ↦ absurd (ground arith)
    | inr (c, found) ↦ elim (Result-cases (loss_of_value c.amount value)) [
      | inr (p, no_loss) ↦ absurd (ground arith)
      | inl (loss, lost) ↦
          let (_, _, live, worth', ec, ea, et, ev, _) =
            update_value_effect x env s s' id c value found lost e in
          let c' : Commitment = record c {
            current_value = value;
            status = if ltb_ℤ (pos c.rules.max_loss_percent) loss then violated else active;
          } in
          let held : locked (some c') ≡ pos_part value = ground arith in
          IsValid-replace v s' id c c' found refl worth' ec ea et (
            rw (ev, locked_active c live, held)
              (change_total s.total_value_locked c.current_value value (v.stored id c found).1
                worth'))
    ]
  ]
