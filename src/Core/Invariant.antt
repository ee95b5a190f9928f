-- ===== src/Core/Invariant.antt =====
-- The ledger invariant of the core contract: the ids that were given out, the records under them,
-- and `TotalValueLocked` as the value of the records that are still held.
pub mod Preserved
pub mod Created
pub mod Wiring
pub mod Reachable
use commitlabs_contracts.Prelude.{
  ℕ, zero, suc, ◌+◌, ◌^◌, ◌≤◌, ◌<◌, ◌≡◌, refl, sym, ap, ◌∙◌, Bool, true, false, Option, none, some,
  List, [], ◌∷◌, ◌++◌, arith, if◌then◌else◌, Bool-cases, inl, inr, Key, update, mem, Distinct,
  sum_over, mem-append, Distinct-snoc, sum_over_change, sum_over_congr, sum_over-append, mem_apart,
  sum_over-mem,
}
use mathlib.Core.Option.{some-injective}
use mathlib.Core.Path.{subst}
use mathlib.Core.Bool.{◌||◌}
use native.Mathlib.Numerals.{add-one}
use commitlabs_contracts.Prelude.Int.{
  ℤ, pos, pos_part, neg_part, ◌+ℤ◌, ◌≤ℤ◌, balance_moves, add_pos,
}
use commitlabs_contracts.Core.Id.{generate_commitment_id, generate_commitment_id_injective}
use commitlabs_contracts.Core.Types.{
  Bytes, bytes_eq, bytes_eq_refl, bytes_eq_sound, bytes_key, Status, active, violated, Commitment,
  Core,
}

-- Active and violated commitments are in custody; settled and exited ones are not.
abbrev pub is_held : Status → Bool
is_held active = true
is_held violated = true
is_held _ = false

abbrev pub locked : Option Commitment → ℕ
locked none = 0
locked (some c) = if is_held c.status then pos_part c.current_value else 0

-- The ids made from the counters below `n`, in order.
abbrev pub ids_below : ℕ → List Bytes
ids_below zero = []
ids_below (suc n) = ids_below n ++ (generate_commitment_id n ∷ [])

pub locked_active :
    (c : Commitment) → c.status ≡ active → locked (some c) ≡ pos_part c.current_value
locked_active c live = ground arith

abbrev pub locked_at : (Bytes → Option Commitment) → Bytes → ℕ
locked_at commitments id = locked (commitments id)

-- A record lies under its own id, has a value that is not negative, and is listed.
abbrev pub IsStored : List Bytes → Bytes → Commitment → Type 0
IsStored all id c = (c.commitment_id ≡ id) × (pos 0 ≤ℤ c.current_value) × (mem id all ≡ true)

pub record IsValid {W : Type 0} (s : Core W) : Type 0 where
  pub stored :
      (id : Bytes) (c : Commitment) → s.commitment id ≡ some c → IsStored s.all_commitment_ids id c
  pub ids : s.all_commitment_ids ≡ ids_below s.total_commitments
  pub counted : s.total_commitments < 2 ^ 64
  pub tvl : s.total_value_locked ≡ pos (sum_over (locked_at s.commitment) s.all_commitment_ids)

-- A counter that is not below `n` makes an id that is not among those below `n`.
pub ids_below_fresh :
    (n m : ℕ) → n ≤ m → m < 2 ^ 64 → mem (generate_commitment_id m) (ids_below n) ≡ false
ids_below_fresh zero m h k = refl
ids_below_fresh (suc n) m h k =
    elim (Bool-cases (bytes_eq (generate_commitment_id n) (generate_commitment_id m))) [
      | inl same ↦
          let e : n ≡ m =
            generate_commitment_id_injective n m (omega arith) k (bytes_eq_sound _ _ same) in
          absurd (omega arith)
      | inr apart ↦ rw (mem-append, ids_below_fresh n m (omega arith) k, apart)
    ]

pub ids_below-Distinct : (n : ℕ) → n ≤ 2 ^ 64 → Distinct (ids_below n)
ids_below-Distinct zero h = tt
ids_below-Distinct (suc n) h =
    Distinct-snoc (ids_below n) (generate_commitment_id n) (ids_below-Distinct n (omega arith))
      (ids_below_fresh n n (omega arith) (omega arith))

-- One record of a map is replaced by another under the same id.
module _ (f : Bytes → Option Commitment) (all : List Bytes) (c c' : Commitment) where
  abbrev replaced : Bytes → Option Commitment
  replaced = update f c.commitment_id (some c')

  replaced-IsStored :
      ((id : Bytes) (d : Commitment) → f id ≡ some d → IsStored all id d)
      → f c.commitment_id ≡ some c
      → c'.commitment_id ≡ c.commitment_id
      → pos 0 ≤ℤ c'.current_value
      → (id : Bytes) (d : Commitment) → replaced id ≡ some d
      → IsStored all id d
  replaced-IsStored st e same nn id d h = elim (Bool-cases (bytes_eq c.commitment_id id)) [
    | inl at_id ↦
        let k : c.commitment_id ≡ id = bytes_eq_sound _ _ at_id in
        let d_is : some c' ≡ some d = rw at_id at h in
        let is : c' ≡ d = some-injective _ _ d_is in rw (← is) (same ∙ k, nn, rw (← k) (st _ c e).2)
    | inr apart ↦ st id d (rw apart at h)
  ]

  sum-replaced :
      Distinct all
      → mem c.commitment_id all ≡ true
      → f c.commitment_id ≡ some c
      → sum_over (locked_at replaced) all + locked (some c)
        ≡ sum_over (locked_at f) all + locked (some c')
  sum-replaced d m e =
      let change =
        sum_over_change (locked_at f) (locked_at replaced) c.commitment_id all
          (λ j apart. ap locked (at_other j apart)) d m in
      ap (λ n. sum_over (locked_at replaced) all + n) (ap locked (sym e))
      ∙ change
      ∙ ap (λ n. sum_over (locked_at f) all + n) (ap locked at_self)
    where
      at_other : (j : Bytes) → bytes_eq c.commitment_id j ≡ false → replaced j ≡ f j
      at_other j apart = rw apart

      at_self : replaced c.commitment_id ≡ some c'
      at_self = rw (bytes_eq_refl c.commitment_id)

-- A record is put under an id.
added-IsStored :
    (f : Bytes → Option Commitment) (all : List Bytes) (k : Bytes) (c : Commitment)
    → ((id : Bytes) (d : Commitment) → f id ≡ some d → IsStored all id d)
    → c.commitment_id ≡ k
    → pos 0 ≤ℤ c.current_value
    → mem k (all ++ (k ∷ [])) ≡ true
    → (id : Bytes) (d : Commitment) → update f k (some c) id ≡ some d
    → IsStored (all ++ (k ∷ [])) id d
added-IsStored f all k c st own nn listed id d h = elim (Bool-cases (bytes_eq k id)) [
  | inl at_id ↦
      let e : k ≡ id = bytes_eq_sound _ _ at_id in
      let is : c ≡ d = some-injective _ _ (rw at_id at h) in
      rw (← is) (own ∙ e, nn, subst (λ j. mem j (all ++ (k ∷ [])) ≡ true) e listed)
  | inr apart ↦
      let (is_id, d_nn, is_in) = st id d (rw apart at h) in (is_id, d_nn, rw (mem-append, is_in))
]

module _ {W : Type 0} {s : Core W} (v : IsValid s) where
  pub all_ids-Distinct : Distinct s.all_commitment_ids
  all_ids-Distinct = rw v.ids (ids_below-Distinct s.total_commitments (omega (arith, v.counted)))

  -- The id that the counter makes next is not in use.
  pub next_id_free : s.commitment (generate_commitment_id s.total_commitments) ≡ none
  next_id_free = free (s.commitment (generate_commitment_id s.total_commitments)) refl
    where
      free :
          (o : Option Commitment)
          → s.commitment (generate_commitment_id s.total_commitments) ≡ o
          → o ≡ none
      free none e = refl
      free (some c) e =
          let is_in = (v.stored _ c e).2 in
          let is_out =
            ids_below_fresh s.total_commitments s.total_commitments (omega arith) v.counted in
          absurd (cc (is_in, is_out, v.ids))

  -- A state that differs in one record and in the total, by as much, is valid.
  pub IsValid-replace :
      (s' : Core W) (id : Bytes) (c c' : Commitment)
      → s.commitment id ≡ some c
      → c'.commitment_id ≡ c.commitment_id
      → pos 0 ≤ℤ c'.current_value
      → s'.commitment ≡ update s.commitment c.commitment_id (some c')
      → s'.all_commitment_ids ≡ s.all_commitment_ids
      → s'.total_commitments ≡ s.total_commitments
      → s'.total_value_locked +ℤ pos (locked (some c))
        ≡ s.total_value_locked +ℤ pos (locked (some c'))
      → IsValid s'
  IsValid-replace s' id c c' e same nn ec ea et moved =
      let (is_id, old_nn, is_in) = v.stored id c e in
      let own : s.commitment c.commitment_id ≡ some c =
        subst (λ k. s.commitment k ≡ some c) (sym is_id) e in
      let listed : mem c.commitment_id s.all_commitment_ids ≡ true =
        subst (λ k. mem k s.all_commitment_ids ≡ true) (sym is_id) is_in in
      let sums = sum-replaced s.commitment s.all_commitment_ids c c' all_ids-Distinct listed own in
      record {
        stored =
            rw (ec, ea)
              (replaced-IsStored s.commitment s.all_commitment_ids c c' v.stored own same nn);
        ids = ea ∙ v.ids ∙ ap ids_below (sym et);
        counted = rw et v.counted;
        tvl =
            rw (ec, ea)
              (balance_moves s'.total_value_locked s.total_value_locked _ _ _ _ moved v.tvl sums);
      }

  -- A state with the same records, ids and total is valid.
  pub IsValid-same :
      (s' : Core W)
      → s'.commitment ≡ s.commitment
      → s'.all_commitment_ids ≡ s.all_commitment_ids
      → s'.total_commitments ≡ s.total_commitments
      → s'.total_value_locked ≡ s.total_value_locked
      → IsValid s'
  IsValid-same s' ec ea et ev = record {
    stored = rw (ec, ea) v.stored;
    ids = ea ∙ v.ids ∙ ap ids_below (sym et);
    counted = rw et v.counted;
    tvl = rw (ec, ea) (ev ∙ v.tvl);
  }

  -- A stored value is part of the total.
  pub locked-le :
      (id : Bytes) (c : Commitment)
      → s.commitment id ≡ some c
      → locked (some c) ≤ sum_over (locked_at s.commitment) s.all_commitment_ids
  locked-le id c e =
      subst (λ o. locked o ≤ sum_over (locked_at s.commitment) s.all_commitment_ids) e
        (sum_over-mem (locked_at s.commitment) id s.all_commitment_ids (v.stored id c e).2)

  next_id_unlisted : mem (generate_commitment_id s.total_commitments) s.all_commitment_ids ≡ false
  next_id_unlisted =
      rw v.ids (ids_below_fresh s.total_commitments s.total_commitments (omega arith) v.counted)

  -- A state with one more record, under the next id, and its value in the total is valid.
  pub IsValid-add :
      (s' : Core W) (id : Bytes) (c : Commitment) (n : ℕ)
      → id ≡ generate_commitment_id s.total_commitments
      → c.commitment_id ≡ id
      → c.status ≡ active
      → c.current_value ≡ pos n
      → s'.commitment ≡ update s.commitment id (some c)
      → s'.all_commitment_ids ≡ s.all_commitment_ids ++ (id ∷ [])
      → s'.total_commitments ≡ s.total_commitments + 1
      → s.total_commitments + 1 < 2 ^ 64
      → s'.total_value_locked ≡ s.total_value_locked +ℤ pos n
      → IsValid s'
  IsValid-add s' id c n next own live worth ec ea et small ev =
      let all : List Bytes = s.all_commitment_ids in
      let f' : Bytes → Option Commitment = update s.commitment id (some c) in
      let unlisted : mem id all ≡ false = rw next next_id_unlisted in
      let listed : mem id (all ++ (id ∷ [])) ≡ true =
        rw (mem-append, bytes_eq_refl id) (or_true (mem id all)) in
      let old_sum : sum_over (locked_at f') all ≡ sum_over (locked_at s.commitment) all =
        sum_over_congr (locked_at f') (locked_at s.commitment) all
          (λ j m. rw (mem_apart id j all unlisted m)) in
      let new_value : locked (f' id) ≡ n = rw (bytes_eq_refl id, live, worth) in
      let sums : sum_over (locked_at f') (all ++ (id ∷ []))
          ≡ sum_over (locked_at s.commitment) all + n =
        sum_over-append (locked_at f') all (id ∷ []) ∙ omega (arith, old_sum, new_value) in
      record {
        stored =
            rw (ec, ea)
              (added-IsStored s.commitment all id c v.stored own (rw worth (omega arith)) listed);
        ids = ea ∙ rw (et, add-one, v.ids, next) refl;
        counted = rw et small;
        tvl = rw (ec, ea) (rw (sums, ev, v.tvl) (add_pos _ n));
      }
    where
      or_true : (b : Bool) → (b || true) ≡ true
      or_true b = ground arith
