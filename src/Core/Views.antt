-- ===== src/Core/Views.antt =====
-- The read-only entry points of contracts/commitment_core/src/lib.rs that compute something.
use mathlib.Core.Bool.{not}
use commitlabs_contracts.Prelude.{
  ℕ, zero, suc, ◌+◌, ◌-◌, ◌^◌, ◌≤◌, ◌<◌, min, ◌≡◌, refl, sym, ◌∙◌, ap, Bool, true, false, ◌&&◌,
  ◌||◌, Option, none, some, List, [], ◌∷◌, arith, leb, ◌==◌, if◌then◌else◌, length, take, drop, mem,
  inl, inr, Bool-cases,
}
use commitlabs_contracts.Prelude.Int.{ℤ, pos, ltb_ℤ}
use commitlabs_contracts.Shared.Outcome
use commitlabs_contracts.Shared.Outcome.{Result, ok, panic, ◌>>=◌, ◌>>◌, reject_if, or_panic}
use commitlabs_contracts.Core.Types.{
  Address, Bytes, bytes_eq_sound, bytes_key, commitment_not_found, or_fail, Commitment, Core,
  is_active,
}
use commitlabs_contracts.Core.Lifecycle.{loss_of_value}

abbrev pub max_page_size : ℕ
max_page_size = 50

get_elem? : {A : Type 0} → List A → ℕ → Option A
get_elem? [] i = none
get_elem? (a ∷ all) zero = some a
get_elem? (a ∷ all) (suc i) = get_elem? all i

-- `for i in offset..end { page.push_back(all.get(i).unwrap()) }`, with the rounds that are left.
unfoldable pub page_loop : {A : Type 0} → (rounds i : ℕ) → List A → Result (List A)
unfolding get_elem?
page_loop zero i all = ok []
page_loop (suc rounds) i all = do
  id ← or_panic (get_elem? all i) Outcome.unwrap_none
  rest ← page_loop rounds (i + 1) all
  ok (id ∷ rest)

drop_at :
    {A : Type 0} (i : ℕ) (all : List A)
    → i < length all
    → (a : A) × (get_elem? all i ≡ some a) × (drop i all ≡ a ∷ drop (suc i) all)
unfolding get_elem?
drop_at i [] h = absurd (omega arith)
drop_at zero (a ∷ all) h = (a, refl, refl)
drop_at (suc i) (a ∷ all) h = drop_at i all (omega (arith, h))

page_loop_lem :
    {A : Type 0} (rounds i : ℕ) (all : List A)
    → i + rounds ≤ length all
    → page_loop rounds i all ≡ ok (take rounds (drop i all))
unfolding page_loop
page_loop_lem zero i all h = refl
page_loop_lem (suc rounds) i all h =
    let (a, found, split) = drop_at i all (omega (arith, h)) in
    let rest : page_loop rounds (i + 1) all ≡ ok (take rounds (drop (i + 1) all)) =
      page_loop_lem rounds (i + 1) all (omega (arith, h)) in
    rw (found, rest, split, plus_one i) refl
  where
    plus_one : (i : ℕ) → i + 1 ≡ suc i
    plus_one i = omega arith

module _ {W : Type 0} (s : Core W) where
  unfoldable pub get_owner_commitments : (owner : Address) (offset limit : ℕ) → Result (List Bytes)
  get_owner_commitments owner offset limit =
      let all = s.owner_commitments owner in
      let total = length all in
      let effective_limit = min limit max_page_size in
      let end = min (offset + effective_limit) total in
      if leb total offset || limit == 0
      then ok []
      else (reject_if (leb (2 ^ 32) (offset + effective_limit)) Outcome.arithmetic_overflow
          >> page_loop (end - offset) offset all)

  unfoldable created_between : (from_ts to_ts : ℕ) → List Bytes → List Bytes
  created_between from_ts to_ts [] = []
  created_between from_ts to_ts (id ∷ ids) =
      let out = created_between from_ts to_ts ids in
      elim (s.commitment id) [
        | none ↦ out
        | some c ↦ if leb from_ts c.created_at && leb c.created_at to_ts then id ∷ out else out
      ]

  unfoldable pub get_commitments_created_between : (from_ts to_ts : ℕ) → List Bytes
  unfolding created_between
  get_commitments_created_between from_ts to_ts = created_between from_ts to_ts s.all_commitment_ids

module _ {W : Type 0} (now : ℕ) (s : Core W) where
  unfoldable pub check_violations : Bytes → Result Bool
  check_violations commitment_id = do
    commitment ← or_fail (s.commitment commitment_id) commitment_not_found
    if not (is_active commitment.status)
        then ok false
        else (loss_of_value commitment.amount commitment.current_value >>= λ loss_percent. ok (
            ltb_ℤ (pos commitment.rules.max_loss_percent) loss_percent
            || leb commitment.expires_at now))

  unfoldable pub get_violation_details : Bytes → Result (Bool × Bool × Bool × ℤ × ℕ)
  get_violation_details commitment_id = do
    commitment ← or_fail (s.commitment commitment_id) commitment_not_found
    loss_percent ← loss_of_value commitment.amount commitment.current_value
    let loss_violated = ltb_ℤ (pos commitment.rules.max_loss_percent) loss_percent
    let duration_violated = leb commitment.expires_at now
    ok (
      loss_violated || duration_violated,
      loss_violated,
      duration_violated,
      loss_percent,
      commitment.expires_at - now,
    )

-- A stored commitment that was created in the closed interval.
abbrev pub is_created_between : (from_ts to_ts : ℕ) → Option Commitment → Bool
is_created_between from_ts to_ts none = false
is_created_between from_ts to_ts (some c) = leb from_ts c.created_at && leb c.created_at to_ts

length-drop : {A : Type 0} (n : ℕ) (all : List A) → length (drop n all) ≡ length all - n
length-drop zero all = omega arith
length-drop (suc n) [] = omega arith
length-drop (suc n) (a ∷ all) = omega (arith, length-drop n all)

-- The code bounds a slice by the end of the list; taking does so by itself.
take_bounded :
    {A : Type 0} (m k : ℕ) (all : List A) → k ≡ min m (length all) → take k all ≡ take m all
take_bounded zero k all e = rw (zero_of e) refl
  where
    zero_of : k ≡ min 0 (length all) → k ≡ 0
    zero_of e = ground arith
take_bounded (suc m) zero [] e = refl
take_bounded (suc m) (suc k) [] e = refl
take_bounded (suc m) zero (a ∷ all) e = absurd (ground arith)
take_bounded (suc m) (suc k) (a ∷ all) e = ap (λ xs. a ∷ xs) (take_bounded m k all (ground arith))

page_loop_slice :
    {A : Type 0} (offset m : ℕ) (all : List A)
    → offset < length all
    → page_loop (min (offset + m) (length all) - offset) offset all ≡ ok (take m (drop offset all))
page_loop_slice offset m all inside =
    page_loop_lem _ offset all (ground arith)
    ∙ ap ok (take_bounded m _ (drop offset all) (rw (length-drop offset all) (ground arith)))

drop_all : {A : Type 0} (n : ℕ) (all : List A) → length all ≤ n → drop n all ≡ []
drop_all zero [] h = refl
drop_all zero (a ∷ all) h = absurd (omega arith)
drop_all (suc n) [] h = refl
drop_all (suc n) (a ∷ all) h = drop_all n all (omega (arith, h))

take_none : {A : Type 0} (m : ℕ) → take {A = A} m [] ≡ []
take_none zero = refl
take_none (suc m) = refl

module _ {W : Type 0} (s : Core W) where
  -- A page of the commitments of an owner with fewer than 2^32 - 50 of them is the slice of that
  -- list from `offset` on, of `limit` ids but never more than fifty, and the call does not panic.
  pub get_owner_commitments_lem :
      (owner : Address) (offset limit : ℕ)
      → length (s.owner_commitments owner) + 50 < 2 ^ 32
      → get_owner_commitments s owner offset limit
        ≡ ok (take (min limit 50) (drop offset (s.owner_commitments owner)))
  unfolding get_owner_commitments
  get_owner_commitments_lem owner offset limit few =
      elim (Bool-cases (leb (length (s.owner_commitments owner)) offset || limit == 0)) [
        | inl out ↦ rw out (sym (ap ok (nothing out)))
        | inr inside ↦
            rw (inside, no_overflow inside)
              (page_loop_slice offset (min limit 50) (s.owner_commitments owner) (starts inside))
      ]
    where
      nothing :
          (leb (length (s.owner_commitments owner)) offset || limit == 0) ≡ true
          → take (min limit 50) (drop offset (s.owner_commitments owner)) ≡ []
      nothing out = elim (Bool-cases (leb (length (s.owner_commitments owner)) offset)) [
        | inl past ↦
            rw (drop_all offset (s.owner_commitments owner) (ground arith))
              (take_none (min limit 50))
        | inr before ↦ rw (zero_limit before) refl
      ]
        where
          zero_limit : leb (length (s.owner_commitments owner)) offset ≡ false → min limit 50 ≡ 0
          zero_limit before = ground arith

      no_overflow :
          (leb (length (s.owner_commitments owner)) offset || limit == 0) ≡ false
          → leb (2 ^ 32) (offset + min limit 50) ≡ false
      no_overflow inside = ground arith

      starts :
          (leb (length (s.owner_commitments owner)) offset || limit == 0) ≡ false
          → offset < length (s.owner_commitments owner)
      starts inside = ground arith

  created_between_iff :
      (from_ts to_ts : ℕ) (id : Bytes) (ids : List Bytes)
      → mem id (created_between s from_ts to_ts ids)
        ≡ (mem id ids && is_created_between from_ts to_ts (s.commitment id))
  unfolding created_between
  created_between_iff from_ts to_ts id [] = refl
  created_between_iff from_ts to_ts id (x ∷ ids) =
      ground (arith, created_between_iff from_ts to_ts id ids, bytes_eq_sound x id)

  -- An id is listed for an interval exactly if it is a recorded id whose stored commitment was
  -- created in that interval, both ends included.
  pub get_commitments_created_between_lem :
      (from_ts to_ts : ℕ) (id : Bytes)
      → mem id (get_commitments_created_between s from_ts to_ts)
        ≡ (mem id s.all_commitment_ids && is_created_between from_ts to_ts (s.commitment id))
  unfolding get_commitments_created_between
  get_commitments_created_between_lem from_ts to_ts id =
      created_between_iff from_ts to_ts id s.all_commitment_ids
