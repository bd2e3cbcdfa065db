-- ===== src/Table/Laws.antt =====
-- statApp/src/tblBase.cpp: what a transaction publishes.
use lin_stat.Base.{
  ℕ, ◌≡◌, refl, Bool, List, [], ◌∷◌, ◌++◌, Option, none, some, arith, if◌then◌else◌,
}
use lin_stat.Base.Text.{Bytes, bytes_eq}
use lin_stat.Base.Dict.{lookup, lookup-insert}
use lin_stat.Table.{
  Value, high_priority, medium_priority, low_priority, StatTable, Transaction, begin, set_value,
  commit, find_param, update_table,
}

module _ {F : Type 0} where
  -- A body that makes these calls of set(), setf() and so on, in this order.
  abbrev pub set_all : List (Bytes × Value F) → Transaction F → Transaction F
  set_all [] tr = tr
  set_all ((name, v) ∷ sets) tr = set_all sets (set_value name v tr)

  -- The value of the last call for a name.
  abbrev pub last_set : Bytes → List (Bytes × Value F) → Option (Value F)
  last_set k [] = none
  last_set k ((name, v) ∷ sets) = elim (last_set k sets) [
    | some w ↦ some w
    | none ↦ if bytes_eq name k then some v else none
  ]

  abbrev or_else : Option (Value F) → Option (Value F) → Option (Value F)
  or_else (some v) o = some v
  or_else none o = o

  set_all_lem :
      (k : Bytes) (sets : List (Bytes × Value F)) (tr : Transaction F)
      → lookup k (set_all sets tr).next ≡ or_else (last_set k sets) (lookup k tr.next)
  unfolding set_value
  set_all_lem k [] tr = refl
  set_all_lem k ((name, v) ∷ sets) tr =
      ground (arith, set_all_lem k sets (set_value name v tr), lookup-insert name k v tr.next)

  next_time-set_all :
      (sets : List (Bytes × Value F)) (tr : Transaction F)
      → (set_all sets tr).next_time ≡ tr.next_time
  unfolding set_value
  next_time-set_all [] tr = refl
  next_time-set_all ((name, v) ∷ sets) tr = next_time-set_all sets (set_value name v tr)

  -- Whatever the table held before, and whether update() returns or throws after its calls, the
  -- table then holds for each name the value of the last call for it, and nothing under a name
  -- that was not set; its time is the time at which the update began, its identity stays, and its
  -- scan list is posted once at each priority, from high to low.
  pub update_table_lem :
      (sets : List (Bytes × Value F)) (ok : Bool) (now : ℕ) (tbl : StatTable F)
      → let (after, returned) = update_table (λ tr. (set_all sets tr, ok)) now tbl in
        ((k : Bytes) → find_param k after ≡ last_set k sets)
        × (after.current_time ≡ now)
        × (after.fact ≡ tbl.fact)
        × (after.inst ≡ tbl.inst)
        × (after.posted ≡ tbl.posted ++ high_priority ∷ medium_priority ∷ low_priority ∷ [])
        × (returned ≡ ok)
  unfolding update_table find_param begin commit lookup
  update_table_lem sets ok now tbl = (
    (λ k. ground (arith, set_all_lem k sets (begin now))),
    next_time-set_all sets (begin now),
    refl,
    refl,
    refl,
    refl,
  )
