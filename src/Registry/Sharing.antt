-- ===== src/Registry/Sharing.antt =====
-- statApp/src/tblBase.cpp: one live table for each factory and instance.
use lin_stat.Base.{
  ℕ, ◌<◌, ◌≡◌, subst, sym, ◌≢◌, ◌↔◌, true, List, [], ◌∷◌, none, some, arith, if◌then◌else◌,
}
use lin_stat.Base.Text.{Bytes, bytes_eq_iff}
use lin_stat.Table.{StatTable}
use lin_stat.Registry.{
  Gbl, Key, Call, adds, gets, drops, call, calls, no_tables, key_eq, find_key, erase_key,
  insert_key, ok, get_table,
}

pub key_eq_iff : (j k : Key) → (key_eq j k ≡ true) ↔ (j ≡ k)
key_eq_iff (a, b) (c, d) = ground (arith, bytes_eq_iff a c, bytes_eq_iff b d)

pub find-erase_key :
    (k j : Key) (m : List (Key × ℕ))
    → find_key j (erase_key k m) ≡ (if key_eq k j then none else find_key j m)
find-erase_key k j [] = ground arith
find-erase_key k j ((i, n) ∷ m) =
    ground (arith, key_eq_iff i k, key_eq_iff i j, key_eq_iff k j, find-erase_key k j m)

pub find-insert_key :
    (k j : Key) (i : ℕ) (m : List (Key × ℕ))
    → find_key k m ≡ none
    → find_key j (insert_key k i m) ≡ (if key_eq k j then some i else find_key j m)
find-insert_key k j i [] h = ground arith
find-insert_key k j i ((l, n) ∷ m) h =
    ground (arith, key_eq_iff l k, key_eq_iff l j, key_eq_iff k j, find-insert_key k j i m)

pub find-insert_erased :
    (k j : Key) (i : ℕ) (m : List (Key × ℕ))
    → find_key j (insert_key k i (erase_key k m)) ≡ (if key_eq k j then some i else find_key j m)
find-insert_erased k j i m = ground (
  arith,
  find-insert_key k j i (erase_key k m),
  find-erase_key k k m,
  find-erase_key k j m,
  key_eq_iff k k,
)

module _ {F : Type 0} where
  -- Asked again for the same factory and instance while the table lives, the registry gives the
  -- same table and changes nothing: the factory runs once.
  pub get_table_again :
      (name inst : Bytes) (g h : Gbl F) (i : ℕ)
      → get_table name inst g ≡ (h, ok i)
      → (get_table name inst h ≡ (h, ok i)) × (h.live i ≡ true)
  unfolding get_table
  get_table_again name inst g h i e = ground (
    arith,
    key_eq_iff (name, inst) (name, inst),
    find-insert_key (name, inst) (name, inst) g.next_table g.tables,
    find-insert_erased (name, inst) (name, inst) g.next_table g.tables,
  )

  -- What the map holds: tables that were made, at most one for a key.
  record Inv (g : Gbl F) : Type 0 where
    made : (k : Key) (i : ℕ) → find_key k g.tables ≡ some i → i < g.next_table
    apart :
        (j k : Key) (i : ℕ) → find_key j g.tables ≡ some i → find_key k g.tables ≡ some i → j ≡ k

  call-made :
      (c : Call F) (g : Gbl F)
      → Inv g
      → (k : Key) (i : ℕ) → find_key k (call c g).tables ≡ some i
      → i < (call c g).next_table
  unfolding call
  call-made (adds name f) g v k i e = ground (arith, v.made k i)
  call-made (gets name inst) g v k i e = ground (
    arith,
    v.made k i,
    find-erase_key (name, inst) k g.tables,
    find-insert_key (name, inst) k g.next_table g.tables,
    find-insert_erased (name, inst) k g.next_table g.tables,
  )
  call-made (drops j) g v k i e = ground (arith, v.made k i)

  call-apart :
      (c : Call F) (g : Gbl F)
      → Inv g
      → (j k : Key) (i : ℕ) → find_key j (call c g).tables ≡ some i
      → find_key k (call c g).tables ≡ some i
      → j ≡ k
  unfolding call
  call-apart (adds name f) g v j k i d e = ground (arith, v.apart j k i)
  call-apart (gets name inst) g v j k i d e = ground (
    arith,
    v.apart j k i,
    v.made j i,
    v.made k i,
    find-erase_key (name, inst) j g.tables,
    find-erase_key (name, inst) k g.tables,
    find-insert_key (name, inst) j g.next_table g.tables,
    find-insert_key (name, inst) k g.next_table g.tables,
    find-insert_erased (name, inst) j g.next_table g.tables,
    find-insert_erased (name, inst) k g.next_table g.tables,
    key_eq_iff (name, inst) j,
    key_eq_iff (name, inst) k,
  )
  call-apart (drops l) g v j k i d e = ground (arith, v.apart j k i)

  calls-Inv : (cs : List (Call F)) (g : Gbl F) → Inv g → Inv (calls cs g)
  unfolding calls
  calls-Inv [] g v = v
  calls-Inv (c ∷ cs) g v =
      calls-Inv cs (call c g) (record { made = call-made c g v; apart = call-apart c g v })

  get_table-found :
      (name inst : Bytes) (g h : Gbl F) (i : ℕ)
      → get_table name inst g ≡ (h, ok i)
      → find_key (name, inst) h.tables ≡ some i
  unfolding get_table
  get_table-found name inst g h i e = ground (
    arith,
    key_eq_iff (name, inst) (name, inst),
    find-insert_key (name, inst) (name, inst) g.next_table g.tables,
    find-insert_erased (name, inst) (name, inst) g.next_table g.tables,
  )

  get_table-Inv : (name inst : Bytes) (g : Gbl F) → Inv g → Inv (get_table name inst g).0
  unfolding call
  get_table-Inv name inst g v = record {
    made = call-made (gets name inst) g v;
    apart = call-apart (gets name inst) g v;
  }

  get_table-keeps :
      (name inst : Bytes) (g : Gbl F) (k : Key)
      → ¬ (◌≡◌ {A = Key} (name, inst) k)
      → find_key k (get_table name inst g).0.tables ≡ find_key k g.tables
  unfolding get_table
  get_table-keeps name inst g k ne = ground (
    arith,
    key_eq_iff (name, inst) k,
    find-erase_key (name, inst) k g.tables,
    find-insert_key (name, inst) k g.next_table g.tables,
    find-insert_erased (name, inst) k g.next_table g.tables,
  )

  Inv-no_tables : (store : ℕ → StatTable F) → Inv (no_tables store)
  Inv-no_tables store = record { made = λ k i e. cc; apart = λ j k i d e. cc }

  -- After any history, records that ask for different factories or instances, one after the other,
  -- get different tables.
  pub get_table_apart :
      (store : ℕ → StatTable F) (cs : List (Call F)) (name inst name' inst' : Bytes) (h k : Gbl F)
      (i j : ℕ)
      → get_table name inst (calls cs (no_tables store)) ≡ (h, ok i)
      → get_table name' inst' h ≡ (k, ok j)
      → ¬ (◌≡◌ {A = Key} (name, inst) (name', inst'))
      → i ≢ j
  get_table_apart store cs name inst name' inst' h k i j d e ne same =
      ne (after.apart (name, inst) (name', inst') j kept (get_table-found name' inst' h k j e))
    where
      before : Inv h
      before =
          subst (λ r. Inv r.0) d
            (get_table-Inv name inst _ (calls-Inv cs (no_tables store) (Inv-no_tables store)))

      after : Inv k
      after = subst (λ r. Inv r.0) e (get_table-Inv name' inst' h before)

      kept : find_key (name, inst) k.tables ≡ some j
      kept = ground (
        arith,
        get_table-found name inst _ h i d,
        get_table-keeps name' inst' h (name, inst) (λ q. ne (sym q)),
      )
