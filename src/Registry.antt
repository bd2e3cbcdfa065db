-- ===== src/Registry.antt =====
-- statApp/src/tblBase.cpp: the factories and the tables that exist, `Gbl`. A table is a number in a
-- store; the map holds a weak_ptr, whose lock() fails once the last record drops the table.
mod Tests
pub mod Sharing
use lin_stat.Base.{
  ℕ, suc, Bool, true, false, not, ◌&&◌, ◌||◌, List, [], ◌∷◌, map, Option, none, some, ◌==◌,
  if◌then◌else◌,
}
use lin_stat.Base.Text.{Bytes, bytes_eq, bytes_lt}
use lin_stat.Base.Dict.{Dict, lookup, insert}
use lin_stat.Table.{StatTable}

-- A factory makes a table or throws; update() returns or throws, and changes the table.
pub record Factory (F : Type 0) : Type 0 where
  pub construct : Bytes → Option (StatTable F)
  pub update : StatTable F → StatTable F × Bool

abbrev pub Key : Type 0
Key = Bytes × Bytes

pub record Gbl (F : Type 0) : Type 0 where
  pub factories : Dict (Factory F)
  pub tables : List (Key × ℕ)
  pub store : ℕ → StatTable F
  pub live : ℕ → Bool
  pub next_table : ℕ

pub data Error : Type 0 where
  no_factory construct_failed : Error

pub data Result {ℓ} (A : Type ℓ) : Type ℓ where
  ok : A → Result A
  err : Error → Result A

abbrev pub key_eq : Key → Key → Bool
key_eq (a, b) (c, d) = bytes_eq a c && bytes_eq b d

-- operator< of std::pair.
abbrev pub key_lt : Key → Key → Bool
key_lt (a, b) (c, d) = bytes_lt a c || (not (bytes_lt c a) && bytes_lt b d)

abbrev pub find_key : Key → List (Key × ℕ) → Option ℕ
find_key k [] = none
find_key k ((j, i) ∷ m) = if key_eq j k then some i else find_key k m

abbrev pub erase_key : Key → List (Key × ℕ) → List (Key × ℕ)
erase_key k [] = []
erase_key k ((j, i) ∷ m) = if key_eq j k then erase_key k m else (j, i) ∷ erase_key k m

-- emplace(): an entry under the same key stays; the map is in the order of the keys.
abbrev pub insert_key : Key → ℕ → List (Key × ℕ) → List (Key × ℕ)
insert_key k i [] = (k, i) ∷ []
insert_key k i ((j, n) ∷ m) =
    if key_eq j k
    then (j, n) ∷ m
    else if key_lt k j
    then (k, i) ∷ (j, n) ∷ m
    else (j, n) ∷ insert_key k i m

abbrev pub update_at {ℓ} : {A : Type ℓ} → (ℕ → A) → ℕ → A → ℕ → A
update_at f i v j = if i == j then v else f j

-- The entries whose lock() succeeds.
abbrev pub live_of : (ℕ → Bool) → List (Key × ℕ) → List ℕ
live_of live [] = []
live_of live ((k, i) ∷ m) = if live i then i ∷ live_of live m else live_of live m

-- What the records of an IOC do with the registry.
pub data Call (F : Type 0) : Type 0 where
  adds : Bytes → Factory F → Call F
  gets : Bytes → Bytes → Call F
  drops : ℕ → Call F

module _ {F : Type 0} where
  -- addStatTableFactory()
  unfoldable pub add_factory : Bytes → Factory F → Gbl F → Gbl F
  add_factory name factory g = record g { factories = insert name factory g.factories }

  -- The initial, synchronous update of a new table.
  unfoldable pub first_update : Factory F → StatTable F → StatTable F
  first_update f tbl = let (after, returned) = f.update tbl in record after { last_ok = returned }

  -- The end of StatTable::lookup(): the table is made, updated and entered.
  unfoldable pub enter : Key → Factory F → StatTable F → Gbl F → Gbl F
  unfolding first_update
  enter key f tbl g = record g {
    tables = insert_key key g.next_table g.tables;
    store = update_at g.store g.next_table (first_update f tbl);
    live = update_at g.live g.next_table true;
    next_table = suc g.next_table;
  }

  -- StatTable::lookup() once no live table is known under the key.
  unfoldable pub make_table : Bytes → Bytes → Gbl F → Gbl F × Result ℕ
  unfolding enter
  make_table name inst g = elim (lookup name g.factories) [
    | none ↦ (g, err no_factory)
    | some f ↦ elim (f.construct inst) [
      | none ↦ (g, err construct_failed)
      | some tbl ↦ (enter (name, inst) f tbl g, ok g.next_table)
    ]
  ]

  -- StatTable::lookup(name, inst, react); the entry of a dead table goes also when it then throws.
  unfoldable pub get_table : Bytes → Bytes → Gbl F → Gbl F × Result ℕ
  unfolding make_table
  get_table name inst g = elim (find_key (name, inst) g.tables) [
    | none ↦ make_table name inst g
    | some i ↦
        if g.live i
        then (g, ok i)
        else make_table name inst (record g { tables = erase_key (name, inst) g.tables })
  ]

  -- The last record that uses a table goes.
  unfoldable pub drop_table : ℕ → Gbl F → Gbl F
  drop_table i g = record g { live = update_at g.live i false }

  -- list_all(): the tables that live, in the order of their keys.
  unfoldable pub list_all : Gbl F → List ℕ
  list_all g = live_of g.live g.tables

  -- factories_all(): their names.
  unfoldable pub factories_all : Gbl F → List Bytes
  factories_all g = map (λ pr. pr.0) g.factories

  unfoldable pub call : Call F → Gbl F → Gbl F
  unfolding add_factory get_table drop_table
  call (adds name f) g = add_factory name f g
  call (gets name inst) g = (get_table name inst g).0
  call (drops i) g = drop_table i g

  unfoldable pub calls : List (Call F) → Gbl F → Gbl F
  unfolding call
  calls [] g = g
  calls (c ∷ cs) g = calls cs (call c g)

  abbrev pub no_tables : (ℕ → StatTable F) → Gbl F
  no_tables store = record {
    factories = [];
    tables = [];
    store = store;
    live = λ _. false;
    next_table = 0;
  }
