-- ===== src/Registry/Tests.antt =====
-- statApp/src/tblBase.cpp: two tables of one factory.
use lin_stat.Base.{ℕ, refl, ◌≢◌, true, some, List, [], ◌∷◌}
use lin_stat.Base.Text.{codes}
use lin_stat.Base.Dict.{lookup, insert}
use lin_stat.Table.{StatTable, new_table}
use lin_stat.Registry.{Factory, Gbl, Call, adds, calls, no_tables, get_table}
use lin_stat.Registry.Sharing.{get_table_apart}

abbrev factory : Factory ℕ
factory = record {
  construct = λ inst. some (new_table (codes "statvfs") inst);
  update = λ tbl. (tbl, true);
}

abbrev store : ℕ → StatTable ℕ
store i = new_table [] []

abbrev history : List (Call ℕ)
history = adds (codes "statvfs") factory ∷ []

begun : Gbl ℕ
unfolding calls
begun = calls history (no_tables store)

one : Gbl ℕ
unfolding begun get_table lookup insert
one = (get_table (codes "statvfs") (codes "/") begun).0

two : Gbl ℕ
unfolding one
two = (get_table (codes "statvfs") (codes "/data") one).0

get_table_apart_example : ◌≢◌ {A = ℕ} 0 1
unfolding two
get_table_apart_example =
    get_table_apart store history (codes "statvfs") (codes "/") (codes "statvfs") (codes "/data")
      one two 0 1 refl refl (λ e. cc)
