-- ===== src/Tables/Netstat/Tests.antt =====
-- statApp/src/tblNetstat.cpp: two small tables.
use lin_stat.Base.{ℕ, ◌-◌, ◌≡◌, refl, true, false, List, [], ◌∷◌, ◌++◌, arith, ◌^◌}
use lin_stat.Base.Text.{Bytes, codes}
use lin_stat.Base.Dict.{insert}
use lin_stat.Table.{Transaction, int}
use lin_stat.Tables.Netstat.{read_tables}
use lin_stat.Tables.Netstat.Words.{labels, values}
use lin_stat.Tables.Netstat.RoundTrip.{set_columns, read_tables_lem}

abbrev fresh : Transaction ℕ
fresh = record { next = []; next_time = 0 }

abbrev columns : List (Bytes × ℕ)
columns = (codes "In", 12) ∷ (codes "Out", 0) ∷ []

-- -1 is read as a number of 64 bits.
minus_runs :
    read_tables {F = ℕ} (codes "Tcp: Max" ∷ codes "Tcp: -1" ∷ []) true fresh
    ≡ (record { next = (codes "Tcp:Max", int (2 ^ 64 - 1) []) ∷ []; next_time = 0 }, true)
unfolding read_tables insert
minus_runs = refl

-- A last label with no value is passed over.
short_runs : (read_tables {F = ℕ} (codes "T: A B" ∷ codes "T: 1" ∷ []) true fresh).1 ≡ true
unfolding read_tables insert
short_runs = refl

long_runs : (read_tables {F = ℕ} (codes "T: A" ∷ codes "T: 1 2" ∷ []) true fresh).1 ≡ false
unfolding read_tables insert
long_runs = refl

read_tables_lem_example :
    read_tables ((codes "Ip:" ++ labels columns) ∷ (codes "Ip:" ++ values columns) ∷ []) true fresh
    ≡ read_tables [] true (set_columns (codes "Ip:") columns fresh)
read_tables_lem_example =
    read_tables_lem (codes "Ip:") columns [] true fresh ((refl, (refl, (refl, tt))), refl) refl
      (
        ((refl, (refl, tt)), refl),
        omega arith,
        (((refl, (refl, (refl, tt))), refl), omega arith, tt),
      )
