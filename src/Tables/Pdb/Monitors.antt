-- ===== src/Tables/Pdb/Monitors.antt =====
-- statApp/src/tblProcPDB.cpp: which tables are told of a suspended thread.
use lin_stat.Base.{ℕ, ◌+◌, ◌<◌, ◌≡◌, true, false, List, [], ◌∷◌, ◌==◌, if◌then◌else◌}
use lin_stat.Tables.Pdb.{Pdb, Ioc}

abbrev count : ℕ → List ℕ → ℕ
count i [] = 0
count i (j ∷ js) = (if j == i then 1 else 0) + count i js

-- What the calls of the monitors leave as it was.
record Kept (c d : Ioc) : Type 0 where
  lives : d.lives ≡ c.lives
  monitors : d.monitors ≡ c.monitors
  next_table : d.next_table ≡ c.next_table
  hooks : d.hooks ≡ c.hooks
  registered : d.registered ≡ c.registered

-- The monitors are the living tables, each once.
record Monitored (c : Ioc) : Type 0 where
  counted : (i : ℕ) → count i c.monitors ≡ (if c.lives i then 1 else 0)
  bounded : (i : ℕ) → c.lives i ≡ true → i < c.next_table
  once : c.hooks ≡ (if c.registered then 1 else 0)
  sound : c.faulted ≡ false
