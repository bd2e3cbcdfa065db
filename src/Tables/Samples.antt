-- ===== src/Tables/Samples.antt =====
-- statApp/src/tblMemInfo.cpp, tblProcStatus.cpp, tblProcStat.cpp, tblStat.cpp and tblUptime.cpp: lines
-- as the kernel writes them.
use lin_stat.Base.{ℕ, ◌≡◌, refl, true, [], ◌∷◌, some}
use lin_stat.Base.Text.{codes}
use lin_stat.Base.Dict.{insert}
use lin_stat.Base.Number.{stol}
use lin_stat.Base.Parse.{stoul}
use lin_stat.Table.{Transaction, int, text, float}
use lin_stat.Tables.MemInfo
use lin_stat.Tables.ProcStatus
use lin_stat.Tables.ProcStat
use lin_stat.Tables.Uptime

abbrev fresh : Transaction ℕ
fresh = record { next = []; next_time = 0 }

mem_runs :
    (MemInfo.update (some (codes "Mem: 12 kB" ∷ codes "H: 3" ∷ codes "odd" ∷ [])) fresh).0.next
    ≡ (codes "H", int 3 []) ∷ (codes "Mem", int 12 (codes "kB")) ∷ []
unfolding MemInfo.update insert stol
mem_runs = refl

-- A mask is hexadecimal; a leading 0 makes any other number octal.
status_runs :
    (ProcStatus.update (some (codes "SigBlk:\t1f" ∷ codes "Umask:\t022" ∷ [])) true fresh).0.next
    ≡ (codes "SigBlk", int 31 []) ∷ (codes "Umask", int 18 []) ∷ []
unfolding ProcStatus.update insert stol
status_runs = refl

-- The "0x" is taken off before the number is read as decimal.
hex_runs :
    (ProcStatus.update (some (codes "K: 0x12" ∷ [])) true fresh).0.next
    ≡ (codes "K", int 12 []) ∷ []
unfolding ProcStatus.update insert stol
hex_runs = refl

process_runs :
    (ProcStat.update_process (some (codes "4 (sh) R 1 2" ∷ [])) true fresh).0.next
    ≡ (codes "1", int 4 [])
      ∷ (codes "2", text (codes "sh"))
      ∷ (codes "3", text (codes "R"))
      ∷ (codes "4", int 1 [])
      ∷ (codes "5", int 2 [])
      ∷ []
unfolding ProcStat.update_process insert stol stoul
process_runs = refl

cpu_runs :
    (ProcStat.update_system (some (codes "cpu  7 8" ∷ codes "cpu0 7 8" ∷ [])) true fresh).0.next
    ≡ (codes "cpu:2", int 7 []) ∷ (codes "cpu:3", int 8 []) ∷ []
unfolding ProcStat.update_system insert stoul
cpu_runs = refl

uptime_runs :
    (Uptime.update (λ s. some 5) (some (codes "5.1 9.2" ∷ [])) fresh).0.next
    ≡ (codes "uptime", float 5 (codes "s")) ∷ []
unfolding Uptime.update insert
uptime_runs = refl
