-- ===== src/Tables/Tests.antt =====
-- statApp/src/tbl*.cpp: samples of what the tables read.
use lin_stat.Base.{
  none, if◌then◌else◌, Option, ℕ, ◌+◌, ◌≤◌, ◌<◌, ◌≡◌, refl, ◌⊎◌, ◌||◌, some, List, [], ◌∷◌, ◌++◌,
  arith, length, take,
}
use lin_stat.Base.Text.{Bytes, codes, bytes_eq}
use lin_stat.Base.Dict.{Dict, insert, lookup}
use lin_stat.Base.Parse.{stoul}
use lin_stat.Tables.Irq.{u64, delta, scan, start, readirq}
use lin_stat.Tables.Irq.Busiest.{Has, sum, scan_lem}
use lin_stat.Base.Buffer.{c_str}
use lin_stat.Table.{text, begin}
use lin_stat.Tables.Pid
use lin_stat.Tables.Pid.{first_part, second_part}
use lin_stat.Tables.Pid.Laws.{update_shows}
use lin_stat.Tables.Ethtool.{
  ifr_name, add_stats, no_drops, answer, listed, get_strings, construct, made, DriverInfo, agg_none,
  agg_rx_drop, classify,
}
use lin_stat.Tables.Ethtool.Request.{ifr_name_lem}
use lin_stat.Tables.Ethtool.Dropped.{is_rx, is_tx, sum_where, any_where, classified, add_stats_lem}

abbrev before : Dict ℕ
before = (codes "0:", 5) ∷ (codes "1:", 100) ∷ []

abbrev now : Dict ℕ
now = (codes "0:", 9) ∷ (codes "1:", 101) ∷ []

readirq_runs :
    readirq (some (codes " CPU0 CPU1" ∷ codes " 0: 4 5 timer" ∷ codes " NMI: 1 x 7" ∷ []))
    ≡ some ((codes "0: timer", 9) ∷ (codes "NMI: 7", 1) ∷ [])
unfolding readirq insert stoul
readirq_runs = refl

scan_lem_example :
    let s = scan before now start in
    (s.total ≡ u64 (sum now))
    × ((label : Bytes) (count : ℕ) → Has label count now → delta before label count ≤ s.max_delta)
    × (((label : Bytes) × (count : ℕ) × Has label count now
          × (delta before label count ≡ s.max_delta)
          × (label ≡ s.max_name))
        ⊎ ((s.max_delta ≡ 0) × (s.max_name ≡ [])))
scan_lem_example = scan_lem before now

abbrev exe : Bytes
exe = codes "/usr/bin/ioc"

abbrev limits : Bytes → Option (ℕ × ℕ)
limits key = if bytes_eq key (codes "CORE") then some (0, 7) else none

update_shows_example :
    let (tr, size') = Pid.update {F = ℕ} 100 (some exe) (some (codes "/tmp")) limits 8 (begin 3) in
    (lookup (codes "exe") tr.next ≡ some (text exe))
    × (lookup (codes "cwd") tr.next ≡ some (text (codes "/tmp")))
    × (lookup (codes "cwd1") tr.next ≡ some (text (first_part (codes "/tmp"))))
    × (lookup (codes "cwd2") tr.next ≡ some (text (second_part (codes "/tmp"))))
    × (first_part (codes "/tmp") ++ second_part (codes "/tmp") ≡ take 117 (codes "/tmp"))
    × (length (first_part (codes "/tmp")) ≤ 39)
    × (length (codes "/tmp") + 1 < size')
update_shows_example = update_shows 100 exe (codes "/tmp") limits 8 3 (omega arith)

abbrev stats : List Bytes
stats = codes "rx_packets" ∷ codes "rx_queue_0_drops" ∷ codes "tx_discards" ∷ []

add_stats_lem_example :
    let s = add_stats (λ i. i + 1) 0 (classified stats) no_drops in
    (s.rx_drop ≡ u64 (sum_where is_rx (λ i. i + 1) 0 stats))
    × (s.tx_drop ≡ u64 (sum_where is_tx (λ i. i + 1) 0 stats))
    × (s.found ≡ any_where (λ name. is_rx name || is_tx name) stats)
add_stats_lem_example = add_stats_lem (λ i. i + 1) stats

-- Names of four bytes, with a nil behind the shorter one.
strings_runs :
    get_strings 95 4 (answer (2, 2)) (λ n. answer (codes "ab" ++ 0 ∷ 9 ∷ codes "cdef"))
    ≡ listed (codes "ab" ∷ codes "cdef" ∷ [])
unfolding get_strings
strings_runs = refl

abbrev e1000 : DriverInfo
e1000 = record { driver = codes "e1000"; version = codes "1"; n_stats = 2 }

construct_runs :
    construct 16 (codes "eth0") (some e1000) (listed (codes "rx_drops" ∷ codes "up" ∷ [])) (some 3)
    ≡ made (record {
      driver = codes "e1000";
      version = codes "1";
      stat_names = (codes "rx_drops", agg_rx_drop) ∷ (codes "up", agg_none) ∷ [];
      nwords = 3;
    })
unfolding construct classify
construct_runs = refl

ifr_name_lem_example : c_str (ifr_name 16 (codes "eth0")) ≡ codes "eth0"
unfolding construct
ifr_name_lem_example =
    ifr_name_lem 16 (codes "eth0") none (listed []) none
      (record { driver = codes "N/A"; version = codes "N/A"; stat_names = []; nwords = 0 }) refl
      (omega arith)
