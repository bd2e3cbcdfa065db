-- ===== src/Tables/Ethtool/Dropped.antt =====
-- statApp/src/tblEthtool.cpp: which statistics count as dropped packets.
use lin_stat.Base.{
  ℕ, suc, ◌+◌, ◌^◌, ◌<◌, ◌≡◌, Bool, false, not, ◌&&◌, ◌||◌, List, [], ◌∷◌, arith, ap, ◌∙◌,
  if◌then◌else◌, map,
}
use native.Mathlib.Nat.{zero-add}
use lin_stat.Base.Text.{Bytes, codes}
use lin_stat.Base.Parse.{contains}
use lin_stat.Tables.Ethtool.{AggStat, classify, Totals, add_stat, add_stats, no_drops, u64}

-- A name speaks of dropped packets, received or sent.
abbrev pub is_drop : Bytes → Bool
is_drop name = contains (codes "drop") name || contains (codes "discard") name

abbrev pub is_rx : Bytes → Bool
is_rx name = is_drop name && contains (codes "rx") name

abbrev pub is_tx : Bytes → Bool
is_tx name = is_drop name && (contains (codes "tx") name && not (contains (codes "rx") name))

-- The sum of the values whose names pass a test.
abbrev pub sum_where : (Bytes → Bool) → (ℕ → ℕ) → ℕ → List Bytes → ℕ
sum_where p out i [] = 0
sum_where p out i (name ∷ names) =
    let rest = sum_where p out (suc i) names in if p name then out i + rest else rest

abbrev pub any_where : (Bytes → Bool) → List Bytes → Bool
any_where p [] = false
any_where p (name ∷ names) = p name || any_where p names

abbrev pub classified : List Bytes → List (Bytes × AggStat)
classified names = map (λ name. (name, classify name)) names

add_stats_from :
    (out : ℕ → ℕ) (i : ℕ) (names : List Bytes) (t : Totals)
    → t.rx_drop < 2 ^ 64
    → t.tx_drop < 2 ^ 64
    → let s = add_stats out i (classified names) t in
      (s.rx_drop ≡ u64 (t.rx_drop + sum_where is_rx out i names))
      × (s.tx_drop ≡ u64 (t.tx_drop + sum_where is_tx out i names))
      × (s.found ≡ (t.found || any_where (λ name. is_rx name || is_tx name) names))
unfolding add_stats classify
add_stats_from out i [] t r x = ground arith
add_stats_from out i (name ∷ names) t r x =
    ground (arith, add_stats_from out (suc i) names (add_stat (classify name) (out i) t))

-- The numbers published as dropped are the sums, modulo 2 ^ 64, of the statistics whose names
-- contain "drop" or "discard" and "rx", or else "tx"; `found_stat` says whether there are any.
pub add_stats_lem :
    (out : ℕ → ℕ) (names : List Bytes)
    → let s = add_stats out 0 (classified names) no_drops in
      (s.rx_drop ≡ u64 (sum_where is_rx out 0 names))
      × (s.tx_drop ≡ u64 (sum_where is_tx out 0 names))
      × (s.found ≡ any_where (λ name. is_rx name || is_tx name) names)
add_stats_lem out names =
    let sums = add_stats_from out 0 names no_drops (omega arith) (omega arith) in
    (sums.0 ∙ ap u64 (zero-add _), sums.1 ∙ ap u64 (zero-add _), sums.2)
