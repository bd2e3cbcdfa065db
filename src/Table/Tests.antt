-- ===== src/Table/Tests.antt =====
-- statApp/src/tblBase.cpp: an update that throws after two of its calls.
use lin_stat.Base.{◌++◌, ℕ, ◌≡◌, false, List, [], ◌∷◌}
use lin_stat.Base.Text.{Bytes, codes}
use lin_stat.Table.{
  high_priority, medium_priority, low_priority, Value, text, StatTable, new_table, find_param,
  update_table,
}
use lin_stat.Table.Laws.{set_all, last_set, update_table_lem}

abbrev calls : List (Bytes × Value ℕ)
calls = (codes "rate", text (codes "fast")) ∷ (codes "rate", text (codes "slow")) ∷ []

abbrev table : StatTable ℕ
table = new_table (codes "stat") (codes "localhost")

update_table_lem_example :
    let (after, returned) = update_table (λ tr. (set_all calls tr, false)) 5 table in
    ((k : Bytes) → find_param k after ≡ last_set k calls)
    × (after.current_time ≡ 5)
    × (after.fact ≡ table.fact)
    × (after.inst ≡ table.inst)
    × (after.posted ≡ table.posted ++ high_priority ∷ medium_priority ∷ low_priority ∷ [])
    × (returned ≡ false)
update_table_lem_example = update_table_lem calls false 5 table
