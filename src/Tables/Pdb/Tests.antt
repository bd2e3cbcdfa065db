-- ===== src/Tables/Pdb/Tests.antt =====
-- statApp/src/tblProcPDB.cpp: two tables, of which one goes.
use lin_stat.Base.{◌≡◌, refl, true, false, List, [], ◌∷◌}
use lin_stat.Base.Text.{codes}
use lin_stat.Tables.Pdb.{
  Event, constructs, destroys, notifies, marks, happens, no_pdb, notify, count_types,
}

-- Two of five records are aliases.
count_runs : count_types ((true ∷ false ∷ []) ∷ [] ∷ (false ∷ false ∷ true ∷ []) ∷ []) 0 ≡ 3
unfolding count_types
count_runs = refl

abbrev history : List Event
history =
    constructs (codes "self") ((false ∷ []) ∷ [])
    ∷ constructs (codes "self") ((false ∷ []) ∷ [])
    ∷ constructs (codes "other") []
    ∷ notifies true
    ∷ destroys 0
    ∷ marks true
    ∷ notifies true
    ∷ []

history_runs :
    let c = happens history no_pdb in
    ((c.tables 0).nsuspend ≡ 1) × ((c.tables 1).nsuspend ≡ 2) × (c.hooks ≡ 1) × (c.started ≡ true)
unfolding happens notify
history_runs = (refl, refl, refl, refl)
