-- ===== src/CapArray/Tests.antt =====
-- statApp/src/devcap.cpp: the masks of the test of the capability array.
use lin_stat.Base.{◌≡◌, refl, true, some, [], ◌∷◌, arith, take}
use lin_stat.Base.Text.{codes}
use lin_stat.CapArray.{CapBits, cap_map, names, cap_array, cap_names, cap_array_lem}

abbrev linux : CapBits
linux = record { net_admin = 12; sys_admin = 21; sys_nice = 23; ipc_lock = 14 }

cap_array_runs :
    cap_array linux true (some 2113536) 16 ≡ names (codes "IPC_LOCK" ∷ codes "SYS_ADMIN" ∷ [])
unfolding cap_array
cap_array_runs = refl

cap_array_lem_example :
    cap_array linux true (some 2113536) 1 ≡ names (take 1 (cap_names (cap_map linux) 67 0 2113536))
cap_array_lem_example = cap_array_lem linux true (some 2113536) 1 3 (omega arith)
