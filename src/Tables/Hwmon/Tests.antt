-- ===== src/Tables/Hwmon/Tests.antt =====
-- statApp/src/tblHwmon.cpp: one device with a temperature and a fan that is stuck.
use lin_stat.Base.{ℕ, ◌≡◌, refl, true, [], ◌∷◌, none, some, if◌then◌else◌}
use lin_stat.Base.Text.{Bytes, codes, bytes_eq}
use lin_stat.Base.Dict.{lookup, insert}
use lin_stat.Base.Number.{stol}
use lin_stat.Files.{Entry, directory, regular}
use lin_stat.Table.{begin}
use lin_stat.Tables.Hwmon.{Sys}
use lin_stat.Tables.Hwmon.Publish.{update}
use lin_stat.Tables.Hwmon.Hottest.{Hottest, Fans, update_lem}

abbrev device : Entry
device = record { filename = codes "hwmon0"; kind = directory; target = none }

abbrev sensor : Bytes → Entry
sensor name = record { filename = name; kind = regular; target = none }

abbrev sys : Sys
sys = record {
  listing = λ dir.
      if bytes_eq dir (codes "/m/")
      then some (device ∷ [])
      else some (sensor (codes "temp1_input") ∷ sensor (codes "fan1_target") ∷ []);
  contents = λ path.
      if bytes_eq path (codes "/m/hwmon0/name") then some (codes "acpi") else some (codes "2700");
}

returns_runs : (update {F = ℕ} sys (codes "/m") (begin 5)).1 ≡ true
unfolding update begin lookup insert stol
returns_runs = refl

update_lem_example :
    Hottest {F = ℕ} (update sys (codes "/m") (begin 5)).0
    × Fans {F = ℕ} (update sys (codes "/m") (begin 5)).0
update_lem_example = update_lem sys (codes "/m") 5 returns_runs
