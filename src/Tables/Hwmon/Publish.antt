-- ===== src/Tables/Hwmon/Publish.antt =====
-- statApp/src/tblHwmon.cpp: what is published of the sensors, and update().
use lin_stat.Base.{
  ℕ, suc, ◌+◌, ◌%◌, ◌^◌, Bool, true, false, not, ◌||◌, ◌&&◌, List, [], ◌∷◌, ◌++◌, Option, none,
  some, if◌then◌else◌, is_empty, length,
}
use lin_stat.Base.Text.{Bytes, codes, bytes_eq}
use lin_stat.Base.Dict.{Dict, lookup, insert}
use lin_stat.Base.Int.{ℤ, negsuc, ltb_ℤ, bits64, is_zero}
use lin_stat.TimeDelta.{show}
use lin_stat.Files.{starts_with, read_file, Entry, next_entry, is_directory, dirname, path}
use lin_stat.Tables.Hwmon.{Fan, Sensors, no_sensors, Sys, read_sensors}
use lin_stat.Table.{Transaction, set_int, set_text, set_nothing}

-- The variables of update().
pub record Mon (F : Type 0) : Type 0 where
  pub tr : Transaction F
  pub seen : List Bytes
  pub have_max : Bool
  pub temp_max : ℤ
  pub name_max : Bytes
  pub num : ℕ
  pub turning : ℕ
  pub stuck : ℕ

abbrev member : Bytes → List Bytes → Bool
member k [] = false
member k (j ∷ ks) = bytes_eq k j || member k ks

abbrev count_of : Option ℕ → ℕ
count_of none = 0
count_of (some n) = n

-- label_counts[label]
unfoldable pub label_count : Bytes → Dict ℕ → ℕ
unfolding lookup
label_count label counts = count_of (lookup label counts)

unfoldable pub counted : Bytes → Dict ℕ → Dict ℕ
unfolding label_count insert
counted label counts = insert label ((label_count label counts + 1) % 2 ^ 32) counts

abbrev pub label_or : Bytes → Bytes → Bytes
label_or label name = if is_empty label then name else label

-- SB()<<dev<<'.'<<label<<'.'<<count
unfoldable pub full_name : Bytes → Bytes → ℕ → Bytes
unfolding show
full_name dev label count = dev ++ (codes "." ++ (label ++ (codes "." ++ show count)))

unfoldable pub numbered : Bytes → ℕ → Bytes
unfolding show
numbered label count = label ++ (codes " [" ++ (show count ++ codes "]"))

module _ {F : Type 0} where
  -- One temperature.
  unfoldable pub publish_temp : Bytes → Bytes → ℕ → ℤ → Mon F → Mon F
  unfolding full_name numbered set_int set_text
  publish_temp dev label count t m =
      let name = full_name dev label count in
      let hotter = not m.have_max || ltb_ℤ m.temp_max t in
      record m {
        tr =
            set_int (name ++ codes ".temp") (bits64 t) (codes "mC")
              (set_text (name ++ codes ".label") (numbered label count) m.tr);
        have_max = true;
        temp_max = if hotter then t else m.temp_max;
        name_max = if hotter then name else m.name_max;
      }

  -- The loop over the temperatures.
  unfoldable pub publish_temps : Bytes → Dict (Bytes × ℤ) → Dict ℕ → Mon F → Mon F
  unfolding publish_temp label_count counted
  publish_temps dev [] counts m = m
  publish_temps dev ((name, (label, t)) ∷ ts) counts m =
      let shown = label_or label name in
      publish_temps dev ts (counted shown counts)
        (publish_temp dev shown (label_count shown counts) t m)

  -- One fan.
  unfoldable pub publish_fan : Bytes → Bytes → ℕ → Fan → Mon F → Mon F
  unfolding full_name numbered set_int set_text
  publish_fan dev label count f m =
      let name = full_name dev label count in
      record m {
        tr = set_int (name ++ codes ".target") (bits64 f.target) (codes "rpm") (
            set_int (name ++ codes ".input") (bits64 f.input) (codes "rpm")
              (set_text (name ++ codes ".label") (numbered label count) m.tr));
        turning = if is_zero f.input then m.turning else suc m.turning;
        stuck = if is_zero f.input && not (is_zero f.target) then suc m.stuck else m.stuck;
      }

  -- The loop over the fans.
  unfoldable pub publish_fans : Bytes → Dict Fan → Dict ℕ → Mon F → Mon F
  unfolding publish_fan label_count counted
  publish_fans dev [] counts m = m
  publish_fans dev ((name, f) ∷ fs) counts m =
      let shown = label_or f.label name in
      publish_fans dev fs (counted shown counts)
        (publish_fan dev shown (label_count shown counts) f m)

  -- The sensors of a device whose name was not seen before.
  unfoldable pub publish : Bytes → Sensors → Mon F → Mon F
  unfolding publish_temps publish_fans
  publish dev s m =
      let warm = publish_temps dev s.temperatures [] (record m { seen = dev ∷ m.seen }) in
      publish_fans dev s.fans [] (record warm { num = warm.num + length s.fans })

-- The name of a device, unless it is to be left out.
unfoldable pub device_name : Sys → Bytes → Entry → List Bytes → Option Bytes
unfolding starts_with read_file is_directory path
device_name sys base e seen =
    if not (is_directory e) || not (starts_with e.filename (codes "hwmon"))
    then none
    else elim (read_file (sys.contents (path base e ++ codes "/name"))) [
      | none ↦ none
      | some dev ↦ if is_empty dev || member dev seen then none else some dev
    ]

module _ {F : Type 0} where
  -- The loop over the devices; `false` is the exception of ReadDir.
  unfoldable pub read_devices : Sys → Bytes → List Entry → Mon F → Mon F × Bool
  unfolding device_name next_entry read_sensors publish dirname path
  read_devices sys base [] m = (m, true)
  read_devices sys base (e ∷ es) m = elim (device_name sys base (next_entry e) m.seen) [
    | none ↦ read_devices sys base es m
    | some dev ↦ elim (sys.listing (dirname (path base e))) [
      | none ↦ (m, false)
      | some files ↦
          read_devices sys base es (publish dev (read_sensors sys (path base e) files no_sensors) m)
    ]
  ]

  unfoldable pub set_max : Mon F → Transaction F
  unfolding set_int set_text set_nothing
  set_max m =
      if m.have_max
      then set_text (codes "name_max") m.name_max
          (set_int (codes "temp_max") (bits64 m.temp_max) (codes "mC") m.tr)
      else set_nothing (codes "name_max") (set_nothing (codes "temp_max") m.tr)

  unfoldable pub finish : Mon F → Transaction F
  unfolding set_max set_int
  finish m = set_int (codes "fans_stuck") m.stuck [] (
      set_int (codes "fans_turning") m.turning [] (set_int (codes "fans_num") m.num [] (set_max m)))

  -- The variables before the loop; Tmax is -42.
  abbrev pub begun : Transaction F → Mon F
  begun tr = record {
    tr = tr;
    seen = [];
    have_max = false;
    temp_max = negsuc 41;
    name_max = [];
    num = 0;
    turning = 0;
    stuck = 0;
  }

  abbrev pub ended : Mon F × Bool → Transaction F × Bool
  ended (m, true) = (finish m, true)
  ended (m, false) = (m.tr, false)

  unfoldable pub update_from :
      Sys → Bytes → Option (List Entry) → Transaction F → Transaction F × Bool
  unfolding read_devices finish
  update_from sys base none tr = (tr, false)
  update_from sys base (some es) tr = ended (read_devices sys base es (begun tr))

  -- update(), with the directory `base`.
  unfoldable pub update : Sys → Bytes → Transaction F → Transaction F × Bool
  unfolding update_from dirname
  update sys base tr = update_from sys base (sys.listing (dirname base)) tr
