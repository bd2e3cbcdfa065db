-- ===== src/Tables/Hwmon.antt =====
-- statApp/src/tblHwmon.cpp: temperatures and fans of the hardware monitors.
pub mod Publish
pub mod Range
pub mod Below
pub mod Hottest
mod Tests
use lin_stat.Base.{
  ℕ, suc, Bool, true, false, not, ◌||◌, ◌&&◌, List, [], ◌∷◌, ◌++◌, Option, none, some, ◌==◌, leb,
  if◌then◌else◌,
}
use lin_stat.Base.Text.{Bytes, codes, bytes_eq}
use lin_stat.Base.Dict.{Dict, lookup, insert}
use lin_stat.Base.Int.{ℤ, pos, negsuc, int32}
use lin_stat.Base.Number.{stol}
use lin_stat.Regex.{Regex, one, both, group, plus, byte, digit, regex_match, capture}
use lin_stat.Files.{read_file, Entry, next_entry, path}

abbrev pub tbl_name : Bytes
tbl_name = codes "hwmon"

abbrev is_lower : ℕ → Bool
is_lower c = leb b'a' c && leb c b'z'

-- ^([a-z]+)(\d+)_([a-z]+)$
abbrev sensor_expr : Regex
sensor_expr =
    both (group 1 (plus (one is_lower)))
      (both (group 2 (plus digit)) (both (byte b'_') (group 3 (plus (one is_lower)))))

pub record Fan : Type 0 where
  pub label : Bytes
  pub input : ℤ
  pub target : ℤ

-- What is known of the sensors of a device, by type and number: a label and the temperature, or a
-- fan.
pub record Sensors : Type 0 where
  pub temperatures : Dict (Bytes × ℤ)
  pub fans : Dict Fan

abbrev no_sensors : Sensors
no_sensors = record { temperatures = []; fans = [] }

abbrev or_default {ℓ} : {V : Type ℓ} → V → Option V → V
or_default v none = v
or_default v (some w) = w

abbrev temp_at : Bytes → Sensors → Bytes × ℤ
unfolding lookup
temp_at k s = or_default ([], pos 0) (lookup k s.temperatures)

abbrev fan_at : Bytes → Sensors → Fan
unfolding lookup
fan_at k s = or_default (record { label = []; input = pos 0; target = pos 0 }) (lookup k s.fans)

abbrev set_temp_at : Bytes → Bytes × ℤ → Sensors → Sensors
unfolding insert
set_temp_at k t s = record s { temperatures = insert k t s.temperatures }

abbrev set_fan_at : Bytes → Fan → Sensors → Sensors
unfolding insert
set_fan_at k f s = record s { fans = insert k f s.fans }

-- toint(): -1 if the text is no number.
abbrev to_int : Option ℤ → ℤ
to_int none = negsuc 0
to_int (some v) = int32 v

-- A value of a sensor, by its type, its type and number, and its parameter.
unfoldable pub add_value : Bytes → Bytes → Bytes → Bytes → Sensors → Sensors
unfolding temp_at fan_at set_temp_at set_fan_at stol
add_value kind k param value s =
    if bytes_eq kind (codes "temp")
    then if bytes_eq param (codes "label")
      then set_temp_at k (value, (temp_at k s).1) s
      else if bytes_eq param (codes "input")
      then elim (stol 10 value) [ none ↦ s | some v ↦ set_temp_at k ((temp_at k s).0, int32 v) s ]
      else s
    else if bytes_eq kind (codes "fan")
    then if bytes_eq param (codes "input")
      then set_fan_at k (record (fan_at k s) { input = to_int (stol 10 value) }) s
      else if bytes_eq param (codes "label")
      then set_fan_at k (record (fan_at k s) { label = value }) s
      else if bytes_eq param (codes "target")
      then set_fan_at k (record (fan_at k s) { target = to_int (stol 10 value) }) s
      else s
    else s

-- The file system: the entries of a directory, if opendir() succeeds, and the contents of a file.
pub record Sys : Type 0 where
  pub listing : Bytes → Option (List Entry)
  pub contents : Bytes → Option Bytes

-- One file of a device.
unfoldable pub read_sensor : Sys → Bytes → Entry → Sensors → Sensors
unfolding regex_match read_file path next_entry add_value
read_sensor sys dir e s = elim (regex_match sensor_expr e.filename) [
  | none ↦ s
  | some m ↦ elim (read_file (sys.contents (path dir e))) [
    | none ↦ s
    | some value ↦ add_value (capture 1 m) (capture 1 m ++ capture 2 m) (capture 3 m) value s
  ]
]

unfoldable pub read_sensors : Sys → Bytes → List Entry → Sensors → Sensors
unfolding read_sensor
read_sensors sys dir [] s = s
read_sensors sys dir (e ∷ es) s = read_sensors sys dir es (read_sensor sys dir e s)

-- What the constructor accepts.
abbrev pub accepts : Bytes → Bool
accepts inst = bytes_eq inst (codes "localhost")
