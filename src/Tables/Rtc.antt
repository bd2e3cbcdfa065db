-- ===== src/Tables/Rtc.antt =====
-- statApp/src/tblRTC.cpp: the state of the real time clock, as /proc/driver/rtc shows it.
pub mod Malformed
mod Tests
use lin_stat.Base.{
  ℕ, ◌+◌, ◌-◌, Bool, true, false, not, ◌||◌, ◌&&◌, List, [], ◌∷◌, ◌++◌, Option, none, some, ◌==◌,
  ltb, min, if◌then◌else◌, is_empty,
}
use lin_stat.Base.Text.{Bytes, codes, bytes_eq}
use lin_stat.Base.Parse.{is_space}
use lin_stat.Regex.{Regex, one, both, star, group, plus, byte, space, regex_match, capture}
use lin_stat.Table.{Transaction, set_int, set_text}

abbrev pub tbl_name : Bytes
tbl_name = codes "rtc"

-- \S
abbrev visible : Regex
visible = one (λ c. not (is_space c))

-- ^(\S+)\s*:\s*(\S+)\s*$
abbrev pub rtc_expr : Regex
rtc_expr = both (group 1 (plus visible)) (
    both (star space)
      (both (byte b':') (both (star space) (both (group 2 (plus visible)) (star space)))))

-- What the C library does: strptime() with the format of a time or of a date gives null, or what it
-- left of the text; and the distance in seconds of a struct tm from the time of the update, read as
-- UTC (timegm) and as local time (mktime).
pub record Calendar : Type 1 where
  pub Tm : Type 0
  pub zeroed : Tm
  pub strptime_time : Bytes → Tm → Option (Bytes × Tm)
  pub strptime_date : Bytes → Tm → Option (Bytes × Tm)
  pub distance_gm : Tm → ℕ
  pub distance_local : Tm → ℕ

-- How an update ends.
pub data Outcome : Type 0 where
  returned thrown crashed : Outcome

battery_status : Bytes → ℕ
battery_status val =
    if bytes_eq val (codes "okay")
    then 2
    else if bytes_eq val (codes "bad") || bytes_eq val (codes "dead")
    then 1
    else 3

-- The state of the loop.
pub record Clock (F Tm : Type 0) : Type 0 where
  pub tr : Transaction F
  pub tm : Tm
  pub have_date : Bool
  pub have_time : Bool

module _ {F : Type 0} (cal : Calendar) where
  open cal use {Tm, zeroed, strptime_time, strptime_date, distance_gm, distance_local}

  -- *strptime(val, …) tests the first byte of what is left; with null there is no byte to read, and
  -- the process ends: `none`.
  unfoldable pub read_time : Option (Bytes × Tm) → Clock F Tm → Option (Clock F Tm)
  read_time none s = none
  read_time (some (rest, tm)) s =
      some (record s { tm = tm; have_time = if is_empty rest then true else s.have_time })

  unfoldable pub read_date : Option (Bytes × Tm) → Clock F Tm → Option (Clock F Tm)
  read_date none s = none
  read_date (some (rest, tm)) s =
      some (record s { tm = tm; have_date = if is_empty rest then true else s.have_date })

  unfoldable pub read_entry : Bytes → Bytes → Clock F Tm → Option (Clock F Tm)
  unfolding battery_status read_time read_date set_int
  read_entry key val s =
      if bytes_eq key (codes "batt_status")
      then some (record s { tr = set_int (codes "battery") (battery_status val) [] s.tr })
      else if bytes_eq key (codes "rtc_time")
      then read_time (strptime_time val s.tm) s
      else if bytes_eq key (codes "rtc_date")
      then read_date (strptime_date val s.tm) s
      else some s

  unfoldable pub read_line : Bytes → Clock F Tm → Option (Clock F Tm)
  unfolding regex_match read_entry set_text
  read_line line s = elim (regex_match rtc_expr line) [
    | none ↦ some s
    | some m ↦
        read_entry (capture 1 m) (capture 2 m)
          (record s { tr = set_text (codes "rtc:" ++ capture 1 m) (capture 2 m) s.tr })
  ]

  unfoldable pub read_lines : List Bytes → Clock F Tm → Option (Clock F Tm)
  unfolding read_line
  read_lines [] s = some s
  read_lines (line ∷ lines) s = elim (read_line line s) [
    | none ↦ none
    | some s' ↦ read_lines lines s'
  ]

  -- The end of update(), if both a date and a time were read.
  unfoldable pub set_delta : Clock F Tm → Transaction F
  unfolding set_int
  set_delta s =
      let gm = distance_gm s.tm in
      let loc = distance_local s.tm in
      if s.have_date && s.have_time
      then set_int (codes "delta") (min gm loc) []
          (set_int (codes "ref") (if ltb loc gm then 1 else 0) [] s.tr)
      else s.tr

  abbrev pub begun : Transaction F → Clock F Tm
  begun tr = record {
    tr = set_int (codes "battery") 0 [] tr;
    tm = zeroed;
    have_date = false;
    have_time = false;
  }

  abbrev pub finish : Transaction F → Option (Clock F Tm) → Transaction F × Outcome
  finish tr none = (tr, crashed)
  finish tr (some s) = (set_delta s, returned)

  -- update(): the lines of the file `inst`, if it opens. After a crash there is no transaction; the
  -- old one stands in its place.
  unfoldable pub update : Option (List Bytes) → Transaction F → Transaction F × Outcome
  unfolding read_lines set_delta set_int
  update none tr = (tr, thrown)
  update (some lines) tr = finish tr (read_lines lines (begun tr))
