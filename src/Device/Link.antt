-- ===== src/Device/Link.antt =====
-- statApp/src/devstat.cpp: the device link of a record, factory|instance|parameter, and the record's
-- attachment to its table.
pub mod Shape
pub mod Attach
mod Tests
use lin_stat.Base.{
  ℕ, Bool, true, not, ◌&&◌, ◌||◌, List, [], ◌∷◌, Option, none, some, ◌==◌, if◌then◌else◌,
}
use lin_stat.Base.Text.{Bytes}
use lin_stat.Base.Parse.{is_digit, is_space}
use lin_stat.Regex.{
  Regex, one, both, either, star, group, plus, optional, byte, is_alpha, is_dot, space, dot,
  regex_match, capture, Captures,
}
use lin_stat.Registry.{Gbl, Result, get_table, ok, err}
use lin_stat.Device.Record.{Common}

-- [^|\\]
abbrev pub is_plain : ℕ → Bool
is_plain c = not ((c == b'|') || (c == 92))

abbrev pub is_param : ℕ → Bool
is_param c = is_alpha c || is_digit c || (c == b':') || (c == b'_')

-- [^|\\]|\\.
abbrev pub inst_char : Regex
inst_char = either (one is_plain) (both (byte 92) dot)

-- (?:\s.*)?
abbrev pub link_tail : Regex
link_tail = optional (both space (star dot))

-- ([a-zA-Z]+)\|((?:[^|\\]|\\.)*)\|([a-zA-Z0-9:_]+)(?:\s.*)?
abbrev pub link_expr : Regex
link_expr = both (group 1 (plus (one is_alpha))) (
    both (byte b'|') (
      both (group 2 (star inst_char))
        (both (byte b'|') (both (group 3 (plus (one is_param))) link_tail))))

abbrev pub groups_of : Option Captures → Option (Bytes × Bytes × Bytes)
groups_of none = none
groups_of (some a) = some (capture 1 a, capture 2 a, capture 3 a)

-- The factory, the instance and the parameter of a link; none is the exception.
unfoldable pub parse_link : Bytes → Option (Bytes × Bytes × Bytes)
unfolding regex_match
parse_link s = groups_of (regex_match link_expr s)

-- struct Pvt, once a record is attached.
pub record Attached : Type 0 where
  pub table : ℕ
  pub param : Bytes

module _ {F : Type 0} where
  abbrev pub attach : Bytes → Gbl F × Result ℕ → Gbl F × Option Attached
  attach param (g, ok i) = (g, some (record { table = i; param = param }))
  attach param (g, err e) = (g, none)

  abbrev pub init_from : Option (Bytes × Bytes × Bytes) → Gbl F → Gbl F × Option Attached
  init_from none g = (g, none)
  init_from (some (fact, inst, param)) g = attach param (get_table fact inst g)

  -- devLinInitRecord: `none` is the status -1. The registry changes also if an exception follows.
  unfoldable pub init_record : Bytes → Gbl F → Gbl F × Option Attached
  unfolding parse_link get_table
  init_record lstr g = init_from (parse_link lstr) g

-- devLinTblIoIntr: the table whose scan list the record joins, if it has been attached.
unfoldable pub io_intr : Option Attached → Option ℕ
io_intr none = none
io_intr (some a) = some a.table
