-- ===== src/Tables/Uptime.antt =====
-- statApp/src/tblUptime.cpp: the time since the start of the system.
use lin_stat.Base.{Bool, true, false, ◌||◌, List, [], ◌∷◌, Option, none, some, ◌==◌}
use lin_stat.Base.Text.{Bytes, codes, bytes_eq}
use lin_stat.Base.Parse.{is_digit}
use lin_stat.Regex.{Regex, one, both, star, group, plus, optional, dot, space, regex_match, capture}
use lin_stat.Table.{Transaction, set_float}

abbrev pub tbl_name : Bytes
tbl_name = codes "uptime"

-- [0-9.]
abbrev decimal : Regex
decimal = one (λ c. is_digit c || (c == b'.'))

-- ([0-9.]+)\s+([0-9.]+)(?:\s.*)?
abbrev uptime_expr : Regex
uptime_expr =
    both (group 1 (plus decimal))
      (both (plus space) (both (group 2 (plus decimal)) (optional (both space (star dot)))))

-- The first line of a file; an empty text if there is none.
abbrev pub first_line : List Bytes → Bytes
first_line [] = []
first_line (line ∷ lines) = line

-- The instance that the constructor accepts.
abbrev pub accepts_uptime : Bytes → Bool
accepts_uptime inst = bytes_eq inst (codes "localhost")

module _ {F : Type 0} where
  -- update(): `stod` reads a double, or throws; `false` is that exception.
  unfoldable pub update :
      (Bytes → Option F) → Option (List Bytes) → Transaction F → Transaction F × Bool
  unfolding regex_match set_float
  update stod none tr = (tr, true)
  update stod (some lines) tr = elim (regex_match uptime_expr (first_line lines)) [
    | none ↦ (tr, true)
    | some m ↦ elim (stod (capture 1 m)) [
      | none ↦ (tr, false)
      | some uptime ↦ (set_float (codes "uptime") uptime (codes "s") tr, true)
    ]
  ]
