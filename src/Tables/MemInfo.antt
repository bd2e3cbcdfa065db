-- ===== src/Tables/MemInfo.antt =====
-- statApp/src/tblMemInfo.cpp: the lines of /proc/meminfo.
use lin_stat.Base.{ℕ, Bool, true, false, not, ◌||◌, List, [], ◌∷◌, Option, none, some, ◌==◌}
use lin_stat.Base.Text.{Bytes, codes}
use lin_stat.Base.Int.{bits64}
use lin_stat.Base.Number.{stol}
use lin_stat.Regex.{
  Regex, one, both, star, group, plus, optional, byte, digit, space, regex_match, capture,
}
use lin_stat.Table.{Transaction, set_int}

abbrev pub tbl_name : Bytes
tbl_name = codes "memInfo"

abbrev pub not_colon : ℕ → Bool
not_colon c = not (c == b':')

-- [^ \t]
abbrev pub not_blank : ℕ → Bool
not_blank c = not ((c == 32) || (c == 9))

-- ^([^:]+):\s*([0-9]+)(?:\s*([^ \t]+))?\s*$
abbrev pub mem_expr : Regex
mem_expr = both (group 1 (plus (one not_colon))) (
    both (byte b':') (
      both (star space) (
        both (group 2 (plus digit))
          (both (optional (both (star space) (group 3 (plus (one not_blank))))) (star space)))))

module _ {F : Type 0} where
  -- The lines from here on; `false` is the exception of std::stol, which ends the update.
  unfoldable pub read_lines : List Bytes → Transaction F → Transaction F × Bool
  unfolding regex_match stol set_int
  read_lines [] tr = (tr, true)
  read_lines (line ∷ lines) tr = elim (regex_match mem_expr line) [
    | none ↦ read_lines lines tr
    | some m ↦ elim (stol 10 (capture 2 m)) [
      | none ↦ (tr, false)
      | some v ↦ read_lines lines (set_int (capture 1 m) (bits64 v) (capture 3 m) tr)
    ]
  ]

  -- update(): the lines of the file, if it opens.
  unfoldable pub update : Option (List Bytes) → Transaction F → Transaction F × Bool
  unfolding read_lines
  update none tr = (tr, true)
  update (some lines) tr = read_lines lines tr
