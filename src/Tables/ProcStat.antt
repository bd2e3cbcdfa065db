-- ===== src/Tables/ProcStat.antt =====
-- statApp/src/tblProcStat.cpp and tblStat.cpp: the numbered columns of /proc/self/stat, and those of
-- the processors in /proc/stat.
use lin_stat.Base.{
  ℕ, suc, Bool, true, false, not, ◌&&◌, List, [], ◌∷◌, ◌++◌, Option, none, some, ◌==◌, leb,
  if◌then◌else◌, drop,
}
use lin_stat.Base.Text.{Bytes, codes, bytes_eq}
use lin_stat.Base.Int.{bits64}
use lin_stat.Base.Number.{stol, tokens}
use lin_stat.Base.Parse.{stoul, has_prefix}
use lin_stat.TimeDelta.{show}
use lin_stat.Regex.{
  Regex, one, both, either, star, group, plus, byte, digit, space, dot, regex_match, capture,
}
use lin_stat.Tables.Uptime.{first_line}
use lin_stat.Table.{Transaction, set_int, set_text}

abbrev pub process_tbl : Bytes
process_tbl = codes "procStat"

abbrev pub system_tbl : Bytes
system_tbl = codes "stat"

abbrev is_upper : ℕ → Bool
is_upper c = leb b'A' c && leb c b'Z'

-- [^)]|\\.
abbrev name_char : Regex
name_char = either (one (λ c. not (c == b')'))) (both (byte 92) dot)

-- (\d+)\s+\(((?:[^)]|\\.)*)\)\s+([A-Z]+)\s+(.*)
abbrev stat_expr : Regex
stat_expr = both (group 1 (plus digit)) (
    both (plus space) (
      both (byte b'(') (
        both (group 2 (star name_char)) (
          both (byte b')') (
            both (plus space)
              (both (group 3 (plus (one is_upper))) (both (plus space) (group 4 (star dot)))))))))

-- The instances that the two constructors accept.
abbrev pub accepts_process : Bytes → Bool
accepts_process inst = bytes_eq inst (codes "self")

abbrev pub accepts_system : Bytes → Bool
accepts_system inst = bytes_eq inst (codes "localhost")

module _ {F : Type 0} where
  -- The loop over the columns, each under `prefix` and its number; a column that is no number is left
  -- out.
  unfoldable pub set_columns : Bytes → ℕ → List Bytes → Transaction F → Transaction F
  unfolding stoul set_int show
  set_columns prefix idx [] tr = tr
  set_columns prefix idx (ent ∷ ents) tr = elim (stoul ent) [
    | none ↦ set_columns prefix (suc idx) ents tr
    | some v ↦ set_columns prefix (suc idx) ents (set_int (prefix ++ show idx) v [] tr)
  ]

  -- The line of a process; `false` is the exception of std::stol.
  unfoldable pub read_process : Bytes → Transaction F → Transaction F × Bool
  unfolding regex_match stol set_columns set_text tokens
  read_process line tr = elim (regex_match stat_expr line) [
    | none ↦ (tr, true)
    | some m ↦ elim (stol 10 (capture 1 m)) [
      | none ↦ (tr, false)
      | some pid ↦ (
        set_columns [] 4 (tokens (capture 4 m)) (
            set_text (codes "3") (capture 3 m)
              (set_text (codes "2") (capture 2 m) (set_int (codes "1") (bits64 pid) [] tr))),
        true,
      )
    ]
  ]

  -- ProcStatTable::update(), with `success` as in the table of the status.
  unfoldable pub update_process :
      Option (List Bytes) → Bool → Transaction F → Transaction F × Bool × Bool
  unfolding read_process
  update_process none success tr = (tr, false, true)
  update_process (some lines) success tr =
      let (tr', returned) = read_process (first_line lines) tr in (tr', success, returned)

  -- The loop up to the first line of "cpu "; the columns are numbered from 2.
  unfoldable pub read_cpu : List Bytes → Transaction F → Transaction F
  unfolding set_columns tokens
  read_cpu [] tr = tr
  read_cpu (line ∷ lines) tr =
      if has_prefix (codes "cpu ") line
      then set_columns (codes "cpu:") 2 (tokens (drop 4 line)) tr
      else read_cpu lines tr

  -- SysStatTable::update()
  unfoldable pub update_system : Option (List Bytes) → Bool → Transaction F → Transaction F × Bool
  unfolding read_cpu
  update_system none success tr = (tr, false)
  update_system (some lines) success tr = (read_cpu lines tr, success)
