-- ===== src/Tables/ProcStatus.antt =====
-- statApp/src/tblProcStatus.cpp: the lines of /proc/self/status.
use lin_stat.Base.{
  ℕ, Bool, false, ◌||◌, ◌&&◌, List, [], ◌∷◌, Option, none, some, leb, if◌then◌else◌,
}
use lin_stat.Base.Text.{Bytes, codes, bytes_eq}
use lin_stat.Base.Int.{bits64}
use lin_stat.Base.Number.{stol}
use lin_stat.Base.Parse.{is_digit}
use lin_stat.Regex.{
  Regex, one, both, star, group, plus, optional, byte, space, is_alpha, regex_match, capture,
}
use lin_stat.Tables.MemInfo.{not_colon}
use lin_stat.Table.{Transaction, set_int}

abbrev pub tbl_name : Bytes
tbl_name = codes "procStatus"

-- The keys whose value is hexadecimal without "0x".
abbrev bitmaps : List Bytes
bitmaps =
    codes "SigPnd"
    ∷ codes "ShdPnd"
    ∷ codes "SigBlk"
    ∷ codes "SigIgn"
    ∷ codes "SigCgt"
    ∷ codes "CapInh"
    ∷ codes "CapEff"
    ∷ codes "CapBnd"
    ∷ codes "CapAmb"
    ∷ codes "Cpus_allowed"
    ∷ []

abbrev member : Bytes → List Bytes → Bool
member k [] = false
member k (j ∷ ks) = bytes_eq k j || member k ks

abbrev is_hex : ℕ → Bool
is_hex c = is_digit c || (leb b'a' c && leb c b'f') || (leb b'A' c && leb c b'F')

-- ^([^:]+):\s*(?:0x)?([0-9a-fA-F]+)\s*([a-zA-Z]+)?\s*$$
abbrev status_expr : Regex
status_expr = both (group 1 (plus (one not_colon))) (
    both (byte b':') (
      both (star space) (
        both (optional (both (byte b'0') (byte b'x'))) (
          both (group 2 (plus (one is_hex)))
            (both (star space) (both (optional (group 3 (plus (one is_alpha)))) (star space)))))))

-- The instance that the constructor accepts.
abbrev pub accepts_status : Bytes → Bool
accepts_status inst = bytes_eq inst (codes "self")

module _ {F : Type 0} where
  -- One line; a number out of range, or none in the base, is left out.
  unfoldable pub read_line : Bytes → Transaction F → Transaction F
  unfolding regex_match stol set_int
  read_line line tr = elim (regex_match status_expr line) [
    | none ↦ tr
    | some m ↦ elim (stol (if member (capture 1 m) bitmaps then 16 else 0) (capture 2 m)) [
      | none ↦ tr
      | some v ↦ set_int (capture 1 m) (bits64 v) (capture 3 m) tr
    ]
  ]

  unfoldable pub read_status : List Bytes → Transaction F → Transaction F
  unfolding read_line
  read_status [] tr = tr
  read_status (line ∷ lines) tr = read_status lines (read_line line tr)

  -- update(): the lines of the file, if it opens; and `success`, which decides on a message.
  unfoldable pub update : Option (List Bytes) → Bool → Transaction F → Transaction F × Bool
  unfolding read_status
  update none success tr = (tr, false)
  update (some lines) success tr = (read_status lines tr, success)
