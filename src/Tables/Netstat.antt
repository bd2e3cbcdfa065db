-- ===== src/Tables/Netstat.antt =====
-- statApp/src/tblNetstat.cpp: pairs of lines with labels and values, as in /proc/net/netstat.
pub mod Words
pub mod RoundTrip
mod Tests
use lin_stat.Base.{
  ℕ, zero, suc, ◌+◌, ◌*◌, ◌-◌, ◌%◌, ◌^◌, Bool, true, false, not, ◌||◌, ◌&&◌, List, [], ◌∷◌, ◌++◌,
  Option, none, some, ◌==◌, ltb, if◌then◌else◌, is_empty,
}
use lin_stat.Base.Text.{Bytes, codes, bytes_eq}
use lin_stat.Base.Parse.{is_space, is_digit}
use lin_stat.Table.{Transaction, set_int}

abbrev pub tbl_name : Bytes
tbl_name = codes "netstat"

-- std::istringstream: what is left, and the two bits of its state.
pub record Stream : Type 0 where
  pub rest : Bytes
  pub at_eof : Bool
  pub failed : Bool

abbrev pub opened : Bytes → Stream
opened s = record { rest = s; at_eof = false; failed = false }

abbrev pub skip_space : Bytes → Bytes
skip_space [] = []
skip_space (c ∷ s) = elim (is_space c) [ true ↦ skip_space s | false ↦ c ∷ s ]

-- The bytes up to white space or the end, and what is left.
abbrev pub span_word : Bytes → Bytes × Bytes
span_word [] = ([], [])
span_word (c ∷ s) = elim (is_space c) [
  | true ↦ ([], c ∷ s)
  | false ↦ (c ∷ (span_word s).0, (span_word s).1)
]

abbrev pub word_at : Bytes → Stream × Option Bytes
word_at [] = (record { rest = []; at_eof = true; failed = true }, none)
word_at (c ∷ s) =
    let (w, t) = span_word (c ∷ s) in
    (record { rest = t; at_eof = is_empty t; failed = false }, some w)

-- strm >> word; none if the stream fails.
unfoldable pub read_word : Stream → Stream × Option Bytes
read_word s =
    if s.failed || s.at_eof then (record s { failed = true }, none) else word_at (skip_space s.rest)

-- The digits at the front, whether there are any, and what is left.
abbrev pub span_number : ℕ → Bool → Bytes → Option ℕ × Bytes
span_number acc any [] = (if any then some acc else none, [])
span_number acc any (c ∷ s) = elim (is_digit c) [
  | true ↦ span_number (acc * 10 + (c - b'0')) true s
  | false ↦ (if any then some acc else none, c ∷ s)
]

abbrev pub minus_front : Bytes → Bool
minus_front [] = false
minus_front (c ∷ s) = c == b'-'

abbrev pub skip_sign : Bytes → Bytes
skip_sign [] = []
skip_sign (c ∷ s) = if (c == b'-') || (c == b'+') then s else c ∷ s

-- A number of 64 bits; with "-" it is subtracted from 2 ^ 64. One that is too large fails.
abbrev pub in_range : Bool → Option ℕ → Option ℕ
in_range negative none = none
in_range negative (some n) =
    if ltb n (2 ^ 64) then some (if negative then (2 ^ 64 - n) % 2 ^ 64 else n) else none

abbrev pub is_none : Option ℕ → Bool
is_none none = true
is_none (some n) = false

abbrev pub number_from : Bool → Option ℕ × Bytes → Stream × Option ℕ
number_from negative (n, t) =
    let v = in_range negative n in (record { rest = t; at_eof = is_empty t; failed = is_none v }, v)

abbrev pub number_at : Bytes → Stream × Option ℕ
number_at [] = (record { rest = []; at_eof = true; failed = true }, none)
number_at (c ∷ s) = number_from (minus_front (c ∷ s)) (span_number 0 false (skip_sign (c ∷ s)))

-- strm >> val, of a uint64_t
unfoldable pub read_number : Stream → Stream × Option ℕ
read_number s =
    if s.failed || s.at_eof
    then (record s { failed = true }, none)
    else number_at (skip_space s.rest)

abbrev pub ends_in_colon : Bytes → Bool
ends_in_colon [] = false
ends_in_colon (c ∷ []) = c == b':'
ends_in_colon (c ∷ d ∷ s) = ends_in_colon (d ∷ s)

abbrev pub name_from :
    Stream × Option Bytes → Stream × Option Bytes → Option (Bytes × Stream × Stream)
name_from (h, none) (v, other) = none
name_from (h, some table) (v, none) = none
name_from (h, some table) (v, some other) =
    if bytes_eq table other && ends_in_colon table then some (table, h, v) else none

-- The name of the table that both lines begin with, and the streams behind it; none is an exception.
unfoldable pub read_name : Bytes → Bytes → Option (Bytes × Stream × Stream)
unfolding read_word
read_name head vals = name_from (read_word (opened head)) (read_word (opened vals))

-- A turn of the loop over the columns takes a byte of the labels at least.
abbrev pub turns : Bytes → ℕ
turns [] = 1
turns (c ∷ s) = suc (turns s)

module _ {F : Type 0} where
  -- One turn of the loop over the columns, and `go` for the next ones; `done` says that the stream of
  -- the numbers was at its end before.
  abbrev pub next_column :
      (Stream → Stream → Transaction F → Transaction F × Bool)
      → Bytes
      → Bool
      → Stream × Option Bytes
      → Stream × Option ℕ
      → Transaction F
      → Transaction F × Bool
  unfolding set_int
  next_column go table done (h, none) (v, number) tr = (tr, h.at_eof && done)
  next_column go table done (h, some col) (v, none) tr = (tr, h.at_eof && v.at_eof)
  next_column go table done (h, some col) (v, some val) tr =
      go h v (set_int (table ++ col) val [] tr)

  -- The loop over the columns, for `fuel` turns. The result says whether both streams came to their
  -- ends.
  unfoldable pub read_columns : ℕ → Bytes → Stream → Stream → Transaction F → Transaction F × Bool
  unfolding read_word read_number next_column
  read_columns zero table h v tr = (tr, false)
  read_columns (suc fuel) table h v tr =
      next_column (read_columns fuel table) table v.at_eof (read_word h) (read_number v) tr

  abbrev pub after_columns :
      (Transaction F → Transaction F × Bool) → Transaction F × Bool → Transaction F × Bool
  after_columns go (tr, true) = go tr
  after_columns go (tr, false) = (tr, false)

  -- The columns of a pair of lines, and `go` for the lines behind.
  abbrev pub next_pair :
      (Transaction F → Transaction F × Bool)
      → ℕ
      → Option (Bytes × Stream × Stream)
      → Transaction F
      → Transaction F × Bool
  unfolding read_columns
  next_pair go fuel none tr = (tr, false)
  next_pair go fuel (some (table, h, v)) tr = after_columns go (read_columns fuel table h v tr)

  -- The loop over the pairs of lines; `false` is an exception. `ended` says that the file came to its
  -- end, and not to an error.
  unfoldable pub read_tables : List Bytes → Bool → Transaction F → Transaction F × Bool
  unfolding read_name next_pair
  read_tables [] ended tr = (tr, ended)
  read_tables (head ∷ []) ended tr = (tr, ended)
  read_tables (head ∷ vals ∷ lines) ended tr =
      next_pair (read_tables lines ended) (turns head) (read_name head vals) tr

  -- update(): the lines of the file `inst`, if it opens.
  unfoldable pub update : Option (List Bytes × Bool) → Transaction F → Transaction F × Bool
  unfolding read_tables
  update none tr = (tr, false)
  update (some (lines, ended)) tr = read_tables lines ended tr
