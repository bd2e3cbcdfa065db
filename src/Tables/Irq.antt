-- ===== src/Tables/Irq.antt =====
-- statApp/src/tblIRQ.cpp: interrupts since the last update, from /proc/interrupts.
pub mod Busiest
use lin_stat.Base.{
  ℕ, zero, suc, ◌+◌, ◌-◌, ◌%◌, ◌^◌, Bool, true, false, List, [], ◌∷◌, ◌++◌, Option, none, some, ltb,
  ◌==◌, if◌then◌else◌, length,
}
use lin_stat.Base.Text.{Bytes, codes}
use lin_stat.Base.Dict.{Dict, lookup, insert}
use lin_stat.Base.Parse.{words, stoul}
use lin_stat.Table.{Transaction, set_int, set_float, set_text}

abbrev pub tbl_name : Bytes
tbl_name = codes "irq"

abbrev pub u64 : ℕ → ℕ
u64 n = n % 2 ^ 64

-- One line: the columns from number `ncol` on, the label and the sum so far. A count that is no
-- number is left out.
unfoldable pub row : ℕ → ℕ → List Bytes → Bytes → ℕ → Bytes × ℕ
row ncpu ncol [] label sum = (label, sum)
row ncpu ncol (col ∷ cols) label sum =
    if ncol == 0
    then row ncpu (suc ncol) cols (label ++ col) sum
    else if ltb ncol (ncpu + 1)
    then elim (stoul col) [
      | none ↦ row ncpu (suc ncol) cols label sum
      | some num ↦ row ncpu (suc ncol) cols label (u64 (sum + num))
    ]
    else row ncpu (suc ncol) cols (label ++ (codes " " ++ col)) sum

unfoldable pub rows : ℕ → List Bytes → Dict ℕ → Dict ℕ
unfolding row words
rows ncpu [] counts = counts
rows ncpu (line ∷ lines) counts =
    let (label, sum) = row ncpu 0 (words line) [] 0 in rows ncpu lines (insert label sum counts)

-- readirq(): the lines of the file, if it opens. `none` is an exception.
unfoldable pub readirq : Option (List Bytes) → Option (Dict ℕ)
unfolding rows
readirq none = none
readirq (some []) = none
readirq (some (head ∷ lines)) =
    let ncpu = length (words head) in if ncpu == 0 then none else some (rows ncpu lines [])

-- The state of the loop over the counts.
pub record Scan : Type 0 where
  pub total : ℕ
  pub max_delta : ℕ
  pub max_name : Bytes

unfoldable pub delta : Dict ℕ → Bytes → ℕ → ℕ
delta prev label count = elim (lookup label prev) [
  | none ↦ count
  | some before ↦ u64 (count + 2 ^ 64 - before)
]

unfoldable pub visit : Dict ℕ → Bytes → ℕ → Scan → Scan
visit prev label count s =
    let d = delta prev label count in
    record {
      total = u64 (s.total + count);
      max_delta = if ltb s.max_delta d then d else s.max_delta;
      max_name = if ltb s.max_delta d then label else s.max_name;
    }

unfoldable pub scan : Dict ℕ → Dict ℕ → Scan → Scan
unfolding visit
scan prev [] s = s
scan prev ((label, count) ∷ counts) s = scan prev counts (visit prev label count s)

abbrev pub start : Scan
start = record { total = 0; max_delta = 0; max_name = [] }

-- update(): `rate` is the division of max_delta by the time passed, in doubles. The result is the
-- transaction, the next `prev`, and whether update() returned.
unfoldable pub update :
    {F : Type 0}
    → (ℕ → ℕ → ℕ → F)
    → Option (List Bytes)
    → ℕ
    → Dict ℕ
    → Transaction F
    → Transaction F × Dict ℕ × Bool
unfolding readirq scan set_int set_float set_text
update rate file current_time prev tr = elim (readirq file) [
  | none ↦ (tr, prev, false)
  | some counts ↦
      let s = scan prev counts start in
      (
        set_text (codes "max_irq_name") s.max_name (
            set_float (codes "max_irq") (rate s.max_delta tr.next_time current_time) (codes "Hz")
              (set_int (codes "total_irq") s.total [] tr)),
        counts,
        true,
      )
]
