-- ===== src/Tables/Netstat/RoundTrip.antt =====
-- statApp/src/tblNetstat.cpp: a pair of lines as the kernel writes it is read whole.
use lin_stat.Base.{
  ℕ, zero, suc, ◌+◌, ◌≤◌, ◌<◌, ◌≡◌, refl, ap, ◌∙◌, Bool, true, false, List, [], ◌∷◌, ◌++◌, some,
  arith, length, length-append,
}
use lin_stat.Base.Text.{Bytes, bytes_eq_refl}
use lin_stat.TimeDelta.{show}
use lin_stat.Table.{Transaction, set_int}
use lin_stat.Tables.Netstat.{
  Stream, opened, read_word, read_number, ends_in_colon, name_from, read_name, turns, next_column,
  read_columns, after_columns, next_pair, read_tables,
}
use lin_stat.Tables.Netstat.Words.{
  between, Columns, labels, values, IsWord, read_word-opened, read_word-between, labels-Stops,
  values-Stops, read_number-show,
}

named :
    (table : Bytes) (h v : Stream)
    → ends_in_colon table ≡ true
    → name_from (h, some table) (v, some table) ≡ some (table, h, v)
named table h v e = rw (bytes_eq_refl table, e) refl

length-labels : (cs : List (Bytes × ℕ)) → length cs ≤ length (labels cs)
length-labels [] = omega arith
length-labels ((label, v) ∷ cs) = omega (arith, length-labels cs, length-append label (labels cs))

turns_lem : (s : Bytes) → turns s ≡ length s + 1
turns_lem [] = refl
turns_lem (c ∷ s) = omega (arith, turns_lem s)

read_name_lem :
    (table : Bytes) (cs : List (Bytes × ℕ))
    → IsWord table
    → ends_in_colon table ≡ true
    → read_name (table ++ labels cs) (table ++ values cs)
      ≡ some (table, between (labels cs), between (values cs))
unfolding read_name
read_name_lem table cs w e =
    ap (λ h. name_from h (read_word (opened (table ++ values cs))))
      (read_word-opened table (labels cs) w (labels-Stops cs))
    ∙ ap (name_from (between (labels cs), some table))
        (read_word-opened table (values cs) w (values-Stops cs).0)
    ∙ named table _ _ e

module _ {F : Type 0} where
  -- The values of the columns, each under the names of the table and of the column.
  abbrev pub set_columns : Bytes → List (Bytes × ℕ) → Transaction F → Transaction F
  unfolding set_int
  set_columns table [] tr = tr
  set_columns table ((label, v) ∷ cs) tr = set_columns table cs (set_int (table ++ label) v [] tr)

  read_columns_lem :
      (fuel : ℕ) (table : Bytes) (cs : List (Bytes × ℕ)) (tr : Transaction F)
      → Columns cs
      → length cs < fuel
      → read_columns fuel table (between (labels cs)) (between (values cs)) tr
        ≡ (set_columns table cs tr, true)
  unfolding read_columns
  read_columns_lem zero table cs tr h l = absurd (omega arith)
  read_columns_lem (suc fuel) table [] tr h l = unfold read_word in refl
  read_columns_lem (suc fuel) table ((label, v) ∷ cs) tr h l =
      let go = read_columns fuel table in
      ap (λ x. next_column go table false x (read_number (between (32 ∷ (show v ++ values cs)))) tr)
        (read_word-between label (labels cs) h.0 (labels-Stops cs))
      ∙ ap (λ x. next_column go table false (between (labels cs), some label) x tr)
          (read_number-show v (values cs) h.1 (values-Stops cs).1)
      ∙ read_columns_lem fuel table cs (set_int (table ++ label) v [] tr) h.2 (omega arith)

  -- A pair of lines with the name of a table, ending in ":", and a blank before each label and each
  -- number, the labels without white space and the numbers of 64 bits, sets each number under the
  -- name of the table and its label, and the update goes on with the lines behind.
  pub read_tables_lem :
      (table : Bytes) (cs : List (Bytes × ℕ)) (lines : List Bytes) (ended : Bool)
      (tr : Transaction F)
      → IsWord table
      → ends_in_colon table ≡ true
      → Columns cs
      → read_tables ((table ++ labels cs) ∷ (table ++ values cs) ∷ lines) ended tr
        ≡ read_tables lines ended (set_columns table cs tr)
  unfolding read_tables
  read_tables_lem table cs lines ended tr w e h =
      let go = read_tables lines ended in
      let fuel = turns (table ++ labels cs) in
      ap (λ n. next_pair go fuel n tr) (read_name_lem table cs w e)
      ∙ ap (after_columns go) (
          read_columns_lem fuel table cs tr h (
            omega (
              arith,
              turns_lem (table ++ labels cs),
              length-append table (labels cs),
              length-labels cs,
            )))
