-- ===== src/Tables/Rtc/Malformed.antt =====
-- statApp/src/tblRTC.cpp: lines that strptime() cannot read.
use lin_stat.Base.{◌≡◌, refl, ap, inl, inr, List, [], ◌∷◌, ◌++◌, none, some, Option-cases, ◌⊎◌}
use lin_stat.Base.Text.{Bytes, codes}
use lin_stat.Regex.{regex_match, Captures, capture}
use lin_stat.Table.{Transaction}
use lin_stat.Tables.Rtc.{
  rtc_expr, Calendar, Clock, crashed, read_entry, read_line, read_lines, begun, finish, update,
}

-- A line of the time or the date, with a value for which strptime() gives null.
pub record IsMalformed (cal : Calendar) (line : Bytes) : Type 0 where
  pub caps : Captures
  pub parsed : regex_match rtc_expr line ≡ some caps
  pub rejected :
      ((capture 1 caps ≡ codes "rtc_time")
        × ((tm : cal.Tm) → cal.strptime_time (capture 2 caps) tm ≡ none))
      ⊎ ((capture 1 caps ≡ codes "rtc_date")
          × ((tm : cal.Tm) → cal.strptime_date (capture 2 caps) tm ≡ none))

module _ {F : Type 0} (cal : Calendar) where
  open cal use {Tm, strptime_time, strptime_date}

  read_entry-time :
      (val : Bytes) (s : Clock F Tm)
      → strptime_time val s.tm ≡ none
      → read_entry cal (codes "rtc_time") val s ≡ none
  unfolding read_entry
  read_entry-time val s e = rw e refl

  read_entry-date :
      (val : Bytes) (s : Clock F Tm)
      → strptime_date val s.tm ≡ none
      → read_entry cal (codes "rtc_date") val s ≡ none
  unfolding read_entry
  read_entry-date val s e = rw e refl

  read_line-IsMalformed :
      (line : Bytes) (s : Clock F Tm) → IsMalformed cal line → read_line cal line s ≡ none
  unfolding read_line
  read_line-IsMalformed line s b = elim b.rejected [
    | inl (k, none_time) ↦ rw (b.parsed, read_line, k) (read_entry-time _ _ (none_time _))
    | inr (k, none_date) ↦ rw (b.parsed, read_line, k) (read_entry-date _ _ (none_date _))
  ]

  read_lines-IsMalformed :
      (before after : List Bytes) (line : Bytes) (s : Clock F Tm)
      → IsMalformed cal line
      → read_lines cal (before ++ line ∷ after) s ≡ none
  unfolding read_lines
  read_lines-IsMalformed [] after line s b = rw (read_line-IsMalformed line s b, read_lines) refl
  read_lines-IsMalformed (l ∷ before) after line s b = elim (Option-cases (read_line cal l s)) [
    | inl n ↦ rw (n, read_lines) refl
    | inr (s', e) ↦ rw (e, read_lines) (read_lines-IsMalformed before after line s' b)
  ]

  -- A line "rtc_time" or "rtc_date" whose value strptime() does not accept crashes the update,
  -- whatever lines stand before and behind it: the null pointer is read.
  pub update-IsMalformed :
      (before after : List Bytes) (line : Bytes) (tr : Transaction F)
      → IsMalformed cal line
      → (update cal (some (before ++ line ∷ after)) tr).1 ≡ crashed
  unfolding update
  update-IsMalformed before after line tr b =
      ap (λ o. (finish cal tr o).1) (read_lines-IsMalformed before after line (begun cal tr) b)
