-- ===== src/Device/View.antt =====
-- statApp/src/devstat.cpp on tblBase.cpp: what the records of a table see of it, as jobs update it.
use lin_stat.Base.{ℕ, ◌≡◌, refl, ap, ◌∙◌, Bool, true, false, List, [], ◌∷◌, Option, some}
use lin_stat.Base.Text.{Bytes}
use lin_stat.Base.Dict.{lookup}
use lin_stat.Table.{Value, StatTable, update_table, find_param}
use lin_stat.Table.Laws.{set_all, last_set, update_table_lem}
use lin_stat.Device.Read.{bits_of, int_of, text_of, get_rval, get_val, get_si, get_lsi}
use lin_stat.Device.Record.{BitsRecord, IntRecord, TextRecord}
use lin_stat.Device.Scan.{report, scan_job}

-- A table as a client sees it: a value for each name, and a time.
pub record View (F : Type 0) : Type 0 where
  pub value : Bytes → Option (Value F)
  pub time : ℕ

-- An update: the values that it sets, in order, whether it returns, and when it begins.
pub record Update (F : Type 0) : Type 0 where
  pub sets : List (Bytes × Value F)
  pub returned : Bool
  pub now : ℕ

module _ {F : Type 0} where
  -- An update replaces all that is seen.
  abbrev pub seen : Update F → View F
  seen u = record { value = λ k. last_set k u.sets; time = u.now }

  abbrev pub seen_after : List (Update F) → View F → View F
  seen_after [] v = v
  seen_after (u ∷ us) v = seen_after us (seen u)

  abbrev pub job : Update F → Option (StatTable F) → Option (StatTable F)
  job u o = (scan_job (update_table (λ tr. (set_all u.sets tr, u.returned)) u.now) o).0

  abbrev pub jobs : List (Update F) → Option (StatTable F) → Option (StatTable F)
  jobs [] o = o
  jobs (u ∷ us) o = jobs us (job u o)

  pub record Shows (tbl : StatTable F) (v : View F) : Type 0 where
    pub value : (k : Bytes) → find_param k tbl ≡ v.value k
    pub time : tbl.current_time ≡ v.time

  report-current :
      (ok : Bool) (t : StatTable F)
      → ((report ok t).0.current ≡ t.current) × ((report ok t).0.current_time ≡ t.current_time)
  unfolding report
  report-current true t = (refl, refl)
  report-current false t = (refl, refl)

  job-Shows :
      (u : Update F) (tbl : StatTable F)
      → (t : StatTable F) × (job u (some tbl) ≡ some t) × Shows t (seen u)
  unfolding scan_job
  job-Shows u tbl =
      let after = update_table (λ tr. (set_all u.sets tr, u.returned)) u.now tbl in
      let (values, time, _, _, _, _) = update_table_lem u.sets u.returned u.now tbl in
      let (same, same_time) = report-current after.1 after.0 in
      (
        (report after.1 after.0).0,
        refl,
        record {
          value = λ k. unfold find_param in (ap (λ d. lookup k d) same ∙ values k);
          time = same_time ∙ time;
        },
      )

  pub jobs-Shows :
      (us : List (Update F)) (tbl : StatTable F) (v : View F)
      → Shows tbl v
      → (t : StatTable F) × (jobs us (some tbl) ≡ some t) × Shows t (seen_after us v)
  jobs-Shows [] tbl v s = (tbl, refl, s)
  jobs-Shows (u ∷ us) tbl v s =
      let (t, e, shown) = job-Shows u tbl in
      let (t', e', shown') = jobs-Shows us t (seen u) shown in (t', ap (jobs us) e ∙ e', shown')

  read_int :
      (tbl : StatTable F) (v : View F) (r : IntRecord)
      → Shows tbl v
      → r.common.attached ≡ true
      → get_val tbl r ≡ int_of v.time r (v.value r.common.param)
  unfolding get_val
  read_int tbl v r s a = rw (a, s.time, s.value r.common.param) refl

  read_bits :
      (tbl : StatTable F) (v : View F) (r : BitsRecord)
      → Shows tbl v
      → r.common.attached ≡ true
      → get_rval tbl r ≡ bits_of v.time r (v.value r.common.param)
  unfolding get_rval
  read_bits tbl v r s a = rw (a, s.time, s.value r.common.param) refl

  read_text :
      (tbl : StatTable F) (v : View F) (r : TextRecord)
      → Shows tbl v
      → r.common.attached ≡ true
      → (get_si tbl r ≡ text_of false v.time r (v.value r.common.param))
        × (get_lsi tbl r ≡ text_of true v.time r (v.value r.common.param))
  unfolding get_si get_lsi
  read_text tbl v r s a =
      (rw (a, s.time, s.value r.common.param) refl, rw (a, s.time, s.value r.common.param) refl)

  -- Jobs update a table one after the other, each setting values and then returning or throwing.
  -- The table lives on and shows its records the abstract table that each update replaces as a
  -- whole: it gives each name the last value that the last update set for it, or none if that update
  -- did not set it, with the time of that update. A record of integers, of bits or of text that is
  -- attached reads this value at this time.
  pub jobs_lem :
      (us : List (Update F)) (tbl : StatTable F) (v : View F) (r : IntRecord) (b : BitsRecord)
      (x : TextRecord)
      → Shows tbl v
      → r.common.attached ≡ true
      → b.common.attached ≡ true
      → x.common.attached ≡ true
      → let w = seen_after us v in
        (t : StatTable F) × (jobs us (some tbl) ≡ some t)
        × Shows t w
        × (get_val t r ≡ int_of w.time r (w.value r.common.param))
        × (get_rval t b ≡ bits_of w.time b (w.value b.common.param))
        × (get_si t x ≡ text_of false w.time x (w.value x.common.param))
        × (get_lsi t x ≡ text_of true w.time x (w.value x.common.param))
  jobs_lem us tbl v r b x s ra ba xa =
      let w = seen_after us v in
      let (t, e, shown) = jobs-Shows us tbl v s in
      let (short, long) = read_text t w x shown xa in
      (t, e, shown, read_int t w r shown ra, read_bits t w b shown ba, short, long)
