-- ===== src/Device/Support/Status.antt =====
-- statApp/src/devstat.cpp: the status, the alarm and the time of every read.
use lin_stat.Base.{
  ℕ, ◌≡◌, refl, Bool, true, false, List, [], ◌∷◌, ◌++◌, Option, none, some, if◌then◌else◌,
}
use lin_stat.Table.{Value, no_value, text, int, float, StatTable, find_param}
use lin_stat.Device.Record.{
  Alarm, init_fail, no_val, wrong_type, failed, Common, BitsRecord, IntRecord, FloatRecord,
  TextRecord,
}
use lin_stat.Device.Read.{
  Double, bits_of, int_of, float_of, text_of, get_rval, get_val, get_f64, get_time, get_si, get_lsi,
}
use lin_stat.Device.Support.{
  Supported, bi_value, mbbi_value, mbbi_direct_value, li_value, i64_value, f64_value, ai_tbl_time,
  si_value, lsi_value, common_of, read_record,
}

-- What a record makes of the value of its parameter: the alarms that it raises, whether it takes the
-- time of the table, and its status.
pub record Outcome : Type 0 where
  pub raised : List Alarm
  pub timed : Bool
  pub status : Option ℕ

abbrev pub good : ℕ → Outcome
good n = record { raised = []; timed = true; status = some n }

abbrev pub thrown : Outcome
thrown = record { raised = failed ∷ []; timed = false; status = none }

abbrev pub empty : Outcome
empty = record { raised = no_val ∷ []; timed = false; status = some 0 }

abbrev pub unfit : Outcome
unfit = record { raised = wrong_type ∷ []; timed = true; status = some 0 }

abbrev pub unattached : Outcome
unattached = record { raised = init_fail ∷ []; timed = false; status = none }

module _ {F : Type 0} where
  -- The outcome for a parameter that is missing, or has the value.
  abbrev of_integer : Option (Value F) → Outcome
  of_integer (some (int v u)) = good 0
  of_integer (some no_value) = empty
  of_integer _ = thrown

  abbrev of_number : Option (Value F) → Outcome
  of_number (some (int v u)) = good 0
  of_number (some (float x u)) = good 2
  of_number (some (text s)) = unfit
  of_number (some no_value) = empty
  of_number none = thrown

  abbrev of_string : Option (Value F) → Outcome
  of_string (some (text s)) = good 0
  of_string (some no_value) = empty
  of_string _ = thrown

  abbrev pub outcome : Supported F → Option (Value F) → Outcome
  outcome (bi_value r) v = of_integer v
  outcome (mbbi_value r) v = of_integer v
  outcome (mbbi_direct_value r) v = of_integer v
  outcome (li_value r) v = of_integer v
  outcome (i64_value r) v = of_integer v
  outcome (f64_value r) v = of_number v
  outcome (ai_tbl_time r) v = good 2
  outcome (si_value r) v = of_string v
  outcome (lsi_value r) v = of_string v

abbrev pub settled : Outcome → ℕ → Common → Common
settled o now c = record c {
  alarms = o.raised ++ c.alarms;
  time = if o.timed then (if c.device_time then now else c.time) else c.time;
}

-- A routine that reads only an attached record.
attached_or {ℓ} :
    {A : Type ℓ} (attached : Bool) (common : A → Common) (x y : A × Option ℕ) (o : Outcome)
    (now : ℕ) (c : Common)
    → (common x.0 ≡ settled o now c) × (x.1 ≡ o.status)
    → (common y.0 ≡ settled unattached now c) × (y.1 ≡ none)
    → (common (if attached then x else y).0 ≡ settled (if attached then o else unattached) now c)
      × ((if attached then x else y).1 ≡ (if attached then o else unattached).status)
attached_or true common x y o now c p q = p
attached_or false common x y o now c p q = q

module _ (d : Double) where
  open d use {F}

  abbrev pub Settles : Supported F × Option ℕ → Outcome → ℕ → Common → Type 0
  Settles read o now c = (common_of (λ k. k) read.0 ≡ settled o now c) × (read.1 ≡ o.status)

  bits_status :
      (now : ℕ) (r : BitsRecord) (v : Option (Value F))
      → ((bits_of now r v).0.common ≡ settled (of_integer v) now r.common)
        × ((bits_of now r v).1 ≡ (of_integer v).status)
  unfolding bits_of
  bits_status now r none = (refl, refl)
  bits_status now r (some no_value) = (refl, refl)
  bits_status now r (some (int v u)) = (refl, refl)
  bits_status now r (some (text s)) = (refl, refl)
  bits_status now r (some (float x u)) = (refl, refl)

  int_status :
      (now : ℕ) (r : IntRecord) (v : Option (Value F))
      → ((int_of now r v).0.common ≡ settled (of_integer v) now r.common)
        × ((int_of now r v).1 ≡ (of_integer v).status)
  unfolding int_of
  int_status now r none = (refl, refl)
  int_status now r (some no_value) = (refl, refl)
  int_status now r (some (int v u)) = (refl, refl)
  int_status now r (some (text s)) = (refl, refl)
  int_status now r (some (float x u)) = (refl, refl)

  float_status :
      (now : ℕ) (r : FloatRecord F) (v : Option (Value F))
      → ((float_of d now r v).0.common ≡ settled (of_number v) now r.common)
        × ((float_of d now r v).1 ≡ (of_number v).status)
  unfolding float_of
  float_status now r none = (refl, refl)
  float_status now r (some no_value) = (refl, refl)
  float_status now r (some (int v u)) = (refl, refl)
  float_status now r (some (text s)) = (refl, refl)
  float_status now r (some (float x u)) = (refl, refl)

  text_status :
      (long : Bool) (now : ℕ) (r : TextRecord) (v : Option (Value F))
      → ((text_of long now r v).0.common ≡ settled (of_string v) now r.common)
        × ((text_of long now r v).1 ≡ (of_string v).status)
  unfolding text_of
  text_status long now r none = (refl, refl)
  text_status long now r (some no_value) = (refl, refl)
  text_status long now r (some (int v u)) = (refl, refl)
  text_status long now r (some (text s)) = (refl, refl)
  text_status long now r (some (float x u)) = (refl, refl)

  -- Whatever the type of record, the table, and the value of the record's parameter, if any: a read
  -- changes of the fields common to all records the alarms and the time only, and raises the alarm,
  -- takes the table's time where the record asks for it, and gives the status that the kind of value
  -- says; a record that has not been attached raises its own alarm and fails.
  pub read_record_lem :
      (tbl : StatTable F) (r : Supported F)
      → Settles
          (read_record d tbl r)
          (if common_of (λ c. c.attached) r
            then outcome r (find_param (common_of (λ c. c.param) r) tbl)
            else unattached)
          tbl.current_time
          (common_of (λ c. c) r)
  unfolding read_record get_rval get_val get_f64 get_time get_si get_lsi
  read_record_lem tbl (bi_value r) =
      attached_or r.common.attached (λ (q : BitsRecord). q.common) _ _ _ tbl.current_time r.common
        (bits_status tbl.current_time r (find_param r.common.param tbl)) (refl, refl)
  read_record_lem tbl (mbbi_value r) =
      attached_or r.common.attached (λ (q : BitsRecord). q.common) _ _ _ tbl.current_time r.common
        (bits_status tbl.current_time r (find_param r.common.param tbl)) (refl, refl)
  read_record_lem tbl (mbbi_direct_value r) =
      attached_or r.common.attached (λ (q : BitsRecord). q.common) _ _ _ tbl.current_time r.common
        (bits_status tbl.current_time r (find_param r.common.param tbl)) (refl, refl)
  read_record_lem tbl (li_value r) =
      attached_or r.common.attached (λ (q : IntRecord). q.common) _ _ _ tbl.current_time r.common
        (int_status tbl.current_time r (find_param r.common.param tbl)) (refl, refl)
  read_record_lem tbl (i64_value r) =
      attached_or r.common.attached (λ (q : IntRecord). q.common) _ _ _ tbl.current_time r.common
        (int_status tbl.current_time r (find_param r.common.param tbl)) (refl, refl)
  read_record_lem tbl (f64_value r) =
      attached_or r.common.attached (λ (q : FloatRecord F). q.common) _ _ _ tbl.current_time
        r.common (float_status tbl.current_time r (find_param r.common.param tbl)) (refl, refl)
  read_record_lem tbl (ai_tbl_time r) =
      attached_or r.common.attached (λ (q : FloatRecord F). q.common) _ _ _ tbl.current_time
        r.common (refl, refl) (refl, refl)
  read_record_lem tbl (si_value r) =
      attached_or r.common.attached (λ (q : TextRecord). q.common) _ _ _ tbl.current_time r.common
        (text_status false tbl.current_time r (find_param r.common.param tbl)) (refl, refl)
  read_record_lem tbl (lsi_value r) =
      attached_or r.common.attached (λ (q : TextRecord). q.common) _ _ _ tbl.current_time r.common
        (text_status true tbl.current_time r (find_param r.common.param tbl)) (refl, refl)
