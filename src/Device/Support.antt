-- ===== src/Device/Support.antt =====
-- statApp/src/devstat.cpp: the device supports, one for each type of record, by the routines of
-- their sets (dset).
pub mod Status
pub mod Payload
use lin_stat.Base.{ℕ, Bool, true, Option, none, some}
use lin_stat.Base.Text.{Bytes}
use lin_stat.Table.{StatTable}
use lin_stat.Registry.{Gbl}
use lin_stat.Device.Record.{Common, BitsRecord, IntRecord, FloatRecord, TextRecord}
use lin_stat.Device.Read.{Double, get_rval, get_val, get_f64, get_time, get_si, get_lsi}
use lin_stat.Device.Link.{Attached, init_record}

-- A record with the device support that its type and its DTYP select.
pub data Supported (F : Type 0) : Type 0 where
  bi_value mbbi_value mbbi_direct_value : BitsRecord → Supported F
  li_value i64_value : IntRecord → Supported F
  f64_value ai_tbl_time : FloatRecord F → Supported F
  si_value lsi_value : TextRecord → Supported F

abbrev pub common_of {ℓ} : {A : Type ℓ} {F : Type 0} → (Common → A) → Supported F → A
common_of f (bi_value r) = f r.common
common_of f (mbbi_value r) = f r.common
common_of f (mbbi_direct_value r) = f r.common
common_of f (li_value r) = f r.common
common_of f (i64_value r) = f r.common
common_of f (f64_value r) = f r.common
common_of f (ai_tbl_time r) = f r.common
common_of f (si_value r) = f r.common
common_of f (lsi_value r) = f r.common

abbrev pub with_common : {F : Type 0} → (Common → Common) → Supported F → Supported F
with_common f (bi_value r) = bi_value (record r { common = f r.common })
with_common f (mbbi_value r) = mbbi_value (record r { common = f r.common })
with_common f (mbbi_direct_value r) = mbbi_direct_value (record r { common = f r.common })
with_common f (li_value r) = li_value (record r { common = f r.common })
with_common f (i64_value r) = i64_value (record r { common = f r.common })
with_common f (f64_value r) = f64_value (record r { common = f r.common })
with_common f (ai_tbl_time r) = ai_tbl_time (record r { common = f r.common })
with_common f (si_value r) = si_value (record r { common = f r.common })
with_common f (lsi_value r) = lsi_value (record r { common = f r.common })

abbrev as_read {ℓ κ} : {A : Type ℓ} {B : Type κ} → (A → B) → A × Option ℕ → B × Option ℕ
as_read f (r, status) = (f r, status)

module _ (d : Double) where
  open d use {F}

  -- The read routine of the record's device support, on its table.
  unfoldable pub read_record : StatTable F → Supported F → Supported F × Option ℕ
  unfolding get_rval get_val get_f64 get_time get_si get_lsi
  read_record tbl (bi_value r) = as_read bi_value (get_rval tbl r)
  read_record tbl (mbbi_value r) = as_read mbbi_value (get_rval tbl r)
  read_record tbl (mbbi_direct_value r) = as_read mbbi_direct_value (get_rval tbl r)
  read_record tbl (li_value r) = as_read li_value (get_val tbl r)
  read_record tbl (i64_value r) = as_read i64_value (get_val tbl r)
  read_record tbl (f64_value r) = as_read f64_value (get_f64 d tbl r)
  read_record tbl (ai_tbl_time r) = as_read ai_tbl_time (get_time d tbl r)
  read_record tbl (si_value r) = as_read si_value (get_si tbl r)
  read_record tbl (lsi_value r) = as_read lsi_value (get_lsi tbl r)

  abbrev pub set_dpvt : Option Attached → Supported F → Supported F
  set_dpvt none r = r
  set_dpvt (some a) r = with_common (λ c. record c { attached = true; param = a.param }) r

  abbrev status_of : Option Attached → Option ℕ
  status_of none = none
  status_of (some a) = some 0

  -- commonReading: the routine init_record of each of them, on the link's text.
  unfoldable pub init_reading :
      Bytes → Supported F → Gbl F → Gbl F × Supported F × Option Attached × Option ℕ
  unfolding init_record
  init_reading link r g = let (h, a) = init_record link g in (h, set_dpvt a r, a, status_of a)

-- devLinStatsBoExit: the record, and whether the IOC is told to exit.
unfoldable pub write_exit : Common → Common × Bool × Option ℕ
write_exit r = (r, true, some 0)
