-- ===== src/Device/Read.antt =====
-- statApp/src/devstat.cpp: the read routines. Each returns the record and the status; -1, the status
-- of an error, is `none`.
use lin_stat.Base.{
  ℕ, suc, ◌-◌, ◌%◌, ◌^◌, bit_and, Bool, true, false, not, ◌&&◌, Option, none, some, ◌==◌,
  if◌then◌else◌, is_empty, length, take,
}
use lin_stat.Base.Text.{Bytes}
use lin_stat.Base.Buffer.{overlay, poke_nil, c_str}
use lin_stat.Table.{Value, no_value, text, int, float, StatTable, find_param}
use lin_stat.Device.Record.{
  init_fail, no_val, wrong_type, failed, Common, raise, BitsRecord, IntRecord, FloatRecord,
  TextRecord,
}

-- The double operations that the ai record's scaling uses.
pub record Double : Type 1 where
  pub F : Type 0
  pub mul : F → F → F
  pub add : F → F → F
  pub nonzero : F → Bool
  pub of_time : ℕ → F  -- the seconds since the POSIX epoch of an EPICS time

-- if(prec->tse==epicsTimeEventDeviceTime) prec->time = pvt->tbl->currentTime
abbrev pub stamp : ℕ → Common → Common
stamp now c = record c { time = if c.device_time then now else c.time }

-- The egu field is filled in if it is empty and the value has units.
abbrev pub wants_egu : Bytes → Bytes → Bool
wants_egu field units = is_empty (c_str field) && not (is_empty units)

unfoldable pub fill_egu : Bytes → Bytes → Bytes
fill_egu field units =
    if wants_egu field units
    then poke_nil (length field - 1) (overlay (take (length field - 1) units) field)
    else field

module _ {F : Type 0} where
  -- devLinStatGetRVal, with the value that was looked up; `none` there is the exception of
  -- lookup(), and another kind of value that of std::get.
  unfoldable pub bits_of : ℕ → BitsRecord → Option (Value F) → BitsRecord × Option ℕ
  bits_of now r none = (record r { common = raise failed r.common }, none)
  bits_of now r (some no_value) = (record r { common = raise no_val r.common }, some 0)
  bits_of now r (some (int v egu)) =
      let raw = v % 2 ^ 32 in
      (
        record r {
          common = stamp now r.common;
          rval = if r.mask == 0 then raw else bit_and raw r.mask;
        },
        some 0,
      )
  bits_of now r (some (text s)) = (record r { common = raise failed r.common }, none)
  bits_of now r (some (float x egu)) = (record r { common = raise failed r.common }, none)

  unfoldable pub get_rval : StatTable F → BitsRecord → BitsRecord × Option ℕ
  unfolding bits_of find_param
  get_rval tbl r =
      if r.common.attached
      then bits_of tbl.current_time r (find_param r.common.param tbl)
      else (record r { common = raise init_fail r.common }, none)

  unfoldable pub int_of : ℕ → IntRecord → Option (Value F) → IntRecord × Option ℕ
  unfolding fill_egu
  int_of now r none = (record r { common = raise failed r.common }, none)
  int_of now r (some no_value) = (record r { common = raise no_val r.common }, some 0)
  int_of now r (some (int v units)) = (
    record r {
      common = stamp now r.common;
      val = v % 2 ^ r.width;
      egu = fill_egu r.egu units;
      posted = if wants_egu r.egu units then suc r.posted else r.posted;
    },
    some 0,
  )
  int_of now r (some (text s)) = (record r { common = raise failed r.common }, none)
  int_of now r (some (float x egu)) = (record r { common = raise failed r.common }, none)

  -- devLinStatGetVal
  unfoldable pub get_val : StatTable F → IntRecord → IntRecord × Option ℕ
  unfolding int_of find_param
  get_val tbl r =
      if r.common.attached
      then int_of tbl.current_time r (find_param r.common.param tbl)
      else (record r { common = raise init_fail r.common }, none)

  -- devLinStatSiValue writes the nil behind the string; so does devLinStatLsiValue, which keeps the
  -- length too.
  unfoldable pub text_of : Bool → ℕ → TextRecord → Option (Value F) → TextRecord × Option ℕ
  text_of long now r none = (record r { common = raise failed r.common }, none)
  text_of long now r (some no_value) = (record r { common = raise no_val r.common }, some 0)
  text_of long now r (some (text s)) =
      let copied = take (length r.val - 1) s in
      (
        record r {
          common = stamp now r.common;
          val = poke_nil (length copied) (overlay copied r.val);
          len = if long then length copied else r.len;
        },
        some 0,
      )
  text_of long now r (some (int v egu)) = (record r { common = raise failed r.common }, none)
  text_of long now r (some (float x egu)) = (record r { common = raise failed r.common }, none)

  -- devLinStatSiValue
  unfoldable pub get_si : StatTable F → TextRecord → TextRecord × Option ℕ
  unfolding text_of find_param
  get_si tbl r =
      if r.common.attached
      then text_of false tbl.current_time r (find_param r.common.param tbl)
      else (record r { common = raise init_fail r.common }, none)

  -- devLinStatLsiValue
  unfoldable pub get_lsi : StatTable F → TextRecord → TextRecord × Option ℕ
  unfolding text_of find_param
  get_lsi tbl r =
      if r.common.attached
      then text_of true tbl.current_time r (find_param r.common.param tbl)
      else (record r { common = raise init_fail r.common }, none)

module _ (d : Double) where
  open d use {F, mul, add, nonzero, of_time}

  -- x*aslo + aoff, then *eslo + eoff; a slope of 0.0 counts as 1.
  unfoldable pub scale : FloatRecord F → F → F
  scale r x =
      let y = add (if nonzero r.aslo then mul x r.aslo else x) r.aoff in
      add (if nonzero r.eslo then mul y r.eslo else y) r.eoff

  -- The status 2 means that `val` is set and no conversion from `rval` follows.
  unfoldable pub float_of : ℕ → FloatRecord F → Option (Value F) → FloatRecord F × Option ℕ
  unfolding scale
  float_of now r none = (record r { common = raise failed r.common }, none)
  float_of now r (some no_value) = (record r { common = raise no_val r.common }, some 0)
  float_of now r (some (int v egu)) =
      (record r { common = stamp now r.common; rval = v % 2 ^ 32 }, some 0)
  float_of now r (some (float x egu)) =
      (record r { common = stamp now r.common; val = scale r x }, some 2)
  float_of now r (some (text s)) =
      (record r { common = stamp now (raise wrong_type r.common) }, some 0)

  -- devLinStatF64Value
  unfoldable pub get_f64 : StatTable F → FloatRecord F → FloatRecord F × Option ℕ
  unfolding float_of find_param
  get_f64 tbl r =
      if r.common.attached
      then float_of tbl.current_time r (find_param r.common.param tbl)
      else (record r { common = raise init_fail r.common }, none)

  -- devLinStatAiTblTime
  unfoldable pub get_time : StatTable F → FloatRecord F → FloatRecord F × Option ℕ
  get_time tbl r =
      if r.common.attached
      then (
        record r { common = stamp tbl.current_time r.common; val = of_time tbl.current_time },
        some 2,
      )
      else (record r { common = raise init_fail r.common }, none)
