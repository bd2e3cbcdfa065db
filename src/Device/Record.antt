-- ===== src/Device/Record.antt =====
-- statApp/src/devstat.cpp: what the device support reads and writes of an EPICS record, and the
-- alarms that it raises through recGblSetSevrMsg(), whose effect is the IOC's.
use lin_stat.Base.{ℕ, Bool, List, ◌∷◌, Option}
use lin_stat.Base.Text.{Bytes}

pub data Alarm : Type 0 where
  init_fail no_val wrong_type : Alarm
  failed : Alarm  -- showErr(): an exception

-- dbCommon, and the device-specific link: `attached` is "dpvt is not null".
pub record Common : Type 0 where
  pub attached : Bool
  pub param : Bytes
  pub device_time : Bool  -- tse == epicsTimeEventDeviceTime
  pub time : ℕ
  pub alarms : List Alarm

-- The boRecord of devLinStatBoScan, with the handle of its latest job.
pub record ScanRecord : Type 0 where
  pub common : Common
  pub handle : Option ℕ

-- biRecord, mbbiRecord and mbbiDirectRecord.
pub record BitsRecord : Type 0 where
  pub common : Common
  pub rval : ℕ  -- epicsUInt32
  pub mask : ℕ  -- epicsUInt32

-- longinRecord and int64inRecord; `width` is the size of `val` in bits.
pub record IntRecord : Type 0 where
  pub common : Common
  pub val : ℕ
  pub width : ℕ
  pub egu : Bytes
  pub posted : ℕ  -- calls of db_post_events() for `egu`

-- aiRecord.
pub record FloatRecord (F : Type 0) : Type 0 where
  pub common : Common
  pub rval : ℕ  -- epicsInt32
  pub val : F
  pub aslo : F
  pub aoff : F
  pub eslo : F
  pub eoff : F

-- stringinRecord and lsiRecord: the buffer, and the length that lsiRecord also keeps.
pub record TextRecord : Type 0 where
  pub common : Common
  pub val : Bytes
  pub len : ℕ

abbrev pub raise : Alarm → Common → Common
raise a c = record c { alarms = a ∷ c.alarms }
