-- ===== src/Catalog.antt =====
-- statApp/src/linStat.h, DEFINE_TABLE: the classes of tables and their factories, which the
-- registrars add. What the system answers a constructor is an argument.
pub mod Known
pub mod Attach
pub mod Process
mod Tests
use lin_stat.Base.{
  ℕ, Bool, true, false, not, List, [], ◌∷◌, Option, none, some, if◌then◌else◌, is_empty,
}
use lin_stat.Base.Text.{Bytes, bytes_eq}
use lin_stat.Table.{StatTable, new_table}
use lin_stat.Registry.{Factory, Gbl, add_factory}
use lin_stat.Tables.Ethtool
use lin_stat.Tables.Hwmon
use lin_stat.Tables.Host.{accepts_localhost, accepts_self, host_tbl, mallinfo_tbl, files_tbl}
use lin_stat.Tables.IfStat
use lin_stat.Tables.IfStat.Message.{Netlink, request_bytes}
use lin_stat.Tables.Irq
use lin_stat.Tables.MemInfo
use lin_stat.Tables.Netstat
use lin_stat.Tables.Pdb
use lin_stat.Tables.Pid
use lin_stat.Tables.ProcStat.{accepts_process, accepts_system, process_tbl, system_tbl}
use lin_stat.Tables.ProcStatus
use lin_stat.Tables.Rtc
use lin_stat.Tables.StatVfs
use lin_stat.Tables.Uptime

-- The classes, in the order of linStat.dbd.
pub data Klass : Type 0 where
  ethtool_table host_table hwmon_table if_stat_table irq_table mem_info_table : Klass
  netstat_table pid_table fd_table mall_info_table pdb_table proc_stat_table : Klass
  proc_status_table sys_stat_table stat_vfs_table uptime_table rtc_table : Klass

abbrev pub klasses : List Klass
klasses =
    ethtool_table ∷ host_table ∷ hwmon_table ∷ if_stat_table ∷ irq_table ∷ mem_info_table
    ∷ netstat_table ∷ pid_table ∷ fd_table ∷ mall_info_table ∷ pdb_table ∷ proc_stat_table
    ∷ proc_status_table ∷ sys_stat_table ∷ stat_vfs_table ∷ uptime_table ∷ rtc_table ∷ []

abbrev pub table_name : Klass → Bytes
table_name ethtool_table = Ethtool.tbl_name
table_name host_table = host_tbl
table_name hwmon_table = Hwmon.tbl_name
table_name if_stat_table = IfStat.tbl_name
table_name irq_table = Irq.tbl_name
table_name mem_info_table = MemInfo.tbl_name
table_name netstat_table = Netstat.tbl_name
table_name pid_table = Pid.tbl_name
table_name fd_table = files_tbl
table_name mall_info_table = mallinfo_tbl
table_name pdb_table = Pdb.tbl_name
table_name proc_stat_table = process_tbl
table_name proc_status_table = ProcStatus.tbl_name
table_name sys_stat_table = system_tbl
table_name stat_vfs_table = StatVfs.tbl_name
table_name uptime_table = Uptime.tbl_name
table_name rtc_table = Rtc.tbl_name

-- What the constructors ask of the system: the driver of an interface, the layout of netlink, and
-- the records of the database.
pub record System : Type 0 where
  pub socket : Bool  -- whether epicsSocketCreate() succeeds
  pub ifnamsiz : ℕ
  pub driver : Bytes → Option Ethtool.DriverInfo
  pub stat_strings : Bytes → Ethtool.Names
  pub handshake : Bytes → Option ℕ
  pub netlink : Netlink
  pub types : List (List Bool)
  pub ioc : Pdb.Ioc

abbrev pub is_some {ℓ} : {A : Type ℓ} → Option A → Bool
is_some none = false
is_some (some a) = true

-- Whether the constructor returns, or throws.
unfoldable pub accepts : System → Klass → Bytes → Bool
unfolding accepts_localhost accepts_self Ethtool.construct Ethtool.with_socket request_bytes
    Pdb.construct
accepts sys ethtool_table inst =
    let body =
      Ethtool.construct sys.ifnamsiz inst (sys.driver inst) (sys.stat_strings inst)
        (sys.handshake inst) in
    is_some (Ethtool.with_socket sys.socket body 0).1
accepts sys host_table inst = accepts_localhost inst
accepts sys hwmon_table inst = Hwmon.accepts inst
accepts sys if_stat_table inst = is_some (request_bytes sys.netlink inst)
accepts sys irq_table inst = true
accepts sys mem_info_table inst = true
accepts sys netstat_table inst = true
accepts sys pid_table inst = Pid.accepts_pid inst
accepts sys fd_table inst = accepts_self inst
accepts sys mall_info_table inst = accepts_self inst
accepts sys pdb_table inst = (Pdb.construct inst sys.types sys.ioc).1
accepts sys proc_stat_table inst = accepts_process inst
accepts sys proc_status_table inst = ProcStatus.accepts_status inst
accepts sys sys_stat_table inst = accepts_system inst
accepts sys stat_vfs_table inst = true
accepts sys uptime_table inst = Uptime.accepts_uptime inst
accepts sys rtc_table inst = true

-- The update() of each class.
abbrev pub Updates : Type 0 → Type 0
Updates F = Klass → StatTable F → StatTable F × Bool

module _ {F : Type 0} where
  -- The base class is StatTable(tblName, inst, react).
  unfoldable pub construct : System → Klass → Bytes → Option (StatTable F)
  unfolding accepts
  construct sys k inst = if accepts sys k inst then some (new_table (table_name k) inst) else none

  unfoldable pub factory_of : System → Updates F → Klass → Factory F
  unfolding construct
  factory_of sys updates k = record { construct = construct sys k; update = updates k }

  -- The registrar of a class.
  unfoldable pub define_table : System → Updates F → Klass → Gbl F → Gbl F
  unfolding factory_of add_factory
  define_table sys updates k g = add_factory (table_name k) (factory_of sys updates k) g

  -- The registrars of the classes, one after the other.
  unfoldable pub define_tables : System → Updates F → List Klass → Gbl F → Gbl F
  unfolding define_table
  define_tables sys updates [] g = g
  define_tables sys updates (k ∷ ks) g = define_tables sys updates ks (define_table sys updates k g)
