-- ===== src/Tables.antt =====
-- statApp/src/tbl*.cpp: the tables.
mod Tests
mod Samples
pub mod Irq
pub mod Pid
pub mod StatVfs
pub mod Ethtool
pub mod MemInfo
pub mod ProcStatus
pub mod ProcStat
pub mod Uptime
pub mod Netstat
pub mod Rtc
pub mod Hwmon
pub mod IfStat
pub mod Host
pub mod Pdb
