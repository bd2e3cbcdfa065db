-- ===== src/Lib.antt =====
-- linStat: statistics of a Linux host for EPICS records.
--
-- An IOC's records read named values from tables; a table is filled from /proc, from system calls
-- or from netlink, by jobs that one worker thread runs, the reactor. The paths below stand under
-- statApp/src.
--
-- Parts:
-- Reactor (nlreact.cpp): State holds Reactor::Pvt with its jobs, operations and messages; Api has
--   start, stop, submit, request and the deleters of the two kinds of handle; Worker is run(), cut
--   into the sections under the lock (run_top, poll, take_job, job_return, clean_pipe, receive,
--   take_message, handler_return, send); Step makes a step relation of them. An Action names the
--   thread that moves or the answer of the operating system, and Reach is a run of any length, so
--   every interleaving of the threads is a run. Jobs, Cancel, Drop, Handlers, Sequence, Wakeup and
--   Transmit hold the proofs. Descriptor is struct FD, as objects in a store beside the kernel's open
--   descriptors; Build is the constructor of Reactor::Pvt on them.
-- Table (linStat.h, tblBase.cpp): StatTable, Value, and Transaction, whose destructor is commit; an
--   update() is a function on transactions that returns or throws.
-- Registry (tblBase.cpp): Gbl, with addStatTableFactory() as add_factory and StatTable::lookup() as
--   get_table. Tables are numbers in a store; `live` says whether the weak_ptr can be locked.
-- Catalog (linStat.h): the classes of tables with their names, and the factories that DEFINE_TABLE
--   registers; Attach and Process compose them with Registry, the links of records, and what a record reads.
-- Report (tblBase.cpp, nlreact.cpp): the lines of linStatReport() and Reactor::report().
-- Device (devstat.cpp): Link has devLinInitRecord with the parser of a record's link, Read the read
--   routines of the record types, Support the device supports by their sets of routines, Scan
--   devLinStatBoScan; View composes them with the tables.
-- TimeDelta (devtdelta.cpp), CapArray (devcap.cpp) and GetParam (getParam.c): the small device
--   supports. Hooks (iochooks.cpp): start and stop of the reactor.
-- Files (lsutils.cpp): words of files, entries of directories and their paths; Directory has ReadDir
--   as an object that holds a stream.
-- Tables: an update() for each table. Irq (tblIRQ.cpp), Pid (tblPid.cpp), StatVfs (tblStatVFS.cpp),
--   Ethtool (tblEthtool.cpp), Hwmon (tblHwmon.cpp), IfStat (tblIFStat.cpp), Netstat
--   (tblNetstat.cpp), Rtc (tblRTC.cpp), MemInfo (tblMemInfo.cpp), ProcStatus (tblProcStatus.cpp),
--   ProcStat (tblProcStat.cpp, tblStat.cpp), Uptime (tblUptime.cpp), Pdb (tblProcPDB.cpp), Host
--   (tblHost.cpp, tblProcMallinfo.cpp, tblProcFD.cpp).
-- Regex: a matcher for the regular expressions that the parsers use, with the order of ECMAScript's
--   backtracking, so that the groups are those of std::regex_match.
-- Base: strings as bytes, std::map as an ordered association list, char arrays, parsing.
--
-- Device support submits jobs to the reactor (write_scan), a job updates a table (scan_job,
-- update_table), the update sets values in a transaction, and a record then reads them (get_val).
-- A record finds its table by its link (init_record, get_table). A table of interface statistics
-- sends its request by the reactor and gets the reply from it (IfStat/Outstanding). IfStat/Message
-- has the bytes of the request and what a reply's bytes set, and IfStat/Attributes the loop over the
-- attributes of a reply, on the memory from a pointer to the end of the buffer; the layout of the
-- kernel's structures and the macros of rtnetlink.h are records of functions with laws (NetlinkLaws,
-- RtaLaws), which IfStat/Linux instantiates for the tests.
--
-- Integers are natural numbers below 2 ^ 64, or 2 ^ 32 where the source has uint32_t, with the
-- wrap-around written out; an int64_t is kept as its 64 bits, a double is a type parameter. What
-- comes from the system, from EPICS or from a callback is an argument.
--
-- Bounds and fuel: free_seq gets one turn more than there are handlers, and cap_loop 64 turns, one
-- for each bit; the loops of Pid get three turns more than the text has bytes, and each makes the
-- buffer larger; `show` gets 20 digits. A star of a regular expression gets a turn for each
-- character, and each turn takes one; read_columns gets one turn more than the line has bytes, and
-- attrs_at one more than the memory.
--
-- Not modelled: log and debug messages other than those of the jobs, and the walk of DBEntry over the
-- database. The reactor chooses the timeout of poll() together with the events, under the lock; the
-- code reads its queue again after the unlock, and what it may lose by that is a poll() that is
-- interrupted. A poll() that reports only an error or a hangup is left out. readlink() and getcwd()
-- are given buffers of two bytes or more, as the program's start at MAX_STRING_SIZE.
pub mod Base
pub mod Regex
pub mod Files
pub mod Reactor
pub mod Table
pub mod Registry
pub mod Catalog
pub mod Report
pub mod Device
pub mod GetParam
pub mod Hooks
pub mod TimeDelta
pub mod CapArray
pub mod Tables
