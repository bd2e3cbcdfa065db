-- ===== src/Tables/Pdb.antt =====
-- statApp/src/tblProcPDB.cpp: the numbers of the process database. The walk over the records, and
-- what the servers and queues of EPICS count, are arguments.
pub mod Monitors
mod Tests
use lin_stat.Base.{
  ℕ, suc, ◌+◌, ◌%◌, ◌^◌, Bool, true, false, not, ◌||◌, ◌==◌, List, [], ◌∷◌, ◌++◌, Option, none,
  some, if◌then◌else◌,
}
use lin_stat.Base.Text.{Bytes, codes, bytes_eq}
use lin_stat.Registry.{update_at}
use lin_stat.Table.{Transaction, set_int}

abbrev pub tbl_name : Bytes
tbl_name = codes "pdb"

-- The fields of PDBTable.
pub record Pdb : Type 0 where
  pub nrec : ℕ
  pub nsuspend : ℕ

-- The globals, registered and markDBServStarted; what the IOC keeps, how often the hook is
-- registered and which tables monitor the threads, in order; and the tables, by number. A call into
-- a table that is gone is a fault.
pub record Ioc : Type 0 where
  pub registered : Bool
  pub started : Bool
  pub hooks : ℕ
  pub monitors : List ℕ
  pub tables : ℕ → Pdb
  pub lives : ℕ → Bool
  pub next_table : ℕ
  pub faulted : Bool

-- What a queue counts: used, most used, overflows.
pub record Counts : Type 0 where
  pub used : ℕ
  pub max_used : ℕ
  pub oflows : ℕ

-- dbServerStats(), scanOnceQueueStatus() and callbackQueueStatus().
pub record Stats : Type 0 where
  pub nchan : ℕ
  pub nconn : ℕ
  pub once_size : ℕ
  pub once : Counts
  pub cb_size : ℕ
  pub low : Counts
  pub med : Counts
  pub high : Counts

-- The loop over the records of one type: whether each is an alias.
unfoldable pub count_records : List Bool → ℕ → ℕ
count_records [] n = n
count_records (alias ∷ rs) n = count_records rs (if alias then n else suc n)

-- The loop over the record types.
unfoldable pub count_types : List (List Bool) → ℕ → ℕ
unfolding count_records
count_types [] n = n
count_types (rs ∷ types) n = count_types types (count_records rs n)

-- The first table registers the hook, before its instance is looked at.
abbrev pub hooked : Ioc → Ioc
hooked c = if c.registered then c else record c { registered = true; hooks = suc c.hooks }

abbrev pub added : Pdb → Ioc → Ioc
added p c = record c {
  tables = update_at c.tables c.next_table p;
  lives = update_at c.lives c.next_table true;
  monitors = c.monitors ++ c.next_table ∷ [];
  next_table = suc c.next_table;
}

-- PDBTable::PDBTable(); false is the exception.
unfoldable pub construct : Bytes → List (List Bool) → Ioc → Ioc × Bool
unfolding count_types
construct inst types c =
    if bytes_eq inst (codes "self")
    then (added (record { nrec = count_types types 0; nsuspend = 0 }) (hooked c), true)
    else (hooked c, false)

abbrev pub remove : ℕ → List ℕ → List ℕ
remove i [] = []
remove i (j ∷ js) = if j == i then js else j ∷ remove i js

-- PDBTable::~PDBTable()
unfoldable pub destroy : ℕ → Ioc → Ioc
destroy i c = record c { monitors = remove i c.monitors; lives = update_at c.lives i false }

-- wdnotify()
unfoldable pub notify : Bool → Pdb → Pdb
notify suspended p = record p {
  nsuspend = if suspended then (p.nsuspend + 1) % 2 ^ 32 else p.nsuspend;
}

-- What the IOC does when a thread is suspended or resumed: it calls each monitor.
abbrev pub notify_one : Bool → ℕ → Ioc → Ioc
notify_one suspended i c = record c {
  tables = update_at c.tables i (notify suspended (c.tables i));
  faulted = c.faulted || not (c.lives i);
}

unfoldable pub notify_each : Bool → List ℕ → Ioc → Ioc
unfolding notify
notify_each suspended [] c = c
notify_each suspended (i ∷ is) c = notify_each suspended is (notify_one suspended i c)

-- markDBServStart(), with "the state is initHookAfterCaServerRunning".
unfoldable pub mark_started : Bool → Ioc → Ioc
mark_started running c = record c { started = if running then true else c.started }

-- What happens in an IOC: tables come and go, threads are suspended or resumed, and the server starts.
pub data Event : Type 0 where
  constructs : Bytes → List (List Bool) → Event
  destroys : ℕ → Event
  notifies : Bool → Event
  marks : Bool → Event

-- The hook does nothing before it is registered; only a living table goes.
unfoldable pub happen : Event → Ioc → Ioc
unfolding construct destroy notify_each mark_started
happen (constructs inst types) c = (construct inst types c).0
happen (destroys i) c = if c.lives i then destroy i c else c
happen (notifies suspended) c = notify_each suspended c.monitors c
happen (marks running) c = if c.hooks == 0 then c else mark_started running c

unfoldable pub happens : List Event → Ioc → Ioc
unfolding happen
happens [] c = c
happens (e ∷ es) c = happens es (happen e c)

abbrev pub no_pdb : Ioc
no_pdb = record {
  registered = false;
  started = false;
  hooks = 0;
  monitors = [];
  tables = λ _. record { nrec = 0; nsuspend = 0 };
  lives = λ _. false;
  next_table = 0;
  faulted = false;
}

module _ {F : Type 0} where
  abbrev set_once : Stats → Transaction F → Transaction F
  unfolding set_int
  set_once q tr = set_int (codes "once:oflows") q.once.oflows [] (
      set_int (codes "once:used:max") q.once.max_used [] (
        set_int (codes "once:used") q.once.used [] (set_int (codes "once:size") q.once_size [] tr)))

  abbrev set_prio : Bytes → Counts → Transaction F → Transaction F
  unfolding set_int
  set_prio prio c tr = set_int (codes "cb:" ++ (prio ++ codes ":oflows")) c.oflows [] (
      set_int (codes "cb:" ++ (prio ++ codes ":used:max")) c.max_used []
        (set_int (codes "cb:" ++ (prio ++ codes ":used")) c.used [] tr))

  -- PDBTable::update()
  unfoldable pub update : Bool → Pdb → Stats → Transaction F → Transaction F
  unfolding set_once set_prio set_int
  update started p q tr =
      let counted =
        set_int (codes "nsuspend") p.nsuspend [] (set_int (codes "nrec") p.nrec [] tr) in
      if started
      then set_prio (codes "high") q.high (
          set_prio (codes "med") q.med (
            set_prio (codes "low") q.low (
              set_int (codes "cb:size") q.cb_size [] (
                set_once q (
                  set_int (codes "rsrv:nconn") q.nconn []
                    (set_int (codes "rsrv:nchan") q.nchan [] counted))))))
      else counted
