-- ===== src/Device/Scan.antt =====
-- statApp/src/devstat.cpp: devLinStatBoScan, whose job updates a table on the worker thread.
use lin_stat.Base.{ℕ, Bool, true, false, List, [], ◌∷◌, ◌++◌, Option, none, some, if◌then◌else◌}
use lin_stat.Table.{StatTable, Body, update_table}
use lin_stat.Device.Record.{ScanRecord, raise, init_fail, failed}
use lin_stat.Reactor.State.{Pvt}
use lin_stat.Reactor.Api.{ok, err, submit, via}

-- What the job writes to the error log.
pub data Log : Type 0 where
  error success : Log

module _ {F : Type 0} where
  -- The end of the job, when update() has returned (true) or thrown (false).
  unfoldable pub report : Bool → StatTable F → StatTable F × List Log
  report true tbl = (record tbl { last_ok = true }, if tbl.last_ok then [] else success ∷ [])
  report false tbl = (record tbl { last_ok = false }, if tbl.last_ok then error ∷ [] else [])

  -- The job; the weak_ptr may have expired.
  unfoldable pub scan_job :
      (StatTable F → StatTable F × Bool) → Option (StatTable F) → Option (StatTable F) × List Log
  unfolding report
  scan_job update none = (none, [])
  scan_job update (some tbl) =
      let (after, returned) = update tbl in
      let (tbl', log) = report returned after in (some tbl', log)

  -- The jobs of one table, one after the other, each with what its update() does and when.
  unfoldable pub scan_jobs : List (Body F × ℕ) → Option (StatTable F) → List Log
  unfolding scan_job
  scan_jobs [] tbl = []
  scan_jobs ((body, now) ∷ us) tbl =
      let (tbl', log) = scan_job (update_table body now) tbl in log ++ scan_jobs us tbl'

-- devLinStatBoScan's write routine: the job is submitted, and the new handle takes the place of the
-- last one, which is dropped after that; an exception becomes an alarm.
unfoldable pub write_scan : Option Pvt → ScanRecord → Option Pvt × ScanRecord × Option ℕ × Option ℕ
unfolding via submit
write_scan reactor r =
    if r.common.attached
    then elim (via reactor submit) [
      | ok (s, i) ↦ (some s, record r { handle = some i }, r.handle, some 0)
      | err e ↦ (reactor, record r { common = raise failed r.common }, none, none)
    ]
    else (reactor, record r { common = raise init_fail r.common }, none, none)
