-- ===== src/Reactor/Worker.antt =====
-- statApp/src/nlreact.cpp: Reactor::Pvt::run(), cut where the worker drops or takes the lock and
-- where the operating system answers. `none`: the worker is not at that place.
use lin_stat.Base.{
  ℕ, ◌-◌, Bool, true, false, not, ◌&&◌, ◌||◌, List, [], ◌∷◌, Option, none, some, ltb, ◌==◌,
  if◌then◌else◌, is_empty,
}
use lin_stat.Reactor.State.{
  Msg, Events, Worker, starting, top, exited, polling, draining, calling, receiving, messages,
  handling, sending, Pvt, update, find,
}

abbrev goto : Worker → Pvt → Pvt
goto w s = record s { worker = w }

-- The test of the while loop, and the choice of events and timeout for poll().
loop_test : Pvt → Pvt
loop_test s =
    if s.running || not (is_empty s.todo)
    then goto (polling (is_empty s.todo) (not (is_empty s.ready))) s
    else goto exited s

unfoldable pub run_top : Pvt → Option Pvt
unfolding loop_test
run_top s = elim s.worker [ starting ↦ some (loop_test s) | top ↦ some (loop_test s) | _ ↦ none ]

-- What poll() answers; the pipe is level-triggered.
pub data PollResult : Type 0 where
  events : Bool → Bool → PollResult  -- the socket readable, the socket writable
  interrupted failed : PollResult

abbrev no_events : Events
no_events = record { wake = false; rx = false; tx = false }

-- auto jobs(std::move(todo)), after the lock is taken again.
take_jobs : Events → Pvt → Pvt
take_jobs ev s = record s { worker = draining s.todo ev; todo = [] }

poll_answer : Bool → Bool → PollResult → Pvt → Option Pvt
unfolding take_jobs
poll_answer blocking armed (events rx tx) s =
    let wake = ltb 0 s.pipe in
    if (tx && not armed) || (blocking && not (wake || (rx || tx)))
    then none
    else some (take_jobs (record { wake = wake; rx = rx; tx = tx }) s)
poll_answer blocking armed interrupted s = some (take_jobs no_events s)
poll_answer blocking armed failed s = some (goto exited s)

unfoldable pub poll : PollResult → Pvt → Option Pvt
unfolding poll_answer
poll r s = elim s.worker [ polling blocking armed ↦ poll_answer blocking armed r s | _ ↦ none ]

-- One turn of the loop over the jobs, up to the call.
run_job : ℕ → List ℕ → Events → Pvt → Pvt
run_job i rest ev s =
    let j = s.jobs i in
    if j.held && not (j.done || not j.cb)
    then record s {
      jobs = update s.jobs i (record j { busy = true });
      worker = calling i rest ev;
      called = i ∷ s.called;
    }
    else goto (draining rest ev) s

next_job_of : List ℕ → Events → Pvt → Option Pvt
unfolding run_job
next_job_of [] ev s = none
next_job_of (i ∷ rest) ev s = some (run_job i rest ev s)

unfoldable pub take_job : Pvt → Option Pvt
unfolding next_job_of
take_job s = elim s.worker [ draining q ev ↦ next_job_of q ev s | _ ↦ none ]

-- The callback returned or threw; both end alike.
unfoldable pub job_return : Pvt → Option Pvt
job_return s = elim s.worker [
  | calling i rest ev ↦ some (record s {
    jobs = update s.jobs i (record (s.jobs i) { busy = false; done = true });
    worker = draining rest ev;
  })
  | _ ↦ none
]

clean : List ℕ → Events → Bool → Pvt → Option Pvt
clean [] ev readable s =
    some (record s {
      pipe = if ev.wake && readable then s.pipe - 16 else s.pipe;
      worker = receiving ev;
    })
clean (i ∷ rest) ev readable s = none

-- Clean out the wakeup pipe, at most 16 bytes; a failed read() takes none.
unfoldable pub clean_pipe : Bool → Pvt → Option Pvt
unfolding clean
clean_pipe readable s = elim s.worker [ draining q ev ↦ clean q ev readable s | _ ↦ none ]

-- What recvfrom() gave: an error, or the messages that NLMSG_OK and NLMSG_NEXT walk through, and
-- what those leave over.
pub data Received : Type 0 where
  no_datagram : Received
  datagram : List Msg → ℕ → Received

receive_answer : Events → Received → Pvt → Pvt
receive_answer ev no_datagram s = goto (sending ev) s
receive_answer ev (datagram msgs remain) s = goto (messages msgs remain ev) s

unfoldable pub receive : Received → Pvt → Option Pvt
unfolding receive_answer
receive r s = elim s.worker [
  | receiving ev ↦ some (if ev.rx then receive_answer ev r s else goto (sending ev) s)
  | _ ↦ none
]

-- The operation that takes a message, if it is to be called.
unfoldable pub route : Msg → Pvt → Option ℕ
route m s =
    if m.pid == s.nlpid
    then elim (find m.seq s.handlers) [
      | none ↦ none
      | some i ↦ if (s.ops i).held && (not (s.ops i).cancel && (s.ops i).cb) then some i else none
    ]
    else none

next_message : List Msg → ℕ → Events → Pvt → Pvt
unfolding route
next_message [] remain ev s = goto (sending ev) s
next_message (m ∷ msgs) remain ev s = elim (route m s) [
  | none ↦ goto (messages msgs remain ev) s
  | some i ↦ record s {
    ops = update s.ops i (record (s.ops i) { busy = true });
    worker = handling i msgs remain ev;
  }
]

unfoldable pub take_message : Pvt → Option Pvt
unfolding next_message
take_message s = elim s.worker [
  | messages msgs remain ev ↦ some (next_message msgs remain ev s)
  | _ ↦ none
]

unfoldable pub handler_return : Pvt → Option Pvt
handler_return s = elim s.worker [
  | handling i msgs remain ev ↦ some (record s {
    ops = update s.ops i (record (s.ops i) { busy = false });
    worker = messages msgs remain ev;
  })
  | _ ↦ none
]

-- What sendto() gave: EWOULDBLOCK or EAGAIN; another error, or a number of bytes.
pub data Sent : Type 0 where
  again : Sent
  finished : Sent

-- One turn of the loop over `ready`. The front is moved from before sendto(), so `again` leaves a
-- null pointer there; sendto() with a null message reads its length through it.
send_front : List (Option Msg) → Events → Sent → Pvt → Pvt
send_front [] ev r s = goto top s
send_front (none ∷ rest) ev r s = record s { crashed = true }
send_front (some m ∷ rest) ev again s = record s { ready = none ∷ rest; worker = top }
send_front (some m ∷ rest) ev finished s = record s { ready = rest; worker = sending ev }

unfoldable pub send : Sent → Pvt → Option Pvt
unfolding send_front
send r s = elim s.worker [
  | sending ev ↦ some (if ev.tx then send_front s.ready ev r s else goto top s)
  | _ ↦ none
]
