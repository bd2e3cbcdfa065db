-- ===== src/Reactor/Step.antt =====
-- statApp/src/nlreact.cpp: the reactor as a system of threads. An action is one section under the
-- lock, of the worker or of another thread, or an answer of the operating system.
use lin_stat.Base.{ℕ, ◌≡◌, Bool, false, ◌&&◌, List, [], ◌∷◌, Option, none, some, if◌then◌else◌}
use lin_stat.Reactor.State.{Msg, Pvt, absent, Caller, may_enter, lock_free}
use lin_stat.Reactor.Api.{
  Result, ok, err, start, stop, join, poke, submit, request, drop_job, drop_op,
}
use lin_stat.Reactor.Worker.{
  PollResult, Received, Sent, run_top, poll, take_job, job_return, clean_pipe, receive,
  take_message, handler_return, send,
}

pub data Action : Type 0 where
  starts stops joins pokes_pipe releases : Action
  submits : Caller → Action
  requests : Caller → Msg → Action
  drops_job drops_op : Caller → ℕ → Action
  tops takes_job returns takes_message handler_returns : Action
  polls : PollResult → Action
  cleans : Bool → Action
  receives : Received → Action
  sends : Sent → Action

-- An exception leaves the reactor as it was.
abbrev pub after : Pvt → Result (Pvt × ℕ) → Pvt
after s (ok (t, i)) = t
after s (err e) = s

-- The last reference to the Pvt goes, once the worker is joined.
release : Pvt → Option Pvt
release s = elim s.worker [
  | absent ↦ if s.running then none else some (record s { alive = false })
  | _ ↦ none
]

-- A crashed process takes no step.
perform : Action → Pvt → Option Pvt
unfolding release may_enter lock_free start stop join poke submit request drop_job drop_op run_top
    poll take_job job_return clean_pipe receive take_message handler_return send
perform starts s = if s.alive && lock_free s.worker then some (start s) else none
perform stops s = if s.alive && lock_free s.worker then some (stop s) else none
perform joins s = join s
perform pokes_pipe s = poke s
perform releases s = release s
perform (submits who) s =
    if s.alive && may_enter who s.worker then some (after s (submit s)) else none
perform (requests who m) s =
    if s.alive && may_enter who s.worker then some (after s (request m s)) else none
perform (drops_job who i) s = if may_enter who s.worker then drop_job who i s else none
perform (drops_op who i) s = if may_enter who s.worker then drop_op who i s else none
perform tops s = run_top s
perform takes_job s = take_job s
perform returns s = job_return s
perform takes_message s = take_message s
perform handler_returns s = handler_return s
perform (polls r) s = poll r s
perform (cleans readable) s = clean_pipe readable s
perform (receives r) s = receive r s
perform (sends r) s = send r s

unfoldable pub step : Action → Pvt → Option Pvt
unfolding perform
step a s = if s.crashed then none else perform a s

pub data Reach (s : Pvt) : Pvt → Type 0 where
  here : Reach s s
  next : {t u : Pvt} (a : Action) → Reach s t → step a t ≡ some u → Reach s u

-- A sequence of actions; one that is not enabled ends the run.
unfoldable pub run : List Action → Pvt → Option Pvt
run [] s = some s
run (a ∷ as') s = elim (step a s) [ none ↦ none | some t ↦ run as' t ]
