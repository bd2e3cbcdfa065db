-- ===== src/Reactor/Tests.antt =====
-- statApp/src/nlreact.cpp: runs of the reactor, and the theorems applied to them.
use mathlib.Core.Option.{some-injective}
use lin_stat.Base.{
  ℕ, ◌+◌, ◌<◌, ◌≡◌, refl, subst, ◌≢◌, ◌↔◌, ◌⊎◌, inl, inr, true, false, List, [], ◌∷◌, ◌++◌, Option,
  none, some, Option-cases, arith, is_empty,
}
use lin_stat.Reactor.State.{
  on_worker, Pvt, Msg, Events, other_thread, worker_thread, find, may_enter,
}
use lin_stat.Reactor.Api.{create, ok, free_seq, request}
use lin_stat.Reactor.Worker.{events, no_datagram, again, finished, route}
use lin_stat.Reactor.Step.{
  Action, starts, submits, requests, drops_job, drops_op, tops, takes_job, returns, polls, cleans,
  receives, sends, step, run, Reach, here, next,
}
use lin_stat.Reactor.Jobs.{current, Settled}
use lin_stat.Reactor.Cancel.{Descends, called-Descends, current-Settled, drop_job-never_called}
use lin_stat.Reactor.Handlers.{current_op, route_lem, drop_op-never_called}
use lin_stat.Reactor.Drop.{drop_job-waits_or_done}
use lin_stat.Reactor.Sequence.{request_lem}
use lin_stat.Reactor.Transmit.{null_front, again-crashes}
use lin_stat.Reactor.Wakeup.{submit_wakes, IsStuck, submitting, start, more, request-never_wakes}

abbrev final : Option Pvt → Pvt
final none = create 16 7
final (some s) = s

from-run : (as' : List Action) (s t u : Pvt) → Reach s t → run as' t ≡ some u → Reach s u
unfolding run
from-run [] s t u r h = subst (Reach s) (some-injective t u h) r
from-run (a ∷ as') s t u r h = elim (Option-cases (step a t)) [
  | inl e ↦ cc
  | inr (v, e) ↦ from-run as' s v u (next a r e) (rw (e, run) at h)
]

-- Two jobs; the first is in progress.
abbrev two_jobs : List Action
two_jobs =
    starts
    ∷ submits other_thread
    ∷ submits other_thread
    ∷ tops
    ∷ polls (events false false)
    ∷ takes_job
    ∷ []

busy : Pvt
unfolding run step create
busy = final (run two_jobs (create 16 7))

busy-Reach : Reach (create 16 7) busy
unfolding busy
busy-Reach = from-run two_jobs (create 16 7) (create 16 7) busy here refl

busy_runs : current busy.worker ≡ some 0
unfolding busy
busy_runs = refl

called-Descends_example : Descends busy.called
called-Descends_example = called-Descends 16 7 busy-Reach

-- Both jobs are done in turn.
busy_next : Pvt
unfolding run step create
busy_next = final (run (two_jobs ++ returns ∷ takes_job ∷ []) (create 16 7))

busy_next-Reach : Reach (create 16 7) busy_next
unfolding busy_next
busy_next-Reach =
    from-run (two_jobs ++ returns ∷ takes_job ∷ []) (create 16 7) (create 16 7) busy_next here refl

current-Settled_example : Settled (busy_next.jobs 0)
unfolding busy_next
current-Settled_example = current-Settled 16 7 {i = 1} busy_next-Reach refl 0 (omega arith)

-- Another thread drops the second job while the first is in progress.
dropped : Pvt
unfolding busy run step create
dropped = final (step (drops_job other_thread 1) busy)

dropped_next : Pvt
unfolding dropped run step create
dropped_next = final (run (returns ∷ takes_job ∷ []) dropped)

dropped_next-Reach : Reach dropped dropped_next
unfolding dropped_next
dropped_next-Reach = from-run (returns ∷ takes_job ∷ []) dropped dropped dropped_next here refl

drop_job-never_called_example : current dropped_next.worker ≢ some 1
unfolding dropped
drop_job-never_called_example =
    drop_job-never_called 16 7 {s = busy} {t = dropped} 1 busy-Reach refl dropped_next-Reach

drop_job-waits_or_done_example :
    ((step (drops_job worker_thread 0) busy ≡ none)
      ↔ ((on_worker worker_thread ≡ false) × (current busy.worker ≡ some 0)))
    × ((step (drops_job worker_thread 0) busy ≡ none)
        ⊎ ((t : Pvt) × (step (drops_job worker_thread 0) busy ≡ some t)
            × ((t.jobs 0).done ≡ true)
            × (((t.jobs 0).busy ≡ true) ↔ (current busy.worker ≡ some 0))))
unfolding busy may_enter
drop_job-waits_or_done_example =
    drop_job-waits_or_done 16 7 worker_thread 0 busy-Reach refl refl refl refl

abbrev get_link : Msg
get_link = record { len = 32; kind = 18; seq = 0; pid = 0 }

abbrev reply : Msg
reply = record { len = 40; kind = 16; seq = 0; pid = 7 }

requested : Pvt
unfolding run step create free_seq
requested = final (step (requests other_thread get_link) (create 16 7))

requested-Reach : Reach (create 16 7) requested
unfolding requested
requested-Reach =
    from-run (requests other_thread get_link ∷ []) (create 16 7) (create 16 7) requested here refl

route_lem_example : (route reply requested ≡ some 0) ↔ (
    ((requested.ops 0).held ≡ true)
    × (reply.pid ≡ requested.nlpid)
    × (reply.seq ≡ (requested.ops 0).seq))
route_lem_example = route_lem 16 7 reply 0 requested-Reach

cancelled : Pvt
unfolding requested run step create
cancelled = final (step (drops_op other_thread 0) requested)

drop_op-never_called_example : current_op cancelled.worker ≢ some 0
unfolding cancelled
drop_op-never_called_example =
    drop_op-never_called 16 7 {s = requested} {t = cancelled} 0 requested-Reach refl here

request_lem_example :
    (t : Pvt) × (i : ℕ) × (request get_link (create 16 7) ≡ ok (t, i))
    × (find (t.ops i).seq (create 16 7).handlers ≡ none)
    × (find (t.ops i).seq t.handlers ≡ some i)
    × ((k : ℕ) → k ≢ (t.ops i).seq → find k t.handlers ≡ find k (create 16 7).handlers)
    × (t.ready
        ≡ (create 16 7).ready
          ++ some (record get_link { seq = (t.ops i).seq; pid = (create 16 7).nlpid }) ∷ [])
unfolding create
request_lem_example = request_lem get_link (create 16 7) (omega arith) (omega arith) (omega arith)

-- A started reactor with nothing to do.
asleep : Pvt
unfolding run step create
asleep = final (run (starts ∷ tops ∷ []) (create 16 7))

awake : Pvt
unfolding asleep run step create
awake = final (run (starts ∷ tops ∷ submits other_thread ∷ []) (create 16 7))

awake-Reach : Reach (create 16 7) awake
unfolding awake
awake-Reach =
    from-run (starts ∷ tops ∷ submits other_thread ∷ []) (create 16 7) (create 16 7) awake here refl

submit_wakes_example : (0 < awake.pipe + awake.pokes) ⊎ (is_empty awake.ready ≡ false)
unfolding awake
submit_wakes_example = submit_wakes 16 7 awake-Reach refl refl

stuck : Pvt
unfolding asleep run step create free_seq
stuck = final (step (requests other_thread get_link) asleep)

stuck_next : Pvt
unfolding stuck run step create
stuck_next = final (step (submits other_thread) stuck)

request-never_wakes_example :
    IsStuck stuck_next × (step (polls (events false true)) stuck_next ≡ none)
unfolding stuck_next stuck
request-never_wakes_example =
    request-never_wakes get_link asleep stuck stuck_next 0 true refl refl refl
      (more (submits other_thread) submitting start refl)

abbrev until_send : List Action
until_send = tops ∷ polls (events false true) ∷ cleans true ∷ receives no_datagram ∷ []

-- The worker is about to send the request, and sendto() would block.
about_to_send : Pvt
unfolding requested run step create
about_to_send = final (run (starts ∷ until_send) requested)

blocked : Pvt
unfolding about_to_send
blocked = final (step (sends again) about_to_send)

retrying : Pvt
unfolding blocked
retrying = final (run until_send blocked)

retrying-Reach : Reach blocked retrying
unfolding retrying
retrying-Reach = from-run until_send blocked blocked retrying here refl

retried : Pvt
unfolding retrying
retried = final (step (sends finished) retrying)

abbrev writable : Events
writable = record { wake = false; rx = false; tx = true }

again-crashes_example : (null_front retrying.ready ≡ true) × (retried.crashed ≡ true)
unfolding retried
again-crashes_example =
    again-crashes about_to_send blocked retrying retried retrying writable
      (record get_link { pid = 7 }) [] finished refl refl refl refl retrying-Reach retrying-Reach
      writable refl refl refl
