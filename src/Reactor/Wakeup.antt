-- ===== src/Reactor/Wakeup.antt =====
-- statApp/src/nlreact.cpp: who wakes the worker out of poll().
use lin_stat.Base.{
  ℕ, ◌+◌, ◌<◌, ◌≡◌, ◌⊎◌, Bool, true, false, some, none, arith, is_empty, is_empty-snoc,
}
use lin_stat.Reactor.State.{Pvt, Msg, Worker, polling, other_thread}
use lin_stat.Reactor.Api.{ok, create, request}
use lin_stat.Reactor.Worker.{events}
use lin_stat.Reactor.Step.{
  Action, starts, submits, requests, drops_job, drops_op, polls, step, Reach, here, next,
}

-- The worker sleeps in poll() with no timeout.
abbrev pub sleeps : Worker → Bool
sleeps (polling true armed) = true
sleeps _ = false

abbrev pub IsAwake : Pvt → Type 0
IsAwake s =
    sleeps s.worker ≡ true
    → is_empty s.todo ≡ false
    → (0 < s.pipe + s.pokes) ⊎ (is_empty s.ready ≡ false)

step-IsAwake : (a : Action) (s t : Pvt) → IsAwake s → step a s ≡ some t → IsAwake t
unfolding step
step-IsAwake starts s t v h = ground arith
step-IsAwake _ s t v h = ground arith

Reach-IsAwake : {s t : Pvt} → IsAwake s → Reach s t → IsAwake t
Reach-IsAwake v here = v
Reach-IsAwake v (next {t = u} {u = t} a r h) = step-IsAwake a u t (Reach-IsAwake v r) h

-- In every reachable state: if the worker sleeps in poll() although a job waits, then the wakeup
-- pipe holds a byte or a thread is about to write one, or else a netlink message waits to be sent.
pub submit_wakes :
    (hdr_len nlpid : ℕ) {s : Pvt}
    → Reach (create hdr_len nlpid) s
    → sleeps s.worker ≡ true
    → is_empty s.todo ≡ false
    → (0 < s.pipe + s.pokes) ⊎ (is_empty s.ready ≡ false)
unfolding create
submit_wakes hdr_len nlpid r = Reach-IsAwake (λ a b. cc) r

-- request() never pokes the worker, in any state: the message is pushed before the test for an
-- empty `ready`.
request-pokes :
    (m : Msg) (s t : Pvt) (i : ℕ)
    → request m s ≡ ok (t, i)
    → (t.pokes ≡ s.pokes) × (t.pipe ≡ s.pipe) × (is_empty t.ready ≡ false)
unfolding request
request-pokes m s t i h = grind (arith, is_empty-snoc)

-- The worker sleeps in poll() without waiting for the socket to be writable, nothing is in the
-- pipe or about to be, and a message waits to be sent.
pub record IsStuck (s : Pvt) : Type 0 where
  pub worker : s.worker ≡ polling true false
  pub pipe : s.pipe ≡ 0
  pub pokes : s.pokes ≡ 0
  pub ready : is_empty s.ready ≡ false

-- request() leaves a worker that sleeps with nothing to do, and no poke under way, stuck: it sleeps
-- in poll() without waiting for the socket to be writable, nothing is in the pipe or about to be,
-- and a message waits to be sent.
request-IsStuck :
    (m : Msg) (s t : Pvt) (i : ℕ)
    → s.worker ≡ polling true false
    → s.pipe + s.pokes ≡ 0
    → request m s ≡ ok (t, i)
    → IsStuck t
unfolding request
request-IsStuck m s t i w p h = ground (arith, request-pokes m s t i h)

-- What clients of the reactor do, short of stopping it.
pub data IsClient : Action → Type 0 where
  submitting : IsClient (submits other_thread)
  requesting : (m : Msg) → IsClient (requests other_thread m)
  dropping_job : (i : ℕ) → IsClient (drops_job other_thread i)
  dropping_op : (i : ℕ) → IsClient (drops_op other_thread i)
  starting_again : IsClient starts

client-IsStuck : {a : Action} (s t : Pvt) → IsClient a → IsStuck s → step a s ≡ some t → IsStuck t
unfolding step
client-IsStuck s t submitting k h = ground arith
client-IsStuck s t (requesting m) k h = ground arith
client-IsStuck s t (dropping_job i) k h = ground arith
client-IsStuck s t (dropping_op i) k h = ground arith
client-IsStuck s t starting_again k h = ground arith

pub data ReachBy (P : Action → Type 0) (s : Pvt) : Pvt → Type 0 where
  start : ReachBy P s s
  more : {t u : Pvt} (a : Action) → P a → ReachBy P s t → step a t ≡ some u → ReachBy P s u

-- Once the reactor is stuck, no sequence of jobs, requests and dropped handles of other threads
-- wakes the worker: it sleeps on without a wakeup on its way, and the message stays unsent.
IsStuck-stays : {s t : Pvt} → IsStuck s → ReachBy IsClient s t → IsStuck t
IsStuck-stays k start = k
IsStuck-stays k (more {t = u} {u = t} a c r h) = client-IsStuck u t c (IsStuck-stays k r) h

-- While it is stuck, poll() does not return unless the socket becomes readable, a signal arrives
-- or poll() fails.
stuck_poll : (tx : Bool) (s : Pvt) → IsStuck s → step (polls (events false tx)) s ≡ none
unfolding step
stuck_poll tx s k = ground arith

-- After a request to a reactor whose worker sleeps with nothing to do and no poke under way, whatever
-- jobs, requests and dropped handles of other threads follow, the worker sleeps on, with no wakeup on
-- its way and a message unsent; and poll() does not return unless the socket becomes readable, a
-- signal arrives or poll() fails.
pub request-never_wakes :
    (m : Msg) (s t u : Pvt) (i : ℕ) (tx : Bool)
    → s.worker ≡ polling true false
    → s.pipe + s.pokes ≡ 0
    → request m s ≡ ok (t, i)
    → ReachBy IsClient t u
    → IsStuck u × (step (polls (events false tx)) u ≡ none)
request-never_wakes m s t u i tx w p h r =
    let stuck = IsStuck-stays (request-IsStuck m s t i w p h) r in (stuck, stuck_poll tx u stuck)
