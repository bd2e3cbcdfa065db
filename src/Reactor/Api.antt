-- ===== src/Reactor/Api.antt =====
-- statApp/src/nlreact.cpp: what other threads, and callbacks, call: start, stop, submit, request,
-- and the deleters of the two kinds of handle.
use lin_stat.Base.{
  ℕ, zero, suc, Bool, true, false, not, ◌&&◌, List, [], ◌∷◌, ◌++◌, Option, none, some, ltb,
  if◌then◌else◌, is_empty, length,
}
use lin_stat.Reactor.State.{
  Msg, Job, Operation, absent, starting, exited, Pvt, u32, update, find, put, erase, Caller,
  on_worker,
}

pub data Error : Type 0 where
  null_reactor stopped too_small no_sequence : Error

pub data Result {ℓ} (A : Type ℓ) : Type ℓ where
  ok : A → Result A
  err : Error → Result A

abbrev pub no_job : Job
no_job = record { cb = false; done = false; busy = false; held = false }

abbrev pub no_op : Operation
no_op = record { seq = 0; cb = false; cancel = false; busy = false; held = false }

-- Reactor::create(), where the system gives the pipe and the socket.
unfoldable pub create : ℕ → ℕ → Pvt
create hdr_len nlpid = record {
  hdr_len = hdr_len;
  nlpid = nlpid;
  nextseq = 0;
  running = false;
  todo = [];
  ready = [];
  handlers = [];
  next_job = 0;
  jobs = λ _. no_job;
  next_op = 0;
  ops = λ _. no_op;
  pipe = 0;
  pokes = 0;
  worker = absent;
  alive = true;
  crashed = false;
  called = [];
}

-- poke() after the lock is dropped, if the caller decided on it.
abbrev pub poke_if : Bool → Pvt → Pvt
poke_if b s = record s { pokes = if b then suc s.pokes else s.pokes }

-- The write to the pipe in poke().
unfoldable pub poke : Pvt → Option Pvt
poke s = elim s.pokes [ zero ↦ none | suc k ↦ some (record s { pokes = k; pipe = suc s.pipe }) ]

-- Reactor::Pvt::start(): assigning to a std::thread that was not joined ends the process.
unfoldable pub start : Pvt → Pvt
start s = if s.running then s else elim s.worker [
  | absent ↦ record s { worker = starting; running = true }
  | _ ↦ record s { crashed = true }
]

-- Reactor::Pvt::stop(), up to the join.
unfoldable pub stop : Pvt → Pvt
stop s = if s.running then poke_if true (record s { running = false }) else s

-- worker.join() returns when run() has.
unfoldable pub join : Pvt → Option Pvt
join s = elim s.worker [
  | exited ↦ if s.running then none else some (record s { worker = absent })
  | _ ↦ none
]

abbrev new_job : Job
new_job = record { cb = true; done = false; busy = false; held = true }

-- What submit() does under the lock.
unfoldable pub push_job : Pvt → Pvt
push_job s = record s {
  jobs = update s.jobs s.next_job new_job;
  next_job = suc s.next_job;
  todo = s.todo ++ s.next_job ∷ [];
}

-- Reactor::submit(): the handle is the number of the job.
unfoldable pub submit : Pvt → Result (Pvt × ℕ)
unfolding push_job
submit s =
    if s.running
    then ok (poke_if (is_empty s.todo && is_empty s.ready) (push_job s), s.next_job)
    else err stopped

-- while(handlers.find(nextseq) != handlers.end()) nextseq++
unfoldable pub free_seq : ℕ → ℕ → List (ℕ × ℕ) → Option ℕ
free_seq zero n m = none
free_seq (suc fuel) n m = elim (find n m) [
  | none ↦ some n
  | some op ↦ free_seq fuel (u32 (suc n)) m
]

abbrev new_op : ℕ → Operation
new_op seq = record { seq = seq; cb = true; cancel = false; busy = false; held = true }

-- What request() does under the lock once a sequence number is found.
unfoldable pub enqueue : Pvt → Msg → ℕ → Pvt
enqueue s msg seq = record s {
  nextseq = u32 (suc seq);
  handlers = put seq s.next_op s.handlers;
  ready = s.ready ++ some (record msg { seq = seq; pid = s.nlpid }) ∷ [];
  next_op = suc s.next_op;
  ops = update s.ops s.next_op (new_op seq);
}

-- Reactor::request(): `wake` is computed after the message was pushed.
unfoldable pub request : Msg → Pvt → Result (Pvt × ℕ)
unfolding enqueue
request msg s =
    if ltb msg.len s.hdr_len
    then err too_small
    else elim (free_seq (suc (length s.handlers)) s.nextseq s.handlers) [
      | none ↦ err no_sequence
      | some seq ↦
          let t = enqueue s msg seq in
          ok (poke_if (is_empty t.todo && is_empty t.ready) t, s.next_op)
    ]

-- A call through a Reactor that may hold no Pvt.
unfoldable pub via {ℓ} : {A : Type ℓ} → Option Pvt → (Pvt → Result A) → Result A
via none call = err null_reactor
via (some s) call = call s

abbrev set_job : ℕ → Job → Pvt → Pvt
set_job i j s = record s { jobs = update s.jobs i j }

-- The deleter of a JobHandle, which runs once. `none`: it waits for the callback in progress, or
-- there is no handle.
unfoldable pub drop_job : Caller → ℕ → Pvt → Option Pvt
unfolding on_worker
drop_job who i s =
    let j = s.jobs i in
    if not j.held
    then none
    else if not s.alive
    then some (set_job i (record j { cb = false; held = false }) s)
    else if j.busy && not (on_worker who)
    then none
    else some (set_job i (record j { done = true; cb = false; held = false }) s)

-- The deleter of a Handle.
unfoldable pub drop_op : Caller → ℕ → Pvt → Option Pvt
unfolding on_worker
drop_op who i s =
    let o = s.ops i in
    if not o.held
    then none
    else if not s.alive
    then some (record s { ops = update s.ops i (record o { cb = false; held = false }) })
    else if o.busy && not (on_worker who)
    then none
    else some (record s {
      ops = update s.ops i (record o { cancel = true; cb = false; held = false });
      handlers = erase o.seq s.handlers;
    })
