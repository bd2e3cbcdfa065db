-- ===== src/Reactor/Cancel.antt =====
-- statApp/src/nlreact.cpp: the order in which jobs are called, and what dropping a handle promises.
use lin_stat.Base.{
  ℕ, suc, ◌-◌, ◌<◌, ◌≡◌, ◌≢◌, ◌↔◌, true, false, some, none, arith, List, [], ◌∷◌, length,
  append-nil,
}
use lin_stat.Reactor.State.{Pvt, absent, other_thread, worker_thread, may_enter, update}
use lin_stat.Reactor.Api.{create}
use lin_stat.Reactor.Step.{Action, starts, drops_job, step, Reach, here, next}
use lin_stat.Reactor.Jobs.{
  JobInv, Settled, current, waiting, in_hand, length-push, create-JobInv, Reach-JobInv,
}

abbrev pub Below : ℕ → List ℕ → Type 0
Below n [] = Unit
Below n (x ∷ xs) = (x < n) × Below n xs

-- Strictly descending.
abbrev pub Descends : List ℕ → Type 0
Descends [] = Unit
Descends (x ∷ xs) = Below x xs × Descends xs

Below-mono : (m n : ℕ) (xs : List ℕ) → m < suc n → Below m xs → Below n xs
Below-mono m n [] h b = tt
Below-mono m n (x ∷ xs) h b = (omega arith, Below-mono m n xs h b.1)

-- The first of the jobs that wait.
abbrev head : Pvt → ℕ
head s = s.next_job - length (waiting s)

-- The calls so far, the latest first, descend and lie below the jobs that wait.
record CallInv (s : Pvt) : Type 0 where
  below : Below (head s) s.called
  descends : Descends s.called

step-CallInv : (a : Action) (s t : Pvt) → JobInv s → CallInv s → step a s ≡ some t → CallInv t
unfolding step
step-CallInv starts s t v c h = ground (arith, Below-mono (head s) (head t) s.called)
step-CallInv _ s t v c h = ground (
  arith,
  v.order,
  Below-mono (head s) (head t) s.called,
  length-push (in_hand s.worker) s.todo s.next_job,
  append-nil s.todo,
)

Reach-CallInv : {s t : Pvt} → JobInv s → CallInv s → Reach s t → CallInv t
Reach-CallInv v c here = c
Reach-CallInv v c (next {t = u} {u = t} a r h) =
    step-CallInv a u t (Reach-JobInv v r) (Reach-CallInv v c r) h

-- Whatever the threads and the operating system do, the callbacks of the jobs are started in the
-- order of submission and none is started twice: the list of started jobs, the latest first, is
-- strictly descending.
pub called-Descends :
    (hdr_len nlpid : ℕ) {s : Pvt} → Reach (create hdr_len nlpid) s → Descends s.called
unfolding create
called-Descends hdr_len nlpid r =
    (Reach-CallInv (create-JobInv hdr_len nlpid) (record { below = tt; descends = tt }) r).descends

-- While a job is in progress, no job submitted before it is still to be called: each is done, or
-- its handle was dropped.
pub current-Settled :
    (hdr_len nlpid : ℕ) {s : Pvt} {i : ℕ}
    → Reach (create hdr_len nlpid) s
    → current s.worker ≡ some i
    → (j : ℕ) → j < i
    → Settled (s.jobs j)
current-Settled hdr_len nlpid {s} {i} r e j l = ground (arith, v.current_passed i, v.passed j)
  where
    v : JobInv s
    v = Reach-JobInv (create-JobInv hdr_len nlpid) r

-- A dropped job: it was submitted, it is settled and not in progress.
record Retired (i : ℕ) (s : Pvt) : Type 0 where
  submitted : i < s.next_job
  settled : Settled (s.jobs i)
  idle : current s.worker ≢ some i

step-Retired : (i : ℕ) (a : Action) (s t : Pvt) → Retired i s → step a s ≡ some t → Retired i t
unfolding step
step-Retired i starts s t v h = ground arith
step-Retired i _ s t v h = ground arith

Reach-Retired : {i : ℕ} {s t : Pvt} → Retired i s → Reach s t → Retired i t
Reach-Retired v here = v
Reach-Retired {i} v (next {t = u} {u = t} a r h) = step-Retired i a u t (Reach-Retired v r) h

-- Only a job that was submitted has a handle, and a reactor that is gone has no worker.
record HandleInv (s : Pvt) : Type 0 where
  held : (i : ℕ) → (s.jobs i).held ≡ true → i < s.next_job
  gone : s.alive ≡ false → s.worker ≡ absent

step-HandleInv : (a : Action) (s t : Pvt) → HandleInv s → step a s ≡ some t → HandleInv t
unfolding step
step-HandleInv starts s t v h = record {
  held = λ i e. ground (arith, v.held i);
  gone = ground (arith, v.gone);
}
step-HandleInv _ s t v h = record {
  held = λ i e. ground (arith, v.held i);
  gone = ground (arith, v.gone);
}

Reach-HandleInv : {s t : Pvt} → HandleInv s → Reach s t → HandleInv t
Reach-HandleInv v here = v
Reach-HandleInv v (next {t = u} {u = t} a r h) = step-HandleInv a u t (Reach-HandleInv v r) h

drop-Retired :
    (i : ℕ) (s t : Pvt)
    → JobInv s
    → HandleInv s
    → step (drops_job other_thread i) s ≡ some t
    → Retired i t
unfolding step
drop-Retired i s t v f h = ground (arith, f.held i, f.gone, v.current_busy i)

-- After a thread other than the worker has dropped the handle of a job, the job's callback is not
-- in progress and is never started again, whatever happens next.
pub drop_job-never_called :
    (hdr_len nlpid : ℕ) {s t u : Pvt} (i : ℕ)
    → Reach (create hdr_len nlpid) s
    → step (drops_job other_thread i) s ≡ some t
    → Reach t u
    → current u.worker ≢ some i
unfolding create
drop_job-never_called hdr_len nlpid {s} {t} i r h later =
    (Reach-Retired (drop-Retired i s t inv held h) later).idle
  where
    inv : JobInv s
    inv = Reach-JobInv (create-JobInv hdr_len nlpid) r

    held : HandleInv s
    held = Reach-HandleInv (record { held = λ j e. cc; gone = λ e. cc }) r

-- A thread other than the worker waits for as long as the callback is in progress; outside of it,
-- while the reactor lives and the thread can take the lock, it does not wait.
drop_job-waits :
    (hdr_len nlpid : ℕ) {s : Pvt} (i : ℕ)
    → Reach (create hdr_len nlpid) s
    → s.crashed ≡ false
    → s.alive ≡ true
    → may_enter other_thread s.worker ≡ true
    → (s.jobs i).held ≡ true
    → (step (drops_job other_thread i) s ≡ none) ↔ (current s.worker ≡ some i)
unfolding step
drop_job-waits hdr_len nlpid {s} i r c l m e = ground (arith, v.busy_current i, v.current_busy i)
  where
    v : JobInv s
    v = Reach-JobInv (create-JobInv hdr_len nlpid) r

-- A callback that drops the handle of its own job does not wait, and leaves the job both done and
-- busy, the state that the comment in struct Job calls invalid.
drop_job-done_and_busy :
    (hdr_len nlpid : ℕ) {s : Pvt} (i : ℕ)
    → Reach (create hdr_len nlpid) s
    → s.crashed ≡ false
    → s.alive ≡ true
    → current s.worker ≡ some i
    → (s.jobs i).held ≡ true
    → (t : Pvt) × (step (drops_job worker_thread i) s ≡ some t)
      × ((t.jobs i).done ≡ true)
      × ((t.jobs i).busy ≡ true)
unfolding step
drop_job-done_and_busy hdr_len nlpid {s} i r c l e k =
    (dropped, ground arith, ground arith, ground (arith, v.current_busy i))
  where
    v : JobInv s
    v = Reach-JobInv (create-JobInv hdr_len nlpid) r

    dropped : Pvt
    dropped = record s {
      jobs = update s.jobs i (record (s.jobs i) { done = true; cb = false; held = false });
    }
