-- ===== src/Reactor/Jobs.antt =====
-- statApp/src/nlreact.cpp: the life of a job, in every reachable state of the reactor.
use lin_stat.Base.{
  ℕ, suc, ◌+◌, ◌<◌, ◌≡◌, ◌⊎◌, true, false, some, none, Option, arith, List, [], ◌∷◌, ◌++◌, length,
  length-append, append-nil,
}
use lin_stat.Reactor.State.{Pvt, Job, Worker, draining, calling}
use lin_stat.Reactor.Api.{create}
use lin_stat.Reactor.Step.{Action, starts, step, Reach, here, next}

-- The jobs that the worker has moved out of `todo` and not yet reached.
abbrev pub in_hand : Worker → List ℕ
in_hand (draining q ev) = q
in_hand (calling i rest ev) = rest
in_hand _ = []

abbrev pub current : Worker → Option ℕ
current (calling i rest ev) = some i
current _ = none

abbrev pub waiting : Pvt → List ℕ
waiting s = in_hand s.worker ++ s.todo

-- The numbers of a list are consecutive, and the last is n - 1.
abbrev pub RunsTo : ℕ → List ℕ → Type 0
RunsTo n [] = Unit
RunsTo n (x ∷ xs) = (x + suc (length xs) ≡ n) × RunsTo n xs

-- The queue of the worker and the queue of the reactor, before and after an element is pushed or
-- the second becomes the first.
pub length-push : (xs ys : List ℕ) (n : ℕ) → length (xs ++ (ys ++ n ∷ [])) ≡ suc (length (xs ++ ys))
length-push xs ys n =
    omega (arith, length-append xs (ys ++ n ∷ []), length-append ys (n ∷ []), length-append xs ys)

RunsTo-push : (n : ℕ) (xs ys : List ℕ) → RunsTo n (xs ++ ys) → RunsTo (suc n) (xs ++ (ys ++ n ∷ []))
RunsTo-push n [] [] h = (omega arith, tt)
RunsTo-push n [] (y ∷ ys) h =
    (omega (arith, h.0, length-append ys (n ∷ [])), RunsTo-push n [] ys h.1)
RunsTo-push n (x ∷ xs) ys h = (omega (arith, h.0, length-push xs ys n), RunsTo-push n xs ys h.1)

RunsTo-nil : (n : ℕ) (xs : List ℕ) → RunsTo n xs → RunsTo n (xs ++ [])
RunsTo-nil n xs h = rw append-nil h

-- Job i may be called no more.
abbrev pub Settled : Job → Type 0
Settled j = (j.done ≡ true) ⊎ (j.held ≡ false) ⊎ (j.cb ≡ false)

pub record JobInv (s : Pvt) : Type 0 where
  -- The jobs that wait are the last ones submitted, in the order of submission.
  pub order : RunsTo s.next_job (waiting s)
  -- The others are settled, or the one in progress.
  pub passed :
      (i : ℕ)
      → i + length (waiting s) < s.next_job
      → Settled (s.jobs i) ⊎ (current s.worker ≡ some i)
  -- Only the job in progress is busy, and it has left the queue.
  pub busy_current : (i : ℕ) → (s.jobs i).busy ≡ true → current s.worker ≡ some i
  pub current_busy : (i : ℕ) → current s.worker ≡ some i → (s.jobs i).busy ≡ true
  pub current_passed : (i : ℕ) → current s.worker ≡ some i → i + length (waiting s) < s.next_job

step-order : (a : Action) (s t : Pvt) → JobInv s → step a s ≡ some t → RunsTo t.next_job (waiting t)
unfolding step
step-order starts s t v h = ground (arith, v.order)
step-order _ s t v h =
    ground (
      arith,
      v.order,
      RunsTo-push s.next_job (in_hand s.worker) s.todo,
      RunsTo-nil s.next_job s.todo,
    )

step-passed :
    (a : Action) (s t : Pvt)
    → JobInv s
    → step a s ≡ some t
    → (i : ℕ) → i + length (waiting t) < t.next_job
    → Settled (t.jobs i) ⊎ (current t.worker ≡ some i)
unfolding step
step-passed starts s t v h i p = ground (arith, v.passed i)
step-passed _ s t v h i p = ground (
  arith,
  v.order,
  v.passed i,
  v.current_busy i,
  length-push (in_hand s.worker) s.todo s.next_job,
  append-nil s.todo,
)

step-busy_current :
    (a : Action) (s t : Pvt)
    → JobInv s
    → step a s ≡ some t
    → (i : ℕ) → (t.jobs i).busy ≡ true
    → current t.worker ≡ some i
unfolding step
step-busy_current starts s t v h i p = ground (arith, v.busy_current i)
step-busy_current _ s t v h i p = ground (arith, v.busy_current i)

step-current_busy :
    (a : Action) (s t : Pvt)
    → JobInv s
    → step a s ≡ some t
    → (i : ℕ) → current t.worker ≡ some i
    → (t.jobs i).busy ≡ true
unfolding step
step-current_busy starts s t v h i p = ground (arith, v.current_busy i)
step-current_busy _ s t v h i p = ground (arith, v.current_busy i, v.current_passed i)

step-current_passed :
    (a : Action) (s t : Pvt)
    → JobInv s
    → step a s ≡ some t
    → (i : ℕ) → current t.worker ≡ some i
    → i + length (waiting t) < t.next_job
unfolding step
step-current_passed starts s t v h i p = ground (arith, v.current_passed i)
step-current_passed _ s t v h i p = ground (
  arith,
  v.order,
  v.current_passed i,
  length-push (in_hand s.worker) s.todo s.next_job,
  append-nil s.todo,
)

pub step-JobInv : (a : Action) {s t : Pvt} → JobInv s → step a s ≡ some t → JobInv t
step-JobInv a {s} {t} v h = record {
  order = step-order a s t v h;
  passed = step-passed a s t v h;
  busy_current = step-busy_current a s t v h;
  current_busy = step-current_busy a s t v h;
  current_passed = step-current_passed a s t v h;
}

pub create-JobInv : (hdr_len nlpid : ℕ) → JobInv (create hdr_len nlpid)
unfolding create
create-JobInv hdr_len nlpid = record {
  order = tt;
  passed = λ i p. absurd (omega arith);
  busy_current = λ i p. cc;
  current_busy = λ i p. cc;
  current_passed = λ i p. cc;
}

pub Reach-JobInv : {s t : Pvt} → JobInv s → Reach s t → JobInv t
Reach-JobInv v here = v
Reach-JobInv v (next a r h) = step-JobInv a (Reach-JobInv v r) h
