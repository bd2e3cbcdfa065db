-- ===== src/Reactor/Handlers.antt =====
-- statApp/src/nlreact.cpp: which handler gets a reply, and what dropping a request's handle promises.
use lin_stat.Base.{
  sym, ℕ, ◌<◌, ◌≡◌, ◌≢◌, ◌↔◌, inl, inr, suc, length, Option-cases, true, false, Option, none, some,
  arith,
}
use lin_stat.Reactor.State.{
  Pvt, Msg, Worker, handling, absent, find, find-put, find-erase, other_thread,
}
use lin_stat.Reactor.Api.{create, free_seq}
use lin_stat.Reactor.Worker.{route}
use lin_stat.Reactor.Step.{Action, starts, requests, drops_op, step, Reach, here, next}
use lin_stat.Reactor.Sequence.{free_seq-free}

-- The operation whose handler is in progress.
abbrev pub current_op : Worker → Option ℕ
current_op (handling i msgs remain ev) = some i
current_op _ = none

-- A request whose handle exists: it is in the map under its number, and can be called.
record IsLive (s : Pvt) (i : ℕ) : Type 0 where
  fresh : i < s.next_op
  mapped : find (s.ops i).seq s.handlers ≡ some i
  active : (s.ops i).cancel ≡ false
  callable : (s.ops i).cb ≡ true

record OpInv (s : Pvt) : Type 0 where
  fresh : (k i : ℕ) → find k s.handlers ≡ some i → i < s.next_op
  numbered : (k i : ℕ) → find k s.handlers ≡ some i → (s.ops i).seq ≡ k
  live : (i : ℕ) → (s.ops i).held ≡ true → IsLive s i
  busy_current : (i : ℕ) → (s.ops i).busy ≡ true → current_op s.worker ≡ some i
  current_busy : (i : ℕ) → current_op s.worker ≡ some i → (s.ops i).busy ≡ true
  current_fresh : (i : ℕ) → current_op s.worker ≡ some i → i < s.next_op
  gone : s.alive ≡ false → s.worker ≡ absent

step-entry :
    (a : Action) (s t : Pvt)
    → OpInv s
    → step a s ≡ some t
    → (k i : ℕ) → find k t.handlers ≡ some i
    → ((t.ops i).seq ≡ k) × (i < t.next_op)
unfolding step
step-entry starts s t v h k i e = ground (arith, v.numbered k i, v.fresh k i)
step-entry _ s t v h k i e = grind (arith, v.numbered k i, v.fresh k i, find-put, find-erase)

step-IsLive :
    (a : Action) (s t : Pvt)
    → OpInv s
    → step a s ≡ some t
    → (i : ℕ) → (t.ops i).held ≡ true
    → IsLive t i
unfolding step
step-IsLive starts s t v h i e = ground (arith, v.live i)
step-IsLive (requests who m) s t v h i e =
    elim (Option-cases (free_seq (suc (length s.handlers)) s.nextseq s.handlers)) [
      | inl n ↦ ground (arith, v.live i)
      | inr (seq, f) ↦ ground (
        arith,
        v.live i,
        free_seq-free _ s.nextseq s.handlers f,
        find-put seq (s.ops i).seq s.next_op s.handlers,
        find-put seq seq s.next_op s.handlers,
      )
    ]
step-IsLive (drops_op who j) s t v h i e =
    ground (arith, v.live i, v.live j, find-erase (s.ops j).seq (s.ops i).seq s.handlers)
step-IsLive _ s t v h i e = ground (arith, v.live i)

step-busy :
    (a : Action) (s t : Pvt)
    → OpInv s
    → step a s ≡ some t
    → (i : ℕ) → ((t.ops i).busy ≡ true) ↔ (current_op t.worker ≡ some i)
unfolding step
step-busy starts s t v h i = ground (arith, v.busy_current i, v.current_busy i)
step-busy _ s t v h i = ground (arith, v.busy_current i, v.current_busy i, v.current_fresh i)

step-current_fresh :
    (a : Action) (s t : Pvt)
    → OpInv s
    → step a s ≡ some t
    → (i : ℕ) → current_op t.worker ≡ some i
    → i < t.next_op
unfolding step
step-current_fresh starts s t v h i e = ground (arith, v.current_fresh i)
step-current_fresh _ s t v h i e = grind (arith, v.current_fresh i, v.fresh)

step-gone :
    (a : Action) (s t : Pvt) → OpInv s → step a s ≡ some t → t.alive ≡ false → t.worker ≡ absent
unfolding step
step-gone starts s t v h e = ground (arith, v.gone)
step-gone _ s t v h e = ground (arith, v.gone)

step-OpInv : (a : Action) (s t : Pvt) → OpInv s → step a s ≡ some t → OpInv t
step-OpInv a s t v h = record {
  fresh = λ k i e. (step-entry a s t v h k i e).1;
  numbered = λ k i e. (step-entry a s t v h k i e).0;
  live = step-IsLive a s t v h;
  busy_current = λ i. (step-busy a s t v h i).0;
  current_busy = λ i. (step-busy a s t v h i).1;
  current_fresh = step-current_fresh a s t v h;
  gone = step-gone a s t v h;
}

Reach-OpInv : {s t : Pvt} → OpInv s → Reach s t → OpInv t
Reach-OpInv v here = v
Reach-OpInv v (next {t = u} {u = t} a r h) = step-OpInv a u t (Reach-OpInv v r) h

create-OpInv : (hdr_len nlpid : ℕ) → OpInv (create hdr_len nlpid)
unfolding create
create-OpInv hdr_len nlpid = record {
  fresh = λ k i e. cc;
  numbered = λ k i e. cc;
  live = λ i e. cc;
  busy_current = λ i e. cc;
  current_busy = λ i e. cc;
  current_fresh = λ i e. cc;
  gone = λ e. cc;
}

-- In every reachable state: a message that is handed to the handler of a request carries the
-- reactor's port and the sequence number of that request, which was not cancelled.
route-seq :
    (hdr_len nlpid : ℕ) {s : Pvt} (m : Msg) {i : ℕ}
    → Reach (create hdr_len nlpid) s
    → route m s ≡ some i
    → ((s.ops i).seq ≡ m.seq) × (m.pid ≡ s.nlpid) × ((s.ops i).cancel ≡ false)
unfolding route
route-seq hdr_len nlpid {s} m {i} r e = grind (arith, v.numbered)
  where
    v : OpInv s
    v = Reach-OpInv (create-OpInv hdr_len nlpid) r

route-held : (m : Msg) (s : Pvt) (i : ℕ) → route m s ≡ some i → (s.ops i).held ≡ true
unfolding route
route-held m s i e = grind arith

-- As long as the handle of a request exists, each message with the reactor's port and the
-- request's number is handed to its handler, whatever other requests were made and dropped.
pub route-live :
    (hdr_len nlpid : ℕ) {s : Pvt} (m : Msg) (i : ℕ)
    → Reach (create hdr_len nlpid) s
    → (s.ops i).held ≡ true
    → m.pid ≡ s.nlpid
    → m.seq ≡ (s.ops i).seq
    → route m s ≡ some i
unfolding route
route-live hdr_len nlpid {s} m i r k p q = ground (arith, v.live i)
  where
    v : OpInv s
    v = Reach-OpInv (create-OpInv hdr_len nlpid) r

-- In every reachable state, whatever requests were made and dropped: a message is handed to the
-- handler of a request exactly if the handle of the request exists and the message carries the
-- reactor's port and the sequence number of the request.
pub route_lem :
    (hdr_len nlpid : ℕ) {s : Pvt} (m : Msg) (i : ℕ)
    → Reach (create hdr_len nlpid) s
    → (route m s ≡ some i) ↔ (((s.ops i).held ≡ true) × (m.pid ≡ s.nlpid) × (m.seq ≡ (s.ops i).seq))
route_lem hdr_len nlpid {s} m i r = (
  λ e. let (seq, pid, live) = route-seq hdr_len nlpid m r e in (route-held m s i e, pid, sym seq),
  λ h. route-live hdr_len nlpid m i r h.0 h.1 h.2,
)

-- A dropped request.
record Retired (i : ℕ) (s : Pvt) : Type 0 where
  submitted : i < s.next_op
  cut : (s.ops i).held ≡ false
  idle : current_op s.worker ≢ some i

step-Retired : (i : ℕ) (a : Action) (s t : Pvt) → Retired i s → step a s ≡ some t → Retired i t
unfolding step
step-Retired i starts s t v h = ground arith
step-Retired i _ s t v h = ground arith

Reach-Retired : {i : ℕ} {s t : Pvt} → Retired i s → Reach s t → Retired i t
Reach-Retired v here = v
Reach-Retired {i} v (next {t = u} {u = t} a r h) = step-Retired i a u t (Reach-Retired v r) h

drop-Retired :
    (i : ℕ) (s t : Pvt) → OpInv s → step (drops_op other_thread i) s ≡ some t → Retired i t
unfolding step
drop-Retired i s t v h = ground (arith, v.live i, v.gone, v.current_busy i)

-- After a thread other than the worker has dropped the handle of a request, its handler is not in
-- progress and is never started again, whatever messages arrive.
pub drop_op-never_called :
    (hdr_len nlpid : ℕ) {s t u : Pvt} (i : ℕ)
    → Reach (create hdr_len nlpid) s
    → step (drops_op other_thread i) s ≡ some t
    → Reach t u
    → current_op u.worker ≢ some i
drop_op-never_called hdr_len nlpid {s} {t} i r h later =
    (Reach-Retired (drop-Retired i s t (Reach-OpInv (create-OpInv hdr_len nlpid) r) h) later).idle
