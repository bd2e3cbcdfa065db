-- ===== src/Reactor/Drop.antt =====
-- statApp/src/nlreact.cpp: the deleter of a JobHandle, on any thread.
use lin_stat.Base.{
  ℕ, ◌≡◌, ◌↔◌, ◌⊎◌, inl, inr, true, false, not, ◌&&◌, some, none, Bool-cases, arith,
}
use lin_stat.Reactor.State.{Pvt, Caller, may_enter, on_worker, update}
use lin_stat.Reactor.Api.{create}
use lin_stat.Reactor.Step.{drops_job, step, Reach}
use lin_stat.Reactor.Jobs.{JobInv, current, create-JobInv, Reach-JobInv}

abbrev dropped : ℕ → Pvt → Pvt
dropped i s = record s {
  jobs = update s.jobs i (record (s.jobs i) { done = true; cb = false; held = false });
}

-- What becomes of the drop, by the test that the deleter makes.
drop_cases :
    (who : Caller) (i : ℕ) (s : Pvt)
    → s.crashed ≡ false
    → s.alive ≡ true
    → may_enter who s.worker ≡ true
    → (s.jobs i).held ≡ true
    → (((s.jobs i).busy ≡ true) × (on_worker who ≡ false) × (step (drops_job who i) s ≡ none))
      ⊎ ((((s.jobs i).busy && not (on_worker who)) ≡ false)
          × (step (drops_job who i) s ≡ some (dropped i s)))
unfolding step
drop_cases who i s c l m e = elim (Bool-cases ((s.jobs i).busy && not (on_worker who))) [
  | inl b ↦ inl (ground arith, ground arith, ground arith)
  | inr b ↦ inr (b, ground arith)
]

-- A thread that drops the handle of a job waits exactly if it is not the worker and the callback is
-- in progress; otherwise the job is done afterwards, and still busy exactly if the callback is in
-- progress, as it is when the callback drops its own handle: the state that the comment in struct
-- Job calls invalid.
pub drop_job-waits_or_done :
    (hdr_len nlpid : ℕ) {s : Pvt} (who : Caller) (i : ℕ)
    → Reach (create hdr_len nlpid) s
    → s.crashed ≡ false
    → s.alive ≡ true
    → may_enter who s.worker ≡ true
    → (s.jobs i).held ≡ true
    → ((step (drops_job who i) s ≡ none) ↔ ((on_worker who ≡ false) × (current s.worker ≡ some i)))
      × ((step (drops_job who i) s ≡ none)
          ⊎ ((t : Pvt) × (step (drops_job who i) s ≡ some t)
              × ((t.jobs i).done ≡ true)
              × (((t.jobs i).busy ≡ true) ↔ (current s.worker ≡ some i))))
drop_job-waits_or_done hdr_len nlpid {s} who i r c l m e = elim (drop_cases who i s c l m e) [
  | inl (busy, off, waits) ↦ ((λ w. (off, v.busy_current i busy), λ w. waits), inl waits)
  | inr (b, goes) ↦ (
    ground (arith, v.busy_current i, v.current_busy i, goes),
    inr (dropped i s, goes, ground arith, ground (arith, v.busy_current i, v.current_busy i)),
  )
]
  where
    v : JobInv s
    v = Reach-JobInv (create-JobInv hdr_len nlpid) r
