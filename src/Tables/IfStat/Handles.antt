-- ===== src/Tables/IfStat/Handles.antt =====
-- statApp/src/tblIFStat.cpp on statApp/src/nlreact.cpp: which handles of requests exist.
use lin_stat.Base.{
  ℕ, suc, ◌≡◌, ◌↔◌, inl, inr, true, false, some, arith, Option-cases, ◌==◌, if◌then◌else◌, length,
}
use lin_stat.Reactor.State.{Msg, Pvt, Caller, may_enter}
use lin_stat.Reactor.Api.{ok, request, drop_op, free_seq}
use lin_stat.Reactor.Step.{Action, requests, drops_op, step, Reach, next}
use lin_stat.Tables.IfStat.{IfStat}

-- The actions of the reactor that are none of a client of requests.
abbrev pub IsOther : Action → Type 0
IsOther (requests who m) = ⊥
IsOther (drops_op who i) = ⊥
IsOther _ = Unit {0}

-- The handles that exist are the one that the table has.
abbrev pub Held : {Time : Type 0} → Pvt → IfStat Time → Type 0
Held s t = (i : ℕ) → ((s.ops i).held ≡ true) ↔ (t.op ≡ some i)

pub other_held :
    (a : Action) (s u : Pvt) (i : ℕ)
    → IsOther a
    → step a s ≡ some u
    → (u.ops i).held ≡ (s.ops i).held
unfolding step
other_held (requests who m) s u i o e = elim o [ ]
other_held (drops_op who j) s u i o e = elim o [ ]
other_held _ s u i o e = ground arith

pub held-drop_op :
    (who : Caller) (i : ℕ) (s u : Pvt) (j : ℕ)
    → drop_op who i s ≡ some u
    → (u.ops j).held ≡ (if i == j then false else (s.ops j).held)
unfolding drop_op
held-drop_op who i s u j e = ground arith

pub held-request :
    (msg : Msg) (s u : Pvt) (i j : ℕ)
    → request msg s ≡ ok (u, i)
    → (u.ops j).held ≡ (if i == j then true else (s.ops j).held)
unfolding request
held-request msg s u i j e =
    elim (Option-cases (free_seq (suc (length s.handlers)) s.nextseq s.handlers)) [
      | inl n ↦ ground arith
      | inr (seq, f) ↦ ground arith
    ]

pub Reach-drop_op :
    (who : Caller) (i : ℕ) {o s u : Pvt}
    → Reach o s
    → s.crashed ≡ false
    → may_enter who s.worker ≡ true
    → drop_op who i s ≡ some u
    → Reach o u
unfolding step
Reach-drop_op who i r c m e = next (drops_op who i) r (ground arith)

pub Reach-request :
    (who : Caller) (msg : Msg) (i : ℕ) {o s u : Pvt}
    → Reach o s
    → s.crashed ≡ false
    → s.alive ≡ true
    → may_enter who s.worker ≡ true
    → request msg s ≡ ok (u, i)
    → Reach o u
unfolding step
Reach-request who msg i r c a m e = next (requests who msg) r (ground arith)
