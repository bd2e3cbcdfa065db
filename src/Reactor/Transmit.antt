-- ===== src/Reactor/Transmit.antt =====
-- statApp/src/nlreact.cpp: the queue of messages to be sent.
use lin_stat.Base.{◌≡◌, Bool, true, false, List, ◌∷◌, Option, none, some, arith}
use lin_stat.Reactor.State.{Pvt, Msg, Events, sending}
use lin_stat.Reactor.Worker.{Sent, again}
use lin_stat.Reactor.Step.{Action, starts, sends, step, Reach, here, next}

-- The front of the queue is a null pointer.
abbrev pub null_front : List (Option Msg) → Bool
null_front (none ∷ rest) = true
null_front _ = false

step-null_front :
    (a : Action) (s t : Pvt)
    → null_front s.ready ≡ true
    → step a s ≡ some t
    → null_front t.ready ≡ true
unfolding step
step-null_front starts s t e h = ground arith
step-null_front _ s t e h = ground arith

Reach-null_front : {s t : Pvt} → null_front s.ready ≡ true → Reach s t → null_front t.ready ≡ true
Reach-null_front e here = e
Reach-null_front e (next {t = u} {u = t} a r h) = step-null_front a u t (Reach-null_front e r) h

-- After sendto() would have blocked once, the message is gone: in every later state a null pointer
-- stands at the front of the queue, and the next attempt to send, if there is one, crashes.
pub again-crashes :
    (s t u v w : Pvt) (ev : Events) (m : Msg) (rest : List (Option Msg)) (r : Sent)
    → s.worker ≡ sending ev
    → ev.tx ≡ true
    → s.ready ≡ some m ∷ rest
    → step (sends again) s ≡ some t
    → Reach t w
    → Reach t u
    → (ev' : Events) → u.worker ≡ sending ev'
    → ev'.tx ≡ true
    → step (sends r) u ≡ some v
    → (null_front w.ready ≡ true) × (v.crashed ≡ true)
unfolding step
again-crashes s t u v w ev m rest r o x q h stays later ev' o' x' h' = (
  Reach-null_front (blocked o x q h) stays,
  ground (arith, Reach-null_front (blocked o x q h) later),
)
  where
    blocked :
        s.worker ≡ sending ev
        → ev.tx ≡ true
        → s.ready ≡ some m ∷ rest
        → step (sends again) s ≡ some t
        → null_front t.ready ≡ true
    blocked a b c d = ground arith
