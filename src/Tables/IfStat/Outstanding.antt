-- ===== src/Tables/IfStat/Outstanding.antt =====
-- statApp/src/tblIFStat.cpp on statApp/src/nlreact.cpp: the requests of a table.
use lin_stat.Base.{
  ℕ, ◌≡◌, refl, ap, subst, ◌⊎◌, inl, inr, Bool, true, false, Option, none, some, arith, Bool-cases,
  if◌then◌else◌,
}
use mathlib.Core.Option.{some-injective}
use lin_stat.Reactor.State.{Msg, Pvt, Caller, worker_thread, may_enter, in_callback}
use lin_stat.Reactor.Api.{Result, ok, err, create, request, drop_op}
use lin_stat.Reactor.Worker.{route}
use lin_stat.Reactor.Step.{Action, step, Reach, here, next}
use lin_stat.Reactor.Handlers.{route-live}
use lin_stat.Tables.IfStat.{
  IfStat, Reaction, digested, acknowledged, ignored, reset_op, reset_from, without, requested,
  reacted, update_from, handle_reply,
}
use lin_stat.Tables.IfStat
use lin_stat.Tables.IfStat.Message.{Netlink}
use lin_stat.Tables.IfStat.Handles.{
  IsOther, Held, other_held, held-drop_op, held-request, Reach-drop_op, Reach-request,
}

module _ {Time : Type 0} (nl : Netlink) (expired : Time → Time → Bool) (msg : Msg) where
  -- What happens around one table: other actions of the reactor, its update() on a thread that may
  -- enter, and a reply in its handler.
  pub data Turn (s : Pvt) (t : IfStat Time) : Pvt → IfStat Time → Type 0 where
    other : {u : Pvt} (a : Action) → IsOther a → step a s ≡ some u → Turn s t u t
    updating :
        {u : Pvt} {t' : IfStat Time} (who : Caller) (now : Time)
        → s.crashed ≡ false
        → s.alive ≡ true
        → may_enter who s.worker ≡ true
        → IfStat.update expired who msg now s t ≡ some (u, t')
        → Turn s t u t'
    replying :
        {u : Pvt} {t' : IfStat Time} (rep : Msg) (r : Reaction)
        → s.crashed ≡ false
        → in_callback s.worker ≡ true
        → handle_reply nl rep s t ≡ some (u, t', r)
        → Turn s t u t'

  pub data Turns (o : Pvt) (t₀ : IfStat Time) : Pvt → IfStat Time → Type 0 where
    begins : Turns o t₀ o t₀
    goes_on : {s u : Pvt} {t t' : IfStat Time} → Turns o t₀ s t → Turn s t u t' → Turns o t₀ u t'

  record Inv (o s : Pvt) (t : IfStat Time) : Type 0 where
    reach : Reach o s
    held : Held s t

  abbrev forget : Option (Pvt × IfStat Time × Reaction) → Option (Pvt × IfStat Time)
  forget none = none
  forget (some (s, t, r)) = some (s, t)

  same_pair :
      {o s u : Pvt} {t t' : IfStat Time}
      → ◌≡◌ {A = Option (Pvt × IfStat Time)} (some (s, t)) (some (u, t'))
      → Inv o s t
      → Inv o u t'
  same_pair {o = o} e v = subst (λ (p : Pvt × IfStat Time). Inv o p.0 p.1) (some-injective _ _ e) v

  dropped-Inv :
      (who : Caller) (i : ℕ) {o s : Pvt} {t : IfStat Time} (d : Option Pvt) {u : Pvt}
      {t' : IfStat Time}
      → Inv o s t
      → s.crashed ≡ false
      → may_enter who s.worker ≡ true
      → t.op ≡ some i
      → drop_op who i s ≡ d
      → without d t ≡ some (u, t')
      → Inv o u t'
  dropped-Inv who i none v c m p q e = cc
  dropped-Inv who i {s = s} {t = t} (some w) v c m p q e = same_pair e (record {
    reach = Reach-drop_op who i v.reach c m q;
    held = λ j. ground (arith, held-drop_op who i s w j q, v.held j);
  })

  reset_from-Inv :
      (who : Caller) {o s : Pvt} {t : IfStat Time} (op : Option ℕ) {u : Pvt} {t' : IfStat Time}
      → Inv o s t
      → s.crashed ≡ false
      → may_enter who s.worker ≡ true
      → t.op ≡ op
      → reset_from who s t op ≡ some (u, t')
      → Inv o u t'
  reset_from-Inv who none v c m p e = same_pair e v
  reset_from-Inv who {s = s} (some i) v c m p e = dropped-Inv who i (drop_op who i s) v c m p refl e

  requested-Inv :
      (who : Caller) (now : Time) {o s : Pvt} {t : IfStat Time} (r : Result (Pvt × ℕ)) {u : Pvt}
      {t' : IfStat Time}
      → Inv o s t
      → s.crashed ≡ false
      → s.alive ≡ true
      → may_enter who s.worker ≡ true
      → t.op ≡ none
      → request msg s ≡ r
      → requested now t s r ≡ (u, t')
      → Inv o u t'
  requested-Inv who now (err x) v c a m p q e = same_pair (ap some e) v
  requested-Inv who now {s = s} (ok (w, i)) v c a m p q e = same_pair (ap some e) (record {
    reach = Reach-request who msg i v.reach c a m q;
    held = λ j. ground (arith, held-request msg s w i j q, v.held j);
  })

  update_from-Inv :
      (who : Caller) (now : Time) {o s : Pvt} {t : IfStat Time} (op : Option ℕ) {u : Pvt}
      {t' : IfStat Time}
      → Inv o s t
      → s.crashed ≡ false
      → s.alive ≡ true
      → may_enter who s.worker ≡ true
      → t.op ≡ op
      → update_from expired who msg now s t op ≡ some (u, t')
      → Inv o u t'
  unfolding update_from reset_op
  update_from-Inv who now {s = s} none v c a m p e =
      requested-Inv who now (request msg s) v c a m p refl (some-injective _ _ e)
  update_from-Inv who now {t = t} (some i) v c a m p e =
      elim (Bool-cases (expired now t.op_start)) [
        | inl x ↦ reset_from-Inv who t.op v c m refl (rw x at e)
        | inr x ↦ same_pair (rw x at e) v
      ]

  reply_cases :
      {s u : Pvt} {t t' : IfStat Time} (link error : Bool) (d : Option (Pvt × IfStat Time))
      (r : Reaction)
      → ◌≡◌ {A = Option (Pvt × IfStat Time × Reaction)}
          (if link
            then some (s, t, digested)
            else if error
            then reacted acknowledged d
            else some (s, t, ignored))
          (some (u, t', r))
      → (◌≡◌ {A = Option (Pvt × IfStat Time)} (some (s, t)) (some (u, t'))) ⊎ (d ≡ some (u, t'))
  reply_cases true error d r e = inl (ap forget e)
  reply_cases false true none r e = cc
  reply_cases false true (some p) r e = inr (ap forget e)
  reply_cases false false d r e = inl (ap forget e)

  reply-Inv :
      (rep : Msg) (r : Reaction) {o s u : Pvt} {t t' : IfStat Time}
      → Inv o s t
      → s.crashed ≡ false
      → in_callback s.worker ≡ true
      → handle_reply nl rep s t ≡ some (u, t', r)
      → Inv o u t'
  unfolding handle_reply reset_op may_enter
  reply-Inv rep r {s = s} {t = t} v c m e =
      elim (reply_cases _ _ (reset_op worker_thread s t) r e) [
        | inl same ↦ same_pair same v
        | inr d ↦ reset_from-Inv worker_thread t.op v c m refl d
      ]

  Turn-Inv : {o s u : Pvt} {t t' : IfStat Time} → Turn s t u t' → Inv o s t → Inv o u t'
  unfolding update_from IfStat.update
  Turn-Inv {s = s} {u = u} (other a h e) v = record {
    reach = next a v.reach e;
    held = λ i. ground (arith, other_held a s u i h e, v.held i);
  }
  Turn-Inv {t = t} (updating who now c a m e) v = update_from-Inv who now t.op v c a m refl e
  Turn-Inv (replying rep r c m e) v = reply-Inv rep r v c m e

  Turns-Inv :
      {o : Pvt} {t₀ : IfStat Time} {s : Pvt} {t : IfStat Time}
      → Turns o t₀ s t
      → Inv o o t₀
      → Inv o s t
  Turns-Inv begins v = v
  Turns-Inv (goes_on ts turn) v = Turn-Inv turn (Turns-Inv ts v)

  -- Once a reactor is made with one such table, whatever the threads, the kernel and the clock do:
  -- the one handle of a request that exists, if any, is the one that the table holds, so a table has
  -- one request under way at most; and each message with the reactor's port and the number of that
  -- request is routed to it.
  pub outstanding_lem :
      (hdr_len nlpid : ℕ) (began : Time) {s : Pvt} {t : IfStat Time}
      → Turns (create hdr_len nlpid) (record { op = none; op_start = began }) s t
      → Held s t
        × ((m : Msg) (i : ℕ)
            → t.op ≡ some i
            → m.pid ≡ s.nlpid
            → m.seq ≡ (s.ops i).seq
            → route m s ≡ some i)
  unfolding create
  outstanding_lem hdr_len nlpid began ts =
      let v = Turns-Inv ts (record { reach = here; held = λ i. (λ e. cc, λ e. cc) }) in
      (v.held, λ m i o p q. route-live hdr_len nlpid m i v.reach ((v.held i).1 o) p q)
