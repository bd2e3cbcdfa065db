-- ===== src/Tables/IfStat.antt =====
-- statApp/src/tblIFStat.cpp: the statistics of a network interface, asked for by netlink: its
-- request in the reactor. The bytes of the messages are in the children.
pub mod Attributes
pub mod Decode
pub mod Message
pub mod Reply
pub mod Fields
pub mod Shown
pub mod Request
pub mod Linux
pub mod Handles
pub mod Outstanding
mod Tests
use lin_stat.Base.{ℕ, ◌+◌, Bool, ◌&&◌, Option, none, some, ◌==◌, leb, if◌then◌else◌}
use lin_stat.Reactor.State.{Msg, Pvt, Caller, worker_thread}
use lin_stat.Reactor.Api.{Result, ok, err, request, drop_op}
use lin_stat.Base.Text.{Bytes, codes}
use lin_stat.Tables.IfStat.Message.{Netlink, is_newlink}

abbrev pub tbl_name : Bytes
tbl_name = codes "ifstat"

-- The handle of the request under way, and when it was made.
pub record IfStat (Time : Type 0) : Type 0 where
  pub op : Option ℕ
  pub op_start : Time

-- What the handler of the request did.
pub data Reaction : Type 0 where
  digested acknowledged ignored : Reaction

module _ {Time : Type 0} where
  abbrev pub without : Option Pvt → IfStat Time → Option (Pvt × IfStat Time)
  without none t = none
  without (some s) t = some (s, record t { op = none })

  abbrev pub reset_from : Caller → Pvt → IfStat Time → Option ℕ → Option (Pvt × IfStat Time)
  reset_from who s t none = some (s, t)
  reset_from who s t (some i) = without (drop_op who i s) t

  -- op.reset(); none: it waits.
  unfoldable pub reset_op : Caller → Pvt → IfStat Time → Option (Pvt × IfStat Time)
  unfolding drop_op
  reset_op who s t = reset_from who s t t.op

  abbrev pub requested : Time → IfStat Time → Pvt → Result (Pvt × ℕ) → Pvt × IfStat Time
  requested now t s (ok (s', i)) = (s', record t { op = some i; op_start = now })
  requested now t s (err e) = (s, t)

  unfoldable pub update_from :
      (Time → Time → Bool)
      → Caller
      → Msg
      → Time
      → Pvt
      → IfStat Time
      → Option ℕ
      → Option (Pvt × IfStat Time)
  unfolding reset_op request
  update_from expired who msg now s t none = some (requested now t s (request msg s))
  update_from expired who msg now s t (some i) =
      if expired now t.op_start then reset_op who s t else some (s, t)

  -- update(), on the thread `who`; `expired` says that a request is older than a second. After an
  -- exception of request() nothing has changed.
  unfoldable pub update :
      (Time → Time → Bool) → Caller → Msg → Time → Pvt → IfStat Time → Option (Pvt × IfStat Time)
  unfolding update_from
  update expired who msg now s t = update_from expired who msg now s t t.op

  abbrev pub reacted : Reaction → Option (Pvt × IfStat Time) → Option (Pvt × IfStat Time × Reaction)
  reacted r none = none
  reacted r (some (s, t)) = some (s, t, r)

  -- The handler of the request, on the worker thread.
  unfoldable pub handle_reply :
      Netlink → Msg → Pvt → IfStat Time → Option (Pvt × IfStat Time × Reaction)
  unfolding reset_op is_newlink
  handle_reply nl rep s t =
      if is_newlink nl rep
      then some (s, t, digested)
      else if rep.kind == nl.nl_error && leb (nl.hdr_len + nl.err_len) rep.len
      then reacted acknowledged (reset_op worker_thread s t)
      else some (s, t, ignored)
