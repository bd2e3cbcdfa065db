-- ===== src/Tables/IfStat/Tests.antt =====
-- statApp/src/tblIFStat.cpp: a table that asks for its first statistics.
use lin_stat.Base.{
  ℕ, ◌-◌, ◌≡◌, refl, Bool, none, some, ltb, ◌≢◌, ◌++◌, [], ◌∷◌, length, drop, true, arith,
}
use lin_stat.Base.Text.{Bytes, codes}
use lin_stat.Reactor.State.{Msg, Pvt, other_thread, may_enter}
use lin_stat.Reactor.Api.{create, Result, request, free_seq, ok, err}
use lin_stat.Reactor.Worker.{route}
use lin_stat.Tables.IfStat.{IfStat, update}
use lin_stat.Tables.IfStat.Message.{request_msg, request_bytes, show_reply}
use lin_stat.Tables.IfStat.Linux.{linux, linux_laws, linux_rta, linux_rta_laws, bytes4}
use lin_stat.Tables.IfStat.Attributes.{Attr, walked, overrun, out_of_fuel, attrs_at, bare, encode}
use lin_stat.Tables.IfStat.Reply.{message, attrs_at_ends, attrs_at-unpadded}
use lin_stat.Tables.IfStat.Fields.{mtu_field}
use lin_stat.Tables.IfStat.Shown.{show_reply_lem}
use lin_stat.Tables.IfStat.Request.{name_attr, request_bytes_lem}
use lin_stat.Table.{StatTable, text, int, find_param}
use lin_stat.Tables.IfStat.Handles.{Held}
use lin_stat.Tables.IfStat.Outstanding.{Turns, begins, goes_on, updating, outstanding_lem}

abbrev expired : ℕ → ℕ → Bool
expired now started = ltb 1000000000 (now - started)

abbrev get_lo : Msg
get_lo = record { len = 40; kind = 18; seq = 0; pid = 0 }

get_lo_runs : request_msg linux (codes "lo") ≡ some get_lo
unfolding request_msg
get_lo_runs = refl

abbrev idle : IfStat ℕ
idle = record { op = none; op_start = 0 }

abbrev asking : IfStat ℕ
asking = record { op = some 0; op_start = 7 }

abbrev after : Result (Pvt × ℕ) → Pvt
after (ok (s, i)) = s
after (err e) = create 16 7

asked : Pvt
unfolding create request free_seq
asked = after (request get_lo (create 16 7))

asking-Turns : Turns linux expired get_lo (create 16 7) idle asked asking
unfolding asked update may_enter
asking-Turns = goes_on begins (updating other_thread 7 refl refl refl refl)

outstanding_lem_example :
    Held asked asking
    × ((m : Msg) (i : ℕ)
        → asking.op ≡ some i
        → m.pid ≡ asked.nlpid
        → m.seq ≡ (asked.ops i).seq
        → route m asked ≡ some i)
outstanding_lem_example = outstanding_lem linux expired get_lo 16 7 0 asking-Turns

abbrev mtu_1500 : Attr
mtu_1500 = record { kind = 4; body = bytes4 1500 }

abbrev state_up : Attr
state_up = record { kind = 16; body = 6 ∷ [] }

abbrev lo_table : StatTable ℕ
lo_table = record {
  fact = codes "ifstat";
  inst = codes "lo";
  last_ok = true;
  current = [];
  current_time = 0;
  posted = [];
}

abbrev link_reply : Msg
link_reply = record { len = 48; kind = 16; seq = 1; pid = 7 }

show_reply_lem_example :
    (tbl' : StatTable ℕ) × (show_reply linux
        (codes "lo")
        9
        (message linux link_reply 0 73 (mtu_1500 ∷ state_up ∷ []) [])
        lo_table
      ≡ some tbl')
    × (tbl'.current_time ≡ 9)
    × (find_param (codes "name") tbl' ≡ some (text (codes "lo")))
    × (find_param (codes "if_flags") tbl' ≡ some (int 73 []))
    × (find_param (codes "mtu") tbl' ≡ some (int 1500 []))
show_reply_lem_example =
    show_reply_lem linux (codes "lo") 9 link_reply 0 73 (mtu_1500 ∷ state_up ∷ []) [] lo_table
      mtu_field linux_laws refl (omega arith, omega arith, refl, omega arith) refl tt

attrs_at_ends_example : attrs_at linux_rta (bytes4 1500) 7 ≢ out_of_fuel
attrs_at_ends_example = attrs_at_ends linux_rta linux_rta_laws (bytes4 1500) 7

attrs_at-unpadded_example :
    attrs_at linux_rta (encode linux_rta (mtu_1500 ∷ []) ++ bare linux_rta state_up) 13 ≡ overrun
attrs_at-unpadded_example =
    attrs_at-unpadded linux_rta linux_rta_laws (mtu_1500 ∷ []) state_up (omega arith) (omega arith)
      (omega arith) (omega arith)

request_bytes_lem_example :
    (msg : Bytes) × (request_bytes linux (codes "eth0") ≡ some msg)
    × (linux.read_header msg ≡ record { len = length msg; kind = 18; seq = 0; pid = 0 })
    × (attrs_at linux_rta (drop 32 msg) (length msg - 32)
        ≡ walked (name_attr linux (codes "eth0") ∷ []))
request_bytes_lem_example = request_bytes_lem linux linux_laws (codes "eth0") refl (omega arith)
