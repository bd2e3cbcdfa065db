-- ===== src/Tables/IfStat/Message.antt =====
-- statApp/src/tblIFStat.cpp: the bytes of a request, and what a reply's bytes set. The layout of the
-- kernel's structures is an argument.
use lin_stat.Base.{
  ℕ, ◌+◌, ◌-◌, ◌%◌, ◌^◌, ◌<◌, ◌≡◌, Bool, ◌&&◌, List, [], ◌∷◌, ◌++◌, Option, none, some, ◌==◌, leb,
  if◌then◌else◌, is_empty, length, drop,
}
use lin_stat.Base.Text.{Bytes, codes}
use lin_stat.Base.Buffer.{zeros, store}
use lin_stat.Reactor.State.{Msg}
use lin_stat.Table.{Transaction, StatTable, set_int, set_text, begin, commit}
use lin_stat.Tables.IfStat.Attributes.{
  Rta, RtaLaws, Attr, Walked, walked, overrun, out_of_fuel, attrs_at,
}

-- Sizes, numbers and fields of linux/netlink.h, rtnetlink.h and if_link.h.
pub record Netlink : Type 0 where
  pub rta : Rta
  pub hdr_len : ℕ  -- sizeof(nlmsghdr)
  pub info_len : ℕ  -- sizeof(ifinfomsg)
  pub err_len : ℕ  -- sizeof(nlmsgerr)
  pub stats_len : ℕ  -- sizeof(rtnl_link_stats64)
  pub get_link : ℕ
  pub new_link : ℕ
  pub nl_error : ℕ
  pub ask_flags : ℕ  -- NLM_F_REQUEST | NLM_F_ACK
  pub ifname : ℕ
  pub stats64 : ℕ
  pub operstate : ℕ
  pub carrier : ℕ
  pub linkmode : ℕ
  pub carrier_up : ℕ
  pub carrier_down : ℕ
  pub mtu : ℕ
  pub header : Msg → ℕ → Bytes  -- the bytes of an nlmsghdr, with its flags
  pub read_header : Bytes → Msg
  pub info : ℕ → Bytes  -- the bytes of an ifinfomsg, by its flags
  pub info_flags : Bytes → ℕ
  pub stat : Bytes → Bytes → ℕ  -- a counter of an rtnl_link_stats64, by its name
  pub u8 : Bytes → ℕ
  pub u32 : Bytes → ℕ

abbrev pub IsHeader : Msg → Type 0
IsHeader m = (m.len < 2 ^ 32) × (m.kind < 2 ^ 16) × (m.seq < 2 ^ 32) × (m.pid < 2 ^ 32)

-- What the headers say of the layout.
pub record NetlinkLaws (nl : Netlink) : Type 0 where
  pub rta : RtaLaws nl.rta
  pub small_hdr : nl.hdr_len < 2 ^ 16
  pub small_info : nl.info_len < 2 ^ 16
  pub small_get : nl.get_link < 2 ^ 16
  pub small_ifname : nl.ifname < 2 ^ 16
  pub length-header : (m : Msg) (flags : ℕ) → length (nl.header m flags) ≡ nl.hdr_len
  pub length-info : (flags : ℕ) → length (nl.info flags) ≡ nl.info_len
  pub read-header :
      (m : Msg) (flags : ℕ) (p : Bytes) → IsHeader m → nl.read_header (nl.header m flags ++ p) ≡ m
  pub flags-info :
      (flags : ℕ) (p : Bytes) → flags < 2 ^ 32 → nl.info_flags (nl.info flags ++ p) ≡ flags

-- The names of the counters, in the order of the calls.
abbrev pub stat_names : List Bytes
stat_names =
    codes "rx_packets"
    ∷ codes "tx_packets"
    ∷ codes "rx_bytes"
    ∷ codes "tx_bytes"
    ∷ codes "rx_errors"
    ∷ codes "tx_errors"
    ∷ codes "rx_dropped"
    ∷ codes "tx_dropped"
    ∷ codes "multicast"
    ∷ codes "collisions"
    ∷ codes "rx_length_errors"
    ∷ codes "rx_over_errors"
    ∷ codes "rx_crc_errors"
    ∷ codes "rx_frame_errors"
    ∷ codes "rx_fifo_errors"
    ∷ codes "rx_missed_errors"
    ∷ codes "tx_aborted_errors"
    ∷ codes "tx_carrier_errors"
    ∷ codes "tx_fifo_errors"
    ∷ codes "tx_heartbeat_errors"
    ∷ codes "tx_window_errors"
    ∷ codes "rx_compressed"
    ∷ codes "tx_compressed"
    ∷ codes "rx_nohandler"
    ∷ []

-- The handler's test for a reply of a link.
unfoldable pub is_newlink : Netlink → Msg → Bool
is_newlink nl rep = rep.kind == nl.new_link && leb (nl.hdr_len + nl.info_len) rep.len

module _ {F : Type 0} where
  unfoldable pub set_each : (Bytes → ℕ) → List Bytes → Transaction F → Transaction F
  unfolding set_int
  set_each stats [] tr = tr
  set_each stats (name ∷ names) tr = set_each stats names (set_int name (stats name) [] tr)

  -- XRTA_CHECK, and what is set of an attribute.
  unfoldable pub set_attr : Netlink → Attr → Transaction F → Transaction F
  unfolding set_each set_int
  set_attr nl a tr =
      if a.kind == nl.stats64 && leb nl.stats_len (length a.body)
      then set_each (λ name. nl.stat name a.body) stat_names tr
      else if a.kind == nl.operstate && leb 1 (length a.body)
      then set_int (codes "operatate") (nl.u8 a.body) [] tr
      else if a.kind == nl.carrier && leb 1 (length a.body)
      then set_int (codes "carrier") (nl.u8 a.body) [] tr
      else if a.kind == nl.linkmode && leb 1 (length a.body)
      then set_int (codes "linkmode") (nl.u8 a.body) [] tr
      else if a.kind == nl.carrier_up && leb 4 (length a.body)
      then set_int (codes "carrier_up_count") (nl.u32 a.body) [] tr
      else if a.kind == nl.carrier_down && leb 4 (length a.body)
      then set_int (codes "carrier_down_count") (nl.u32 a.body) [] tr
      else if a.kind == nl.mtu && leb 4 (length a.body)
      then set_int (codes "mtu") (nl.u32 a.body) [] tr
      else tr

  unfoldable pub set_attrs : Netlink → List Attr → Transaction F → Transaction F
  unfolding set_attr
  set_attrs nl [] tr = tr
  set_attrs nl (a ∷ as') tr = set_attrs nl as' (set_attr nl a tr)

  abbrev pub set_walked : Netlink → Walked → Transaction F → Option (Transaction F)
  set_walked nl (walked as') tr = some (set_attrs nl as' tr)
  set_walked nl overrun tr = none
  set_walked nl out_of_fuel tr = none

  -- digest_newlink(), of the message at `p`; none: it reads behind the memory. The count of the
  -- bytes that remain is a uint32_t.
  unfoldable pub digest_newlink : Netlink → Bytes → Bytes → Transaction F → Option (Transaction F)
  unfolding set_attrs set_int set_text attrs_at
  digest_newlink nl inst p tr =
      let pos = drop nl.hdr_len p in
      let remaining = ((nl.read_header p).len + 2 ^ 32 - nl.hdr_len - nl.info_len) % 2 ^ 32 in
      let attrs = attrs_at nl.rta (drop nl.info_len pos) remaining in
      let named = set_text (codes "name") inst tr in
      set_walked nl attrs (set_int (codes "if_flags") (nl.info_flags pos) [] named)

  abbrev pub committed : Option (Transaction F) → StatTable F → Option (StatTable F)
  committed none tbl = none
  committed (some tr) tbl = some (commit tr tbl)

  -- What the handler makes of the table, given the reply's bytes.
  unfoldable pub show_reply : Netlink → Bytes → ℕ → Bytes → StatTable F → Option (StatTable F)
  unfolding digest_newlink is_newlink begin commit
  show_reply nl inst now p tbl =
      if is_newlink nl (nl.read_header p)
      then committed (digest_newlink nl inst p (begin now)) tbl
      else some tbl

-- The header that the constructor writes: nlmsg_len is a uint32_t.
unfoldable pub request_header : Netlink → ℕ → Msg
request_header nl size = record { len = size % 2 ^ 32; kind = nl.get_link; seq = 0; pid = 0 }

-- The constructor's message, `scratch`; none is the exception. rta_len is a uint16_t, and the nil
-- behind the name is one of the zeros.
unfoldable pub request_bytes : Netlink → Bytes → Option Bytes
unfolding request_header
request_bytes nl inst =
    if is_empty inst
    then none
    else let front = nl.hdr_len + nl.info_len in
      let rta_len = nl.rta.hdr + (length inst + 1) in
      let size = front + nl.rta.align rta_len in
      let scratch = store 0 (nl.header (request_header nl size) nl.ask_flags) (zeros size) in
      let attr = nl.rta.head nl.ifname (rta_len % 2 ^ 16) in
      some (store (front + nl.rta.hdr) inst (store front attr scratch))

abbrev header_of : Netlink → Option Bytes → Option Msg
header_of nl none = none
header_of nl (some p) = some (nl.read_header p)

-- The message as the reactor reads it.
unfoldable pub request_msg : Netlink → Bytes → Option Msg
unfolding request_bytes
request_msg nl inst = header_of nl (request_bytes nl inst)
