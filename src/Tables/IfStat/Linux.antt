-- ===== src/Tables/IfStat/Linux.antt =====
-- linux/netlink.h, rtnetlink.h and if_link.h for the tests of statApp/src/tblIFStat.cpp:
-- Linux on a little-endian machine.
use lin_stat.Base.{
  ℕ, zero, suc, ◌+◌, ◌-◌, ◌*◌, ◌/◌, ◌%◌, ◌^◌, ◌<◌, ◌≡◌, refl, ◌&&◌, List, [], ◌∷◌, ◌++◌, leb,
  if◌then◌else◌, drop, arith,
}
use lin_stat.Base.Text.{Bytes, bytes_eq}
use lin_stat.Reactor.State.{Msg}
use lin_stat.Tables.IfStat.Attributes.{Rta, RtaLaws}
use lin_stat.Tables.IfStat.Message.{Netlink, NetlinkLaws, stat_names}

abbrev pub bytes2 : ℕ → Bytes
bytes2 n = (n % 256) ∷ (n / 256 % 256) ∷ []

abbrev pub bytes4 : ℕ → Bytes
bytes4 n = (n % 256) ∷ (n / 256 % 256) ∷ (n / 65536 % 256) ∷ (n / 16777216 % 256) ∷ []

abbrev number : ℕ → Bytes → ℕ
number zero p = 0
number (suc n) [] = 0
number (suc n) (b ∷ p) = b + 256 * number n p

number-bytes2 : (n : ℕ) (p : Bytes) → n < 2 ^ 16 → number 2 (bytes2 n ++ p) ≡ n
number-bytes2 n p h = omega arith

number-bytes4 : (n : ℕ) (p : Bytes) → n < 2 ^ 32 → number 4 (bytes4 n ++ p) ≡ n
number-bytes4 n p h = omega arith

abbrev align4 : ℕ → ℕ
align4 n = (n + 3) / 4 * 4

abbrev pub linux_rta : Rta
linux_rta = record {
  hdr = 4;
  align = align4;
  rta_len = number 2;
  rta_type = λ p. number 2 (drop 2 p);
  rta_ok = λ p n. leb 4 n && (leb 4 (number 2 p) && leb (number 2 p) n);
  rta_next = λ p n. (drop (align4 (number 2 p)) p, (n + 2 ^ 32 - align4 (number 2 p)) % 2 ^ 32);
  head = λ kind n. bytes2 n ++ bytes2 kind;
}

pub linux_rta_laws : RtaLaws linux_rta
linux_rta_laws = record {
  some_hdr = omega arith;
  small_hdr = omega arith;
  covers = λ n. omega arith;
  near = λ n. omega arith;
  length-head = λ kind n. refl;
  len-head = λ kind n p h. number-bytes2 n (bytes2 kind ++ p) h;
  type-head = λ kind n p h. number-bytes2 kind p h;
  ok_lem = λ p n. refl;
  next_lem = λ p n. refl;
}

abbrev header16 : Msg → ℕ → Bytes
header16 m flags =
    bytes4 m.len ++ (bytes2 m.kind ++ (bytes2 flags ++ (bytes4 m.seq ++ bytes4 m.pid)))

abbrev read_header16 : Bytes → Msg
read_header16 p = record {
  len = number 4 p;
  kind = number 2 (drop 4 p);
  seq = number 4 (drop 8 p);
  pid = number 4 (drop 12 p);
}

abbrev info16 : ℕ → Bytes
info16 flags = bytes4 0 ++ (bytes4 0 ++ (bytes4 flags ++ bytes4 0))

-- The counters are 64 bits each, in the order of their names.
abbrev counter_at : Bytes → List Bytes → Bytes → ℕ
counter_at name [] p = 0
counter_at name (n ∷ ns) p = if bytes_eq n name then number 8 p else counter_at name ns (drop 8 p)

abbrev pub linux : Netlink
linux = record {
  rta = linux_rta;
  hdr_len = 16;
  info_len = 16;
  err_len = 20;
  stats_len = 192;
  get_link = 18;
  new_link = 16;
  nl_error = 2;
  ask_flags = 5;
  ifname = 3;
  stats64 = 23;
  operstate = 16;
  carrier = 33;
  linkmode = 17;
  carrier_up = 47;
  carrier_down = 48;
  mtu = 4;
  header = header16;
  read_header = read_header16;
  info = info16;
  info_flags = λ p. number 4 (drop 8 p);
  stat = λ name p. counter_at name stat_names p;
  u8 = number 1;
  u32 = number 4;
}

pub linux_laws : NetlinkLaws linux
linux_laws = record {
  rta = linux_rta_laws;
  small_hdr = omega arith;
  small_info = omega arith;
  small_get = omega arith;
  small_ifname = omega arith;
  length-header = λ m flags. refl;
  length-info = λ flags. refl;
  read-header = λ m flags p h i. record {
    len = number-bytes4 m.len (drop 4 (header16 m flags ++ p)) h.0 i;
    kind = number-bytes2 m.kind (drop 6 (header16 m flags ++ p)) h.1 i;
    seq = number-bytes4 m.seq (drop 12 (header16 m flags ++ p)) h.2 i;
    pid = number-bytes4 m.pid p h.3 i;
  };
  flags-info = λ flags p h. number-bytes4 flags (drop 12 (info16 flags ++ p)) h;
}
