-- ===== src/Tables/Ethtool.antt =====
-- statApp/src/tblEthtool.cpp: the statistics of a network driver, and the packets dropped, added up
-- over the driver's own names for them. The ioctls' answers are arguments.
pub mod Dropped
pub mod Request
use lin_stat.Base.{
  ℕ, zero, suc, ◌+◌, ◌-◌, ◌%◌, ◌^◌, Bool, true, false, not, ◌||◌, List, [], ◌∷◌, ◌++◌, Option, none,
  some, ltb, ◌==◌, if◌then◌else◌, is_empty, length, map, take, drop, ◌*◌,
}
use lin_stat.Base.Text.{Bytes, codes}
use lin_stat.Base.Parse.{contains}
use lin_stat.Base.Buffer.{zeros, c_str, overlay, poke_nil}
use lin_stat.Table.{Transaction, set_int, set_text, set_nothing}

abbrev pub tbl_name : Bytes
tbl_name = codes "ethtool"

pub data AggStat : Type 0 where
  agg_none agg_rx_drop agg_tx_drop : AggStat

-- The class of a name, by what it contains.
unfoldable pub classify : Bytes → AggStat
classify name =
    if contains (codes "drop") name || contains (codes "discard") name
    then if contains (codes "rx") name
      then agg_rx_drop
      else if contains (codes "tx") name
      then agg_tx_drop
      else agg_none
    else agg_none

-- What the constructor learns: ETHTOOL_GDRVINFO, the names of the statistics, and the negative
-- answer of ETHTOOL_GLINKSETTINGS with which the kernel asks for the number of words.
pub record Table : Type 0 where
  pub driver : Bytes
  pub version : Bytes
  pub stat_names : List (Bytes × AggStat)
  pub nwords : ℕ

-- What ends the constructor: the instance, or the errno of a query for the set of names.
pub data Error : Type 0 where
  empty_instance name_too_long : Error
  no_string_set no_strings : ℕ → Error

-- The answers of the kernel: an errno, or the mask and the number of strings (ETHTOOL_GSSET_INFO),
-- and the bytes of the strings (ETHTOOL_GSTRINGS).
pub data Answer (A : Type 0) : Type 0 where
  failed : ℕ → Answer A
  answer : A → Answer A

pub data Names : Type 0 where
  listed : List Bytes → Names
  thrown : Error → Names

-- `count` names of `len` bytes each from position `i` on, each up to its nil; strnlen() reads `len`
-- bytes at most, and positions are numbers of 32 bits.
unfoldable pub split_strings : ℕ → ℕ → ℕ → Bytes → List Bytes
split_strings len i zero buf = []
split_strings len i (suc count) buf =
    c_str (take len (drop (i * len % 2 ^ 32) buf)) ∷ split_strings len (suc i) count buf

unfoldable pub read_strings : ℕ → ℕ → Answer Bytes → Names
unfolding split_strings
read_strings len count (failed e) = thrown (no_strings e)
read_strings len count (answer buf) = listed (split_strings len 0 count buf)

-- EthtoolTable::get_strings(); `enotsup` is ENOTSUP and `len` is ETH_GSTRING_LEN.
unfoldable pub get_strings : ℕ → ℕ → Answer (ℕ × ℕ) → (ℕ → Answer Bytes) → Names
unfolding read_strings
get_strings enotsup len (failed e) strings =
    if e == enotsup then listed [] else thrown (no_string_set e)
get_strings enotsup len (answer (mask, count)) strings =
    if mask == 0 then listed [] else read_strings len count (strings count)

pub data Made : Type 0 where
  made : Table → Made
  refused : Error → Made

pub record DriverInfo : Type 0 where
  pub driver : Bytes
  pub version : Bytes
  pub n_stats : ℕ

-- The names that the driver has, with their classes; get_strings() is called where it has some.
names_of : Option DriverInfo → Names → Names
names_of none found = listed []
names_of (some info) found = if info.n_stats == 0 then listed [] else found

abbrev or_na : Option DriverInfo → DriverInfo
or_na none = record { driver = codes "N/A"; version = codes "N/A"; n_stats = 0 }
or_na (some info) = info

abbrev table_of : DriverInfo → Option ℕ → Names → Made
table_of info handshake (thrown e) = refused e
table_of info handshake (listed ns) = made (record {
  driver = info.driver;
  version = info.version;
  stat_names = map (λ name. (name, classify name)) ns;
  nwords = elim handshake [ none ↦ 0 | some n ↦ n ];
})

-- EthtoolTable::EthtoolTable(); `ifnamsiz` is the kernel's IFNAMSIZ, `found` what get_strings()
-- gives when it is called.
unfoldable pub construct : ℕ → Bytes → Option DriverInfo → Names → Option ℕ → Made
unfolding names_of
construct ifnamsiz inst info found handshake =
    if is_empty inst
    then refused empty_instance
    else if not (ltb (length inst) ifnamsiz)
    then refused name_too_long
    else table_of (or_na info) handshake (names_of info found)

-- The member `sock` is made before the body of the constructor, and destroyed when the body throws;
-- false is the failure of epicsSocketCreate(). The number counts the open sockets.
unfoldable pub with_socket : Bool → Made → ℕ → ℕ × Option Table
with_socket created result open_sockets =
    if created
    then elim result [ made t ↦ (suc open_sockets, some t) | refused e ↦ (open_sockets, none) ]
    else (open_sockets, none)

-- send_ioctl(): the name in the request, struct ifreq, of which the first `ifnamsiz` bytes are the
-- field ifr_name.
unfoldable pub ifr_name : ℕ → Bytes → Bytes
ifr_name ifnamsiz inst =
    poke_nil (ifnamsiz - 1) (overlay (take (ifnamsiz - 1) inst) (zeros ifnamsiz))

pub record Totals : Type 0 where
  pub rx_drop : ℕ
  pub tx_drop : ℕ
  pub found : Bool

abbrev u64 : ℕ → ℕ
u64 n = n % 2 ^ 64

unfoldable pub add_stat : AggStat → ℕ → Totals → Totals
add_stat agg_none v t = t
add_stat agg_rx_drop v t = record t { rx_drop = u64 (t.rx_drop + v); found = true }
add_stat agg_tx_drop v t = record t { tx_drop = u64 (t.tx_drop + v); found = true }

-- The loop over the statistics; `out` is what the kernel wrote, by position.
unfoldable pub add_stats : (ℕ → ℕ) → ℕ → List (Bytes × AggStat) → Totals → Totals
unfolding add_stat
add_stats out i [] t = t
add_stats out i ((name, agg) ∷ names) t = add_stats out (suc i) names (add_stat agg (out i) t)

abbrev pub no_drops : Totals
no_drops = record { rx_drop = 0; tx_drop = 0; found = false }

abbrev pub bit : Bool → ℕ
bit true = 1
bit false = 0

module _ {F : Type 0} where
  set_stats : (ℕ → ℕ) → ℕ → List (Bytes × AggStat) → Transaction F → Transaction F
  unfolding set_int
  set_stats out i [] tr = tr
  set_stats out i ((name, agg) ∷ names) tr =
      set_stats out (suc i) names (set_int (codes "stat." ++ name) (out i) [] tr)

  set_drops : Option (ℕ → ℕ) → List (Bytes × AggStat) → Transaction F → Transaction F
  unfolding set_stats set_int add_stats
  set_drops stats [] tr =
      set_int (codes "tx_dropped") 0 []
        (set_int (codes "rx_dropped") 0 [] (set_int (codes "found_stat") 0 [] tr))
  set_drops none (n ∷ names) tr = tr
  set_drops (some out) (n ∷ names) tr =
      let t = add_stats out 0 (n ∷ names) no_drops in
      set_int (codes "found_stat") (bit t.found) [] (
        set_int (codes "tx_dropped") t.tx_drop []
          (set_int (codes "rx_dropped") t.rx_drop [] (set_stats out 0 (n ∷ names) tr)))

  set_link : Option (ℕ × ℕ) → Transaction F → Transaction F
  unfolding set_int set_nothing
  set_link none tr = set_nothing (codes "duplex") (set_nothing (codes "speed") tr)
  set_link (some (speed, duplex)) tr =
      set_int (codes "duplex") duplex [] (set_int (codes "speed") speed (codes "Mb/s") tr)

  -- update(): `stats` and `link` are the answers of ETHTOOL_GSTATS and ETHTOOL_GLINKSETTINGS.
  unfoldable pub update : Table → Option (ℕ → ℕ) → Option (ℕ × ℕ) → Transaction F → Transaction F
  unfolding set_drops set_link set_text
  update t stats link tr = set_link (if t.nwords == 0 then none else link) (
      set_drops stats t.stat_names
        (set_text (codes "version") t.version (set_text (codes "driver") t.driver tr)))
