-- ===== src/Tables/IfStat/Attributes.antt =====
-- statApp/src/tblIFStat.cpp: the loop over the attributes of a reply. The macros of
-- linux/rtnetlink.h are an argument; a pointer is the memory from it to the end of the buffer.
use lin_stat.Base.{
  ℕ, zero, suc, ◌+◌, ◌-◌, ◌%◌, ◌^◌, ◌≤◌, ◌<◌, ◌≡◌, Bool, ◌&&◌, List, [], ◌∷◌, ◌++◌, ltb, leb,
  if◌then◌else◌, length, take, drop,
}
use lin_stat.Base.Text.{Bytes}
use lin_stat.Base.Buffer.{zeros}

pub record Rta : Type 0 where
  pub hdr : ℕ  -- sizeof(rtattr), and RTA_LENGTH(0)
  pub align : ℕ → ℕ  -- RTA_ALIGN
  pub rta_len : Bytes → ℕ
  pub rta_type : Bytes → ℕ
  pub rta_ok : Bytes → ℕ → Bool
  pub rta_next : Bytes → ℕ → Bytes × ℕ
  pub head : ℕ → ℕ → Bytes  -- a header, by its type and its length

-- What rtnetlink(3) says of the macros. The count of what remains is a uint32_t, as the loop
-- declares it.
pub record RtaLaws (r : Rta) : Type 0 where
  pub some_hdr : 0 < r.hdr
  pub small_hdr : r.hdr < 2 ^ 16
  pub covers : (n : ℕ) → n ≤ r.align n
  pub near : (n : ℕ) → r.align n ≤ n + 3
  pub length-head : (kind n : ℕ) → length (r.head kind n) ≡ r.hdr
  pub len-head : (kind n : ℕ) (p : Bytes) → n < 2 ^ 16 → r.rta_len (r.head kind n ++ p) ≡ n
  pub type-head : (kind n : ℕ) (p : Bytes) → kind < 2 ^ 16 → r.rta_type (r.head kind n ++ p) ≡ kind
  pub ok_lem :
      (p : Bytes) (remaining : ℕ)
      → r.rta_ok p remaining
        ≡ (leb r.hdr remaining && (leb r.hdr (r.rta_len p) && leb (r.rta_len p) remaining))
  pub next_lem :
      (p : Bytes) (remaining : ℕ)
      → r.rta_next p remaining
        ≡ (drop (r.align (r.rta_len p)) p, (remaining + 2 ^ 32 - r.align (r.rta_len p)) % 2 ^ 32)

-- An attribute: its type and its payload.
pub record Attr : Type 0 where
  pub kind : ℕ
  pub body : Bytes

-- `overrun`: the loop reads behind the end of the memory.
pub data Walked : Type 0 where
  walked : List Attr → Walked
  overrun out_of_fuel : Walked

abbrev pub cons_attr : Attr → Walked → Walked
cons_attr a (walked as') = walked (a ∷ as')
cons_attr a overrun = overrun
cons_attr a out_of_fuel = out_of_fuel

-- RTA_DATA and RTA_PAYLOAD.
unfoldable pub attr_at : Rta → Bytes → Attr
attr_at r p = record { kind = r.rta_type p; body = take (r.rta_len p - r.hdr) (drop r.hdr p) }

-- The loop, from the attribute at `p` with `remaining` bytes to go.
unfoldable pub walk : Rta → ℕ → Bytes → ℕ → Walked
unfolding attr_at
walk r zero p remaining = out_of_fuel
walk r (suc fuel) p remaining =
    let (p', remaining') = r.rta_next p remaining in
    let rest = walk r fuel p' remaining' in
    if leb r.hdr remaining && ltb (length p) r.hdr
    then overrun
    else if r.rta_ok p remaining
    then (if leb (r.rta_len p) (length p) then cons_attr (attr_at r p) rest else overrun)
    else walked []

-- One turn for each byte of the memory is enough.
unfoldable pub attrs_at : Rta → Bytes → ℕ → Walked
unfolding walk
attrs_at r p remaining = walk r (suc (length p)) p remaining

-- The format of an attribute, and of a list of them, in a message.
abbrev pub total : Rta → Attr → ℕ
total r a = r.hdr + length a.body

abbrev pub bare : Rta → Attr → Bytes
bare r a = r.head a.kind (total r a) ++ a.body

abbrev pub padded : Rta → Attr → Bytes
padded r a = bare r a ++ zeros (r.align (total r a) - total r a)

abbrev pub encode : Rta → List Attr → Bytes
encode r [] = []
encode r (a ∷ as') = padded r a ++ encode r as'

abbrev pub Fits : Rta → Attr → Type 0
Fits r a = (a.kind < 2 ^ 16) × (total r a < 2 ^ 16)

abbrev pub AllFit : Rta → List Attr → Type 0
AllFit r [] = Unit {0}
AllFit r (a ∷ as') = Fits r a × AllFit r as'
