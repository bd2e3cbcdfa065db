-- ===== src/Tables/IfStat/Fields.antt =====
-- statApp/src/tblIFStat.cpp: what the table shows of a reply, field by field.
use lin_stat.Base.{
  ℕ, ◌≡◌, refl, ap, ◌∙◌, Bool, true, false, not, ◌&&◌, ◌||◌, List, [], ◌∷◌, Option, none, some,
  ◌==◌, leb, if◌then◌else◌, length, Bool-cases, inl, inr, arith,
}
use lin_stat.Base.Text.{Bytes, codes, bytes_eq, bytes_eq_iff}
use lin_stat.Base.Dict.{lookup, lookup-insert}
use lin_stat.Table.{Value, int, Transaction, set_int}
use lin_stat.Tables.IfStat.Attributes.{Attr}
use lin_stat.Tables.IfStat.Message.{Netlink, stat_names, set_each, set_attr, set_attrs}

-- The fields that the attributes give: the counters of IFLA_STATS64, and the others.
pub data Field : Type 0 where
  counter : Bytes → Field
  state_field carrier_field mode_field up_field down_field mtu_field : Field

abbrev pub mem_name : Bytes → List Bytes → Bool
mem_name name [] = false
mem_name name (n ∷ ns) = bytes_eq n name || mem_name name ns

abbrev pub IsField : Field → Type 0
IsField (counter name) = mem_name name stat_names ≡ true
IsField _ = Unit {0}

abbrev pub field_name : Field → Bytes
field_name (counter name) = name
field_name state_field = codes "operatate"
field_name carrier_field = codes "carrier"
field_name mode_field = codes "linkmode"
field_name up_field = codes "carrier_up_count"
field_name down_field = codes "carrier_down_count"
field_name mtu_field = codes "mtu"

-- An attribute of the kind, if its payload has the bytes, as it is read.
abbrev pub read_if : ℕ → ℕ → (Bytes → ℕ) → Attr → Option ℕ
read_if kind least read a =
    if a.kind == kind && leb least (length a.body) then some (read a.body) else none

abbrev pub said : Netlink → Field → Attr → Option ℕ
said nl (counter name) a = read_if nl.stats64 nl.stats_len (nl.stat name) a
said nl state_field a = read_if nl.operstate 1 nl.u8 a
said nl carrier_field a = read_if nl.carrier 1 nl.u8 a
said nl mode_field a = read_if nl.linkmode 1 nl.u8 a
said nl up_field a = read_if nl.carrier_up 4 nl.u32 a
said nl down_field a = read_if nl.carrier_down 4 nl.u32 a
said nl mtu_field a = read_if nl.mtu 4 nl.u32 a

abbrev pub or_before : Option ℕ → Option ℕ → Option ℕ
or_before none before = before
or_before (some v) before = some v

-- What the last attribute that says something of the field says.
abbrev pub last_said : Netlink → Field → List Attr → Option ℕ
last_said nl f [] = none
last_said nl f (a ∷ as') = or_before (last_said nl f as') (said nl f a)

abbrev pub not_in : ℕ → List ℕ → Bool
not_in k [] = true
not_in k (j ∷ js) = not (k == j) && not_in k js

-- The numbers of the attributes differ.
abbrev pub all_differ : List ℕ → Bool
all_differ [] = true
all_differ (k ∷ ks) = not_in k ks && all_differ ks

abbrev pub kinds : Netlink → List ℕ
kinds nl =
    nl.stats64 ∷ nl.operstate ∷ nl.carrier ∷ nl.linkmode ∷ nl.carrier_up ∷ nl.carrier_down ∷ nl.mtu
    ∷ []

pub apart_name :
    (k name : Bytes)
    → mem_name k stat_names ≡ false
    → mem_name name stat_names ≡ true
    → bytes_eq k name ≡ false
apart_name k name p q = elim (Bool-cases (bytes_eq k name)) [
  | inl e ↦ let same = (bytes_eq_iff k name).0 e in cc
  | inr e ↦ e
]

module _ {F : Type 0} where
  abbrev pub shown : Option ℕ → Option (Value F) → Option (Value F)
  shown none before = before
  shown (some v) before = some (int v [])

  shown-or_before :
      (a b : Option ℕ) (before : Option (Value F))
      → shown a (shown b before) ≡ shown (or_before a b) before
  shown-or_before none b before = refl
  shown-or_before (some v) b before = refl

  lookup-set_each :
      (name : Bytes) (stats : Bytes → ℕ) (names : List Bytes) (tr : Transaction F)
      → lookup name (set_each stats names tr).next
        ≡ (if mem_name name names then some (int (stats name) []) else lookup name tr.next)
  unfolding set_each set_int
  lookup-set_each name stats [] tr = refl
  lookup-set_each name stats (n ∷ names) tr =
      let v : Value F = int (stats n) [] in
      ground (
        arith,
        lookup-set_each name stats names (set_int n (stats n) [] tr),
        lookup-insert n name v tr.next,
        bytes_eq_iff n name,
      )

  unfoldable pub put : Bytes → Bytes → ℕ → Option (Value F) → Option (Value F)
  put k name v before = if bytes_eq k name then some (int v []) else before

  lookup-set_int :
      (k name : Bytes) (v : ℕ) (tr : Transaction F)
      → lookup name (set_int k v [] tr).next ≡ put k name v (lookup name tr.next)
  unfolding set_int put
  lookup-set_int k name v tr = lookup-insert k name (int v []) tr.next

  pub lookup-set_attr :
      (nl : Netlink) (name : Bytes) (a : Attr) (tr : Transaction F)
      → lookup name (set_attr nl a tr).next ≡ (
          let before = lookup name tr.next in
          if a.kind == nl.stats64 && leb nl.stats_len (length a.body)
          then (if mem_name name stat_names then some (int (nl.stat name a.body) []) else before)
          else if a.kind == nl.operstate && leb 1 (length a.body)
          then put (codes "operatate") name (nl.u8 a.body) before
          else if a.kind == nl.carrier && leb 1 (length a.body)
          then put (codes "carrier") name (nl.u8 a.body) before
          else if a.kind == nl.linkmode && leb 1 (length a.body)
          then put (codes "linkmode") name (nl.u8 a.body) before
          else if a.kind == nl.carrier_up && leb 4 (length a.body)
          then put (codes "carrier_up_count") name (nl.u32 a.body) before
          else if a.kind == nl.carrier_down && leb 4 (length a.body)
          then put (codes "carrier_down_count") name (nl.u32 a.body) before
          else if a.kind == nl.mtu && leb 4 (length a.body)
          then put (codes "mtu") name (nl.u32 a.body) before
          else before)
  unfolding set_attr
  lookup-set_attr nl name a tr = ground (
    arith,
    lookup-set_each name (λ (n : Bytes). nl.stat n a.body) stat_names tr,
    lookup-set_int (codes "operatate") name (nl.u8 a.body) tr,
    lookup-set_int (codes "carrier") name (nl.u8 a.body) tr,
    lookup-set_int (codes "linkmode") name (nl.u8 a.body) tr,
    lookup-set_int (codes "carrier_up_count") name (nl.u32 a.body) tr,
    lookup-set_int (codes "carrier_down_count") name (nl.u32 a.body) tr,
    lookup-set_int (codes "mtu") name (nl.u32 a.body) tr,
  )

  if_same : (b : Bool) (x : Option (Value F)) → (if b then x else x) ≡ x
  if_same true x = refl
  if_same false x = refl

  first_only :
      (c : Bool) (v : ℕ) (before : Option (Value F))
      → (if c then some (int v []) else before) ≡ shown (if c then some v else none) before
  first_only true v before = refl
  first_only false v before = refl

  -- What an attribute sets of a field.
  said_lem :
      (nl : Netlink) (f : Field) (a : Attr) (tr : Transaction F)
      → all_differ (kinds nl) ≡ true
      → IsField f
      → lookup (field_name f) (set_attr nl a tr).next
        ≡ shown (said nl f a) (lookup (field_name f) tr.next)
  unfolding put
  said_lem nl (counter name) a tr d h =
      lookup-set_attr nl name a tr
      ∙ simp (
        h,
        apart_name (codes "operatate") name refl h,
        apart_name (codes "carrier") name refl h,
        apart_name (codes "linkmode") name refl h,
        apart_name (codes "carrier_up_count") name refl h,
        apart_name (codes "carrier_down_count") name refl h,
        apart_name (codes "mtu") name refl h,
        if_same,
        first_only,
      )
  said_lem nl state_field a tr d h = ground (arith, lookup-set_attr nl (codes "operatate") a tr)
  said_lem nl carrier_field a tr d h = ground (arith, lookup-set_attr nl (codes "carrier") a tr)
  said_lem nl mode_field a tr d h = ground (arith, lookup-set_attr nl (codes "linkmode") a tr)
  said_lem nl up_field a tr d h = ground (arith, lookup-set_attr nl (codes "carrier_up_count") a tr)
  said_lem nl down_field a tr d h =
      ground (arith, lookup-set_attr nl (codes "carrier_down_count") a tr)
  said_lem nl mtu_field a tr d h = ground (arith, lookup-set_attr nl (codes "mtu") a tr)

  pub lookup-set_attrs :
      (nl : Netlink) (f : Field) (as' : List Attr) (tr : Transaction F)
      → all_differ (kinds nl) ≡ true
      → IsField f
      → lookup (field_name f) (set_attrs nl as' tr).next
        ≡ shown (last_said nl f as') (lookup (field_name f) tr.next)
  unfolding set_attrs
  lookup-set_attrs nl f [] tr d h = refl
  lookup-set_attrs nl f (a ∷ as') tr d h =
      lookup-set_attrs nl f as' (set_attr nl a tr) d h
      ∙ ap (shown (last_said nl f as')) (said_lem nl f a tr d h)
      ∙ shown-or_before (last_said nl f as') (said nl f a) (lookup (field_name f) tr.next)
