-- ===== src/CapArray.antt =====
-- statApp/src/devcap.cpp: the names of the capabilities in a mask.
mod Tests
use lin_stat.Base.{
  ℕ, zero, suc, ◌+◌, ◌-◌, ◌*◌, ◌/◌, ◌%◌, ◌^◌, ◌≤◌, ◌<◌, ◌≡◌, refl, Bool, true, false, List, [], ◌∷◌,
  ◌++◌, Option, none, some, ◌==◌, if◌then◌else◌, arith, take, ap, sym, ◌∙◌,
}
use native.Mathlib.Nat.{pow-suc}
use lin_stat.Base.Text.{Bytes, codes}

-- struct cap_ent; the bit numbers are the kernel's, the names those of cap_map.
record CapEnt : Type 0 where
  bit : ℕ
  name : Bytes

-- The values of CAP_NET_ADMIN and so on in linux/capability.h.
record CapBits : Type 0 where
  net_admin : ℕ
  sys_admin : ℕ
  sys_nice : ℕ
  ipc_lock : ℕ

cap_map : CapBits → List CapEnt
cap_map b =
    record { bit = b.net_admin; name = codes "NET_ADMIN" }
    ∷ record { bit = b.sys_admin; name = codes "SYS_ADMIN" }
    ∷ record { bit = b.sys_nice; name = codes "SYS_NICE" }
    ∷ record { bit = b.ipc_lock; name = codes "IPC_LOCK" }
    ∷ []

-- The loop over cap_map: the first entry with the bit.
find_cap : ℕ → List CapEnt → Option Bytes
find_cap bit [] = none
find_cap bit (ent ∷ ents) = if bit == ent.bit then some ent.name else find_cap bit ents

-- The loop over the bits; `room` is nelm - out_idx, and a slot has 40 bytes with its nil.
cap_loop : List CapEnt → ℕ → ℕ → ℕ → ℕ → List Bytes
unfolding find_cap
cap_loop ents zero bit mask room = []
cap_loop ents (suc fuel) bit mask zero = []
cap_loop ents (suc fuel) bit mask (suc room) =
    let skip = cap_loop ents fuel (bit + 1) (mask / 2) (suc room) in
    let more = cap_loop ents fuel (bit + 1) (mask / 2) room in
    if mask == 0
    then []
    else if mask % 2 == 0
    then skip
    else elim (find_cap bit ents) [ none ↦ skip | some name ↦ take 39 name ∷ more ]

data CapError : Type 0 where
  bad_ftvl link : CapError

data CapResult : Type 0 where
  names : List Bytes → CapResult
  failed : CapError → CapResult

-- devLinCapArr; `link` is what dbGetLink() gave. A mask of 64 bits takes 64 turns at most.
cap_array : CapBits → Bool → Option ℕ → ℕ → CapResult
unfolding cap_map cap_loop
cap_array bits string_ftvl mask nelm =
    if string_ftvl
    then elim mask [ none ↦ failed link | some m ↦ names (cap_loop (cap_map bits) 64 0 m nelm) ]
    else failed bad_ftvl

-- The names of the bits that are set, from the lowest on, without the room and the early end.
abbrev cap_names : List CapEnt → ℕ → ℕ → ℕ → List Bytes
cap_names ents zero bit mask = []
cap_names ents (suc n) bit mask =
    let rest = cap_names ents n (bit + 1) (mask / 2) in
    if mask % 2 == 0
    then rest
    else elim (find_cap bit ents) [ none ↦ rest | some name ↦ take 39 name ∷ rest ]

cap_names-zero : (ents : List CapEnt) (n bit : ℕ) → cap_names ents n bit 0 ≡ []
cap_names-zero ents zero bit = refl
cap_names-zero ents (suc n) bit = cap_names-zero ents n (bit + 1)

cap_loop_lem :
    (ents : List CapEnt) (fuel bit mask room : ℕ)
    → cap_loop ents fuel bit mask room ≡ take room (cap_names ents fuel bit mask)
unfolding cap_loop
cap_loop_lem ents zero bit mask zero = refl
cap_loop_lem ents zero bit mask (suc room) = refl
cap_loop_lem ents (suc fuel) bit mask zero = refl
cap_loop_lem ents (suc fuel) bit mask (suc room) = ground (
  arith,
  cap_names-zero ents (suc fuel) bit,
  cap_loop_lem ents fuel (bit + 1) (mask / 2) (suc room),
  cap_loop_lem ents fuel (bit + 1) (mask / 2) room,
)

cap_names-more :
    (ents : List CapEnt) (fuel more bit mask : ℕ)
    → mask < 2 ^ fuel
    → cap_names ents (fuel + more) bit mask ≡ cap_names ents fuel bit mask
cap_names-more ents zero more bit mask h =
    let e : mask ≡ 0 = omega arith in rw e (cap_names-zero ents (0 + more) bit)
cap_names-more ents (suc fuel) more bit mask h =
    let e : suc fuel + more ≡ suc (fuel + more) = omega arith in
    rw e (
      ground
        (arith, cap_names-more ents fuel more (bit + 1) (mask / 2) (omega (arith, pow-suc 2 fuel))))

-- The 64 turns are enough for every 64-bit mask: any larger number of turns gives the same names.
cap_loop-fuel :
    (ents : List CapEnt) (more mask room : ℕ)
    → mask < 2 ^ 64
    → cap_loop ents 64 0 mask room ≡ take room (cap_names ents (64 + more) 0 mask)
cap_loop-fuel ents more mask room h =
    cap_loop_lem ents 64 0 mask room ∙ ap (take room) (sym (cap_names-more ents 64 more 0 mask h))

-- What the link gives, if anything, is a number of 64 bits.
abbrev pub IsMask : Option ℕ → Type 0
IsMask none = Unit {0}
IsMask (some m) = m < 2 ^ 64

-- With a string array of nelm slots and a 64-bit mask from the link, device support writes the names
-- of the known capabilities in the mask, from the lowest bit on, up to the size of the array, and
-- the names of 64 bits are those of any more bits; with another field type, or if the link fails, it
-- writes nothing and reports that error.
cap_array_lem :
    (bits : CapBits) (string_ftvl : Bool) (mask : Option ℕ) (nelm more : ℕ)
    → IsMask mask
    → cap_array bits string_ftvl mask nelm ≡ (
        if string_ftvl
        then elim mask [
          | none ↦ failed link
          | some m ↦ names (take nelm (cap_names (cap_map bits) (64 + more) 0 m))
        ]
        else failed bad_ftvl)
unfolding cap_array
cap_array_lem bits false mask nelm more h = refl
cap_array_lem bits true none nelm more h = refl
cap_array_lem bits true (some m) nelm more h = ap names (cap_loop-fuel (cap_map bits) more m nelm h)
