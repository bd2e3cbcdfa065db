-- ===== src/TimeDelta.antt =====
-- statApp/src/devtdelta.cpp: a number of seconds as days, hours, minutes and seconds.
mod Tests
pub mod Digits
use lin_stat.Base.{
  ℕ, zero, suc, ◌+◌, ◌-◌, ◌*◌, ◌/◌, ◌%◌, ◌^◌, ◌≤◌, ◌<◌, ◌≡◌, List, [], ◌∷◌, ◌++◌, Option, none,
  some, ◌==◌, ltb, if◌then◌else◌, arith, length, take, drop, take_all, ap, refl,
}
use lin_stat.Base.Text.{Bytes, codes}
use lin_stat.Base.Buffer.{
  overlay, poke_nil, c_str, NoNil, c_str-overlay, poke_nil-overlay, length-poke_nil,
}
use mathlib.Core.Path.{◌≡⟨◌⟩◌, ◌∎}
use native.Mathlib.Nat.{pow-suc}

record Interval : Type 0 where
  period : ℕ
  label : Bytes

abbrev intervals : List Interval
intervals =
    record { period = 86400; label = codes "D" }
    ∷ record { period = 3600; label = codes "H" }
    ∷ record { period = 60; label = codes "M" }
    ∷ []

-- A count with its unit, as the message holds it.
record Part : Type 0 where
  count : ℕ
  unit : Interval

-- An epicsInt32 as a uint64_t: the sign is extended.
abbrev extend : ℕ → ℕ
extend n = if ltb n (2 ^ 31) then n else n + (2 ^ 64 - 2 ^ 32)

-- The loop over the intervals: the parts written, and what is left of `uptime`.
split : List Interval → ℕ → List Part × ℕ
split [] uptime = ([], uptime)
split (ivl ∷ ivls) uptime =
    let cnt = extend uptime / ivl.period in
    let (parts, rest) = split ivls (if cnt == 0 then uptime else extend uptime % ivl.period) in
    (if cnt == 0 then parts else record { count = cnt; unit = ivl } ∷ parts, rest)

-- operator<< of an unsigned number, given enough digits.
digits : ℕ → ℕ → Bytes → Bytes
digits zero n acc = acc
digits (suc k) n acc =
    let acc' = (b'0' + n % 10) ∷ acc in if n / 10 == 0 then acc' else digits k (n / 10) acc'

-- 2 ^ 64 has 20 digits.
unfoldable pub show : ℕ → Bytes
unfolding digits
show n = digits 20 n []

render : List Part → ℕ → Bytes
unfolding show
render [] rest = show (extend rest) ++ codes " S"
render (p ∷ ps) rest =
    show p.count ++ (codes " " ++ (p.unit.label ++ (codes " " ++ render ps rest)))

message : ℕ → Bytes
unfolding render split
message uptime = let (parts, rest) = split intervals uptime in render parts rest

-- s.copy(val, 39), and a nil in the last place.
publish : Bytes → Bytes → Bytes
publish msg val = poke_nil (length val - 1) (overlay (take (length val - 1) msg) val)

-- The read routine; `link` is what dbGetLink() gave: a status, or the seconds.
read : Option ℕ → Bytes → Bytes
unfolding publish message
read none val = val
read (some uptime) val = publish (message uptime) val

-- The seconds that a list of parts stands for.
abbrev seconds : List Part → ℕ
seconds [] = 0
seconds (p ∷ ps) = p.count * p.unit.period + seconds ps

-- Each part stands for less than the bound, and for less than the unit of the part before it.
abbrev Fits : ℕ → List Part → Type 0
Fits b [] = Unit {0}
Fits b (p ∷ ps) = (p.count * p.unit.period < b) × Fits p.unit.period ps

abbrev Positive : List Interval → Type 0
Positive [] = Unit {0}
Positive (ivl ∷ ivls) = (0 < ivl.period) × Positive ivls

split-seconds :
    (ivls : List Interval) (b uptime : ℕ)
    → Positive ivls
    → uptime < b
    → uptime < 2 ^ 31
    → (seconds (split ivls uptime).0 + (split ivls uptime).1 ≡ uptime)
      × Fits b (split ivls uptime).0
unfolding split
split-seconds [] b u pos h l = (omega arith, tt)
split-seconds (ivl ∷ ivls) b u pos h l =
    ground
      (arith, split-seconds ivls b u pos.1, split-seconds ivls ivl.period (u % ivl.period) pos.1)

abbrev least : ℕ → List Interval → ℕ
least b [] = b
least b (ivl ∷ ivls) = least ivl.period ivls

split_rest :
    (ivls : List Interval) (b uptime : ℕ)
    → Positive ivls
    → uptime < b
    → uptime < 2 ^ 31
    → (split ivls uptime).1 < least b ivls
unfolding split
split_rest [] b u pos h l = omega arith
split_rest (ivl ∷ ivls) b u pos h l =
    ground
      (arith, split_rest ivls ivl.period u pos.1, split_rest ivls ivl.period (u % ivl.period) pos.1)

-- The parts of a number of seconds that is not negative add up to it: less than 60 seconds are left,
-- and each part is less than the next larger unit, so hours are below 24 and minutes below 60.
split_lem :
    (uptime : ℕ)
    → uptime < 2 ^ 31
    → let (parts, rest) = split intervals uptime in
      (seconds parts + rest ≡ uptime) × Fits (2 ^ 31) parts × (rest < 60)
split_lem u l =
    let (adds_up, fits) = split-seconds intervals (2 ^ 31) u (omega arith) l l in
    (adds_up, fits, split_rest intervals (2 ^ 31) u (omega arith) l l)

-- The number that digits stand for.
abbrev pub number : ℕ → Bytes → ℕ
number acc [] = acc
number acc (c ∷ s) = number (acc * 10 + (c - b'0')) s

digits_lem : (k n : ℕ) (acc : Bytes) → n < 10 ^ k → number 0 (digits k n acc) ≡ number n acc
unfolding digits
digits_lem zero n acc h = let e : n ≡ 0 = omega arith in rw e refl
digits_lem (suc k) n acc h =
    ground
      (arith, digits_lem k (n / 10) ((b'0' + n % 10) ∷ acc) (omega (arith, pow-suc 10 k)), back)
  where
    back : n / 10 * 10 + (b'0' + n % 10 - b'0') ≡ n
    back = omega arith

-- Every 64-bit number is printed by the digits that stand for it.
pub show_lem : (n : ℕ) → n < 2 ^ 64 → number 0 (show n) ≡ n
unfolding show
show_lem n h = digits_lem 20 n [] (omega arith)

-- The field then holds the message, and behind it what the field held at that place before: the
-- message is copied without a nil.
publish_lem :
    (msg val : Bytes)
    → NoNil msg
    → length msg < length val
    → c_str (publish msg val) ≡ msg ++ c_str (drop (length msg) (poke_nil (length val - 1) val))
unfolding publish
publish_lem msg val n l =
    c_str (poke_nil (length val - 1) (overlay (take (length val - 1) msg) val))
    ≡⟨ ap (λ t. c_str (poke_nil (length val - 1) (overlay t val)))
        (take_all (length val - 1) msg (omega arith)) ⟩
      c_str (poke_nil (length val - 1) (overlay msg val))
    ≡⟨ ap c_str (poke_nil-overlay (length val - 1) msg val (omega arith)) ⟩
      c_str (overlay msg (poke_nil (length val - 1) val))
    ≡⟨ c_str-overlay msg (poke_nil (length val - 1) val) n
        (omega (arith, length-poke_nil (length val - 1) val)) ⟩
      msg ++ c_str (drop (length msg) (poke_nil (length val - 1) val)) ∎
