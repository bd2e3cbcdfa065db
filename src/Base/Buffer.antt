-- ===== src/Base/Buffer.antt =====
-- A char array of fixed size, and the string that it holds up to its first nil.
use mathlib.Core.Path.{◌≡◌, refl, ap, ◌∙◌}
use mathlib.Core.List.{[], ◌∷◌, ◌++◌}
use Prim.Native.Nat.{ℕ, zero, suc, ◌+◌, ◌≤◌, ◌<◌}
use native.Mathlib.Omega.{arith}
use lin_stat.Base.Tests.{◌==◌, if◌then◌else◌}
use lin_stat.Base.Lists.{length, take, drop}
use lin_stat.Base.Text.{Bytes}

-- std::string::copy(dst, n): at most n bytes, and no nil.
abbrev pub overlay : Bytes → Bytes → Bytes
overlay [] buf = buf
overlay (c ∷ s) [] = []
overlay (c ∷ s) (b ∷ buf) = c ∷ overlay s buf

abbrev pub zeros : ℕ → Bytes
zeros zero = []
zeros (suc n) = 0 ∷ zeros n

-- What is written over the buffer from an offset on.
abbrev pub store : ℕ → Bytes → Bytes → Bytes
store zero s buf = overlay s buf
store (suc i) s [] = []
store (suc i) s (b ∷ buf) = b ∷ store i s buf

abbrev pub poke_nil : ℕ → Bytes → Bytes
poke_nil i [] = []
poke_nil zero (b ∷ buf) = 0 ∷ buf
poke_nil (suc i) (b ∷ buf) = b ∷ poke_nil i buf

abbrev pub c_str : Bytes → Bytes
c_str [] = []
c_str (c ∷ buf) = if c == 0 then [] else c ∷ c_str buf

abbrev pub NoNil : Bytes → Type 0
NoNil [] = Unit {0}
NoNil (c ∷ s) = (0 < c) × NoNil s

pub length-overlay : (s buf : Bytes) → length (overlay s buf) ≡ length buf
length-overlay [] buf = refl
length-overlay (c ∷ s) [] = refl
length-overlay (c ∷ s) (b ∷ buf) = ap suc (length-overlay s buf)

pub length-poke_nil : (i : ℕ) (buf : Bytes) → length (poke_nil i buf) ≡ length buf
length-poke_nil i [] = refl
length-poke_nil zero (b ∷ buf) = refl
length-poke_nil (suc i) (b ∷ buf) = ap suc (length-poke_nil i buf)

pub NoNil-take : (n : ℕ) (s : Bytes) → NoNil s → NoNil (take n s)
NoNil-take zero s h = tt
NoNil-take (suc n) [] h = tt
NoNil-take (suc n) (c ∷ s) h = (h.0, NoNil-take n s h.1)

-- A string written at the front, with a nil behind it.
pub c_str-copy :
    (s buf : Bytes)
    → NoNil s
    → length s < length buf
    → c_str (poke_nil (length s) (overlay s buf)) ≡ s
c_str-copy [] [] h l = refl
c_str-copy [] (b ∷ buf) h l = refl
c_str-copy (c ∷ s) [] h l = absurd (omega arith)
c_str-copy (c ∷ s) (b ∷ buf) h l = ground (arith, c_str-copy s buf h.1)

-- Without the nil, what stood in the buffer shows behind the string.
pub c_str-overlay :
    (s buf : Bytes)
    → NoNil s
    → length s ≤ length buf
    → c_str (overlay s buf) ≡ s ++ c_str (drop (length s) buf)
c_str-overlay [] buf h l = refl
c_str-overlay (c ∷ s) [] h l = absurd (omega arith)
c_str-overlay (c ∷ s) (b ∷ buf) h l = ground (arith, c_str-overlay s buf h.1)

pub poke_nil-overlay :
    (i : ℕ) (s buf : Bytes) → length s ≤ i → poke_nil i (overlay s buf) ≡ overlay s (poke_nil i buf)
poke_nil-overlay i [] buf h = refl
poke_nil-overlay i (c ∷ s) [] h = refl
poke_nil-overlay zero (c ∷ s) (b ∷ buf) h = absurd (omega arith)
poke_nil-overlay (suc i) (c ∷ s) (b ∷ buf) h =
    ap (λ t. c ∷ t) (poke_nil-overlay i s buf (omega arith))

pub length-zeros : (n : ℕ) → length (zeros n) ≡ n
length-zeros zero = refl
length-zeros (suc n) = ap suc (length-zeros n)

pub overlay-append : (s t buf : Bytes) → length s ≡ length t → overlay s (t ++ buf) ≡ s ++ buf
overlay-append [] [] [] h = refl
overlay-append [] [] (b ∷ buf) h = refl
overlay-append [] (b ∷ t) buf h = absurd (omega arith)
overlay-append (c ∷ s) [] buf h = absurd (omega arith)
overlay-append (c ∷ s) (b ∷ t) buf h = ap (λ x. c ∷ x) (overlay-append s t buf (omega arith))

pub store-append : (s t buf : Bytes) → store (length t) s (t ++ buf) ≡ t ++ overlay s buf
store-append s [] buf = refl
store-append s (b ∷ t) buf = ap (λ x. b ∷ x) (store-append s t buf)

pub zeros-add : (m n : ℕ) → zeros (m + n) ≡ zeros m ++ zeros n
zeros-add zero n = ap zeros (omega arith)
zeros-add (suc m) n =
    let e : suc m + n ≡ suc (m + n) = omega arith in ap zeros e ∙ ap (λ x. 0 ∷ x) (zeros-add m n)
