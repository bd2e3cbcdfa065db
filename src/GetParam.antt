-- ===== src/GetParam.antt =====
-- statApp/src/getParam.c: a string record that shows an EPICS parameter or an environment variable.
mod Tests
use lin_stat.Base.{
  ℕ, suc, ◌+◌, ◌-◌, ◌≤◌, ◌<◌, ◌≡◌, refl, ap, sym, ◌∙◌, Bool, true, false, List, [], ◌∷◌, ◌++◌,
  Option, none, some, if◌then◌else◌, ltb, leb, arith, length, take, drop, length-take,
  length-append, append_assoc, Bool-cases, inl, inr, zero,
}
use lin_stat.Base.Text.{Bytes, codes, bytes_eq}
use lin_stat.Base.Buffer.{
  overlay, poke_nil, c_str, NoNil, NoNil-take, length-overlay, c_str-copy, c_str-overlay,
}

pub data Alarm : Type 0 where
  no_default not_set truncated : Alarm

pub record ParamRecord : Type 0 where
  pub param : Option Bytes  -- dpvt: the EPICS parameter of the link's name
  pub link : Bytes
  pub val : Bytes
  pub alarms : List Alarm
  pub udf : Bool

-- getParam_init_record: the search of env_param_list.
unfoldable pub find_env_param : Bytes → List Bytes → Option Bytes
find_env_param name [] = none
find_env_param name (p ∷ ps) = if bytes_eq name p then some p else find_env_param name ps

-- memcpy() or strcpy() to an offset of the buffer.
abbrev pub overlay_at : ℕ → Bytes → Bytes → Bytes
overlay_at n s buf = take n buf ++ overlay s (drop n buf)

-- The copy of a value into VAL: a long one is cut, and ends in "...".
unfoldable pub copy_val : Bytes → ParamRecord → ParamRecord
copy_val v r =
    let size = length r.val in
    if leb size (length v)
    then record r {
      val = overlay (take (size - 4) v) (overlay_at (size - 4) (codes "..." ++ 0 ∷ []) r.val);
      alarms = truncated ∷ r.alarms;
      udf = false;
    }
    else record r { val = overlay (v ++ 0 ∷ []) r.val; udf = false }

abbrev pub copied : Alarm → Option Bytes → ParamRecord → ParamRecord
copied missing none r = record r { alarms = missing ∷ r.alarms }
copied missing (some v) r = copy_val v r

-- getParam_read_stringin; `config` is envGetConfigParamPtr(), `getenv` the environment.
unfoldable pub read_param :
    (Bytes → Option Bytes) → (Bytes → Option Bytes) → ParamRecord → ParamRecord
unfolding copy_val
read_param config getenv r = elim r.param [
  | some p ↦ copied no_default (config p) r
  | none ↦ copied not_set (getenv r.link) r
]

-- The text that a field of `size` bytes shows of a value.
abbrev pub shown : ℕ → Bytes → Bytes
shown size v = if leb size (length v) then take (size - 4) v ++ codes "..." else v

leb→le : (a b : ℕ) → leb a b ≡ true → a ≤ b
leb→le a b h = ground arith

lt_of_leb : (a b : ℕ) → leb a b ≡ false → b < a
lt_of_leb a b h = ground arith

overlay-overlay_at :
    (a t buf : Bytes)
    → length a ≤ length buf
    → overlay a (overlay_at (length a) t buf) ≡ overlay (a ++ t) buf
overlay-overlay_at [] t buf h = refl
overlay-overlay_at (c ∷ a) t [] h = absurd (omega arith)
overlay-overlay_at (c ∷ a) t (b ∷ buf) h =
    ap (λ x. c ∷ x) (overlay-overlay_at a t buf (omega arith))

c_str-overlay_nil :
    (s buf : Bytes) → NoNil s → length s < length buf → c_str (overlay (s ++ 0 ∷ []) buf) ≡ s
c_str-overlay_nil [] [] n h = absurd (omega arith)
c_str-overlay_nil [] (b ∷ buf) n h = refl
c_str-overlay_nil (c ∷ s) [] n h = absurd (omega arith)
c_str-overlay_nil (c ∷ s) (b ∷ buf) n h = ground (arith, c_str-overlay_nil s buf n.1)

NoNil-append : (s t : Bytes) → NoNil s → NoNil t → NoNil (s ++ t)
NoNil-append [] t h k = k
NoNil-append (c ∷ s) t h k = (h.0, NoNil-append s t h.1 k)

cut_lem :
    (v buf : Bytes) (n : ℕ)
    → NoNil v
    → n + 4 ≡ length buf
    → length buf ≤ length v
    → c_str (overlay (take n v) (overlay_at n (codes "..." ++ 0 ∷ []) buf))
      ≡ take n v ++ codes "..."
cut_lem v buf n h e l =
    let long : length (take n v) ≡ n = omega (arith, length-take n v) in
    let a = take n v in
    ap (λ k. c_str (overlay a (overlay_at k (codes "..." ++ 0 ∷ []) buf))) (sym long)
    ∙ ap c_str (overlay-overlay_at a (codes "..." ++ 0 ∷ []) buf (omega arith))
    ∙ ap (λ s. c_str (overlay s buf)) (sym (append_assoc a (codes "...") (0 ∷ [])))
    ∙ c_str-overlay_nil (a ++ codes "...") buf
        (NoNil-append a (codes "...") (NoNil-take n v h) (omega arith))
        (omega (arith, length-append a (codes "...")))

length-overlay_at : (n : ℕ) (s buf : Bytes) → length (overlay_at n s buf) ≡ length buf
length-overlay_at zero s buf = length-overlay s buf
length-overlay_at (suc n) s [] = length-overlay s []
length-overlay_at (suc n) s (b ∷ buf) = ap suc (length-overlay_at n s buf)

-- A value without nil bytes is shown whole if it fits with its nil, and otherwise by its first bytes
-- and "...", never past the end of the field, which keeps its size; a cut raises an alarm, and
-- nothing else does.
pub copy_val_lem :
    (v : Bytes) (r : ParamRecord)
    → NoNil v
    → 4 ≤ length r.val
    → (c_str (copy_val v r).val ≡ shown (length r.val) v)
      × (length (copy_val v r).val ≡ length r.val)
      × ((copy_val v r).alarms
          ≡ (if leb (length r.val) (length v) then truncated ∷ r.alarms else r.alarms))
unfolding copy_val
copy_val_lem v r n l = elim (Bool-cases (leb (length r.val) (length v))) [
  | inl long ↦
      let dots = codes "..." ++ 0 ∷ [] in
      rw (long, copy_val)
        (
          cut_lem v r.val (length r.val - 4) n (omega arith)
              (leb→le (length r.val) (length v) long),
          length-overlay _ (overlay_at (length r.val - 4) dots r.val)
              ∙ length-overlay_at (length r.val - 4) dots r.val,
          refl,
        )
  | inr short ↦
      rw (short, copy_val)
        (
          c_str-overlay_nil v r.val n (lt_of_leb (length r.val) (length v) short),
          length-overlay (v ++ 0 ∷ []) r.val,
          refl,
        )
]
