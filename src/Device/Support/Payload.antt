-- ===== src/Device/Support/Payload.antt =====
-- statApp/src/devstat.cpp: the value that each read routine leaves in its record.
use lin_stat.Base.{
  ℕ, suc, ◌-◌, ◌%◌, ◌^◌, ◌≡◌, refl, sym, ap, ◌∙◌, bit_and, Bool, true, false, [], ◌∷◌, ◌++◌, Option,
  none, some, ◌==◌, if◌then◌else◌, length, take, drop, take_all, arith,
}
use lin_stat.Base.Text.{Bytes}
use lin_stat.Base.Buffer.{overlay, poke_nil}
use lin_stat.Table.{Value, no_value, text, int, float, StatTable, find_param}
use lin_stat.Device.Record.{BitsRecord, IntRecord, FloatRecord, TextRecord}
use lin_stat.Device.Read.{
  Double, bits_of, int_of, float_of, text_of, get_rval, get_val, get_f64, get_time, get_si, get_lsi,
  scale,
}
use lin_stat.Device.Support.{
  Supported, bi_value, mbbi_value, mbbi_direct_value, li_value, i64_value, f64_value, ai_tbl_time,
  si_value, lsi_value, common_of, read_record,
}

-- The value of a record: RVAL of the bits, VAL of an integer, RVAL and VAL of an ai record, the
-- buffer and the length of a text.
pub data Payload (F : Type 0) : Type 0 where
  bits_payload int_payload : ℕ → Payload F
  float_payload : ℕ → F → Payload F
  text_payload : Bytes → ℕ → Payload F

-- A text and a nil, and what the buffer held behind them.
abbrev written : Bytes → Bytes → Bytes
written s buf = take (length buf) (s ++ 0 ∷ drop (suc (length s)) buf)

module _ {F : Type 0} where
  abbrev pub payload : Supported F → Payload F
  payload (bi_value r) = bits_payload r.rval
  payload (mbbi_value r) = bits_payload r.rval
  payload (mbbi_direct_value r) = bits_payload r.rval
  payload (li_value r) = int_payload r.val
  payload (i64_value r) = int_payload r.val
  payload (f64_value r) = float_payload r.rval r.val
  payload (ai_tbl_time r) = float_payload r.rval r.val
  payload (si_value r) = text_payload r.val r.len
  payload (lsi_value r) = text_payload r.val r.len

  -- The low 32 bits of an integer, under the mask if there is one.
  abbrev masked : Option (Value F) → BitsRecord → ℕ
  masked (some (int v u)) r = if r.mask == 0 then v % 2 ^ 32 else bit_and (v % 2 ^ 32) r.mask
  masked _ r = r.rval

  -- As many low bits of an integer as the field has.
  abbrev low_bits : Option (Value F) → IntRecord → ℕ
  low_bits (some (int v u)) r = v % 2 ^ r.width
  low_bits _ r = r.val

  -- As much of a text as there is room for before the nil.
  abbrev copied : Option (Value F) → Bool → TextRecord → Payload F
  copied (some (text s)) long r =
      let c = take (length r.val - 1) s in
      text_payload (written c r.val) (if long then length c else r.len)
  copied _ long r = text_payload r.val r.len

module _ (d : Double) where
  open d use {F, mul, add, nonzero, of_time}

  -- An integer goes to RVAL, a double to VAL, under the two scalings.
  abbrev scaled : Option (Value F) → FloatRecord F → Payload F
  scaled (some (int v u)) r = float_payload (v % 2 ^ 32) r.val
  scaled (some (float x u)) r =
      let y = if nonzero r.aslo then add (mul x r.aslo) r.aoff else add x r.aoff in
      float_payload r.rval (if nonzero r.eslo then add (mul y r.eslo) r.eoff else add y r.eoff)
  scaled _ r = float_payload r.rval r.val

  -- The value that a record has once it has read a parameter, which is missing or has a value, of a
  -- table of the time `now`: its own where the record has no room for a value of that kind.
  abbrev pub expected : ℕ → Option (Value F) → Supported F → Payload F
  expected now v (bi_value r) = bits_payload (masked v r)
  expected now v (mbbi_value r) = bits_payload (masked v r)
  expected now v (mbbi_direct_value r) = bits_payload (masked v r)
  expected now v (li_value r) = int_payload (low_bits v r)
  expected now v (i64_value r) = int_payload (low_bits v r)
  expected now v (f64_value r) = scaled v r
  expected now v (ai_tbl_time r) = float_payload r.rval (of_time now)
  expected now v (si_value r) = copied v false r
  expected now v (lsi_value r) = copied v true r

if_true {ℓ} : {A : Type ℓ} (b : Bool) (x y : A) → b ≡ true → (if b then x else y) ≡ x
if_true true x y h = refl
if_true false x y h = cc

through_if {ℓ} :
    {A : Type ℓ} (b : Bool) (f : A → A) (x y : A)
    → f (if b then x else y) ≡ (if b then f x else f y)
through_if true f x y = refl
through_if false f x y = refl

overlay_lem :
    (s buf : Bytes)
    → poke_nil (length s) (overlay s buf) ≡ take (length buf) (s ++ 0 ∷ drop (suc (length s)) buf)
overlay_lem [] [] = refl
overlay_lem [] (b ∷ buf) = ap (λ t. 0 ∷ t) (sym (take_all (length buf) buf (omega arith)))
overlay_lem (c ∷ s) [] = refl
overlay_lem (c ∷ s) (b ∷ buf) = ap (λ t. c ∷ t) (overlay_lem s buf)

module _ {F : Type 0} where
  rval-get_rval :
      (t : StatTable F) (r : BitsRecord)
      → r.common.attached ≡ true
      → (get_rval t r).0.rval ≡ masked (find_param r.common.param t) r
  unfolding get_rval bits_of
  rval-get_rval t r a =
      ap (λ (q : BitsRecord × Option ℕ). q.0.rval) (if_true r.common.attached _ _ a)
      ∙ rval-bits_of (find_param r.common.param t)
    where
      rval-bits_of : (v : Option (Value F)) → (bits_of t.current_time r v).0.rval ≡ masked v r
      rval-bits_of none = refl
      rval-bits_of (some no_value) = refl
      rval-bits_of (some (int v u)) = refl
      rval-bits_of (some (text s)) = refl
      rval-bits_of (some (float x u)) = refl

  val-get_val :
      (t : StatTable F) (r : IntRecord)
      → r.common.attached ≡ true
      → (get_val t r).0.val ≡ low_bits (find_param r.common.param t) r
  unfolding get_val int_of
  val-get_val t r a =
      ap (λ (q : IntRecord × Option ℕ). q.0.val) (if_true r.common.attached _ _ a)
      ∙ val-int_of (find_param r.common.param t)
    where
      val-int_of : (v : Option (Value F)) → (int_of t.current_time r v).0.val ≡ low_bits v r
      val-int_of none = refl
      val-int_of (some no_value) = refl
      val-int_of (some (int v u)) = refl
      val-int_of (some (text s)) = refl
      val-int_of (some (float x u)) = refl

  payload-text_of :
      (long : Bool) (now : ℕ) (r : TextRecord) (v : Option (Value F))
      → ◌≡◌ {A = Payload F}
          (text_payload (text_of long now r v).0.val (text_of long now r v).0.len)
          (copied v long r)
  unfolding text_of
  payload-text_of long now r none = refl
  payload-text_of long now r (some no_value) = refl
  payload-text_of long now r (some (text s)) =
      let c = take (length r.val - 1) s in
      ap (λ b. text_payload b (if long then length c else r.len)) (overlay_lem c r.val)
  payload-text_of long now r (some (int v u)) = refl
  payload-text_of long now r (some (float x u)) = refl

  payload-get_si :
      (t : StatTable F) (r : TextRecord)
      → r.common.attached ≡ true
      → ◌≡◌ {A = Payload F}
          (payload (si_value (get_si t r).0))
          (copied (find_param r.common.param t) false r)
  unfolding get_si
  payload-get_si t r a =
      ap (λ (q : TextRecord × Option ℕ). payload (si_value q.0)) (if_true r.common.attached _ _ a)
      ∙ (payload-text_of false t.current_time r (find_param r.common.param t))

  payload-get_lsi :
      (t : StatTable F) (r : TextRecord)
      → r.common.attached ≡ true
      → ◌≡◌ {A = Payload F}
          (payload (lsi_value (get_lsi t r).0))
          (copied (find_param r.common.param t) true r)
  unfolding get_lsi
  payload-get_lsi t r a =
      ap (λ (q : TextRecord × Option ℕ). payload (lsi_value q.0)) (if_true r.common.attached _ _ a)
      ∙ (payload-text_of true t.current_time r (find_param r.common.param t))

module _ (d : Double) where
  open d use {F, mul, add, nonzero, of_time}

  scale_lem :
      (r : FloatRecord F) (x : F)
      → ◌≡◌ {A = Payload F} (float_payload r.rval (scale d r x)) (scaled d (some (float x [])) r)
  unfolding scale
  scale_lem r x =
      let y = add (if nonzero r.aslo then mul x r.aslo else x) r.aoff in
      ap (float_payload r.rval) (
        through_if (nonzero r.eslo) (λ z. add z r.eoff) (mul y r.eslo) y
        ∙ ap (λ z. if nonzero r.eslo then add (mul z r.eslo) r.eoff else add z r.eoff)
            (through_if (nonzero r.aslo) (λ z. add z r.aoff) (mul x r.aslo) x))

  payload-get_f64 :
      (t : StatTable F) (r : FloatRecord F)
      → r.common.attached ≡ true
      → ◌≡◌ {A = Payload F}
          (payload (f64_value (get_f64 d t r).0))
          (scaled d (find_param r.common.param t) r)
  unfolding get_f64 float_of
  payload-get_f64 t r a =
      ap (λ (q : FloatRecord F × Option ℕ). payload (f64_value q.0))
        (if_true r.common.attached _ _ a)
      ∙ payload-float_of (find_param r.common.param t)
    where
      payload-float_of :
          (v : Option (Value F))
          → ◌≡◌ {A = Payload F}
              (payload (f64_value (float_of d t.current_time r v).0))
              (scaled d v r)
      payload-float_of none = refl
      payload-float_of (some no_value) = refl
      payload-float_of (some (int v u)) = refl
      payload-float_of (some (text s)) = refl
      payload-float_of (some (float x u)) = scale_lem r x

  payload-get_time :
      (t : StatTable F) (r : FloatRecord F)
      → r.common.attached ≡ true
      → ◌≡◌ {A = Payload F}
          (payload (ai_tbl_time (get_time d t r).0))
          (float_payload r.rval (of_time t.current_time))
  unfolding get_time
  payload-get_time t r a =
      ap (λ (q : FloatRecord F × Option ℕ). payload (ai_tbl_time q.0))
        (if_true r.common.attached _ _ a)

  -- A record that is attached reads the value that it is expected to have.
  pub payload-read_record :
      (t : StatTable F) (r : Supported F)
      → common_of (λ c. c.attached) r ≡ true
      → payload (read_record d t r).0
        ≡ expected d t.current_time (find_param (common_of (λ c. c.param) r) t) r
  unfolding read_record
  payload-read_record t (bi_value r) a = ap bits_payload (rval-get_rval t r a)
  payload-read_record t (mbbi_value r) a = ap bits_payload (rval-get_rval t r a)
  payload-read_record t (mbbi_direct_value r) a = ap bits_payload (rval-get_rval t r a)
  payload-read_record t (li_value r) a = ap int_payload (val-get_val t r a)
  payload-read_record t (i64_value r) a = ap int_payload (val-get_val t r a)
  payload-read_record t (f64_value r) a = payload-get_f64 t r a
  payload-read_record t (ai_tbl_time r) a = payload-get_time t r a
  payload-read_record t (si_value r) a = payload-get_si t r a
  payload-read_record t (lsi_value r) a = payload-get_lsi t r a
