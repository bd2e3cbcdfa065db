-- ===== src/Device/Laws.antt =====
-- statApp/src/devstat.cpp: the read routines on every branch.
use lin_stat.Base.{
  ℕ, ◌-◌, ◌%◌, ◌^◌, ◌<◌, ◌≡◌, refl, sym, ap, subst, ◌⊎◌, inl, inr, bit_and, Bool, true, false, ◌∷◌,
  Option, none, some, arith, ◌==◌, if◌then◌else◌, length, take, length-take, ◌∙◌,
}
use lin_stat.Base.Text.{Bytes}
use lin_stat.Base.Buffer.{
  c_str, NoNil, NoNil-take, overlay, length-overlay, length-poke_nil, c_str-copy,
}
use lin_stat.Table.{Value, no_value, text, int, float, StatTable, find_param}
use lin_stat.Device.Record.{
  Alarm, raise, init_fail, no_val, failed, Common, BitsRecord, IntRecord, TextRecord,
}
use lin_stat.Device.Read.{bits_of, int_of, text_of, get_rval, get_val, get_si, get_lsi}

-- The record was read at the table's time, or an alarm was raised and the time stays.
abbrev Stamped : ℕ → Common → Common → Type 0
Stamped now old new =
    (new.alarms ≡ old.alarms) × (new.time ≡ (if old.device_time then now else old.time))

abbrev Raised : Alarm → Common → Common → Type 0
Raised a old new = (new.alarms ≡ a ∷ old.alarms) × (new.time ≡ old.time)

-- The string that a text record holds after a read: the first bytes of the text, one less than
-- the size of the buffer at most.
abbrev pub Holds : Bytes → TextRecord → TextRecord → Type 0
Holds s old new = (c_str new.val ≡ take (length old.val - 1) s) × (length new.val ≡ length old.val)

text_of_lem :
    (F : Type 0) (long : Bool) (now : ℕ) (r : TextRecord) (s : Bytes)
    → NoNil s
    → 0 < length r.val
    → Holds s r (text_of {F = F} long now r (some (text s))).0
unfolding text_of
text_of_lem F long now r s n l =
    let copied = take (length r.val - 1) s in
    (
      c_str-copy copied r.val (NoNil-take (length r.val - 1) s n)
          (omega (arith, length-take (length r.val - 1) s)),
      length-poke_nil (length copied) (overlay copied r.val) ∙ length-overlay copied r.val,
    )

module _ {F : Type 0} where
  -- The parameter is not there, or has a value of another kind.
  abbrev IsNoInt : Option (Value F) → Type 0
  IsNoInt none = Unit {0}
  IsNoInt (some no_value) = ⊥
  IsNoInt (some (int v u)) = ⊥
  IsNoInt (some (text s)) = Unit {0}
  IsNoInt (some (float x u)) = Unit {0}

  -- The alarm and its reason.
  abbrev Alarmed : Option (Value F) → Common → Common → Type 0
  Alarmed o old new =
      ((old.attached ≡ false) × Raised init_fail old new)
      ⊎ ((old.attached ≡ true) × (o ≡ some no_value) × Raised no_val old new)
      ⊎ ((old.attached ≡ true) × IsNoInt o × Raised failed old new)

  abbrev pub IntRead : ℕ → Option (Value F) → IntRecord → IntRecord → Type 0
  IntRead now o old new =
      ((v : ℕ) × (u : Bytes) × (old.common.attached ≡ true)
        × (o ≡ some (int v u))
        × (new.val ≡ v % 2 ^ old.width)
        × Stamped now old.common new.common)
      ⊎ (Alarmed o old.common new.common
          × (new.val ≡ old.val)
          × (new.egu ≡ old.egu)
          × (new.posted ≡ old.posted))

  int_of_lem :
      (now : ℕ) (r : IntRecord) (o : Option (Value F))
      → r.common.attached ≡ true
      → IntRead now o r (int_of now r o).0
  unfolding int_of
  int_of_lem now r none a = inr (inr (inr (a, tt, (refl, refl))), refl, refl, refl)
  int_of_lem now r (some no_value) a = inr (inr (inl (a, refl, (refl, refl))), refl, refl, refl)
  int_of_lem now r (some (int v u)) a = inl (v, u, a, refl, refl, (refl, refl))
  int_of_lem now r (some (text s)) a = inr (inr (inr (a, tt, (refl, refl))), refl, refl, refl)
  int_of_lem now r (some (float x u)) a = inr (inr (inr (a, tt, (refl, refl))), refl, refl, refl)

  read_int :
      (now : ℕ) (r : IntRecord) (o : Option (Value F)) (b : Bool)
      → r.common.attached ≡ b
      → IntRead now o r
          (if b then int_of now r o else (record r { common = raise init_fail r.common }, none)).0
  read_int now r o true a = int_of_lem now r o a
  read_int now r o false a = inr (inl (a, (refl, refl)), refl, refl, refl)

  get_val_lem :
      (tbl : StatTable F) (r : IntRecord)
      → IntRead tbl.current_time (find_param r.common.param tbl) r (get_val tbl r).0
  unfolding get_val
  get_val_lem tbl r =
      read_int tbl.current_time r (find_param r.common.param tbl) r.common.attached refl

  abbrev pub BitsRead : ℕ → Option (Value F) → BitsRecord → BitsRecord → Type 0
  BitsRead now o old new =
      ((v : ℕ) × (u : Bytes) × (old.common.attached ≡ true)
        × (o ≡ some (int v u))
        × (new.rval ≡ (if old.mask == 0 then v % 2 ^ 32 else bit_and (v % 2 ^ 32) old.mask))
        × Stamped now old.common new.common)
      ⊎ (Alarmed o old.common new.common × (new.rval ≡ old.rval))

  bits_of_lem :
      (now : ℕ) (r : BitsRecord) (o : Option (Value F))
      → r.common.attached ≡ true
      → BitsRead now o r (bits_of now r o).0
  unfolding bits_of
  bits_of_lem now r none a = inr (inr (inr (a, tt, (refl, refl))), refl)
  bits_of_lem now r (some no_value) a = inr (inr (inl (a, refl, (refl, refl))), refl)
  bits_of_lem now r (some (int v u)) a = inl (v, u, a, refl, refl, (refl, refl))
  bits_of_lem now r (some (text s)) a = inr (inr (inr (a, tt, (refl, refl))), refl)
  bits_of_lem now r (some (float x u)) a = inr (inr (inr (a, tt, (refl, refl))), refl)

  read_bits :
      (now : ℕ) (r : BitsRecord) (o : Option (Value F)) (b : Bool)
      → r.common.attached ≡ b
      → BitsRead now o r
          (if b then bits_of now r o else (record r { common = raise init_fail r.common }, none)).0
  read_bits now r o true a = bits_of_lem now r o a
  read_bits now r o false a = inr (inl (a, (refl, refl)), refl)

  get_rval_lem :
      (tbl : StatTable F) (r : BitsRecord)
      → BitsRead tbl.current_time (find_param r.common.param tbl) r (get_rval tbl r).0
  unfolding get_rval
  get_rval_lem tbl r =
      read_bits tbl.current_time r (find_param r.common.param tbl) r.common.attached refl

  -- Reading an integer record takes the parameter's integer, cut to the width of the field, and
  -- reading a record of bits takes it cut to 32 bits, and masked if there is a mask; both take the
  -- time of the table where the record asks for it, and raise no alarm, exactly if the record is
  -- attached and the parameter is an integer. Otherwise each leaves value and time as they were, the
  -- integer record also its units and posted events, and raises one alarm: of the link if the record
  -- is not attached, of no value if the parameter has none, and of an exception if it is not there
  -- or is of another kind.
  pub get_integer_lem :
      (tbl : StatTable F) (r : IntRecord) (b : BitsRecord)
      → IntRead tbl.current_time (find_param r.common.param tbl) r (get_val tbl r).0
        × BitsRead tbl.current_time (find_param b.common.param tbl) b (get_rval tbl b).0
  get_integer_lem tbl r b = (get_val_lem tbl r, get_rval_lem tbl b)

  -- Reading a string record or a long string record whose parameter holds a text without nil bytes
  -- leaves in the buffer, of any size but 0 and whatever it held, exactly the first bytes of the
  -- text, ended by a nil; the buffer keeps its size, and the long string's length field is the
  -- length of what it holds.
  pub get_text_lem :
      (tbl : StatTable F) (r : TextRecord) (s : Bytes)
      → r.common.attached ≡ true
      → find_param r.common.param tbl ≡ some (text s)
      → NoNil s
      → 0 < length r.val
      → Holds s r (get_si tbl r).0
        × Holds s r (get_lsi tbl r).0
        × ((get_lsi tbl r).0.len ≡ length (c_str (get_lsi tbl r).0.val))
  unfolding get_si get_lsi text_of
  get_text_lem tbl r s a p n l = (
    subst (λ (q : TextRecord × Option ℕ). Holds s r q.0) (sym (read false))
        (text_of_lem F false tbl.current_time r s n l),
    subst (λ (q : TextRecord × Option ℕ). Holds s r q.0) (sym (read true)) held,
    subst (λ (q : TextRecord × Option ℕ). q.0.len ≡ length (c_str q.0.val)) (sym (read true))
        (ap length (sym held.0)),
  )
    where
      held : Holds s r (text_of {F = F} true tbl.current_time r (some (text s))).0
      held = text_of_lem F true tbl.current_time r s n l

      read :
          (long : Bool)
          → (if r.common.attached
              then text_of {F = F} long tbl.current_time r (find_param r.common.param tbl)
              else (record r { common = raise init_fail r.common }, none))
            ≡ text_of {F = F} long tbl.current_time r (some (text s))
      read long =
          ap
            (λ b.
              if b
              then text_of {F = F} long tbl.current_time r (find_param r.common.param tbl)
              else (record r { common = raise init_fail r.common }, none))
            a
          ∙ ap (λ o. text_of {F = F} long tbl.current_time r o) p
