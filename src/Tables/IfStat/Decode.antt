-- ===== src/Tables/IfStat/Decode.antt =====
-- statApp/src/tblIFStat.cpp: what the loop over the attributes makes of a message.
use lin_stat.Base.{
  ℕ, zero, suc, ◌+◌, ◌-◌, ◌%◌, ◌^◌, ◌≤◌, ◌<◌, ◌≡◌, ◌≢◌, refl, sym, ap, ◌∙◌, ◌&&◌, List, [], ◌∷◌,
  ◌++◌, leb, length, take, drop, length-append, take-append, drop-append, length-drop, append_assoc,
  Bool-cases, inl, inr, arith,
}
use lin_stat.Base.Text.{Bytes}
use lin_stat.Base.Buffer.{zeros, length-zeros}
use lin_stat.Tables.IfStat.Attributes.{
  Rta, RtaLaws, Attr, Walked, walked, overrun, out_of_fuel, cons_attr, attr_at, walk, total, bare,
  padded, encode, Fits, AllFit,
}

module _ (r : Rta) (laws : RtaLaws r) where
  bare_assoc : (a : Attr) (p : Bytes) → bare r a ++ p ≡ r.head a.kind (total r a) ++ (a.body ++ p)
  bare_assoc a p = append_assoc (r.head a.kind (total r a)) a.body p

  padded_assoc :
      (a : Attr) (p : Bytes)
      → padded r a ++ p ≡ bare r a ++ (zeros (r.align (total r a) - total r a) ++ p)
  padded_assoc a p = append_assoc (bare r a) (zeros (r.align (total r a) - total r a)) p

  pub length-bare : (a : Attr) → length (bare r a) ≡ total r a
  length-bare a =
      omega (
        arith,
        length-append (r.head a.kind (total r a)) a.body,
        laws.length-head a.kind (total r a),
      )

  pub length-padded : (a : Attr) → length (padded r a) ≡ r.align (total r a)
  length-padded a = omega (
    arith,
    length-append (bare r a) (zeros (r.align (total r a) - total r a)),
    length-zeros (r.align (total r a) - total r a),
    length-bare a,
    laws.covers (total r a),
  )

  len-bare : (a : Attr) (p : Bytes) → Fits r a → r.rta_len (bare r a ++ p) ≡ total r a
  len-bare a p h =
      ap r.rta_len (bare_assoc a p) ∙ laws.len-head a.kind (total r a) (a.body ++ p) h.1

  type-bare : (a : Attr) (p : Bytes) → Fits r a → r.rta_type (bare r a ++ p) ≡ a.kind
  type-bare a p h =
      ap r.rta_type (bare_assoc a p) ∙ laws.type-head a.kind (total r a) (a.body ++ p) h.0

  drop-bare : (a : Attr) (p : Bytes) → drop r.hdr (bare r a ++ p) ≡ a.body ++ p
  drop-bare a p =
      ap (drop r.hdr) (bare_assoc a p)
      ∙ ap (λ n. drop n (r.head a.kind (total r a) ++ (a.body ++ p)))
          (sym (laws.length-head a.kind (total r a)))
      ∙ drop-append (r.head a.kind (total r a)) (a.body ++ p)

  attr_at-bare : (a : Attr) (p : Bytes) → Fits r a → attr_at r (bare r a ++ p) ≡ a
  unfolding attr_at
  attr_at-bare a p h = λ i. record { kind = type-bare a p h i; body = body_lem i }
    where
      size : r.rta_len (bare r a ++ p) - r.hdr ≡ length a.body
      size = omega (arith, len-bare a p h)

      body_lem : take (r.rta_len (bare r a ++ p) - r.hdr) (drop r.hdr (bare r a ++ p)) ≡ a.body
      body_lem =
          ap (λ n. take n (drop r.hdr (bare r a ++ p))) size
          ∙ ap (take (length a.body)) (drop-bare a p)
          ∙ take-append a.body p

  -- A turn of the loop at an attribute, with or without its padding.
  pub walk-bare :
      (a : Attr) (p : Bytes) (fuel remaining : ℕ)
      → Fits r a
      → total r a ≤ remaining
      → walk r (suc fuel) (bare r a ++ p) remaining
        ≡ cons_attr a (
            walk r fuel
              (drop (r.align (total r a)) (bare r a ++ p))
              ((remaining + 2 ^ 32 - r.align (total r a)) % 2 ^ 32))
  unfolding walk
  walk-bare a p fuel remaining h e =
      rw (laws.next_lem, laws.ok_lem)
        (rw (attr_at-bare a p h)
          (rw (len-bare a p h) (ground (arith, length-append (bare r a) p, length-bare a))))

  pub walk_ends :
      (p : Bytes) (fuel remaining : ℕ)
      → remaining < r.hdr
      → walk r (suc fuel) p remaining ≡ walked []
  unfolding walk
  walk_ends p fuel remaining h = rw laws.ok_lem (ground arith)

  pub walk-padded :
      (a : Attr) (p : Bytes) (fuel remaining : ℕ)
      → Fits r a
      → r.align (total r a) + remaining < 2 ^ 32
      → walk r (suc fuel) (padded r a ++ p) (r.align (total r a) + remaining)
        ≡ cons_attr a (walk r fuel p remaining)
  walk-padded a p fuel remaining h b =
      let behind = zeros (r.align (total r a) - total r a) ++ p in
      let on : drop (r.align (total r a)) (bare r a ++ behind) ≡ p =
        ap (drop (r.align (total r a))) (sym (padded_assoc a p))
        ∙ ap (λ n. drop n (padded r a ++ p)) (sym (length-padded a))
        ∙ drop-append (padded r a) p in
      let left : (r.align (total r a) + remaining + 2 ^ 32 - r.align (total r a)) % 2 ^ 32
          ≡ remaining =
        omega arith in
      ap (λ q. walk r (suc fuel) q (r.align (total r a) + remaining)) (padded_assoc a p)
      ∙ walk-bare a behind fuel (r.align (total r a) + remaining) h
          (omega (arith, laws.covers (total r a)))
      ∙ ap (cons_attr a) (ap (λ q. walk r fuel q _) on ∙ ap (walk r fuel p) left)

  abbrev pub cons_attrs : List Attr → Walked → Walked
  cons_attrs [] w = w
  cons_attrs (a ∷ as') w = cons_attr a (cons_attrs as' w)

  pub cons_attrs-walked : (as' : List Attr) → cons_attrs as' (walked []) ≡ walked as'
  cons_attrs-walked [] = refl
  cons_attrs-walked (a ∷ as') = ap (cons_attr a) (cons_attrs-walked as')

  pub cons_attrs-overrun : (as' : List Attr) → cons_attrs as' overrun ≡ overrun
  cons_attrs-overrun [] = refl
  cons_attrs-overrun (a ∷ as') = ap (cons_attr a) (cons_attrs-overrun as')

  pub again : {f f' m m' : ℕ} (p : Bytes) → f ≡ f' → m ≡ m' → walk r f p m ≡ walk r f' p m'
  again p e e' = λ i. walk r (e i) p (e' i)

  -- The attributes in front are read one by one.
  pub walk-append :
      (as' : List Attr) (p : Bytes) (fuel remaining : ℕ)
      → AllFit r as'
      → length (encode r as') + remaining < 2 ^ 32
      → walk r (length as' + fuel) (encode r as' ++ p) (length (encode r as') + remaining)
        ≡ cons_attrs as' (walk r fuel p remaining)
  walk-append [] p fuel remaining h b = again p (omega arith) (omega arith)
  walk-append (a ∷ as') p fuel remaining h b =
      let size = length-append (padded r a) (encode r as') in
      let n = length (encode r as') + remaining in
      let count : length (encode r (a ∷ as')) + remaining ≡ r.align (total r a) + n =
        omega (arith, size, length-padded a) in
      ap (λ q. walk r (length (a ∷ as') + fuel) q (length (encode r (a ∷ as')) + remaining))
        (append_assoc (padded r a) (encode r as') p)
      ∙ again (padded r a ++ (encode r as' ++ p)) (omega arith) count
      ∙ walk-padded a (encode r as' ++ p) (length as' + fuel) n h.0
          (omega (arith, size, length-padded a))
      ∙ ap (cons_attr a) (walk-append as' p fuel remaining h.1 (omega (arith, size)))

  cons_attr_enough : (a : Attr) (w : Walked) → w ≢ out_of_fuel → cons_attr a w ≢ out_of_fuel
  cons_attr_enough a (walked as') h e = cc
  cons_attr_enough a overrun h e = cc
  cons_attr_enough a out_of_fuel h e = h refl

  pub walk_enough :
      (p : Bytes) (fuel remaining : ℕ) → length p < fuel → walk r fuel p remaining ≢ out_of_fuel
  unfolding walk
  walk_enough p zero remaining h e = absurd (omega arith)
  walk_enough p (suc fuel) remaining h e =
      let n = r.align (r.rta_len p) in
      let rest = (remaining + 2 ^ 32 - n) % 2 ^ 32 in
      let test =
        leb r.hdr remaining
        && (leb r.hdr (r.rta_len p) && (leb (r.rta_len p) remaining && leb r.hdr (length p))) in
      let e' = rw (laws.next_lem, laws.ok_lem) at e in
      elim (Bool-cases test) [
        | inl ok ↦
            let ahead : length (drop n p) < fuel =
              ground (arith, length-drop n p, laws.covers (r.rta_len p), laws.some_hdr) in
            ground
              (arith, cons_attr_enough (attr_at r p) _ (walk_enough (drop n p) fuel rest ahead))
        | inr bad ↦ ground arith
      ]
