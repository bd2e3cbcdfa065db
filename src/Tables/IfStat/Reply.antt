-- ===== src/Tables/IfStat/Reply.antt =====
-- statApp/src/tblIFStat.cpp: digest_newlink() on the messages of the kernel, and on others.
use lin_stat.Base.{
  ℕ, suc, ◌+◌, ◌-◌, ◌%◌, ◌^◌, ◌≤◌, ◌<◌, ◌≡◌, ◌≢◌, refl, sym, ap, ◌∙◌, List, [], ◌∷◌, ◌++◌, Bool,
  true, if◌then◌else◌, some, length, drop, length-append, append-nil, drop-append, length-drop,
  arith,
}
use lin_stat.Base.Text.{Bytes, codes}
use lin_stat.Reactor.State.{Msg}
use lin_stat.Table.{StatTable, Transaction, set_int, set_text, begin, commit}
use lin_stat.Tables.IfStat.Attributes.{
  Rta, RtaLaws, Attr, walked, overrun, out_of_fuel, cons_attr, walk, attrs_at, total, bare, padded,
  encode, Fits, AllFit,
}
use lin_stat.Tables.IfStat.Decode.{
  cons_attrs, walk-append, walk_ends, walk-bare, walk_enough, cons_attrs-walked, cons_attrs-overrun,
  length-padded, length-bare, again,
}
use lin_stat.Tables.IfStat.Message.{
  Netlink, NetlinkLaws, IsHeader, set_attrs, digest_newlink, show_reply, is_newlink, committed,
}

module _ (r : Rta) (laws : RtaLaws r) where
  -- The loop ends on every memory and every count of bytes: it reads attributes, or behind the end.
  pub attrs_at_ends : (p : Bytes) (remaining : ℕ) → attrs_at r p remaining ≢ out_of_fuel
  unfolding attrs_at
  attrs_at_ends p remaining = walk_enough r laws p (suc (length p)) remaining (omega arith)

  length-encode : (as' : List Attr) → length as' ≤ length (encode r as')
  length-encode [] = omega arith
  length-encode (a ∷ as') = omega (
    arith,
    length-append (padded r a) (encode r as'),
    length-padded r laws a,
    laws.covers (total r a),
    laws.some_hdr,
    length-encode as',
  )

  attrs_at-append :
      (as' : List Attr) (p : Bytes) (fuel remaining : ℕ)
      → AllFit r as'
      → length (encode r as') + remaining < 2 ^ 32
      → length as' + fuel ≡ suc (length (encode r as') + length p)
      → attrs_at r (encode r as' ++ p) (length (encode r as') + remaining)
        ≡ cons_attrs r laws as' (walk r fuel p remaining)
  unfolding attrs_at
  attrs_at-append as' p fuel remaining h b e =
      let turns : suc (length (encode r as' ++ p)) ≡ length as' + fuel =
        omega (arith, length-append (encode r as') p) in
      again r laws (encode r as' ++ p) turns refl ∙ walk-append r laws as' p fuel remaining h b

  -- The loop reads back the attributes that a message holds, and no more, whatever lies behind.
  pub attrs_at-encode :
      (as' : List Attr) (p : Bytes)
      → AllFit r as'
      → length (encode r as') < 2 ^ 32
      → attrs_at r (encode r as' ++ p) (length (encode r as')) ≡ walked as'
  attrs_at-encode as' p h b =
      let fuel = length (encode r as') + length p - length as' in
      let none_left : length (encode r as') + 0 ≡ length (encode r as') = omega arith in
      ap (attrs_at r (encode r as' ++ p)) (sym none_left)
      ∙ attrs_at-append as' p (suc fuel) 0 h (omega arith) (omega (arith, length-encode as'))
      ∙ ap (cons_attrs r laws as') (walk_ends r laws p fuel 0 laws.some_hdr)
      ∙ cons_attrs-walked r laws as'

  walk_past :
      (p : Bytes) (fuel remaining : ℕ)
      → r.hdr ≤ remaining
      → length p < r.hdr
      → walk r (suc fuel) p remaining ≡ overrun
  unfolding walk
  walk_past p fuel remaining h l = ground arith

  past_end :
      (a : Attr) (fuel : ℕ)
      → Fits r a
      → total r a < r.align (total r a)
      → walk r (suc (suc fuel)) (bare r a) (total r a) ≡ overrun
  past_end a fuel h u =
      let n = r.align (total r a) in
      let wrapped = (total r a + 2 ^ 32 - n) % 2 ^ 32 in
      let near : n ≤ total r a + 3 = laws.near (total r a) in
      let many : r.hdr ≤ wrapped = omega (arith, near, laws.small_hdr) in
      let few : length (drop n (bare r a ++ [])) < r.hdr = omega (
        arith,
        length-drop n (bare r a ++ []),
        length-append (bare r a) [],
        length-bare r laws a,
        laws.some_hdr,
      ) in
      ap (λ q. walk r (suc (suc fuel)) q (total r a)) (sym (append-nil (bare r a)))
      ∙ walk-bare r laws a [] (suc fuel) (total r a) h (omega arith)
      ∙ ap (cons_attr a) (walk_past (drop n (bare r a ++ [])) fuel wrapped many few)

  -- Where the last attribute of a message, at the end of the memory, lacks its padding, the count
  -- of bytes wraps around and the loop reads behind the memory.
  pub attrs_at-unpadded :
      (as' : List Attr) (a : Attr)
      → AllFit r as'
      → Fits r a
      → total r a < r.align (total r a)
      → length (encode r as') + total r a < 2 ^ 32
      → attrs_at r (encode r as' ++ bare r a) (length (encode r as') + total r a) ≡ overrun
  attrs_at-unpadded as' a h f u b =
      let fuel = length (encode r as') + total r a - length as' - 1 in
      attrs_at-append as' (bare r a) (suc (suc fuel)) (total r a) h b
        (omega (arith, length-encode as', length-bare r laws a, laws.some_hdr))
      ∙ ap (cons_attrs r laws as') (past_end a fuel f u)
      ∙ cons_attrs-overrun r laws as'

pub drop_front : (s t : Bytes) {n : ℕ} → length s ≡ n → drop n (s ++ t) ≡ t
drop_front s t e = ap (λ n. drop n (s ++ t)) (sym e) ∙ drop-append s t

-- A message of the kernel's: its header, the ifinfomsg, the attributes, and what lies behind.
abbrev pub message : Netlink → Msg → ℕ → ℕ → List Attr → Bytes → Bytes
message nl m flags if_flags as' p =
    nl.header m flags ++ (nl.info if_flags ++ (encode nl.rta as' ++ p))

abbrev pub IsReply : Netlink → Msg → ℕ → List Attr → Type 0
IsReply nl m if_flags as' =
    IsHeader m
    × (if_flags < 2 ^ 32)
    × (m.len ≡ nl.hdr_len + nl.info_len + length (encode nl.rta as'))
    × AllFit nl.rta as'

-- What a message with these attributes sets.
abbrev pub digested_by :
    {F : Type 0} → Netlink → Bytes → ℕ → List Attr → Transaction F → Transaction F
digested_by nl inst if_flags as' tr =
    set_attrs nl as' (set_int (codes "if_flags") if_flags [] (set_text (codes "name") inst tr))

module _ (nl : Netlink) (laws : NetlinkLaws nl) where
  message-is_newlink :
      (m : Msg) (flags if_flags : ℕ) (as' : List Attr) (p : Bytes)
      → IsReply nl m if_flags as'
      → m.kind ≡ nl.new_link
      → is_newlink nl (nl.read_header (message nl m flags if_flags as' p)) ≡ true
  unfolding is_newlink
  message-is_newlink m flags if_flags as' p h k =
      let body = nl.info if_flags ++ (encode nl.rta as' ++ p) in
      ap (is_newlink nl) (laws.read-header m flags body h.0) ∙ ground (arith, h.2)

module _ (nl : Netlink) (laws : NetlinkLaws nl) {F : Type 0} where
  pub digest-message :
      (inst : Bytes) (m : Msg) (flags if_flags : ℕ) (as' : List Attr) (p : Bytes)
      (tr : Transaction F)
      → IsReply nl m if_flags as'
      → digest_newlink nl inst (message nl m flags if_flags as' p) tr
        ≡ some (digested_by nl inst if_flags as' tr)
  unfolding digest_newlink
  digest-message inst m flags if_flags as' p tr h =
      let content = encode nl.rta as' ++ p in
      let body = nl.info if_flags ++ content in
      let count : (m.len + 2 ^ 32 - nl.hdr_len - nl.info_len) % 2 ^ 32
          ≡ length (encode nl.rta as') =
        omega (arith, h.0, h.2) in
      let count' =
        ap (λ (k : Msg). (k.len + 2 ^ 32 - nl.hdr_len - nl.info_len) % 2 ^ 32)
          (laws.read-header m flags body h.0)
        ∙ count in
      rw
        (
          count',
          drop_front (nl.header m flags) body (laws.length-header m flags),
          drop_front (nl.info if_flags) content (laws.length-info if_flags),
          laws.flags-info if_flags content h.1,
          attrs_at-encode nl.rta laws.rta as' p h.3 (omega (arith, h.0, h.2)),
        )
        refl

  pub show-message :
      (inst : Bytes) (now : ℕ) (m : Msg) (flags if_flags : ℕ) (as' : List Attr) (p : Bytes)
      (tbl : StatTable F)
      → IsReply nl m if_flags as'
      → m.kind ≡ nl.new_link
      → show_reply nl inst now (message nl m flags if_flags as' p) tbl
        ≡ some (commit (digested_by nl inst if_flags as' (begin now)) tbl)
  unfolding show_reply
  show-message inst now m flags if_flags as' p tbl h k =
      let q = message nl m flags if_flags as' p in
      ap
        (λ (b : Bool). if b then committed (digest_newlink nl inst q (begin now)) tbl else some tbl)
        (message-is_newlink nl laws m flags if_flags as' p h k)
      ∙ ap (λ o. committed o tbl) (digest-message inst m flags if_flags as' p (begin now) h)
