-- ===== src/Tables/IfStat/Shown.antt =====
-- statApp/src/tblIFStat.cpp: the table after a reply.
use lin_stat.Base.{if◌then◌else◌, ℕ, ◌≡◌, refl, ap, ◌∙◌, List, [], ◌∷◌, none, some, true, arith}
use lin_stat.Base.Text.{Bytes, codes, bytes_eq}
use lin_stat.Base.Dict.{lookup, insert, lookup-insert}
use lin_stat.Reactor.State.{Msg}
use lin_stat.Table.{
  Value, text, int, StatTable, Transaction, set_value, set_int, set_text, begin, commit, find_param,
}
use lin_stat.Tables.IfStat.Attributes.{Attr}
use lin_stat.Tables.IfStat.Message.{
  Netlink, NetlinkLaws, stat_names, set_each, set_attr, set_attrs, show_reply, is_newlink,
}
use lin_stat.Tables.IfStat.Reply.{message, IsReply, digested_by, show-message}
use lin_stat.Tables.IfStat.Fields.{
  Field, IsField, field_name, last_said, all_differ, kinds, shown, put, lookup-set_attr,
  lookup-set_attrs, apart_name, counter, state_field, carrier_field, mode_field, up_field,
  down_field, mtu_field,
}

-- The two fields that no attribute gives.
data Own : Type 0 where
  name_field flags_field : Own

abbrev own_name : Own → Bytes
own_name name_field = codes "name"
own_name flags_field = codes "if_flags"

module _ (nl : Netlink) {F : Type 0} where
  kept_by_attr :
      (o : Own) (a : Attr) (tr : Transaction F)
      → lookup (own_name o) (set_attr nl a tr).next ≡ lookup (own_name o) tr.next
  unfolding put
  kept_by_attr name_field a tr = ground (arith, lookup-set_attr nl (codes "name") a tr)
  kept_by_attr flags_field a tr = ground (arith, lookup-set_attr nl (codes "if_flags") a tr)

  kept_lem :
      (o : Own) (as' : List Attr) (tr : Transaction F)
      → lookup (own_name o) (set_attrs nl as' tr).next ≡ lookup (own_name o) tr.next
  unfolding set_attrs
  kept_lem o [] tr = refl
  kept_lem o (a ∷ as') tr = kept_lem o as' (set_attr nl a tr) ∙ kept_by_attr o a tr

  nothing_before :
      (f : Field) (v w : Value F)
      → IsField f
      → lookup (field_name f) (insert (codes "if_flags") v (insert (codes "name") w [])) ≡ none
  unfolding lookup insert
  nothing_before (counter name) v w h =
      lookup-insert (codes "if_flags") name v (insert (codes "name") w [])
      ∙ ap (λ x. if bytes_eq (codes "if_flags") name then some v else x)
          (lookup-insert (codes "name") name w [])
      ∙ simp (apart_name (codes "if_flags") name refl h, apart_name (codes "name") name refl h)
  nothing_before state_field v w h = refl
  nothing_before carrier_field v w h = refl
  nothing_before mode_field v w h = refl
  nothing_before up_field v w h = refl
  nothing_before down_field v w h = refl
  nothing_before mtu_field v w h = refl

  time-set_each :
      (stats : Bytes → ℕ) (names : List Bytes) (tr : Transaction F)
      → (set_each stats names tr).next_time ≡ tr.next_time
  unfolding set_each set_int set_value
  time-set_each stats [] tr = refl
  time-set_each stats (n ∷ names) tr = time-set_each stats names (set_int n (stats n) [] tr)

  time-set_attr : (a : Attr) (tr : Transaction F) → (set_attr nl a tr).next_time ≡ tr.next_time
  unfolding set_attr set_int set_value
  time-set_attr a tr = ground (arith, time-set_each (λ (n : Bytes). nl.stat n a.body) stat_names tr)

  time_kept :
      (as' : List Attr) (tr : Transaction F) → (set_attrs nl as' tr).next_time ≡ tr.next_time
  unfolding set_attrs
  time_kept [] tr = refl
  time_kept (a ∷ as') tr = time_kept as' (set_attr nl a tr) ∙ time-set_attr a tr

  -- A reply of the kernel's, with the attributes `as'`, whatever lies behind it: afterwards the
  -- table shows the name of the interface, the flags, and of each other field `f` what the last of
  -- the attributes says that has its number and bytes enough, or nothing; with the time of the reply.
  pub show_reply_lem :
      (inst : Bytes) (now : ℕ) (m : Msg) (flags if_flags : ℕ) (as' : List Attr) (p : Bytes)
      (tbl : StatTable F) (f : Field)
      → NetlinkLaws nl
      → all_differ (kinds nl) ≡ true
      → IsReply nl m if_flags as'
      → m.kind ≡ nl.new_link
      → IsField f
      → (tbl' : StatTable F) × (show_reply nl inst now (message nl m flags if_flags as' p) tbl
          ≡ some tbl')
        × (tbl'.current_time ≡ now)
        × (find_param (codes "name") tbl' ≡ some (text inst))
        × (find_param (codes "if_flags") tbl' ≡ some (int if_flags []))
        × (find_param (field_name f) tbl' ≡ shown (last_said nl f as') none)
  unfolding show_reply is_newlink find_param commit begin set_int set_text set_value lookup insert
  show_reply_lem inst now m flags if_flags as' p tbl f laws d h k i =
      let tr = set_int (codes "if_flags") if_flags [] (set_text (codes "name") inst (begin now)) in
      (
        commit (digested_by nl inst if_flags as' (begin now)) tbl,
        show-message nl laws inst now m flags if_flags as' p tbl h k,
        time_kept as' tr,
        kept_lem name_field as' tr,
        kept_lem flags_field as' tr,
        lookup-set_attrs nl f as' tr d i
            ∙ ap (shown (last_said nl f as')) (nothing_before f (int if_flags []) (text inst) i),
      )
