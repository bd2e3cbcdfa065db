-- ===== src/Catalog/Process.antt =====
-- statApp/src/devstat.cpp on linStat.h and tblBase.cpp: a record from its link to its value.
use lin_stat.Base.{
  ℕ, ◌≡◌, refl, sym, ap, ◌∙◌, subst, true, List, [], ◌∷◌, Option, some, if◌then◌else◌, arith,
}
use lin_stat.Base.Text.{Bytes}
use lin_stat.Base.Dict.{Dict, lookup}
use lin_stat.Table.{StatTable, new_table, update_table, find_param}
use lin_stat.Table.Laws.{set_all, update_table_lem}
use lin_stat.Registry.{
  Gbl, Factory, ok, get_table, make_table, enter, first_update, no_tables, add_factory,
}
use lin_stat.Device.Link.{Attached, attach, init_record}
use lin_stat.Device.Link.Attach.{init_parsed}
use lin_stat.Device.Link.Shape.{IsLink}
use lin_stat.Device.Read.{Double}
use lin_stat.Device.Record.{Common}
use lin_stat.Device.Support.{
  Supported, bi_value, mbbi_value, mbbi_direct_value, li_value, i64_value, f64_value, ai_tbl_time,
  si_value, lsi_value, with_common, common_of, read_record, set_dpvt, init_reading,
}
use lin_stat.Device.Support.Payload.{payload, expected, payload-read_record}
use lin_stat.Device.Support.Status.{Settles, outcome, unattached, read_record_lem}
use lin_stat.Device.View.{Update, seen, seen_after, jobs, Shows, jobs-Shows}
use lin_stat.Catalog.{
  Klass, System, Updates, table_name, accepts, construct, factory_of, define_table, define_tables,
}
use lin_stat.Catalog.Known.{find_klass, lookup-define_tables}

module _ {F : Type 0} (sys : System) (updates : Updates F) where
  -- The registrars change the factories only.
  define_tables-keeps :
      (ks : List Klass) (g : Gbl F)
      → define_tables sys updates ks g
        ≡ record g { factories = (define_tables sys updates ks g).factories }
  unfolding define_tables add_factory
  define_tables-keeps [] g = refl
  define_tables-keeps (k ∷ ks) g = define_tables-keeps ks (define_table sys updates k g)

  abbrev made_of : Klass → Bytes → StatTable F
  made_of k inst = first_update (factory_of sys updates k) (new_table (table_name k) inst)

  fresh_lem :
      (fs : Dict (Factory F)) (store : ℕ → StatTable F) (name inst : Bytes) (f : Factory F)
      (tbl : StatTable F)
      → lookup name fs ≡ some f
      → f.construct inst ≡ some tbl
      → let r = get_table name inst (record (no_tables store) { factories = fs }) in
        (r.1 ≡ ok 0) × (r.0.store 0 ≡ first_update f tbl)
  unfolding get_table make_table enter
  fresh_lem fs store name inst f tbl e c = (ground arith, ground arith)

  constructed :
      (k : Klass) (inst : Bytes)
      → accepts sys k inst ≡ true
      → ◌≡◌ {A = Option (StatTable F)} (construct sys k inst) (some (new_table (table_name k) inst))
  unfolding construct
  constructed k inst a = rw a refl

  first_made :
      (ks : List Klass) (store : ℕ → StatTable F) (name inst : Bytes) (k : Klass)
      → find_klass name ks ≡ some k
      → accepts sys k inst ≡ true
      → let r = get_table name inst (define_tables sys updates ks (no_tables store)) in
        (r.1 ≡ ok 0) × (r.0.store 0 ≡ made_of k inst)
  unfolding factory_of construct
  first_made ks store name inst k e a =
      let known = lookup-define_tables sys updates name ks (no_tables store) in
      let made : ◌≡◌ {A = Option (StatTable F)} (construct sys k inst)
          (some (new_table (table_name k) inst)) =
        constructed k inst a in
      subst
        (λ (g : Gbl F).
          ((get_table name inst g).1 ≡ ok 0) × ((get_table name inst g).0.store 0 ≡ made_of k inst))
        (sym (define_tables-keeps ks (no_tables store)))
        (fresh_lem (define_tables sys updates ks (no_tables store)).factories store name inst
          (factory_of sys updates k) (new_table (table_name k) inst) (known ∙ rw e refl) made)

  -- What the first update() of a table sets is seen.
  made-Shows :
      (k : Klass) (inst : Bytes) (u : Update F)
      → updates k ≡ update_table (λ tr. (set_all u.sets tr, u.returned)) u.now
      → Shows (made_of k inst) (seen u)
  unfolding first_update factory_of find_param
  made-Shows k inst u e =
      let (values, time, _, _, _, _) =
        update_table_lem u.sets u.returned u.now (new_table (table_name k) inst) in
      record {
        value = λ n. ap (λ f. lookup n (f (new_table (table_name k) inst)).0.current) e ∙ values n;
        time = ap (λ f. (f (new_table (table_name k) inst)).0.current_time) e ∙ time;
      }

module _ (d : Double) where
  open d use {F}

  abbrev pub attached_to : Bytes → Supported F → Supported F
  attached_to p r = set_dpvt d (some (record { table = 0; param = p })) r

  common-with_common :
      {A : Type 0} (f : Common → A) (g : Common → Common) (r : Supported F)
      → common_of f (with_common g r) ≡ f (g (common_of (λ c. c) r))
  common-with_common f g (bi_value r) = refl
  common-with_common f g (mbbi_value r) = refl
  common-with_common f g (mbbi_direct_value r) = refl
  common-with_common f g (li_value r) = refl
  common-with_common f g (i64_value r) = refl
  common-with_common f g (f64_value r) = refl
  common-with_common f g (ai_tbl_time r) = refl
  common-with_common f g (si_value r) = refl
  common-with_common f g (lsi_value r) = refl

  initialised :
      (s : Bytes) (r : Supported F) (g : Gbl F) {h : Gbl F} {a : Attached}
      → init_record s g ≡ (h, some a)
      → init_reading d s r g ≡ (h, set_dpvt d (some a) r, some a, some 0)
  unfolding init_reading
  initialised s r g e = rw e refl

  -- The first record on a table: its link names a class that has been registered, whose constructor
  -- takes the instance. It is attached to a new table; and read after any updates of that table, its
  -- RVAL, VAL, or buffer and length hold what its type makes of the value that the latest update set
  -- last for its parameter, or are as before if it set none that fits, and an ai record of the
  -- table's time holds the time of the latest update; with the alarm, the time and the status that
  -- go with this kind of value.
  pub processed_lem :
      (sys : System) (updates : Updates F) (ks : List Klass) (store : ℕ → StatTable F)
      (s f i p : Bytes) (r : Supported F) (k : Klass) (u : Update F) (us : List (Update F))
      → find_klass f ks ≡ some k
      → accepts sys k i ≡ true
      → updates k ≡ update_table (λ tr. (set_all u.sets tr, u.returned)) u.now
      → IsLink s f i p
      → let w = seen_after us (seen u) in
        let r' = attached_to p r in
        (h : Gbl F) × (init_reading d s r (define_tables sys updates ks (no_tables store))
          ≡ (h, r', some (record { table = 0; param = p }), some 0))
        × (t : StatTable F) × (jobs us (some (h.store 0)) ≡ some t)
        × Settles d (read_record d t r') (outcome r' (w.value p)) w.time (common_of (λ c. c) r')
        × (payload (read_record d t r').0 ≡ expected d w.time (w.value p) r')
  processed_lem sys updates ks store s f i p r k u us e a o l =
      let g = define_tables sys updates ks (no_tables store) in
      let w = seen_after us (seen u) in
      let r' = attached_to p r in
      let h = (get_table f i g).0 in
      let attach_p = λ (c : Common). record c { attached = true; param = p } in
      let (got, made) = first_made sys updates ks store f i k e a in
      let first = subst (λ x. Shows x (seen u)) (sym made) (made-Shows sys updates k i u o) in
      let (t, ran, shown) = jobs-Shows us (h.store 0) (seen u) first in
      let linked = init_parsed s f i p g l ∙ ap (attach p) (λ j. (h, got j)) in
      let is_attached = common-with_common (λ c. c.attached) attach_p r in
      let has_param = common-with_common (λ c. c.param) attach_p r in
      let found =
        ap (λ b. if b then outcome r' (find_param (common_of (λ c. c.param) r') t) else unattached)
          is_attached
        ∙ ap (λ q. outcome r' (find_param q t)) has_param
        ∙ ap (outcome r') (shown.value p) in
      (
        h,
        initialised s r g linked,
        t,
        ran,
        subst
            (λ now.
              Settles d (read_record d t r') (outcome r' (w.value p)) now (common_of (λ c. c) r'))
            shown.time
            (subst (λ x. Settles d (read_record d t r') x t.current_time (common_of (λ c. c) r'))
              found (read_record_lem d t r')),
        payload-read_record d t r' is_attached
            ∙ ap (λ q. expected d t.current_time (find_param q t) r') has_param
            ∙ ap (λ v. expected d t.current_time v r') (shown.value p)
            ∙ ap (λ now. expected d now (w.value p) r') shown.time,
      )
