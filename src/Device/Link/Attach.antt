-- ===== src/Device/Link/Attach.antt =====
-- statApp/src/devstat.cpp: records that attach to tables of the registry.
use lin_stat.Base.{ℕ, ◌≡◌, ◌≢◌, sym, ap, ◌∙◌, true, List, some, arith}
use lin_stat.Base.Text.{Bytes}
use lin_stat.Table.{StatTable}
use lin_stat.Registry.{Gbl, Call, Key, Result, calls, no_tables, get_table, ok, err}
use lin_stat.Registry.Sharing.{get_table_again, get_table_apart}
use lin_stat.Device.Link.{Attached, attach, init_from, init_record}
use lin_stat.Device.Link.Shape.{IsLink, parse_link_lem}

module _ {F : Type 0} where
  pub init_parsed :
      (s f i p : Bytes) (g : Gbl F) → IsLink s f i p → init_record s g ≡ attach p (get_table f i g)
  unfolding init_record
  init_parsed s f i p g l = ap (λ o. init_from o g) ((parse_link_lem s f i p).1 l)

  attached_ok :
      (p : Bytes) (r : Gbl F × Result ℕ) (h : Gbl F) (a : Attached)
      → attach p r ≡ (h, some a)
      → (r ≡ (h, ok a.table)) × (a.param ≡ p)
  attached_ok p (g, ok j) h a e = ground arith
  attached_ok p (g, err x) h a e = cc

  -- After any calls of the registry: records that name the same factory and instance share a
  -- table. After the first is attached, the second gets the same live table with a parameter of its
  -- own, and the registry does not change, so no second table is made. A record that names another
  -- factory or instance, if it is attached, gets another table.
  pub init_record_shares :
      (store : ℕ → StatTable F) (cs : List (Call F)) (s s' s'' f i p p' f' i' p'' : Bytes)
      (h k : Gbl F) (a b : Attached)
      → IsLink s f i p
      → IsLink s' f i p'
      → IsLink s'' f' i' p''
      → init_record s (calls cs (no_tables store)) ≡ (h, some a)
      → init_record s'' h ≡ (k, some b)
      → ¬ (◌≡◌ {A = Key} (f, i) (f', i'))
      → (init_record s' h ≡ (h, some (record { table = a.table; param = p' })))
        × (a.param ≡ p)
        × (h.live a.table ≡ true)
        × (a.table ≢ b.table)
  init_record_shares store cs s s' s'' f i p p' f' i' p'' h k a b l l' l'' e e' other =
      let g = calls cs (no_tables store) in
      let (got, param) = attached_ok p (get_table f i g) h a (sym (init_parsed s f i p g l) ∙ e) in
      let (got', param') =
        attached_ok p'' (get_table f' i' h) k b (sym (init_parsed s'' f' i' p'' h l'') ∙ e') in
      let (again, live) = get_table_again f i g h a.table got in
      (
        init_parsed s' f i p' h l' ∙ ap (attach p') again,
        param,
        live,
        get_table_apart store cs f i f' i' h k a.table b.table got got' other,
      )
