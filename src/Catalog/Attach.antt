-- ===== src/Catalog/Attach.antt =====
-- statApp/src/devstat.cpp on linStat.h and tblBase.cpp: which records find a table.
use lin_stat.Base.{
  ℕ, ◌≡◌, refl, sym, ap, ◌∙◌, inl, inr, Bool, true, false, List, [], ◌∷◌, Option, none, some,
  Bool-cases, Option-cases, arith,
}
use lin_stat.Base.Text.{Bytes}
use lin_stat.Base.Dict.{lookup}
use lin_stat.Table.{StatTable}
use lin_stat.Registry.{
  Gbl, Key, Call, Result, adds, gets, drops, ok, err, call, calls, get_table, erase_key, drop_table,
  make_table, enter, find_key, no_tables, add_factory,
}
use lin_stat.Registry.Sharing.{key_eq_iff, find-erase_key, find-insert_key}
use lin_stat.Device.Link.{Attached, attach, init_record}
use lin_stat.Device.Link.Attach.{init_parsed}
use lin_stat.Device.Link.Shape.{IsLink}
use lin_stat.Catalog.{
  Klass, System, Updates, construct, factory_of, define_table, define_tables, is_some,
}
use lin_stat.Catalog.Known.{find_klass, can_make, factory_at, lookup-define_tables}

-- What records do: they look tables up and drop them; no registrar runs any more.
abbrev pub IsUse : {F : Type 0} → Call F → Type 0
IsUse (adds name f) = ⊥
IsUse _ = Unit {0}

abbrev pub AllUses : {F : Type 0} → List (Call F) → Type 0
AllUses [] = Unit {0}
AllUses (c ∷ cs) = IsUse c × AllUses cs

abbrev is_ok {ℓ} : {A : Type ℓ} → Result A → Bool
is_ok (ok a) = true
is_ok (err e) = false

module _ {F : Type 0} (sys : System) (updates : Updates F) (ks : List Klass) where
  -- The factories are those of the classes, and the tables are such as these make.
  record Inv (g : Gbl F) : Type 0 where
    factories :
        (name : Bytes) → lookup name g.factories ≡ factory_at sys updates (find_klass name ks) none
    tables :
        (name inst : Bytes) (i : ℕ)
        → find_key (name, inst) g.tables ≡ some i
        → can_make sys ks name inst ≡ true

  make_table_lem :
      (name inst : Bytes) (g : Gbl F)
      → Inv g
      → is_ok (make_table name inst g).1 ≡ can_make sys ks name inst
  unfolding make_table factory_of construct can_make
  make_table_lem name inst g v = elim (Option-cases (find_klass name ks)) [
    | inl e ↦ ground (arith, v.factories name)
    | inr (k, e) ↦ ground (arith, v.factories name)
  ]

  erased-Inv : (k : Key) (g : Gbl F) → Inv g → Inv (record g { tables = erase_key k g.tables })
  erased-Inv k g v = record {
    factories = v.factories;
    tables = λ name inst i e.
        ground (arith, v.tables name inst i, find-erase_key k (name, inst) g.tables);
  }

  -- A lookup succeeds exactly where a class of the name takes the instance.
  get_table_lem :
      (name inst : Bytes) (g : Gbl F)
      → Inv g
      → is_ok (get_table name inst g).1 ≡ can_make sys ks name inst
  unfolding get_table
  get_table_lem name inst g v =
      let erased = record g { tables = erase_key (name, inst) g.tables } in
      elim (Option-cases (find_key (name, inst) g.tables)) [
        | inl e ↦ ground (arith, make_table_lem name inst g v)
        | inr (i, e) ↦ ground (
          arith,
          v.tables name inst i,
          make_table_lem name inst erased (erased-Inv (name, inst) g v),
        )
      ]

  make_table-Inv :
      (name inst : Bytes) (g : Gbl F)
      → find_key (name, inst) g.tables ≡ none
      → Inv g
      → Inv (make_table name inst g).0
  unfolding make_table enter
  make_table-Inv name inst g n v = record {
    factories = λ other. ground (arith, v.factories other);
    tables = λ name' inst' i e. ground (
      arith,
      v.tables name' inst' i,
      make_table_lem name inst g v,
      find-insert_key (name, inst) (name', inst') g.next_table g.tables n,
      key_eq_iff (name, inst) (name', inst'),
    );
  }

  none_erased : (k : Key) (m : List (Key × ℕ)) → find_key k (erase_key k m) ≡ none
  none_erased k m = ground (arith, find-erase_key k k m, key_eq_iff k k)

  get_table-Inv : (name inst : Bytes) (g : Gbl F) → Inv g → Inv (get_table name inst g).0
  unfolding get_table
  get_table-Inv name inst g v =
      let key : Key = (name, inst) in
      let erased = record g { tables = erase_key key g.tables } in
      elim (Option-cases (find_key key g.tables)) [
        | inl e ↦ rw (e, get_table) (make_table-Inv name inst g e v)
        | inr (i, e) ↦ elim (Bool-cases (g.live i)) [
          | inl b ↦ rw (e, b, get_table) v
          | inr b ↦
              rw (e, b, get_table)
                (make_table-Inv name inst erased (none_erased key g.tables) (erased-Inv key g v))
        ]
      ]

  calls-Inv : (cs : List (Call F)) (g : Gbl F) → AllUses cs → Inv g → Inv (calls cs g)
  unfolding calls call
  calls-Inv [] g u v = v
  calls-Inv (adds name f ∷ cs) g u v = elim u.0 [ ]
  calls-Inv (gets name inst ∷ cs) g u v =
      calls-Inv cs (get_table name inst g).0 u.1 (get_table-Inv name inst g v)
  calls-Inv (drops i ∷ cs) g u v =
      calls-Inv cs (drop_table i g) u.1 (record { factories = v.factories; tables = v.tables })

  tables-define_tables :
      (cs : List Klass) (g : Gbl F) → (define_tables sys updates cs g).tables ≡ g.tables
  unfolding define_tables add_factory
  tables-define_tables [] g = refl
  tables-define_tables (k ∷ cs) g = tables-define_tables cs (define_table sys updates k g)

  nothing_found : (k : Key) (i : ℕ) → ¬ (find_key k [] ≡ some i)
  nothing_found k i e = cc

  attach_lem : (p : Bytes) (r : Gbl F × Result ℕ) → is_some (attach p r).1 ≡ is_ok r.1
  attach_lem p (g, ok i) = refl
  attach_lem p (g, err e) = refl

  -- Once the registrars of the classes `ks` have run on an empty registry, and records have looked
  -- up and dropped tables in any order, a record whose link names a factory and an instance is
  -- attached exactly where a class of that name is among them and its constructor takes the
  -- instance.
  pub attached_lem :
      (store : ℕ → StatTable F) (cs : List (Call F)) (s f i p : Bytes)
      → AllUses cs
      → IsLink s f i p
      → is_some (init_record s (calls cs (define_tables sys updates ks (no_tables store)))).1
        ≡ can_make sys ks f i
  unfolding lookup
  attached_lem store cs s f i p u l =
      let g = define_tables sys updates ks (no_tables store) in
      let none_yet = tables-define_tables ks (no_tables store) in
      let begun : Inv g = record {
        factories = λ name. lookup-define_tables sys updates name ks (no_tables store);
        tables = λ name inst j e.
            absurd (nothing_found (name, inst) j (ap (find_key (name, inst)) (sym none_yet) ∙ e));
      } in
      ap (λ (r : Gbl F × Option Attached). is_some r.1) (init_parsed s f i p (calls cs g) l)
      ∙ attach_lem p (get_table f i (calls cs g))
      ∙ get_table_lem f i (calls cs g) (calls-Inv cs g u begun)
