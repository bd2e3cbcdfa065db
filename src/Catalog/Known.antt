-- ===== src/Catalog/Known.antt =====
-- statApp/src/linStat.h, tblBase.cpp: which tables the registry makes once the registrars have run.
use lin_stat.Base.{
  ◌≡◌, refl, sym, ap, ◌∙◌, inl, inr, Bool, false, List, [], ◌∷◌, Option, none, some, if◌then◌else◌,
  Bool-cases, arith,
}
use mathlib.Core.Option.{some-injective}
use lin_stat.Base.Text.{Bytes, bytes_eq, bytes_eq_iff}
use lin_stat.Base.Dict.{lookup, lookup-insert}
use lin_stat.Registry.{Factory, Gbl, add_factory}
use lin_stat.Catalog.{
  Klass, klasses, table_name, System, Updates, accepts, factory_of, define_table, define_tables,
  ethtool_table, host_table, hwmon_table, if_stat_table, irq_table, mem_info_table, netstat_table,
  pid_table, fd_table, mall_info_table, pdb_table, proc_stat_table, proc_status_table,
  sys_stat_table, stat_vfs_table, uptime_table, rtc_table,
}

-- The class of a name.
abbrev pub find_klass : Bytes → List Klass → Option Klass
find_klass name [] = none
find_klass name (k ∷ ks) = if bytes_eq (table_name k) name then some k else find_klass name ks

-- No two classes have one name.
pub find_klass-table_name : (k : Klass) → find_klass (table_name k) klasses ≡ some k
find_klass-table_name ethtool_table = refl
find_klass-table_name host_table = refl
find_klass-table_name hwmon_table = refl
find_klass-table_name if_stat_table = refl
find_klass-table_name irq_table = refl
find_klass-table_name mem_info_table = refl
find_klass-table_name netstat_table = refl
find_klass-table_name pid_table = refl
find_klass-table_name fd_table = refl
find_klass-table_name mall_info_table = refl
find_klass-table_name pdb_table = refl
find_klass-table_name proc_stat_table = refl
find_klass-table_name proc_status_table = refl
find_klass-table_name sys_stat_table = refl
find_klass-table_name stat_vfs_table = refl
find_klass-table_name uptime_table = refl
find_klass-table_name rtc_table = refl

table_name_injective : (j k : Klass) → table_name j ≡ table_name k → j ≡ k
table_name_injective j k e =
    some-injective j k
      (sym (find_klass-table_name j) ∙ ap (λ n. find_klass n klasses) e ∙ find_klass-table_name k)

find_klass_sound :
    (name : Bytes) (ks : List Klass) (k : Klass) → find_klass name ks ≡ some k → table_name k ≡ name
find_klass_sound name [] k e = cc
find_klass_sound name (j ∷ ks) k e = elim (Bool-cases (bytes_eq (table_name j) name)) [
  | inl b ↦
      ap table_name (sym (some-injective j k (rw b at e))) ∙ (bytes_eq_iff (table_name j) name).0 b
  | inr b ↦ find_klass_sound name ks k (rw b at e)
]

-- Whether there is a class of the name whose constructor takes the instance.
abbrev pub accepted : System → Option Klass → Bytes → Bool
accepted sys none inst = false
accepted sys (some k) inst = accepts sys k inst

unfoldable pub can_make : System → List Klass → Bytes → Bytes → Bool
can_make sys ks name inst = accepted sys (find_klass name ks) inst

module _ {F : Type 0} (sys : System) (updates : Updates F) where
  abbrev pub factory_at : Option Klass → Option (Factory F) → Option (Factory F)
  factory_at none before = before
  factory_at (some k) before = some (factory_of sys updates k)

  factory_defined :
      (name : Bytes) (k : Klass) (o : Option Klass) (before : Option (Factory F))
      → ((j : Klass) → o ≡ some j → table_name j ≡ name)
      → factory_at o
          (if bytes_eq (table_name k) name then some (factory_of sys updates k) else before)
        ≡ factory_at (if bytes_eq (table_name k) name then some k else o) before
  factory_defined name k none before h = ground arith
  factory_defined name k (some j) before h = elim (Bool-cases (bytes_eq (table_name k) name)) [
    | inl b ↦
        let same =
          table_name_injective j k (h j refl ∙ sym ((bytes_eq_iff (table_name k) name).0 b)) in
        rw (b, same) refl
    | inr b ↦ rw b refl
  ]

  pub lookup-define_tables :
      (name : Bytes) (ks : List Klass) (g : Gbl F)
      → lookup name (define_tables sys updates ks g).factories
        ≡ factory_at (find_klass name ks) (lookup name g.factories)
  unfolding define_tables add_factory
  lookup-define_tables name [] g = refl
  lookup-define_tables name (k ∷ ks) g =
      lookup-define_tables name ks (define_table sys updates k g)
      ∙ ap (factory_at (find_klass name ks))
          (lookup-insert (table_name k) name (factory_of sys updates k) g.factories)
      ∙ factory_defined name k (find_klass name ks) (lookup name g.factories)
          (find_klass_sound name ks)
