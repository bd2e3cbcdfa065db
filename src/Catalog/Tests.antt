-- ===== src/Catalog/Tests.antt =====
-- statApp/src/linStat.h: the classes of a small host, and a record on the interrupt table.
use lin_stat.Base.{some, ℕ, ◌+◌, ◌*◌, not, ◌==◌, ◌≡◌, refl, true, false, List, [], ◌∷◌, none}
use lin_stat.Base.Text.{codes}
use lin_stat.Table.{new_table, update_table, int, StatTable}
use lin_stat.Registry.{Gbl, Call, gets, drops, calls, no_tables}
use lin_stat.Device.Link.{init_record}
use lin_stat.Device.Link.Shape.{IsLink, escaped_plain, escaped_end}
use lin_stat.Tables.Ethtool.{listed}
use lin_stat.Tables.Pdb.{no_pdb}
use lin_stat.Tables.IfStat.Linux.{linux}
use lin_stat.Device.Read.{Double}
use lin_stat.Device.Support.{Supported, li_value, read_record, init_reading}
use lin_stat.Device.Support.Payload.{payload, int_payload}
use lin_stat.Device.Support.Status.{Settles, good}
use lin_stat.Device.View.{Update, jobs}
use lin_stat.Table.Laws.{set_all}
use lin_stat.Catalog.Process.{attached_to, processed_lem}
use lin_stat.Catalog.{irq_table, System, Updates, klasses, accepts, define_tables, is_some}
use lin_stat.Catalog.Known.{can_make}
use lin_stat.Catalog.Attach.{attached_lem}

abbrev host : System
host = record {
  socket = true;
  ifnamsiz = 16;
  driver = λ inst. none;
  stat_strings = λ inst. listed [];
  handshake = λ inst. none;
  netlink = linux;
  types = [];
  ioc = no_pdb;
}

abbrev idle : Updates ℕ
idle k tbl = (tbl, true)

pid_runs : can_make host klasses (codes "pid") (codes "self") ≡ true
unfolding can_make accepts
pid_runs = refl

other_runs : can_make host klasses (codes "pid") (codes "1") ≡ false
unfolding can_make accepts
other_runs = refl

long_name_runs : can_make host klasses (codes "ethtool") (codes "a-name-of-16-byt") ≡ false
unfolding can_make accepts
long_name_runs = refl

no_class_runs : can_make host klasses (codes "cpu") (codes "any") ≡ false
unfolding can_make accepts
no_class_runs = refl

abbrev uses : List (Call ℕ)
uses = gets (codes "irq") (codes "a") ∷ drops 0 ∷ gets (codes "pid") (codes "1") ∷ []

irq_IsLink : IsLink (codes "irq|a|n") (codes "irq") (codes "a") (codes "n")
irq_IsLink = record {
  tail = [];
  text = refl;
  factory = ((refl, (refl, (refl, tt))), refl);
  inst = escaped_plain refl escaped_end;
  param = ((refl, tt), refl);
  ends = tt;
}

attached_lem_example :
    is_some
      (init_record
        (codes "irq|a|n")
        (calls uses (define_tables host idle klasses (no_tables (λ i. new_table [] []))))).1
    ≡ can_make host klasses (codes "irq") (codes "a")
attached_lem_example =
    attached_lem host idle klasses (λ i. new_table [] []) uses (codes "irq|a|n") (codes "irq")
      (codes "a") (codes "n") (tt, (tt, (tt, tt))) irq_IsLink

-- A record of integers on the interrupt table, whose update() sets the total.
abbrev total_set : ℕ → Update ℕ
total_set n = record { sets = (codes "n", int n []) ∷ []; returned = true; now = n }

abbrev counting : Updates ℕ
counting k = update_table (λ tr. (set_all (total_set 5).sets tr, true)) 5

abbrev whole : Double
whole = record {
  F = ℕ;
  mul = λ a b. a * b;
  add = λ a b. a + b;
  nonzero = λ a. not (a == 0);
  of_time = λ t. t;
}

abbrev fresh_record : Supported ℕ
fresh_record = li_value (record {
  common = record { attached = false; param = []; device_time = true; time = 0; alarms = [] };
  val = 0;
  width = 32;
  egu = [];
  posted = 0;
})

accepted : accepts host irq_table (codes "a") ≡ true
unfolding accepts
accepted = refl

processed_lem_example :
    (h : Gbl ℕ) × (init_reading whole
        (codes "irq|a|n")
        fresh_record
        (define_tables host counting klasses (no_tables (λ i. new_table [] [])))
      ≡ (
        h,
        attached_to whole (codes "n") fresh_record,
        some (record { table = 0; param = codes "n" }),
        some 0,
      ))
    × (t : StatTable ℕ) × (jobs (total_set 8 ∷ []) (some (h.store 0)) ≡ some t)
    × Settles whole
        (read_record whole t (attached_to whole (codes "n") fresh_record))
        (good 0)
        8
        (record { attached = true; param = codes "n"; device_time = true; time = 0; alarms = [] })
    × (payload (read_record whole t (attached_to whole (codes "n") fresh_record)).0 ≡ int_payload 8)
processed_lem_example =
    processed_lem whole host counting klasses (λ i. new_table [] []) (codes "irq|a|n") (codes "irq")
      (codes "a") (codes "n") fresh_record irq_table (total_set 5) (total_set 8 ∷ []) refl accepted
      refl irq_IsLink
