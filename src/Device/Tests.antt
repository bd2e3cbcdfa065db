-- ===== src/Device/Tests.antt =====
-- statApp/src/devstat.cpp: records that read a table.
use lin_stat.Base.{
  ℕ, ◌+◌, ◌*◌, not, ◌==◌, ◌≡◌, refl, Bool, true, false, some, List, [], ◌∷◌, arith, length,
}
use lin_stat.Base.Text.{Bytes, codes}
use lin_stat.Base.Buffer.{c_str}
use lin_stat.Base.Dict.{lookup}
use lin_stat.Table.{text, int, StatTable, Body, find_param}
use lin_stat.Device.Record.{Common, BitsRecord, IntRecord, TextRecord}
use lin_stat.Device.Read.{bits_of, int_of, text_of, fill_egu, get_rval, get_val, get_si, get_lsi}
use lin_stat.Device.Read.{Double}
use lin_stat.Device.Record.{FloatRecord}
use lin_stat.Device.Support.{f64_value, read_record}
use lin_stat.Device.Support.Status.{Settles, outcome, unfit, read_record_lem}
use lin_stat.Device.Scan.{error, success, scan_jobs}
use lin_stat.Device.Laws.{IntRead, BitsRead, get_integer_lem, Holds, get_text_lem}
use lin_stat.Device.Log.{Alternates, scan_jobs-Alternates}
use lin_stat.Device.View.{View, Update, Shows, seen_after, jobs, jobs_lem}

abbrev table : StatTable ℕ
table = record {
  fact = codes "host";
  inst = codes "localhost";
  last_ok = true;
  current =
      (codes "ncpu", int 4294967300 (codes "cpu")) ∷ (codes "sysname", text (codes "Linux")) ∷ [];
  current_time = 9;
  posted = [];
}

abbrev reads : Bytes → Common
reads param = record { attached = true; param = param; device_time = true; time = 0; alarms = [] }

abbrev long_in : IntRecord
long_in = record {
  common = reads (codes "ncpu");
  val = 0;
  width = 32;
  egu = 0 ∷ 0 ∷ 0 ∷ 0 ∷ [];
  posted = 0;
}

long_in_runs :
    ((get_val table long_in).0.val ≡ 4)
    × ((get_val table long_in).0.egu ≡ b'c' ∷ b'p' ∷ b'u' ∷ 0 ∷ [])
unfolding get_val lookup fill_egu
long_in_runs = (refl, refl)

abbrev bits : BitsRecord
bits = record { common = reads (codes "sysname"); rval = 3; mask = 1 }

get_integer_lem_example :
    IntRead 9 (find_param (codes "ncpu") table) long_in (get_val table long_in).0
    × BitsRead 9 (find_param (codes "sysname") table) bits (get_rval table bits).0
get_integer_lem_example = get_integer_lem table long_in bits

abbrev string_in : TextRecord
string_in = record { common = reads (codes "sysname"); val = 7 ∷ 7 ∷ 7 ∷ 7 ∷ []; len = 0 }

get_text_lem_example :
    Holds (codes "Linux") string_in (get_si table string_in).0
    × Holds (codes "Linux") string_in (get_lsi table string_in).0
    × ((get_lsi table string_in).0.len ≡ length (c_str (get_lsi table string_in).0.val))
unfolding find_param lookup
get_text_lem_example =
    get_text_lem table string_in (codes "Linux") refl refl (omega arith) (omega arith)

-- An update that fails, and one that does not.
abbrev job_outcome : Bool → Body ℕ × ℕ
job_outcome returned = ((λ tr. (tr, returned)), 1)

abbrev outcomes : List (Body ℕ × ℕ)
outcomes = job_outcome false ∷ job_outcome false ∷ job_outcome true ∷ []

scan_jobs-Alternates_example :
    (scan_jobs outcomes (some table) ≡ error ∷ success ∷ [])
    × Alternates true (scan_jobs outcomes (some table))
scan_jobs-Alternates_example = scan_jobs-Alternates outcomes table

-- Two updates, the second of which sets a name twice, leaves one out and throws.
abbrev updates : List (Update ℕ)
updates =
    record { sets = (codes "sysname", text (codes "Old")) ∷ []; returned = true; now = 10 }
    ∷ record {
      sets = (codes "ncpu", int 1 []) ∷ (codes "ncpu", int 2 []) ∷ [];
      returned = false;
      now = 11;
    }
    ∷ []

abbrev at_first : View ℕ
at_first = record { value = λ k. find_param k table; time = 9 }

abbrev later : View ℕ
later = seen_after updates at_first

jobs_lem_example :
    (t : StatTable ℕ) × (jobs updates (some table) ≡ some t)
    × Shows t later
    × (get_val t long_in ≡ int_of later.time long_in (later.value (codes "ncpu")))
    × (get_rval t bits ≡ bits_of later.time bits (later.value (codes "sysname")))
    × (get_si t string_in ≡ text_of false later.time string_in (later.value (codes "sysname")))
    × (get_lsi t string_in ≡ text_of true later.time string_in (later.value (codes "sysname")))
jobs_lem_example =
    jobs_lem updates table at_first long_in bits string_in
      (record { value = λ k. refl; time = refl }) refl refl refl

-- Doubles as whole numbers.
abbrev whole : Double
whole = record {
  F = ℕ;
  mul = λ a b. a * b;
  add = λ a b. a + b;
  nonzero = λ a. not (a == 0);
  of_time = λ t. t;
}

abbrev analog : FloatRecord ℕ
analog = record {
  common = reads (codes "sysname");
  rval = 0;
  val = 0;
  aslo = 0;
  aoff = 0;
  eslo = 0;
  eoff = 0;
}

-- A text in an ai record: an alarm, and the status of success.
read_record_lem_example :
    Settles whole
      (read_record whole table (f64_value analog))
      (outcome (f64_value analog) (find_param (codes "sysname") table))
      9
      (reads (codes "sysname"))
read_record_lem_example = read_record_lem whole table (f64_value analog)

wrong_type_runs : outcome (f64_value analog) (find_param (codes "sysname") table) ≡ unfit
unfolding find_param lookup
wrong_type_runs = refl
