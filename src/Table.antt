-- ===== src/Table.antt =====
-- statApp/src/linStat.h and tblBase.cpp: a table of named values, and the transaction that
-- publishes a new set of them. Integers are kept as the 64 bits of an int64_t; `F` is double.
mod Tests
pub mod Laws
use lin_stat.Base.{ℕ, Bool, true, List, [], ◌∷◌, ◌++◌, Option}
use lin_stat.Base.Text.{Bytes}
use lin_stat.Base.Dict.{Dict, lookup, insert}

pub data Value (F : Type 0) : Type 0 where
  no_value : Value F
  text : Bytes → Value F
  int : ℕ → Bytes → Value F
  float : F → Bytes → Value F

-- The priorities of an I/O Intr scan.
pub data Priority : Type 0 where
  high_priority medium_priority low_priority : Priority

-- `posted` has the calls of scanIoImmediate() for the table's scan list, in order.
pub record StatTable (F : Type 0) : Type 0 where
  pub fact : Bytes
  pub inst : Bytes
  pub last_ok : Bool
  pub current : Dict (Value F)
  pub current_time : ℕ
  pub posted : List Priority

pub record Transaction (F : Type 0) : Type 0 where
  pub next : Dict (Value F)
  pub next_time : ℕ

-- The body of an update(): what it sets, and `true` if it returns, `false` if it throws.
abbrev pub Body : Type 0 → Type 0
Body F = Transaction F → Transaction F × Bool

module _ {F : Type 0} where
  -- StatTable::StatTable(): nothing is known yet.
  unfoldable pub new_table : Bytes → Bytes → StatTable F
  new_table fact inst = record {
    fact = fact;
    inst = inst;
    last_ok = true;
    current = [];
    current_time = 0;
    posted = [];
  }

  unfoldable pub begin : ℕ → Transaction F
  begin now = record { next = []; next_time = now }

  unfoldable pub set_value : Bytes → Value F → Transaction F → Transaction F
  set_value name v tr = record tr { next = insert name v tr.next }

  unfoldable pub set_int : Bytes → ℕ → Bytes → Transaction F → Transaction F
  unfolding set_value
  set_int name val egu tr = set_value name (int val egu) tr

  unfoldable pub set_float : Bytes → F → Bytes → Transaction F → Transaction F
  unfolding set_value
  set_float name val egu tr = set_value name (float val egu) tr

  unfoldable pub set_text : Bytes → Bytes → Transaction F → Transaction F
  unfolding set_value
  set_text name val tr = set_value name (text val) tr

  unfoldable pub set_nothing : Bytes → Transaction F → Transaction F
  unfolding set_value
  set_nothing name tr = set_value name no_value tr

  -- Transaction::~Transaction(), which also runs when update() throws.
  unfoldable pub commit : Transaction F → StatTable F → StatTable F
  commit tr tbl = record tbl {
    current = tr.next;
    current_time = tr.next_time;
    posted = tbl.posted ++ high_priority ∷ medium_priority ∷ low_priority ∷ [];
  }

  -- StatTable::lookup(param); `none` is the exception.
  unfoldable pub find_param : Bytes → StatTable F → Option (Value F)
  find_param param tbl = lookup param tbl.current

  -- update(): `true` if it returned, `false` if it threw.
  unfoldable pub update_table : Body F → ℕ → StatTable F → StatTable F × Bool
  unfolding begin commit
  update_table body now tbl = let (tr, ok) = body (begin now) in (commit tr tbl, ok)
