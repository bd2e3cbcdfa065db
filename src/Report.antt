-- ===== src/Report.antt =====
-- statApp/src/tblBase.cpp and nlreact.cpp: what linStatReport() prints, as lines.

mod Tests
use lin_stat.Base.{
  ℕ, ◌-◌, ◌^◌, Bool, false, List, [], ◌∷◌, ◌++◌, map, Option, none, some, if◌then◌else◌, length,
}
use lin_stat.Base.Text.{Bytes}
use lin_stat.Base.Int.{ℤ, pos, ltb_ℤ, int_of_bits}
use lin_stat.Reactor.State.{Pvt}
use lin_stat.Table.{Value, no_value, text, int, float, StatTable}
use lin_stat.Registry.{Gbl, factories_all, list_all}

pub data Line (F : Type 0) : Type 0 where
  reactor_line : Bool → ℕ → ℕ → ℕ → Line F
  factory_line : Bytes → Line F
  table_line : Bytes → Bytes → Line F
  int_line : Bytes → ℤ → Bytes → Line F
  float_line : Bytes → F → Bytes → Line F
  text_line : Bytes → Bytes → Line F
  unknown_line : Bytes → Line F

module _ {F : Type 0} where
  -- Reactor::report(): without a Pvt, the numbers are size_t(-1).
  unfoldable pub report_reactor : Option Pvt → Line F
  report_reactor none = reactor_line false (2 ^ 64 - 1) (2 ^ 64 - 1) (2 ^ 64 - 1)
  report_reactor (some s) =
      reactor_line s.running (length s.handlers) (length s.todo) (length s.ready)

  unfoldable pub value_line : Bytes × Value F → Line F
  value_line (name, int val egu) = int_line name (int_of_bits 64 val) egu
  value_line (name, float val egu) = float_line name val egu
  value_line (name, text val) = text_line name val
  value_line (name, no_value) = unknown_line name

  unfoldable pub table_lines : StatTable F → List (Line F)
  unfolding value_line
  table_lines tbl = table_line tbl.fact tbl.inst ∷ map value_line tbl.current

  unfoldable pub all_lines : (ℕ → StatTable F) → List ℕ → List (Line F)
  unfolding table_lines
  all_lines store [] = []
  all_lines store (i ∷ is) = table_lines (store i) ++ all_lines store is

  -- linStatReport()
  unfoldable pub report : ℤ → Option Pvt → Gbl F → List (Line F)
  unfolding report_reactor all_lines factories_all list_all
  report level reactor g =
      if ltb_ℤ level (pos 1)
      then report_reactor reactor ∷ []
      else map factory_line (factories_all g)
        ++ (if ltb_ℤ level (pos 3) then [] else all_lines g.store (list_all g))
