-- ===== src/Report/Tests.antt =====
-- statApp/src/tblBase.cpp: a report of two tables, entered against the order of their keys.
use lin_stat.Base.{ℕ, ◌≡◌, refl, false, [], ◌∷◌, none, some}
use lin_stat.Base.Text.{codes}
use lin_stat.Base.Int.{pos, negsuc}
use lin_stat.Base.Dict.{lookup, insert}
use lin_stat.Reactor.Api.{create}
use lin_stat.Table.{int, new_table}
use lin_stat.Registry.{Factory, Gbl, adds, gets, calls, no_tables}
use lin_stat.Report.{report, reactor_line, factory_line, table_line, int_line}

abbrev irq : Factory ℕ
irq = record {
  construct = λ inst. some (record {
    fact = codes "irq";
    inst = inst;
    last_ok = false;
    current = (codes "total", int 5 (codes "Hz")) ∷ [];
    current_time = 0;
    posted = [];
  });
  update = λ tbl. (tbl, false);
}

two : Gbl ℕ
unfolding calls lookup insert
two =
    calls
      (adds (codes "irq") irq
        ∷ gets (codes "irq") (codes "b")
        ∷ gets (codes "irq") (codes "a")
        ∷ [])
      (no_tables (λ i. new_table [] []))

tables_runs :
    report (pos 3) none two
    ≡ factory_line (codes "irq")
      ∷ table_line (codes "irq") (codes "a")
      ∷ int_line (codes "total") (pos 5) (codes "Hz")
      ∷ table_line (codes "irq") (codes "b")
      ∷ int_line (codes "total") (pos 5) (codes "Hz")
      ∷ []
unfolding report two
tables_runs = refl

reactor_runs : report (negsuc 0) (some (create 16 7)) two ≡ reactor_line false 0 0 0 ∷ []
unfolding report create
reactor_runs = refl
