-- ===== src/Device/Link/Tests.antt =====
-- statApp/src/devstat.cpp: links of records.
use lin_stat.Base.{ℕ, ◌≡◌, ◌≢◌, ap, length, arith, refl, ◌↔◌, true, none, some, [], ◌∷◌}
use lin_stat.Base.Text.{Bytes, codes}
use lin_stat.Base.Dict.{lookup, insert}
use lin_stat.Table.{new_table}
use lin_stat.Registry.{Factory, Gbl, Key, adds, calls, no_tables}
use lin_stat.Device.Link.{parse_link, init_record}
use lin_stat.Device.Link.Shape.{IsLink, escaped_plain, escaped_end, parse_link_lem}
use lin_stat.Device.Link.Attach.{init_record_shares}

link_runs : parse_link (codes "host|a|b tail") ≡ some (codes "host", codes "a", codes "b")
unfolding parse_link
link_runs = refl

-- A bar behind a backslash belongs to the instance, and the backslash stays.
escaped_runs : parse_link (codes "h|a\\|b|p") ≡ some (codes "h", codes "a\\|b", codes "p")
unfolding parse_link
escaped_runs = refl

bad_runs : parse_link (codes "h1|a|p") ≡ none
unfolding parse_link
bad_runs = refl

parse_link_lem_example :
    (parse_link (codes "h|a|p") ≡ some (codes "h", codes "a", codes "p"))
    ↔ IsLink (codes "h|a|p") (codes "h") (codes "a") (codes "p")
parse_link_lem_example = parse_link_lem (codes "h|a|p") (codes "h") (codes "a") (codes "p")

abbrev factory : Factory ℕ
factory = record {
  construct = λ inst. some (new_table (codes "h") inst);
  update = λ tbl. (tbl, true);
}

begun : Gbl ℕ
unfolding calls
begun = calls (adds (codes "h") factory ∷ []) (no_tables (λ i. new_table [] []))

-- The registry once the first record is attached.
one : Gbl ℕ
unfolding begun init_record
one = (init_record (codes "h|a|p") begun).0

p_IsLink : IsLink (codes "h|a|p") (codes "h") (codes "a") (codes "p")
p_IsLink = record {
  tail = [];
  text = refl;
  factory = ((refl, tt), refl);
  inst = escaped_plain refl escaped_end;
  param = ((refl, tt), refl);
  ends = tt;
}

q_IsLink : IsLink (codes "h|a|q ") (codes "h") (codes "a") (codes "q")
q_IsLink = record {
  tail = 32 ∷ [];
  text = refl;
  factory = ((refl, tt), refl);
  inst = escaped_plain refl escaped_end;
  param = ((refl, tt), refl);
  ends = (refl, tt);
}

r_IsLink : IsLink (codes "h|bb|p") (codes "h") (codes "bb") (codes "p")
r_IsLink = record {
  tail = [];
  text = refl;
  factory = ((refl, tt), refl);
  inst = escaped_plain refl (escaped_plain refl escaped_end);
  param = ((refl, tt), refl);
  ends = tt;
}

-- The registry once a record of another instance is attached.
both_made : Gbl ℕ
unfolding one init_record
both_made = (init_record (codes "h|bb|p") one).0

init_record_shares_example :
    (init_record (codes "h|a|q ") one ≡ (one, some (record { table = 0; param = codes "q" })))
    × (◌≡◌ {A = Bytes} (codes "p") (codes "p"))
    × (one.live 0 ≡ true)
    × ◌≢◌ {A = ℕ} 0 1
unfolding both_made one begun calls init_record lookup insert
init_record_shares_example =
    init_record_shares (λ i. new_table [] []) (adds (codes "h") factory ∷ []) (codes "h|a|p")
      (codes "h|a|q ") (codes "h|bb|p") (codes "h") (codes "a") (codes "p") (codes "q") (codes "h")
      (codes "bb") (codes "p") one both_made (record { table = 0; param = codes "p" })
      (record { table = 1; param = codes "p" }) p_IsLink q_IsLink r_IsLink refl refl
      (λ e. omega (arith, ap (λ (k : Key). length k.1) e))
