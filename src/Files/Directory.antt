-- ===== src/Files/Directory.antt =====
-- statApp/src/lsutils.cpp: ReadDir, an object that holds an open directory, and the loop over its
-- entries in the scope of one. The system's streams are numbers.
use lin_stat.Base.{
  ℕ, zero, suc, ◌≡◌, refl, Bool, true, false, List, [], ◌∷◌, ◌++◌, Option, none, some,
  if◌then◌else◌, length, arith,
}
use lin_stat.Base.Text.{Bytes}
use lin_stat.Registry.{update_at}
use lin_stat.Files.{Entry, next_entry, is_directory, dirname}

-- What the system knows of directories: their entries if opendir() takes them, and the streams that
-- are open.
pub record Streams : Type 0 where
  pub listing : Bytes → Option (List Entry)
  pub is_open : ℕ → Bool
  pub next_stream : ℕ

-- The object: its directory and stream, what readdir() has still to give, and the current entry.
pub record ReadDir : Type 0 where
  pub name : Bytes
  pub stream : ℕ
  pub rest : List Entry
  pub ent : Option Entry

abbrev pub opened_from : Option (List Entry) → Bytes → Streams → Streams × Option ReadDir
opened_from none name s = (s, none)
opened_from (some es) name s = (
  record s { is_open = update_at s.is_open s.next_stream true; next_stream = suc s.next_stream },
  some (record { name = name; stream = s.next_stream; rest = es; ent = none }),
)

-- ReadDir::ReadDir(); none is the exception.
unfoldable pub open_dir : Bytes → Streams → Streams × Option ReadDir
unfolding dirname
open_dir dir s = opened_from (s.listing (dirname dir)) (dirname dir) s

-- ReadDir::~ReadDir()
unfoldable pub close_dir : ReadDir → Streams → Streams
close_dir d s = record s { is_open = update_at s.is_open d.stream false }

-- ReadDir::next()
unfoldable pub next_dir : ReadDir → ReadDir × Bool
unfolding next_entry
next_dir d = elim d.rest [
  | [] ↦ (record d { ent = none }, false)
  | e ∷ es ↦ (record d { rest = es; ent = some (next_entry e) }, true)
]

-- ReadDir::is_directory(), filename() and path(), also without an entry.
unfoldable pub at_directory : ReadDir → Bool
unfolding is_directory
at_directory d = elim d.ent [ none ↦ false | some e ↦ is_directory e ]

unfoldable pub file_name : ReadDir → Bytes
file_name d = elim d.ent [ none ↦ [] | some e ↦ e.filename ]

unfoldable pub dir_path : ReadDir → Bytes
unfolding file_name
dir_path d = d.name ++ file_name d

pub data Ended : Type 0 where
  at_end thrown out_of_fuel : Ended

-- Going on after a turn that returned, or ending with one that threw.
if_returned :
    {S : Type 0} {stream : ℕ} (returned : Bool) (r : ReadDir × S × Ended) (run : S × Ended)
    (d : ReadDir) (s : S)
    → (◌≡◌ {A = S × Ended} (r.1, r.2) run) × (r.0.stream ≡ stream)
    → d.stream ≡ stream
    → let (d', s', ended) = if returned then r else (d, s, thrown) in
      (◌≡◌ {A = S × Ended} (s', ended) (if returned then run else (s, thrown)))
      × (d'.stream ≡ stream)
if_returned true r run d s h e = h
if_returned false r run d s h e = (refl, e)

module _ {S : Type 0} (body : ReadDir → S → S × Bool) where
  -- while(ent.next()) with a body that returns, or throws (false).
  unfoldable pub each_entry : ℕ → ReadDir → S → ReadDir × S × Ended
  unfolding next_dir
  each_entry zero d s = (d, s, out_of_fuel)
  each_entry (suc fuel) d s =
      let (d', more) = next_dir d in
      let (s', returned) = body d' s in
      let rest = each_entry fuel d' s' in
      if more then (if returned then rest else (d', s', thrown)) else (d', s, at_end)

  abbrev pub closed_after : Streams → ReadDir × S × Ended → Streams × S × Ended
  closed_after opened (d, s, ended) = (close_dir d opened, s, ended)

  abbrev pub scan_made : Streams × Option ReadDir → S → Streams × S × Ended
  scan_made (opened, none) s = (opened, s, thrown)
  scan_made (opened, some d) s = closed_after opened (each_entry (suc (length d.rest)) d s)

  -- A scope with a ReadDir, which is destroyed at its end and by an exception of the body. One turn
  -- for each entry is enough, and one for the end.
  unfoldable pub scan_dir : Bytes → Streams → S → Streams × S × Ended
  unfolding open_dir close_dir each_entry
  scan_dir dir sys s = scan_made (open_dir dir sys) s

  -- The body on each entry, with links followed, up to the first that throws.
  abbrev pub run_each : Bytes → ℕ → List Entry → S → S × Ended
  run_each name stream [] s = (s, at_end)
  run_each name stream (e ∷ es) s =
      let (s', returned) =
        body (record { name = name; stream = stream; rest = es; ent = some (next_entry e) }) s in
      let rest = run_each name stream es s' in if returned then rest else (s', thrown)

  each_entry_lem :
      (es : List Entry) (name : Bytes) (stream : ℕ) (ent : Option Entry) (s : S)
      → let (d', s', ended) =
          each_entry
            (suc (length es))
            (record { name = name; stream = stream; rest = es; ent = ent })
            s in
        (◌≡◌ {A = S × Ended} (s', ended) (run_each name stream es s)) × (d'.stream ≡ stream)
  unfolding each_entry next_dir
  each_entry_lem [] name stream ent s = (refl, refl)
  each_entry_lem (x ∷ es) name stream ent s =
      let at : ReadDir = record {
        name = name;
        stream = stream;
        rest = es;
        ent = some (next_entry x);
      } in
      if_returned (body at s).1 _ _ _ _
        (each_entry_lem es name stream (some (next_entry x)) (body at s).0) refl

  abbrev pub run_listed : Bytes → ℕ → Option (List Entry) → S → S × Ended
  run_listed name stream none s = (s, thrown)
  run_listed name stream (some es) s = run_each name stream es s

  scan_made_lem :
      (o : Option (List Entry)) (name : Bytes) (sys : Streams) (s : S) (n : ℕ)
      → sys.is_open sys.next_stream ≡ false
      → let (sys', s', ended) = scan_made (opened_from o name sys) s in
        (◌≡◌ {A = S × Ended} (s', ended) (run_listed name sys.next_stream o s))
        × (sys'.is_open n ≡ sys.is_open n)
  unfolding close_dir
  scan_made_lem none name sys s n h = (refl, refl)
  scan_made_lem (some es) name sys s n h =
      let (ran, same) = each_entry_lem es name sys.next_stream none s in (ran, ground arith)

  -- Whether the directory opens, the entries end or the body throws: the body has run on the entries
  -- in order, up to the first on which it throws, and a stream is open afterwards exactly if it was
  -- before.
  pub scan_dir_lem :
      (dir : Bytes) (sys : Streams) (s : S) (n : ℕ)
      → sys.is_open sys.next_stream ≡ false
      → let (sys', s', ended) = scan_dir dir sys s in
        (◌≡◌ {A = S × Ended}
          (s', ended)
          (run_listed (dirname dir) sys.next_stream (sys.listing (dirname dir)) s))
        × (sys'.is_open n ≡ sys.is_open n)
  unfolding scan_dir open_dir
  scan_dir_lem dir sys s n h = scan_made_lem (sys.listing (dirname dir)) (dirname dir) sys s n h
