-- ===== src/Files/Tests.antt =====
-- statApp/src/lsutils.cpp: a directory of two entries.
use lin_stat.Base.{◌≡◌, refl, Bool, true, false, List, [], ◌∷◌, ◌++◌, none, some, if◌then◌else◌}
use lin_stat.Base.Text.{Bytes, codes, bytes_eq}
use lin_stat.Files.{Entry, directory, regular, symlink, dirname}
use lin_stat.Files.Directory.{
  Streams, ReadDir, Ended, at_directory, dir_path, scan_dir, run_each, scan_dir_lem,
}

abbrev entries : List Entry
entries =
    record { filename = codes "eth0"; kind = symlink; target = some directory }
    ∷ record { filename = codes "note"; kind = regular; target = none }
    ∷ []

abbrev sys : Streams
sys = record {
  listing = λ name. if bytes_eq name (codes "/sys/net/") then some entries else none;
  is_open = λ n. false;
  next_stream = 3;
}

-- The paths of the directories.
abbrev collect : ReadDir → List Bytes → List Bytes × Bool
collect d found = (if at_directory d then found ++ dir_path d ∷ [] else found, true)

scan_runs : (scan_dir collect (codes "/sys/net") sys []).1 ≡ codes "/sys/net/eth0" ∷ []
unfolding scan_dir at_directory dir_path
scan_runs = refl

scan_dir_lem_example :
    let (sys', found, ended) = scan_dir collect (codes "/sys/net/") sys [] in
    (◌≡◌ {A = List Bytes × Ended}
      (found, ended)
      (run_each collect (codes "/sys/net/") 3 entries []))
    × (sys'.is_open 3 ≡ false)
unfolding dirname
scan_dir_lem_example = scan_dir_lem collect (codes "/sys/net/") sys [] 3 refl
