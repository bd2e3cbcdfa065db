-- ===== src/Tables/Pid/Laws.antt =====
-- statApp/src/tblPid.cpp: the loops end with the whole text, and the parts of the path.
use lin_stat.Base.{
  ap, Bool, true, not, ◌&&◌, List, [], ◌∷◌, Option, Option-cases, refl, if◌then◌else◌, ℕ, zero, suc,
  ◌+◌, ◌*◌, ◌≤◌, ◌<◌, ◌≡◌, inl, inr, ◌++◌, some, arith, ltb, length, take, take_all, take-drop,
  length-take, sym, ◌∙◌, Bool-cases, append-nil,
}
use lin_stat.Base.Text.{Bytes, codes, bytes_eq}
use lin_stat.Base.Dict.{lookup, insert, lookup-insert}
use lin_stat.Table.{Transaction, text, int, begin, set_value, set_int, set_text}
use lin_stat.Tables.Pid.{
  set_limits, set_cwd, set_exe, rlimits, update, read_exe, read_cwd, first_part, second_part,
}

-- With as many turns as the text is longer than the buffer, and two more, the loop around readlink()
-- ends with the whole target of the link, never a part of it, in a buffer with room to spare; so does
-- the loop around getcwd() with the whole path.
read_total :
    (fuel : ℕ) (s : Bytes) (size : ℕ)
    → 0 < size
    → length s + 1 < fuel + size
    → ((read_exe (suc fuel) (some s) size).1 ≡ some s)
      × (length s + 1 < (read_exe (suc fuel) (some s) size).0)
      × ((read_cwd (suc fuel) (some s) size).1 ≡ some s)
      × (length s + 1 < (read_cwd (suc fuel) (some s) size).0)
unfolding read_exe read_cwd
read_total zero s size p h = ground arith
read_total (suc fuel) s size p h = ground (arith, read_total fuel s (size * 2))

-- The two parts of the working directory, one behind the other, are the first 117 bytes of it: all
-- of a path of that length at most. The first fits a string record.
parts_lem :
    (cwd : Bytes)
    → (first_part cwd ++ second_part cwd ≡ take 117 cwd)
      × (length (first_part cwd) ≤ 39)
      × (length cwd ≤ 117 → first_part cwd ++ second_part cwd ≡ cwd)
parts_lem cwd = (joined, omega (arith, length-take 39 cwd), λ l. joined ∙ take_all 117 cwd l)
  where
    joined : first_part cwd ++ second_part cwd ≡ take 117 cwd
    joined = elim (Bool-cases (ltb 39 (length cwd))) [
      | inl long ↦ rw long (take-drop 39 78 cwd)
      | inr short ↦ rw short (
          append-nil (take 39 cwd)
          ∙ take_all 39 cwd (ground arith)
          ∙ sym (take_all 117 cwd (ground arith)))
    ]

-- No limit has the name `k`, nor the name of its largest.
abbrev is_apart : Bytes → List Bytes → Bool
is_apart k [] = true
is_apart k (key ∷ keys) =
    not (bytes_eq key k) && not (bytes_eq (key ++ codes ":MAX") k) && is_apart k keys

read_turns :
    (s : Bytes) (size : ℕ)
    → 0 < size
    → ((read_exe (length s + 3) (some s) size).1 ≡ some s)
      × (length s + 1 < (read_exe (length s + 3) (some s) size).0)
      × ((read_cwd (length s + 3) (some s) size).1 ≡ some s)
      × (length s + 1 < (read_cwd (length s + 3) (some s) size).0)
read_turns s size p =
    let e : length s + 3 ≡ suc (length s + 2) = omega arith in
    rw e (read_total (length s + 2) s size p (omega arith))

module _ {F : Type 0} where
  lookup-set_limits :
      (k : Bytes) (getrlimit : Bytes → Option (ℕ × ℕ)) (keys : List Bytes) (tr : Transaction F)
      → is_apart k keys ≡ true
      → lookup k (set_limits getrlimit keys tr).next ≡ lookup k tr.next
  unfolding set_limits set_int set_value
  lookup-set_limits k getrlimit [] tr a = refl
  lookup-set_limits k getrlimit (key ∷ keys) tr a = elim (Option-cases (getrlimit key)) [
    | inl n ↦ rw (n, set_limits) (lookup-set_limits k getrlimit keys tr (ground arith))
    | inr ((cur, most), e) ↦
        rw (e, set_limits)
          (lookup-set_limits k getrlimit keys
              (set_int (key ++ codes ":MAX") most [] (set_int key cur [] tr)) (ground arith)
            ∙ ground (
              arith,
              lookup-insert (key ++ codes ":MAX") k (int most []) (insert key (int cur []) tr.next),
              lookup-insert key k (int cur []) tr.next,
            ))
  ]

  lookup-set_cwd :
      (k path : Bytes) (tr : Transaction F)
      → lookup k (set_cwd (some path) tr).next ≡ (
          if bytes_eq (codes "cwd2") k
          then some (text (second_part path))
          else if bytes_eq (codes "cwd1") k
          then some (text (first_part path))
          else if bytes_eq (codes "cwd") k
          then some (text path)
          else lookup k tr.next)
  unfolding set_cwd set_text set_value
  lookup-set_cwd k path tr = simp lookup-insert

  lookup-set_exe :
      (k link : Bytes) (tr : Transaction F)
      → lookup k (set_exe (some link) tr).next
        ≡ (if bytes_eq (codes "exe") k then some (text link) else lookup k tr.next)
  unfolding set_exe set_text set_value
  lookup-set_exe k link tr = simp lookup-insert

  -- What is found once all is set, for a name that is no limit's.
  found :
      (k link path : Bytes) (getrlimit : Bytes → Option (ℕ × ℕ)) (tr : Transaction F)
      → is_apart k rlimits ≡ true
      → lookup k (set_limits getrlimit rlimits (set_cwd (some path) (set_exe (some link) tr))).next
        ≡ (if bytes_eq (codes "cwd2") k
            then some (text (second_part path))
            else if bytes_eq (codes "cwd1") k
            then some (text (first_part path))
            else if bytes_eq (codes "cwd") k
            then some (text path)
            else if bytes_eq (codes "exe") k
            then some (text link)
            else lookup k tr.next)
  found k link path getrlimit tr a =
      lookup-set_limits k getrlimit rlimits (set_cwd (some path) (set_exe (some link) tr)) a
      ∙ lookup-set_cwd k path (set_exe (some link) tr)
      ∙ rw (lookup-set_exe k link tr) refl

  set_all_lem :
      (ticks : ℕ) (link path : Bytes) (getrlimit : Bytes → Option (ℕ × ℕ)) (size : ℕ)
      (tr : Transaction F)
      → 0 < size
      → (update ticks (some link) (some path) getrlimit size tr).0
        ≡ set_limits getrlimit rlimits (
            set_cwd (some path) (set_exe (some link) (set_int (codes "ticks_per_sec") ticks [] tr)))
  unfolding update
  set_all_lem ticks link path getrlimit size tr p =
      let (exe, roomy, _, _) = read_turns link size p in
      let t = set_int (codes "ticks_per_sec") ticks [] tr in
      let size' = (read_exe (length link + 3) (some link) size).0 in
      let (_, _, cwd, fits) = read_turns path size' (omega arith) in
      ap
        (λ (c : Option Bytes).
          set_limits getrlimit rlimits
            (set_cwd c (set_exe (read_exe (length link + 3) (some link) size).1 t)))
        cwd
      ∙ ap (λ (e : Option Bytes). set_limits getrlimit rlimits (set_cwd (some path) (set_exe e t)))
          exe

  -- An update shows the whole target of the link to the executable and the whole working directory,
  -- however long they are and whatever the limits: the buffer, if it was not empty, grows until they
  -- fit. The two parts of the working directory, one behind the other, are its first 117 bytes, and
  -- the first part has 39 bytes at most.
  pub update_shows :
      (ticks : ℕ) (link path : Bytes) (getrlimit : Bytes → Option (ℕ × ℕ)) (size now : ℕ)
      → 0 < size
      → let (tr, size') = update {F = F} ticks (some link) (some path) getrlimit size (begin now) in
        (lookup (codes "exe") tr.next ≡ some (text link))
        × (lookup (codes "cwd") tr.next ≡ some (text path))
        × (lookup (codes "cwd1") tr.next ≡ some (text (first_part path)))
        × (lookup (codes "cwd2") tr.next ≡ some (text (second_part path)))
        × (first_part path ++ second_part path ≡ take 117 path)
        × (length (first_part path) ≤ 39)
        × (length path + 1 < size')
  unfolding update
  update_shows ticks link path getrlimit size now p =
      let (exe, roomy, _, _) = read_turns link size p in
      let (_, _, cwd, fits) =
        read_turns path (read_exe (length link + 3) (some link) size).0 (omega arith) in
      let e = set_all_lem ticks link path getrlimit size (begin now) p in
      let t : Transaction F = set_int (codes "ticks_per_sec") ticks [] (begin now) in
      let (joined, short, _) = parts_lem path in
      (
        ap (λ r. lookup (codes "exe") r.next) e ∙ found (codes "exe") link path getrlimit t refl,
        ap (λ r. lookup (codes "cwd") r.next) e ∙ found (codes "cwd") link path getrlimit t refl,
        ap (λ r. lookup (codes "cwd1") r.next) e ∙ found (codes "cwd1") link path getrlimit t refl,
        ap (λ r. lookup (codes "cwd2") r.next) e ∙ found (codes "cwd2") link path getrlimit t refl,
        joined,
        short,
        fits,
      )
