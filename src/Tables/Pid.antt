-- ===== src/Tables/Pid.antt =====
-- statApp/src/tblPid.cpp: the executable, the working directory and the limits of the process.
pub mod Laws
use lin_stat.Base.{
  ℕ, zero, suc, ◌+◌, ◌-◌, ◌*◌, min, Bool, true, false, List, [], ◌∷◌, ◌++◌, Option, none, some, ltb,
  leb, if◌then◌else◌, length, take, drop,
}
use lin_stat.Base.Text.{Bytes, codes, bytes_eq}
use lin_stat.Table.{Transaction, Body, set_int, set_text}

abbrev pub tbl_name : Bytes
tbl_name = codes "pid"

-- The loop around readlink(): `link` is the target, or none if the call fails. A buffer of `size`
-- bytes takes size - 1 of them. The result is the size of the buffer and the text, if any.
unfoldable pub read_exe : ℕ → Option Bytes → ℕ → ℕ × Option Bytes
read_exe zero link size = (size, none)
read_exe (suc fuel) none size = (size, none)
read_exe (suc fuel) (some link) size =
    let again = read_exe fuel (some link) (size * 2) in
    if leb (size - 1) (min (length link) (size - 1)) then again else (size, some link)

-- The loop around getcwd(): the path and its nil must fit in size - 1 bytes, or ERANGE is the error;
-- none is another error.
unfoldable pub read_cwd : ℕ → Option Bytes → ℕ → ℕ × Option Bytes
read_cwd zero path size = (size, none)
read_cwd (suc fuel) none size = (size, none)
read_cwd (suc fuel) (some path) size =
    let again = read_cwd fuel (some path) (size * 2) in
    if leb (length path + 1) (size - 1) then (size, some path) else again

-- The turns that either loop is given; each adds a byte or more to the buffer.
abbrev turns : Option Bytes → ℕ
turns none = 1
turns (some s) = length s + 3

abbrev pub first_part : Bytes → Bytes
first_part cwd = take 39 cwd

abbrev pub second_part : Bytes → Bytes
second_part cwd = if ltb 39 (length cwd) then take 78 (drop 39 cwd) else []

-- The keys of the limits, in the order of the loop, and what getrlimit64() gives for each: the
-- current limit and the largest.
abbrev rlimits : List Bytes
rlimits =
    codes "CORE"
    ∷ codes "MEMLOCK"
    ∷ codes "NICE"
    ∷ codes "NOFILE"
    ∷ codes "NPROC"
    ∷ codes "RTPRIO"
    ∷ codes "RTTIME"
    ∷ []

-- The instance that the constructor accepts.
abbrev pub accepts_pid : Bytes → Bool
accepts_pid inst = bytes_eq inst (codes "self")

module _ {F : Type 0} where
  set_exe : Option Bytes → Transaction F → Transaction F
  unfolding set_text
  set_exe none tr = tr
  set_exe (some exe) tr = set_text (codes "exe") exe tr

  unfoldable pub set_cwd : Option Bytes → Transaction F → Transaction F
  unfolding set_text
  set_cwd none tr = tr
  set_cwd (some cwd) tr =
      set_text (codes "cwd2") (second_part cwd)
        (set_text (codes "cwd1") (first_part cwd) (set_text (codes "cwd") cwd tr))

  set_limits : (Bytes → Option (ℕ × ℕ)) → List Bytes → Transaction F → Transaction F
  unfolding set_int
  set_limits getrlimit [] tr = tr
  set_limits getrlimit (key ∷ keys) tr = elim (getrlimit key) [
    | none ↦ set_limits getrlimit keys tr
    | some (cur, most) ↦
        set_limits getrlimit keys (set_int (key ++ codes ":MAX") most [] (set_int key cur [] tr))
  ]

  -- PidTable::update(): the size of the scratch buffer is kept from one update to the next.
  unfoldable pub update :
      ℕ
      → Option Bytes
      → Option Bytes
      → (Bytes → Option (ℕ × ℕ))
      → ℕ
      → Transaction F
      → Transaction F × ℕ
  unfolding read_exe read_cwd set_exe set_cwd set_limits set_int
  update ticks link path getrlimit size tr =
      let (size', exe) = read_exe (turns link) link size in
      let (size'', cwd) = read_cwd (turns path) path size' in
      (
        set_limits getrlimit rlimits
            (set_cwd cwd (set_exe exe (set_int (codes "ticks_per_sec") ticks [] tr))),
        size'',
      )
