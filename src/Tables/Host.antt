-- ===== src/Tables/Host.antt =====
-- statApp/src/tblHost.cpp, tblProcMallinfo.cpp and tblProcFD.cpp: what the system says of the host,
-- of the memory and of the open files of the process.
use lin_stat.Base.{
  ℕ, suc, Bool, true, false, ◌||◌, List, [], ◌∷◌, Option, none, some, if◌then◌else◌,
}
use lin_stat.Base.Text.{Bytes, codes, bytes_eq}
use lin_stat.Files.{Entry}
use lin_stat.Table.{Transaction, set_int, set_text}

abbrev pub host_tbl : Bytes
host_tbl = codes "host"

abbrev pub mallinfo_tbl : Bytes
mallinfo_tbl = codes "mallinfo"

abbrev pub files_tbl : Bytes
files_tbl = codes "fd"

-- struct utsname
pub record UtsName : Type 0 where
  pub sysname : Bytes
  pub nodename : Bytes
  pub release : Bytes
  pub version : Bytes
  pub machine : Bytes

-- struct mallinfo2, as far as it is read, as the 64 bits of each field.
pub record MallInfo : Type 0 where
  pub arena : ℕ
  pub ordblks : ℕ
  pub hblks : ℕ
  pub hblkhd : ℕ
  pub uordblks : ℕ
  pub fordblks : ℕ
  pub keepcost : ℕ

-- The loop over /proc/self/fd, without "." and "..".
unfoldable pub count_files : List Entry → ℕ → ℕ
count_files [] n = n
count_files (e ∷ es) n =
    count_files es
      (if bytes_eq e.filename (codes ".") || bytes_eq e.filename (codes "..") then n else suc n)

-- The instances that the constructors accept.
unfoldable pub accepts_localhost : Bytes → Bool
accepts_localhost inst = bytes_eq inst (codes "localhost")

unfoldable pub accepts_self : Bytes → Bool
accepts_self inst = bytes_eq inst (codes "self")

module _ {F : Type 0} where
  set_names : Option UtsName → Transaction F → Transaction F
  unfolding set_text
  set_names none tr = tr
  set_names (some info) tr = set_text (codes "machine") info.machine (
      set_text (codes "version") info.version (
        set_text (codes "release") info.release
          (set_text (codes "nodename") info.nodename (set_text (codes "sysname") info.sysname tr))))

  -- HostTable::update(): the answer of uname(), and the number of processors.
  unfoldable pub update_host : Option UtsName → ℕ → Transaction F → Transaction F
  unfolding set_names set_int
  update_host info ncpu tr = set_int (codes "ncpu") ncpu [] (set_names info tr)

  -- MallInfoTable::update()
  unfoldable pub update_mallinfo : MallInfo → Transaction F → Transaction F
  unfolding set_int
  update_mallinfo info tr = set_int (codes "keepcost") info.keepcost [] (
      set_int (codes "fordblks") info.fordblks [] (
        set_int (codes "uordblks") info.uordblks [] (
          set_int (codes "hblkhd") info.hblkhd [] (
            set_int (codes "hblks") info.hblks [] (
              set_int (codes "ordblks") info.ordblks []
                (set_int (codes "arena") info.arena [] tr))))))

  -- FDTable::update(): the entries of the directory, if it opens; `false` is the exception.
  unfoldable pub update_files : Option (List Entry) → Transaction F → Transaction F × Bool
  unfolding count_files set_int
  update_files none tr = (tr, false)
  update_files (some es) tr = (set_int (codes "FD_CNT") (count_files es 0) [] tr, true)
