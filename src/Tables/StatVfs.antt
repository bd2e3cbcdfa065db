-- ===== src/Tables/StatVfs.antt =====
-- statApp/src/tblStatVFS.cpp: the size of a file system.
use lin_stat.Base.{
  ℕ, ◌+◌, ◌-◌, ◌*◌, ◌/◌, ◌%◌, ◌^◌, ◌≤◌, ◌<◌, Bool, true, false, Option, none, some, arith,
}
use lin_stat.Base.Text.{Bytes, codes}
use lin_stat.Table.{Transaction, set_int, set_text}

abbrev pub tbl_name : Bytes
tbl_name = codes "statvfs"

-- struct statvfs64, as far as it is read.
pub record Vfs : Type 0 where
  pub frsize : ℕ
  pub blocks : ℕ
  pub bsize : ℕ
  pub bavail : ℕ
  pub files : ℕ
  pub favail : ℕ

abbrev u64 : ℕ → ℕ
u64 n = n % 2 ^ 64

-- toMB(), in 64 bits.
unfoldable pub to_mb : ℕ → ℕ
to_mb b = u64 (b + 2 ^ 20 - 1) / 2 ^ 20

module _ {F : Type 0} where
  -- update(): what statvfs64() gave, and `success`, which is kept to log each change once.
  unfoldable pub update : Bytes → Option Vfs → Bool → Transaction F → Transaction F × Bool
  unfolding to_mb set_int set_text
  update inst none success tr = (set_text (codes "path") inst tr, false)
  update inst (some v) success tr = (
    set_int (codes "iavail") v.favail (codes "files") (
        set_int (codes "isize") v.files (codes "files") (
          set_int (codes "avail") (to_mb (u64 (v.bsize * v.bavail))) (codes "MB") (
            set_int (codes "size") (to_mb (u64 (v.frsize * v.blocks))) (codes "MB")
              (set_text (codes "path") inst tr)))),
    true,
  )

-- A number of bytes is rounded up to whole megabytes, up to a megabyte below 2 ^ 64; and rounding
-- keeps the order.
pub to_mb_lem :
    (b c : ℕ)
    → b + 2 ^ 20 ≤ 2 ^ 64
    → c ≤ b
    → (b ≤ to_mb b * 2 ^ 20) × (to_mb b * 2 ^ 20 < b + 2 ^ 20) × (to_mb c ≤ to_mb b)
unfolding to_mb
to_mb_lem b c h l = (omega arith, omega arith, omega arith)
