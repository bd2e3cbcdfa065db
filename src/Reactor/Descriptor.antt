-- ===== src/Reactor/Descriptor.antt =====
-- statApp/src/nlreact.cpp: struct FD, which owns a file descriptor, as objects in a store. An object
-- holds a descriptor or -1, `none`; the kernel knows which descriptors are open, and close() of one
-- that is not is a fault.
mod Tests
pub mod Owned
pub mod Closed
use lin_stat.Base.{
  ℕ, ◌≡◌, Bool, true, false, not, ◌||◌, ◌&&◌, Option, none, some, ◌==◌, if◌then◌else◌,
}
use lin_stat.Reactor.State.{update}

pub record Fds : Type 0 where
  pub held : ℕ → Option ℕ
  pub lives : ℕ → Bool
  pub is_open : ℕ → Bool
  pub faulted : Bool

-- if(fd>=0) (void)close(fd)
abbrev pub close_fd : Option ℕ → Fds → Fds
close_fd none s = s
close_fd (some fd) s = record s {
  is_open = update s.is_open fd false;
  faulted = s.faulted || not (s.is_open fd);
}

-- FD()
unfoldable pub default_fd : ℕ → Fds → Fds
default_fd i s = record s { held = update s.held i none; lives = update s.lives i true }

-- FD(int), which throws for -1 before there is an object.
abbrev pub holding : ℕ → ℕ → Fds → Fds
holding i fd s = record s { held = update s.held i (some fd); lives = update s.lives i true }

unfoldable pub make_fd : ℕ → Option ℕ → Fds → Option Fds
make_fd i none s = none
make_fd i (some fd) s = some (holding i fd s)

-- swap()
unfoldable pub swap_fds : ℕ → ℕ → Fds → Fds
swap_fds i j s = record s { held = update (update s.held i (s.held j)) j (s.held i) }

-- FD().swap(*this): the temporary takes what the object held, and closes it when it goes.
unfoldable pub clear_fd : ℕ → Fds → Fds
clear_fd i s = close_fd (s.held i) (record s { held = update s.held i none })

-- FD(FD&& o)
unfoldable pub move_fd : ℕ → ℕ → Fds → Fds
move_fd i j s = record s {
  held = update (update s.held i (s.held j)) j none;
  lives = update s.lives i true;
}

-- operator=(FD&& o)
unfoldable pub assign_fd : ℕ → ℕ → Fds → Fds
unfolding clear_fd swap_fds
assign_fd i j s = swap_fds i j (clear_fd i s)

-- reset(fd)
unfoldable pub reset_fd : ℕ → Option ℕ → Fds → Fds
unfolding clear_fd
reset_fd i fd s = let t = clear_fd i s in record t { held = update t.held i fd }

-- ~FD()
unfoldable pub destroy_fd : ℕ → Fds → Fds
destroy_fd i s =
    close_fd (s.held i) (record s { held = update s.held i none; lives = update s.lives i false })

-- What pipe2() and socket() do: a descriptor that was not open is now.
abbrev pub opened : Option ℕ → Fds → Fds
opened none s = s
opened (some fd) s = record s { is_open = update s.is_open fd true }

-- The uses of FD objects. A descriptor that is put into one comes from the kernel.
pub data Use : Type 0 where
  defaults : ℕ → Use
  makes : ℕ → ℕ → Use
  moves : ℕ → ℕ → Use
  assigns : ℕ → ℕ → Use
  swaps : ℕ → ℕ → Use
  resets : ℕ → Option ℕ → Use
  destroys : ℕ → Use

abbrev pub is_new : Option ℕ → Fds → Bool
is_new none s = true
is_new (some fd) s = not (s.is_open fd)

-- One use; none where C++ or the kernel does not allow it: an object is made once before it is used
-- and used only until it goes, and the kernel gives no descriptor twice.
unfoldable pub use_fd : Use → Fds → Option Fds
unfolding default_fd make_fd move_fd assign_fd swap_fds reset_fd destroy_fd
use_fd (defaults i) s = if s.lives i then none else some (default_fd i s)
use_fd (makes i fd) s =
    if s.lives i || s.is_open fd then none else make_fd i (some fd) (opened (some fd) s)
use_fd (moves i j) s = if s.lives i || not (s.lives j) then none else some (move_fd i j s)
use_fd (assigns i j) s = if s.lives i && s.lives j then some (assign_fd i j s) else none
use_fd (swaps i j) s = if s.lives i && s.lives j then some (swap_fds i j s) else none
use_fd (resets i fd) s =
    if s.lives i && is_new fd s then some (reset_fd i fd (opened fd s)) else none
use_fd (destroys i) s = if s.lives i then some (destroy_fd i s) else none

pub data Uses (s : Fds) : Fds → Type 0 where
  unused : Uses s s
  then_use : {t u : Fds} (a : Use) → Uses s t → use_fd a t ≡ some u → Uses s u

abbrev pub no_fds : (ℕ → Bool) → Fds
no_fds is_open = record { held = λ _. none; lives = λ _. false; is_open = is_open; faulted = false }
