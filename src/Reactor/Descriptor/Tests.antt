-- ===== src/Reactor/Descriptor/Tests.antt =====
-- statApp/src/nlreact.cpp: one descriptor after another in two FD objects.
use lin_stat.Base.{ℕ, ◌≡◌, ◌⊎◌, ◌↔◌, refl, Bool, true, false, Option, none, some, ltb}
use lin_stat.Reactor.Descriptor.{
  Fds, Use, makes, defaults, assigns, resets, destroys, use_fd, Uses, unused, then_use, no_fds,
}
use lin_stat.Reactor.Descriptor.Closed.{uses_lem}

abbrev standard : ℕ → Bool
standard fd = ltb fd 3

abbrev or_start : Option Fds → Fds
or_start none = no_fds standard
or_start (some s) = s

abbrev after_use : Use → Fds → Fds
unfolding use_fd
after_use a s = or_start (use_fd a s)

-- 3 moves from one object to the other, which then takes 4 instead and closes 3.
moved : Fds
unfolding use_fd
moved = after_use (assigns 1 0) (after_use (defaults 1) (after_use (makes 0 3) (no_fds standard)))

replaced : Fds
unfolding moved use_fd
replaced = after_use (destroys 0) (after_use (resets 1 (some 4)) moved)

replaced-Uses : Uses (no_fds standard) replaced
unfolding replaced moved use_fd
replaced-Uses =
    then_use (destroys 0)
      (then_use (resets 1 (some 4))
        (then_use (assigns 1 0) (then_use (defaults 1) (then_use (makes 0 3) unused refl) refl)
          refl)
        refl)
      refl

replaced_runs :
    (replaced.is_open 3 ≡ false) × (replaced.is_open 4 ≡ true) × (replaced.faulted ≡ false)
unfolding replaced moved use_fd
replaced_runs = (refl, refl, refl)

uses_lem_example :
    (replaced.faulted ≡ false)
    × ((replaced.is_open 4 ≡ true) ↔ (
        (standard 4 ≡ true)
        ⊎ ((standard 4 ≡ false)
            × ((i : ℕ) × (replaced.lives i ≡ true)
                × (replaced.held i ≡ some 4)
                × ((j : ℕ) → replaced.held j ≡ some 4 → i ≡ j)))))
uses_lem_example = uses_lem standard replaced 4 replaced-Uses
