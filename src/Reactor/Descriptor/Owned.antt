-- ===== src/Reactor/Descriptor/Owned.antt =====
-- statApp/src/nlreact.cpp: FD closes each descriptor once, and leaves none open.
use lin_stat.Base.{
  ℕ, ◌≡◌, ◌≢◌, ◌⊎◌, refl, inl, inr, Bool, true, false, Option, none, some, arith, ◌==◌,
  if◌then◌else◌, Bool-cases, Option-cases,
}
use lin_stat.Reactor.State.{update}
use lin_stat.Reactor.Descriptor.{Fds, close_fd, default_fd, swap_fds, clear_fd, opened, is_new}

-- Of the descriptors that were not open before, `base`, those that are open are held by one living
-- object each; `x` is one that the kernel has just opened and no object holds.
pub record Owned (base : ℕ → Bool) (x : Option ℕ) (s : Fds) : Type 0 where
  pub owned :
      (i fd : ℕ)
      → s.held i ≡ some fd
      → (s.is_open fd ≡ true) × (base fd ≡ false) × (s.lives i ≡ true) × (x ≢ some fd)
  pub once : (i j fd : ℕ) → s.held i ≡ some fd → s.held j ≡ some fd → i ≡ j
  pub covered :
      (fd : ℕ)
      → s.is_open fd ≡ true
      → base fd ≡ false
      → (x ≡ some fd) ⊎ ((i : ℕ) × (s.held i ≡ some fd))
  pub fresh : (fd : ℕ) → x ≡ some fd → (s.is_open fd ≡ true) × (base fd ≡ false)
  pub kept : (fd : ℕ) → base fd ≡ true → s.is_open fd ≡ true
  pub sound : s.faulted ≡ false

module _ (base : ℕ → Bool) where
  -- close() of what an object held, once nothing holds it any more.
  pub clear-Owned : (x : Option ℕ) (i : ℕ) (s : Fds) → Owned base x s → Owned base x (clear_fd i s)
  unfolding clear_fd
  clear-Owned x i s v = elim (Option-cases (s.held i)) [
    | inl n ↦
        rw (n, close_fd)
          (record {
            owned = λ j fd e. ground (arith, v.owned j fd);
            once = λ j k fd d e. ground (arith, v.once j k fd);
            covered = λ fd o b. elim (v.covered fd o b) [
              | inl y ↦ inl y
              | inr (k, h) ↦ inr (k, ground arith)
            ];
            fresh = v.fresh;
            kept = v.kept;
            sound = v.sound;
          })
    | inr (old, n) ↦
        rw (n, close_fd)
          (record {
            owned = λ j fd e. ground (arith, v.owned j fd, v.once i j old);
            once = λ j k fd d e. ground (arith, v.once j k fd);
            covered = λ fd o b. elim (v.covered fd (ground arith) b) [
              | inl y ↦ inl y
              | inr (k, h) ↦ inr (k, ground arith)
            ];
            fresh = λ fd e. ground (arith, v.fresh fd, v.owned i old);
            kept = λ fd e. ground (arith, v.kept fd, v.owned i old);
            sound = ground (arith, v.sound, v.owned i old);
          })
  ]

  pub held-clear : (i : ℕ) (s : Fds) → (clear_fd i s).held i ≡ none
  unfolding clear_fd
  held-clear i s = elim (Option-cases (s.held i)) [
    | inl n ↦ rw (n, close_fd) (ground arith)
    | inr (old, n) ↦ rw (n, close_fd) (ground arith)
  ]

  pub lives-clear : (i j : ℕ) (s : Fds) → (clear_fd i s).lives j ≡ s.lives j
  unfolding clear_fd
  lives-clear i j s = elim (Option-cases (s.held i)) [
    | inl n ↦ rw (n, close_fd) refl
    | inr (old, n) ↦ rw (n, close_fd) refl
  ]

  -- An object that holds nothing may come and go.
  pub alive-Owned :
      (x : Option ℕ) (i : ℕ) (b : Bool) (s : Fds)
      → Owned base x s
      → s.held i ≡ none
      → Owned base x (record s { lives = update s.lives i b })
  alive-Owned x i b s v n = record {
    owned = λ j fd e. ground (arith, v.owned j fd);
    once = v.once;
    covered = v.covered;
    fresh = v.fresh;
    kept = v.kept;
    sound = v.sound;
  }

  pub default-Owned :
      (x : Option ℕ) (i : ℕ) (s : Fds)
      → Owned base x s
      → s.lives i ≡ false
      → Owned base x (default_fd i s)
  unfolding default_fd
  default-Owned x i s v l = record {
    owned = λ j fd e. ground (arith, v.owned j fd);
    once = λ j k fd d e. ground (arith, v.once j k fd);
    covered = λ fd o b. elim (v.covered fd o b) [
      | inl y ↦ inl y
      | inr (k, h) ↦ inr (k, ground (arith, v.owned k fd))
    ];
    fresh = v.fresh;
    kept = v.kept;
    sound = v.sound;
  }

  -- A living object that holds nothing takes the descriptor that no object holds.
  pub put-Owned :
      (x : Option ℕ) (i : ℕ) (s : Fds)
      → Owned base x s
      → s.lives i ≡ true
      → s.held i ≡ none
      → Owned base none (record s { held = update s.held i x })
  put-Owned x i s v l n = record {
    owned = λ j fd e. ground (arith, v.owned j fd, v.fresh fd);
    once = λ j k fd d e. ground (arith, v.once j k fd, v.owned j fd, v.owned k fd);
    covered = λ fd o b. elim (v.covered fd o b) [
      | inl y ↦ inr (i, ground arith)
      | inr (k, h) ↦ inr (k, ground arith)
    ];
    fresh = λ fd e. cc;
    kept = v.kept;
    sound = v.sound;
  }

  pub swap-Owned :
      (x : Option ℕ) (i j : ℕ) (s : Fds)
      → Owned base x s
      → s.lives i ≡ true
      → s.lives j ≡ true
      → Owned base x (swap_fds i j s)
  unfolding swap_fds
  swap-Owned x i j s v li lj = record {
    owned = λ k fd e. ground (arith, v.owned k fd, v.owned i fd, v.owned j fd);
    once = λ k l fd d e. ground (
      arith,
      v.once k l fd,
      v.once i l fd,
      v.once j l fd,
      v.once k i fd,
      v.once k j fd,
      v.once i j fd,
    );
    covered = λ fd o b. elim (v.covered fd o b) [
      | inl y ↦ inl y
      | inr (k, h) ↦ inr ((if k == i then j else if k == j then i else k), ground arith)
    ];
    fresh = v.fresh;
    kept = v.kept;
    sound = v.sound;
  }

  pub opened-Owned :
      (x : Option ℕ) (s : Fds) → Owned base none s → is_new x s ≡ true → Owned base x (opened x s)
  opened-Owned none s v n = v
  opened-Owned (some new) s v n = record {
    owned = λ j fd e. ground (arith, v.owned j fd);
    once = v.once;
    covered = λ fd o b. elim (Bool-cases (new == fd)) [
      | inl y ↦ inl (ground arith)
      | inr y ↦ elim (v.covered fd (ground arith) b) [ inl z ↦ cc | inr (k, h) ↦ inr (k, h) ]
    ];
    fresh = λ fd e. ground (arith, v.kept new);
    kept = λ fd e. ground (arith, v.kept fd);
    sound = v.sound;
  }
