-- ===== src/Reactor/Descriptor/Closed.antt =====
-- statApp/src/nlreact.cpp: FD objects in use.
use lin_stat.Base.{
  ℕ, ◌≡◌, ◌⊎◌, ◌↔◌, refl, inl, inr, sym, subst, ◌∙◌, Bool, true, false, not, ◌&&◌, ◌||◌, Option,
  none, some, arith, ◌==◌, if◌then◌else◌, Option-cases, Bool-cases,
}
use mathlib.Core.Option.{some-injective}
use lin_stat.Reactor.State.{update}
use lin_stat.Reactor.Descriptor.{
  Fds, close_fd, holding, assign_fd, clear_fd, move_fd, reset_fd, destroy_fd, opened, is_new, Use,
  defaults, makes, moves, assigns, swaps, resets, destroys, use_fd, Uses, unused, then_use, no_fds,
}
use lin_stat.Reactor.Descriptor.Owned.{
  Owned, clear-Owned, held-clear, lives-clear, alive-Owned, default-Owned, put-Owned, swap-Owned,
  opened-Owned,
}

-- What a guard lets through.
unless_some :
    {A : Type 0} (b : Bool) {o : Option A} {y : A}
    → (if b then none else o) ≡ some y
    → (b ≡ false) × (o ≡ some y)
unless_some true e = cc
unless_some false e = (refl, e)

when_some :
    {A : Type 0} (b : Bool) {o : Option A} {y : A}
    → (if b then o else none) ≡ some y
    → (b ≡ true) × (o ≡ some y)
when_some true e = (refl, e)
when_some false e = cc

module _ (base : ℕ → Bool) where
  move-Owned :
      (i j : ℕ) (s : Fds)
      → Owned base none s
      → s.lives i ≡ false
      → s.lives j ≡ true
      → Owned base none (move_fd i j s)
  unfolding move_fd
  move-Owned i j s v li lj = record {
    owned = λ k fd e. ground (arith, v.owned k fd, v.owned j fd);
    once = λ k l fd d e. ground (arith, v.once k l fd, v.once j l fd, v.once k j fd);
    covered = λ fd o b. elim (v.covered fd o b) [
      | inl y ↦ inl y
      | inr (k, h) ↦ inr ((if k == j then i else k), ground (arith, v.owned k fd))
    ];
    fresh = v.fresh;
    kept = v.kept;
    sound = v.sound;
  }

  holding-Owned :
      (i fd : ℕ) (s : Fds)
      → Owned base (some fd) s
      → s.lives i ≡ false
      → Owned base none (holding i fd s)
  holding-Owned i new s v l = record {
    owned = λ j fd e. ground (arith, v.owned j fd, v.fresh fd);
    once = λ j k fd d e. ground (arith, v.once j k fd, v.owned j fd, v.owned k fd);
    covered = λ fd o b. elim (v.covered fd o b) [
      | inl y ↦ inr (i, ground arith)
      | inr (k, h) ↦ inr (k, ground (arith, v.owned k fd))
    ];
    fresh = λ fd e. cc;
    kept = v.kept;
    sound = v.sound;
  }

  lives-opened : (x : Option ℕ) (i : ℕ) (s : Fds) → (opened x s).lives i ≡ s.lives i
  lives-opened none i s = refl
  lives-opened (some fd) i s = refl

  reset-Owned :
      (i : ℕ) (x : Option ℕ) (s : Fds)
      → Owned base none s
      → s.lives i ≡ true
      → is_new x s ≡ true
      → Owned base none (reset_fd i x (opened x s))
  unfolding reset_fd
  reset-Owned i x s v l n =
      put-Owned base x i (clear_fd i (opened x s))
        (clear-Owned base x i (opened x s) (opened-Owned base x s v n))
        (lives-clear base i i (opened x s) ∙ lives-opened x i s ∙ l)
        (held-clear base i (opened x s))

  destroy_lem :
      (i : ℕ) (s : Fds)
      → destroy_fd i s ≡ (let t = clear_fd i s in record t { lives = update t.lives i false })
  unfolding destroy_fd clear_fd
  destroy_lem i s = elim (Option-cases (s.held i)) [
    | inl n ↦ rw (n, close_fd) refl
    | inr (old, n) ↦ rw (n, close_fd) refl
  ]

  destroy-Owned : (i : ℕ) (s : Fds) → Owned base none s → Owned base none (destroy_fd i s)
  destroy-Owned i s v =
      subst (λ (t : Fds). Owned base none t) (sym (destroy_lem i s))
        (alive-Owned base none i false (clear_fd i s) (clear-Owned base none i s v)
          (held-clear base i s))

  assign-Owned :
      (i j : ℕ) (s : Fds)
      → Owned base none s
      → s.lives i ≡ true
      → s.lives j ≡ true
      → Owned base none (assign_fd i j s)
  unfolding assign_fd
  assign-Owned i j s v li lj =
      swap-Owned base none i j (clear_fd i s) (clear-Owned base none i s v)
        (lives-clear base i i s ∙ li) (lives-clear base i j s ∙ lj)

  use-Owned : (a : Use) (s t : Fds) → Owned base none s → use_fd a s ≡ some t → Owned base none t
  unfolding use_fd
  use-Owned (defaults i) s t v e =
      let (l, same) = unless_some (s.lives i) e in
      subst (λ (u : Fds). Owned base none u) (some-injective _ _ same)
        (default-Owned base none i s v l)
  use-Owned (makes i fd) s t v e =
      let (g, same) = unless_some (s.lives i || s.is_open fd) e in
      subst (λ (u : Fds). Owned base none u) (some-injective _ _ same)
        (holding-Owned i fd (opened (some fd) s) (opened-Owned base (some fd) s v (ground arith))
          (ground arith))
  use-Owned (moves i j) s t v e =
      let (g, same) = unless_some (s.lives i || not (s.lives j)) e in
      subst (λ (u : Fds). Owned base none u) (some-injective _ _ same)
        (move-Owned i j s v (ground arith) (ground arith))
  use-Owned (assigns i j) s t v e =
      let (g, same) = when_some (s.lives i && s.lives j) e in
      subst (λ (u : Fds). Owned base none u) (some-injective _ _ same)
        (assign-Owned i j s v (ground arith) (ground arith))
  use-Owned (swaps i j) s t v e =
      let (g, same) = when_some (s.lives i && s.lives j) e in
      subst (λ (u : Fds). Owned base none u) (some-injective _ _ same)
        (swap-Owned base none i j s v (ground arith) (ground arith))
  use-Owned (resets i fd) s t v e =
      let (g, same) = when_some (s.lives i && is_new fd s) e in
      subst (λ (u : Fds). Owned base none u) (some-injective _ _ same)
        (reset-Owned i fd s v (ground arith) (ground arith))
  use-Owned (destroys i) s t v e =
      let (g, same) = when_some (s.lives i) e in
      subst (λ (u : Fds). Owned base none u) (some-injective _ _ same) (destroy-Owned i s v)

  Uses-Owned : {s t : Fds} → Owned base none s → Uses s t → Owned base none t
  Uses-Owned v unused = v
  Uses-Owned v (then_use {t = u} {u = t} a r e) = use-Owned a u t (Uses-Owned v r) e

  pub no_fds-Owned : Owned base none (no_fds base)
  no_fds-Owned = record {
    owned = λ i fd e. cc;
    once = λ i j fd d e. cc;
    covered = λ fd o b. cc;
    fresh = λ fd e. cc;
    kept = λ fd b. b;
    sound = refl;
  }

-- The descriptors open at the start are `base`. However FD objects are made, moved, assigned, swapped,
-- reset and destroyed after that, nothing is closed twice, and a descriptor is open exactly if it was
-- open at the start, or if one living object, and no other, holds it.
pub uses_lem :
    (base : ℕ → Bool) (s : Fds) (fd : ℕ)
    → Uses (no_fds base) s
    → (s.faulted ≡ false)
      × ((s.is_open fd ≡ true) ↔ (
          (base fd ≡ true)
          ⊎ ((base fd ≡ false)
              × ((i : ℕ) × (s.lives i ≡ true)
                  × (s.held i ≡ some fd)
                  × ((j : ℕ) → s.held j ≡ some fd → i ≡ j)))))
uses_lem base s fd r =
    let v = Uses-Owned base (no_fds-Owned base) r in
    (
      v.sound,
      (
        λ o. elim (Bool-cases (base fd)) [
          | inl old ↦ inl old
          | inr new ↦ elim (v.covered fd o new) [
            | inl y ↦ cc
            | inr (i, h) ↦ inr (new, (i, (v.owned i fd h).2, h, λ j e. v.once i j fd h e))
          ]
        ],
        λ h. elim h [ inl old ↦ v.kept fd old | inr (new, held) ↦ (v.owned held.0 fd held.2).0 ],
      ),
    )
