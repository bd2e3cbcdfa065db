-- ===== src/Reactor/Build/Unwind.antt =====
-- statApp/src/nlreact.cpp: a constructor of the reactor that throws leaves no descriptor open.
use lin_stat.Base.{
  ℕ, ◌≡◌, ◌≢◌, ◌⊎◌, ◌&&◌, refl, inl, inr, Bool, true, false, Option, none, some, arith,
  if◌then◌else◌,
}
use lin_stat.Reactor.Descriptor.{Fds, clear_fd, default_fd, reset_fd, destroy_fd, opened}
use lin_stat.Reactor.Build.{
  Answers, Built, built, failed, Error, no_pipe, no_socket, no_bind, no_name, no_option, begun,
  unwound, get_name, bind_socket, open_pipe, build,
}

-- The kernel gives descriptors that are not open, each once.
pub record IsFresh (a : Answers) (s : Fds) : Type 0 where
  pub pipes :
      (r w : ℕ) → a.pipes ≡ some (r, w) → (s.is_open r ≡ false) × (s.is_open w ≡ false) × (r ≢ w)
  pub socket : (k : ℕ) → a.socket ≡ some k → s.is_open k ≡ false
  pub apart : (r w k : ℕ) → a.pipes ≡ some (r, w) → a.socket ≡ some k → (k ≢ r) × (k ≢ w)

abbrev Clean : Fds → Fds → Type 0
Clean s t = ((fd : ℕ) → t.is_open fd ≡ s.is_open fd) × (t.faulted ≡ s.faulted)

unwound_pipe : (s : Fds) (e : Error) → Clean s (unwound e (begun s)).0
unfolding default_fd destroy_fd
unwound_pipe s e = (λ fd. refl, refl)

abbrev with_pipe : ℕ → ℕ → Fds → Fds
with_pipe r w s =
    reset_fd 1 (some w) (reset_fd 0 (some r) (opened (some w) (opened (some r) (begun s))))

unwound_socket :
    (s : Fds) (e : Error) (r w : ℕ)
    → s.is_open r ≡ false
    → s.is_open w ≡ false
    → r ≢ w
    → Clean s (unwound e (reset_fd 2 none (opened none (with_pipe r w s)))).0
unfolding default_fd destroy_fd reset_fd clear_fd
unwound_socket s e r w fr fw n = (λ fd. ground arith, ground arith)

unwound_later :
    (s : Fds) (e : Error) (r w k : ℕ)
    → s.is_open r ≡ false
    → s.is_open w ≡ false
    → r ≢ w
    → s.is_open k ≡ false
    → k ≢ r
    → k ≢ w
    → Clean s (unwound e (reset_fd 2 (some k) (opened (some k) (with_pipe r w s)))).0
unfolding default_fd destroy_fd reset_fd clear_fd
unwound_later s e r w k fr fw n fk nr nw = (λ fd. ground arith, ground arith)

abbrev with_socket : ℕ → ℕ → ℕ → Fds → Fds
with_socket r w k s = reset_fd 2 (some k) (opened (some k) (with_pipe r w s))

-- The call that failed.
abbrev pub Cause : Answers → Error → Type 0
Cause a no_pipe = a.pipes ≡ none
Cause a no_socket = a.socket ≡ none
Cause a no_bind = a.bound ≡ false
Cause a no_name = a.nlpid ≡ none
Cause a no_option = (a.no_enobufs && a.cap_ack) ≡ false

-- The reactor is there with its three descriptors, or an exception has left none.
abbrev pub Ends : Answers → Fds → Fds × Built → Type 0
Ends a s (t, b) =
    ((r : ℕ) × (w : ℕ) × (k : ℕ) × (n : ℕ) × (b ≡ built n)
      × (a.pipes ≡ some (r, w))
      × (a.socket ≡ some k)
      × (a.nlpid ≡ some n)
      × (t.held 0 ≡ some r)
      × (t.held 1 ≡ some w)
      × (t.held 2 ≡ some k)
      × (t.faulted ≡ s.faulted)
      × (a.bound ≡ true)
      × ((a.no_enobufs && a.cap_ack) ≡ true))
    ⊎ ((e : Error) × (b ≡ failed e) × Cause a e × Clean s t)

module _ (a : Answers) (s : Fds) (v : IsFresh a s) (r w : ℕ) (p : a.pipes ≡ some (r, w)) where
  module _ (k : ℕ) (q : a.socket ≡ some k) where
    later : (e : Error) → Cause a e → Ends a s (unwound e (with_socket r w k s))
    later e because =
        let (fr, fw, n) = v.pipes r w p in
        let (nr, nw) = v.apart r w k p q in
        inr (e, refl, because, unwound_later s e r w k fr fw n (v.socket k q) nr nw)

    set_options_lem :
        (n : ℕ) (b c : Bool)
        → a.bound ≡ true
        → a.nlpid ≡ some n
        → a.no_enobufs ≡ b
        → a.cap_ack ≡ c
        → let t = with_socket r w k s in
          Ends a s
            (if b then if c then (t, built n) else unwound no_option t else unwound no_option t)
    unfolding default_fd reset_fd clear_fd
    set_options_lem n true true bound m x y =
        inl (r, w, k, n, refl, p, q, m, refl, refl, refl, refl, bound, rw (x, y) refl)
    set_options_lem n true false bound m x y = later no_option (rw (x, y) refl)
    set_options_lem n false c bound m x y = later no_option (rw x refl)

    get_name_lem :
        (o : Option ℕ)
        → a.bound ≡ true
        → a.nlpid ≡ o
        → Ends a s (get_name a o (with_socket r w k s))
    get_name_lem none bound m = later no_name m
    get_name_lem (some n) bound m = set_options_lem n a.no_enobufs a.cap_ack bound m refl refl

    bound_lem :
        (b : Bool)
        → a.bound ≡ b
        → let t = with_socket r w k s in
          Ends a s (if b then get_name a a.nlpid t else unwound no_bind t)
    bound_lem true e = get_name_lem a.nlpid e refl
    bound_lem false e = later no_bind e

  bind_socket_lem :
      (o : Option ℕ)
      → a.socket ≡ o
      → Ends a s (bind_socket a o (reset_fd 2 o (opened o (with_pipe r w s))))
  bind_socket_lem none q =
      let (fr, fw, n) = v.pipes r w p in
      inr (no_socket, refl, q, unwound_socket s no_socket r w fr fw n)
  bind_socket_lem (some k) q = bound_lem k q a.bound refl

open_pipe_lem :
    (a : Answers) (s : Fds) (o : Option (ℕ × ℕ))
    → IsFresh a s
    → a.pipes ≡ o
    → Ends a s (open_pipe a o (begun s))
open_pipe_lem a s none v p = inr (no_pipe, refl, p, unwound_pipe s no_pipe)
open_pipe_lem a s (some (r, w)) v p = bind_socket_lem a s v r w p a.socket refl

-- Whatever calls of the system fail, if the kernel gives descriptors that are not open and each once:
-- the constructor of the reactor ends, if none has failed, with the pipe and the socket in its three
-- members and the port of the socket; or it throws the error of a call that failed, and then exactly
-- the descriptors that were open before are open. Neither way is a descriptor closed that is not
-- open.
pub build_lem : (a : Answers) (s : Fds) → IsFresh a s → Ends a s (build a s)
unfolding build
build_lem a s v = open_pipe_lem a s a.pipes v refl
