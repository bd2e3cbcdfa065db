-- ===== src/Reactor/State.antt =====
-- statApp/src/nlreact.cpp: the state behind Reactor::Pvt. Jobs, operations and messages live in
-- stores indexed by their number of creation; a weak_ptr is such a number, and lock() on it
-- succeeds while the external handle (`held`) exists. A callback is the environment's code: of
-- std::function only "is it null" is kept.
use lin_stat.Base.{
  ℕ, ◌%◌, ◌^◌, ◌≡◌, refl, Bool, true, false, List, [], ◌∷◌, Option, none, some, ◌==◌, if◌then◌else◌,
  arith,
}

-- struct nlmsghdr, as far as the reactor reads and writes it.
pub record Msg : Type 0 where
  pub len : ℕ
  pub kind : ℕ
  pub seq : ℕ
  pub pid : ℕ

pub record Job : Type 0 where
  pub cb : Bool
  pub done : Bool
  pub busy : Bool
  pub held : Bool

pub record Operation : Type 0 where
  pub seq : ℕ
  pub cb : Bool
  pub cancel : Bool
  pub busy : Bool
  pub held : Bool

-- What poll() reported: the pipe readable, the socket readable, the socket writable.
pub record Events : Type 0 where
  pub wake : Bool
  pub rx : Bool
  pub tx : Bool

-- Where the worker thread stands in run(). It holds the lock in `top`, `draining`, `receiving`,
-- `messages` and `sending`.
pub data Worker : Type 0 where
  absent starting top exited : Worker
  polling : Bool → Bool → Worker
  draining : List ℕ → Events → Worker
  calling : ℕ → List ℕ → Events → Worker
  receiving : Events → Worker
  messages : List Msg → ℕ → Events → Worker
  handling : ℕ → List Msg → ℕ → Events → Worker
  sending : Events → Worker

pub record Pvt : Type 0 where
  pub hdr_len : ℕ  -- sizeof(nlmsghdr), the kernel's
  pub nlpid : ℕ
  pub nextseq : ℕ  -- uint32_t
  pub running : Bool
  pub todo : List ℕ
  pub ready : List (Option Msg)  -- `none` is a null shared_ptr
  pub handlers : List (ℕ × ℕ)  -- sequence number, operation
  pub next_job : ℕ
  pub jobs : ℕ → Job
  pub next_op : ℕ
  pub ops : ℕ → Operation
  pub pipe : ℕ  -- bytes in the wakeup pipe
  pub pokes : ℕ  -- calls of poke() decided under the lock and not yet made
  pub worker : Worker
  pub alive : Bool  -- the Pvt object exists
  pub crashed : Bool
  pub called : List ℕ  -- the jobs whose callback was started, the latest first

abbrev pub u32 : ℕ → ℕ
u32 n = n % 2 ^ 32

abbrev pub update {ℓ} : {A : Type ℓ} → (ℕ → A) → ℕ → A → ℕ → A
update f i v j = if i == j then v else f j

-- std::map<uint32_t, …>: one entry for a key.
abbrev pub find : ℕ → List (ℕ × ℕ) → Option ℕ
find k [] = none
find k ((j, v) ∷ m) = if j == k then some v else find k m

abbrev pub put : ℕ → ℕ → List (ℕ × ℕ) → List (ℕ × ℕ)
put k v [] = (k, v) ∷ []
put k v ((j, w) ∷ m) = if j == k then (k, v) ∷ m else (j, w) ∷ put k v m

abbrev pub erase : ℕ → List (ℕ × ℕ) → List (ℕ × ℕ)
erase k [] = []
erase k ((j, v) ∷ m) = if j == k then erase k m else (j, v) ∷ erase k m

pub find-put :
    (k j v : ℕ) (m : List (ℕ × ℕ)) → find j (put k v m) ≡ (if k == j then some v else find j m)
find-put k j v [] = refl
find-put k j v ((i, w) ∷ m) = ground (arith, find-put k j v m)

pub find-erase :
    (k j : ℕ) (m : List (ℕ × ℕ)) → find j (erase k m) ≡ (if k == j then none else find j m)
find-erase k j [] = ground arith
find-erase k j ((i, w) ∷ m) = ground (arith, find-erase k j m)

-- A thread other than the worker takes the lock only while the worker does not hold it.
unfoldable pub lock_free : Worker → Bool
lock_free absent = true
lock_free starting = true
lock_free exited = true
lock_free (polling blocking armed) = true
lock_free (calling i rest ev) = true
lock_free (handling i msgs remain ev) = true
lock_free _ = false

-- The worker thread itself calls the reactor only from inside a callback.
unfoldable pub in_callback : Worker → Bool
in_callback (calling i rest ev) = true
in_callback (handling i msgs remain ev) = true
in_callback _ = false

pub data Caller : Type 0 where
  worker_thread other_thread : Caller

unfoldable pub may_enter : Caller → Worker → Bool
unfolding lock_free in_callback
may_enter worker_thread w = in_callback w
may_enter other_thread w = lock_free w

unfoldable pub on_worker : Caller → Bool
on_worker worker_thread = true
on_worker other_thread = false
