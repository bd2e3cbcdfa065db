-- ===== src/Reactor/Sequence.antt =====
-- statApp/src/nlreact.cpp: the sequence numbers of requests, and which handler gets a reply.
use lin_stat.Base.{
  ℕ, zero, suc, ◌+◌, ◌^◌, ◌≤◌, ◌<◌, ◌≡◌, refl, ◌≢◌, inl, inr, List, [], ◌∷◌, ◌++◌, none, some,
  arith, length, is_empty, ◌&&◌, Option-cases,
}
use lin_stat.Reactor.State.{Pvt, Msg, u32, find, erase, find-put, find-erase}
use lin_stat.Reactor.Api.{ok, free_seq, enqueue, poke_if, request}

pub free_seq-free :
    (fuel n : ℕ) (m : List (ℕ × ℕ)) {seq : ℕ} → free_seq fuel n m ≡ some seq → find seq m ≡ none
unfolding free_seq
free_seq-free zero n m h = cc
free_seq-free (suc fuel) n m {seq} h =
    ground (arith, free_seq-free fuel (u32 (suc n)) m {seq = seq})

length-erase : (k : ℕ) (m : List (ℕ × ℕ)) → length (erase k m) ≤ length m
length-erase k [] = omega arith
length-erase k ((j, v) ∷ m) = ground (arith, length-erase k m)

length-erase_found :
    (k i : ℕ) (m : List (ℕ × ℕ)) → find k m ≡ some i → length (erase k m) < length m
length-erase_found k i [] h = cc
length-erase_found k i ((j, v) ∷ m) h = ground (arith, length-erase k m, length-erase_found k i m)

-- The search looks at `fuel` numbers from n on: none of them is k.
free_seq-erase :
    (fuel n k : ℕ) (m : List (ℕ × ℕ))
    → ((i : ℕ) → i < fuel → u32 (n + i) ≢ k)
    → n < 2 ^ 32
    → free_seq fuel n (erase k m) ≡ free_seq fuel n m
unfolding free_seq
free_seq-erase zero n k m away b = refl
free_seq-erase (suc fuel) n k m away b = ground (
  arith,
  find-erase k n m,
  away 0,
  free_seq-erase fuel (u32 (suc n)) k m (λ i l e. away (suc i) (omega arith) (omega arith))
      (omega arith),
)

free_seq_total :
    (fuel n : ℕ) (m : List (ℕ × ℕ))
    → length m < fuel
    → fuel ≤ 2 ^ 32
    → n < 2 ^ 32
    → free_seq fuel n m ≢ none
unfolding free_seq
free_seq_total zero n m l b c = absurd (omega arith)
free_seq_total (suc fuel) n m l b c = elim (Option-cases (find n m)) [
  | inl e ↦ λ h. ground arith
  | inr (i, e) ↦ λ h.
      free_seq_total fuel (u32 (suc n)) (erase n m) (omega (arith, length-erase_found n i m e))
        (omega arith) (omega arith)
        (ground (arith, free_seq-erase fuel (u32 (suc n)) n m (λ j k a. omega arith) (omega arith)))
]

-- request() finds a sequence number for every message of a valid length while fewer than 2 ^ 32
-- requests have handlers; the search looks at one number more than there are handlers.
request_total :
    (msg : Msg) (s : Pvt)
    → s.hdr_len ≤ msg.len
    → s.nextseq < 2 ^ 32
    → length s.handlers < 2 ^ 32
    → (t : Pvt) × (i : ℕ) × (request msg s ≡ ok (t, i))
unfolding request
request_total msg s l n h =
    elim (Option-cases (free_seq (suc (length s.handlers)) s.nextseq s.handlers)) [
      | inl e ↦ absurd (free_seq_total _ s.nextseq s.handlers (omega arith) (omega arith) n e)
      | inr (seq, e) ↦
          let t = enqueue s msg seq in
          (poke_if (is_empty t.todo && is_empty t.ready) t, s.next_op, ground arith)
    ]

-- The new request gets a number that no other handler has, its operation answers to it, and the
-- handlers of the other requests stay as they are. The message carries that number and the
-- reactor's own port.
request-find :
    (msg : Msg) (s t : Pvt) (i : ℕ)
    → request msg s ≡ ok (t, i)
    → let seq = (t.ops i).seq in
      (find seq s.handlers ≡ none)
      × (find seq t.handlers ≡ some i)
      × ((k : ℕ) → k ≢ seq → find k t.handlers ≡ find k s.handlers)
      × (t.ready ≡ s.ready ++ some (record msg { seq = seq; pid = s.nlpid }) ∷ [])
unfolding request
request-find msg s t i h =
    elim (Option-cases (free_seq (suc (length s.handlers)) s.nextseq s.handlers)) [
      | inl e ↦ absurd (ground arith)
      | inr (seq, e) ↦ (
        ground (arith, free_seq-free _ s.nextseq s.handlers e),
        ground (arith, find-put seq seq s.next_op s.handlers),
        λ k ne. ground (arith, find-put seq k s.next_op s.handlers),
        ground arith,
      )
    ]

-- request() takes every message of a valid length while fewer than 2 ^ 32 requests have handlers, the
-- search for a number looking at one number more than there are handlers. The new request then gets
-- a number that no other handler has, its operation answers to it, and the handlers of the other
-- requests stay as they are; the message carries that number and the reactor's own port.
pub request_lem :
    (msg : Msg) (s : Pvt)
    → s.hdr_len ≤ msg.len
    → s.nextseq < 2 ^ 32
    → length s.handlers < 2 ^ 32
    → (t : Pvt) × (i : ℕ) × (request msg s ≡ ok (t, i))
      × (find (t.ops i).seq s.handlers ≡ none)
      × (find (t.ops i).seq t.handlers ≡ some i)
      × ((k : ℕ) → k ≢ (t.ops i).seq → find k t.handlers ≡ find k s.handlers)
      × (t.ready ≡ s.ready ++ some (record msg { seq = (t.ops i).seq; pid = s.nlpid }) ∷ [])
request_lem msg s l n h =
    let (t, i, e) = request_total msg s l n h in
    let (fresh_seq, found, others, queued) = request-find msg s t i e in
    (t, i, e, fresh_seq, found, others, queued)
