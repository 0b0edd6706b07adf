-- ===== src/Decorations/Socket/Delivery.antt =====
-- src/decorations/wire.rs: what `Socket::flush` does with the queued bytes and descriptors.
use psbox.Common.{
  ℕ, zero, suc, ◌≤◌, ◌≡◌, refl, ap, ◌∙◌, Bool, true, false, Option, none, some, List, [], ◌∷◌, ◌++◌,
  ◌==◌, append_assoc, length, take, take-append-drop, All, arith, Bool-cases, inl, inr,
}
use psbox.Decorations.Socket.{
  Socket, Sent, took_bytes, would_block, interrupted, fails, stream_max_fds, batch, advance, Chunk,
  chunk, Flushed, done, blocked, failed, invalid_data, waits, Flush, stopped, and_then, flush,
}
use psbox.Decorations.Socket.Invariant.{InStep}
use psbox.Decorations.Socket.Batches.{IsBatch, IsCrowded, batch_cases, advance-InStep}

abbrev pub CallMade : Bool → Option (ℕ × ℕ) → (ℕ → ℕ → Type 0) → Type 0
CallMade true b P = Unit
CallMade false none P = Unit
CallMade false (some (n, limit)) P = P n limit

-- What `sendmsg` promises: it takes no more bytes than the call offered.
abbrev pub IsHonest : List Sent → Socket → Type 0
IsHonest [] s = Unit {0}
IsHonest (took_bytes k ∷ answers) s =
    CallMade (length s.outgoing == 0) (batch s)
      (λ n limit. (k ≤ limit) × IsHonest answers (advance s n k))
IsHonest (interrupted ∷ answers) s = IsHonest answers s
IsHonest (would_block ∷ answers) s = Unit {0}
IsHonest (fails ∷ answers) s = Unit {0}

abbrev pub all_data : List Chunk → List ℕ
all_data [] = []
all_data (c ∷ cs) = c.data_sent ++ all_data cs

abbrev pub all_fds : List Chunk → List (ℕ × ℕ)
all_fds [] = []
all_fds (c ∷ cs) = c.fds_sent ++ all_fds cs

-- How a flush of `s` may end.
pub record Delivers (s : Socket) (f : Flush) : Type 0 where
  -- No descriptor waits whose message has started.
  pub in_step : InStep f.socket
  -- What went out and what waits is what was queued, in order.
  pub same_data : all_data f.chunks ++ f.socket.outgoing ≡ s.outgoing
  pub same_fds : all_fds f.chunks ++ f.socket.outgoing_fds ≡ s.outgoing_fds
  pub few_fds : All (λ c. length c.fds_sent ≤ stream_max_fds) f.chunks
  pub done_empty : f.status ≡ done → f.socket.outgoing ≡ []
  pub invalid_crowded : f.status ≡ invalid_data → IsCrowded f.socket.outgoing_fds

stopped-Delivers :
    (s : Socket) (status : Flushed)
    → InStep s
    → (status ≡ done → s.outgoing ≡ [])
    → (status ≡ invalid_data → IsCrowded s.outgoing_fds)
    → Delivers s (stopped s status)
stopped-Delivers s status v d c = record {
  in_step = v;
  same_data = refl;
  same_fds = refl;
  few_fds = tt;
  done_empty = d;
  invalid_crowded = c;
}

length-nil : {xs : List ℕ} → (length xs == 0) ≡ true → xs ≡ []
length-nil {xs = []} e = refl
length-nil {xs = x ∷ xs} e = absurd (ground (arith, e))

length-take-le : (n m : ℕ) (xs : List (ℕ × ℕ)) → n ≤ m → length (take n xs) ≤ m
length-take-le zero m xs h = omega arith
length-take-le (suc n) m [] h = omega arith
length-take-le (suc n) (suc m) (x ∷ xs) h = omega (arith, length-take-le n m xs (omega arith))
length-take-le (suc n) zero (x ∷ xs) h = absurd (omega arith)

advance-Delivers :
    (s : Socket) (n limit k : ℕ) (f : Flush)
    → IsBatch s n limit
    → Delivers (advance s n k) f
    → Delivers s (and_then (chunk s n k) f)
unfolding advance
advance-Delivers s n limit k f b d = record {
  in_step = d.in_step;
  same_data =
      append_assoc (take k s.outgoing) (all_data f.chunks) f.socket.outgoing
      ∙ ap (◌++◌ (take k s.outgoing)) d.same_data
      ∙ take-append-drop k s.outgoing;
  same_fds =
      append_assoc (take n s.outgoing_fds) (all_fds f.chunks) f.socket.outgoing_fds
      ∙ ap (◌++◌ (take n s.outgoing_fds)) d.same_fds
      ∙ take-append-drop n s.outgoing_fds;
  few_fds = (length-take-le n stream_max_fds s.outgoing_fds b.few, d.few_fds);
  done_empty = d.done_empty;
  invalid_crowded = d.invalid_crowded;
}

-- A turn of the loop, where it does not end by its test or for want of a batch.
turn-Delivers :
    (answer : Sent) (answers : List Sent) (s : Socket)
    → InStep s
    → ((n limit : ℕ)
        → (length s.outgoing == 0) ≡ false
        → batch s ≡ some (n, limit)
        → IsBatch s n limit
        → Delivers s (flush (answer ∷ answers) s))
    → Delivers s (flush (answer ∷ answers) s)
unfolding flush
turn-Delivers answer answers s v call = elim (Bool-cases (length s.outgoing == 0)) [
  | inl empty ↦ rw (empty, flush) (stopped-Delivers s done v (λ q. length-nil empty) (λ q. cc))
  | inr full ↦ elim (batch_cases s v (ground (arith, full))) [
    | inl (e, crowded) ↦
        rw (full, e, flush) (stopped-Delivers s invalid_data v (λ q. cc) (λ q. crowded))
    | inr (n, limit, e, b) ↦ call n limit full e b
  ]
]

-- Whatever the kernel answers, as long as it takes no more than it is offered, a flush sends the
-- queued bytes and descriptors in order and keeps what is left in step; no message's descriptors go
-- out after its first byte, and no call carries more than 28. It ends as done only when every byte
-- is out, and as invalid data only when more than 28 descriptors belong to one message.
pub flush-Delivers :
    (answers : List Sent) (s : Socket)
    → InStep s
    → IsHonest answers s
    → Delivers s (flush answers s)
unfolding flush
flush-Delivers [] s v h = elim (Bool-cases (length s.outgoing == 0)) [
  | inl empty ↦ rw (empty, flush) (stopped-Delivers s done v (λ q. length-nil empty) (λ q. cc))
  | inr full ↦ rw (full, flush) (stopped-Delivers s waits v (λ q. cc) (λ q. cc))
]
flush-Delivers (took_bytes k ∷ answers) s v h =
    turn-Delivers (took_bytes k) answers s v λ n limit full e b.
      let honest = rw (full, e) at h in
      rw (full, e, flush)
        (advance-Delivers s n limit k _ b
          (flush-Delivers answers (advance s n k) (advance-InStep s n limit k b honest.0) honest.1))
flush-Delivers (Sent.would_block ∷ answers) s v h =
    turn-Delivers Sent.would_block answers s v
      λ n limit full e b. rw (full, e, flush) (stopped-Delivers s blocked v (λ q. cc) (λ q. cc))
flush-Delivers (Sent.interrupted ∷ answers) s v h =
    turn-Delivers Sent.interrupted answers s v
      λ n limit full e b. rw (full, e, flush) (flush-Delivers answers s v h)
flush-Delivers (Sent.fails ∷ answers) s v h =
    turn-Delivers Sent.fails answers s v
      λ n limit full e b. rw (full, e, flush) (stopped-Delivers s failed v (λ q. cc) (λ q. cc))
