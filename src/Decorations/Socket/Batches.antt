-- ===== src/Decorations/Socket/Batches.antt =====
-- src/decorations/wire.rs: what one turn of `Socket::flush` sends.
use psbox.Common.{
  ℕ, zero, suc, ◌+◌, ◌-◌, ◌<◌, ◌≤◌, ◌≡◌, ◌≢◌, refl, ap, true, false, none, some, List, [], ◌∷◌, min,
  ltb, ◌==◌, length, length-drop, drop-nil, drop, arith, Bool-cases, ◌⊎◌, inl, inr, ==_iff, ◌∙◌,
}
use psbox.Decorations.Socket.{Socket, stream_max_fds, offset_at, back_off, batch, advance}
use psbox.Decorations.Socket.Invariant.{IsQueue, InStep, IsQueue-drop, IsQueue-weaken}

back_off-le : (fds : List (ℕ × ℕ)) (m : ℕ) → back_off fds m ≤ m
unfolding back_off
back_off-le fds zero = omega arith
back_off-le fds (suc n) = ground (arith, back_off-le fds n)

-- `back_off` stops between two messages, or where none of the first descriptors may go alone.
back_off-suc :
    (fds : List (ℕ × ℕ)) (m : ℕ) {n : ℕ}
    → back_off fds m ≡ suc n
    → offset_at fds (suc n) ≢ offset_at fds n
unfolding back_off
back_off-suc fds zero e = cc
back_off-suc fds (suc m) e = elim (Bool-cases (offset_at fds (suc m) == offset_at fds m)) [
  | inl same ↦ back_off-suc fds m (ground (arith, same))
  | inr other ↦ ground (arith, other)
]

back_off-zero :
    (fds : List (ℕ × ℕ)) (m i : ℕ) → back_off fds m ≡ 0 → i ≤ m → offset_at fds i ≡ offset_at fds 0
unfolding back_off
back_off-zero fds zero zero e h = refl
back_off-zero fds zero (suc i) e h = absurd (omega arith)
back_off-zero fds (suc m) i e h = elim (Bool-cases (offset_at fds (suc m) == offset_at fds m)) [
  | inr other ↦ absurd (ground (arith, other))
  | inl same ↦ elim (Bool-cases (i == suc m)) [
    | inl last ↦
        rw ((==_iff i (suc m)).0 last)
          ((==_iff _ _).0 same ∙ back_off-zero fds m m (ground (arith, same)) (omega arith))
    | inr before ↦ back_off-zero fds m i (ground (arith, same)) (ground (arith, before))
  ]
]

offset_at_mono :
    (lo hi : ℕ) (fds : List (ℕ × ℕ)) (n : ℕ)
    → suc n < length fds
    → IsQueue lo hi fds
    → offset_at fds n ≤ offset_at fds (suc n)
offset_at_mono lo hi [] n h v = elim h [ ]
offset_at_mono lo hi ((at, f) ∷ []) n h v = absurd (omega arith)
offset_at_mono lo hi ((at, f) ∷ (at', f') ∷ fds) zero h v = v.2.0
offset_at_mono lo hi ((at, f) ∷ fds) (suc n) h v = offset_at_mono at hi fds n (omega arith) v.2

-- What is right about a batch of `n` descriptors and at most `limit` bytes.
pub record IsBatch (s : Socket) (n limit : ℕ) : Type 0 where
  pub few : n ≤ stream_max_fds
  pub some_bytes : 0 < limit
  pub in_buffer : limit ≤ length s.outgoing
  -- The descriptors left belong to messages that start behind the bytes offered.
  pub in_step : IsQueue (s.written + limit) (s.written + length s.outgoing) (drop n s.outgoing_fds)

drop-all : (fds : List (ℕ × ℕ)) (n : ℕ) → length fds ≤ n → drop n fds ≡ []
drop-all [] n h = drop-nil n
drop-all (x ∷ fds) zero h = elim h [ ]
drop-all (x ∷ fds) (suc n) h = drop-all fds n (omega arith)

-- All descriptors go, with all the bytes.
whole-IsBatch :
    (s : Socket)
    → 0 < length s.outgoing
    → length s.outgoing_fds ≤ stream_max_fds
    → IsBatch s (min (length s.outgoing_fds) stream_max_fds) (length s.outgoing)
whole-IsBatch s full few = record {
  few = omega arith;
  some_bytes = full;
  in_buffer = omega arith;
  in_step =
      rw (drop-all s.outgoing_fds (min (length s.outgoing_fds) stream_max_fds) (omega arith)) tt;
}

-- The batch ends before a message that starts at descriptor `suc m`.
part-IsBatch :
    (s : Socket) (m : ℕ)
    → InStep s
    → suc m ≤ stream_max_fds
    → stream_max_fds < length s.outgoing_fds
    → offset_at s.outgoing_fds (suc m) ≢ offset_at s.outgoing_fds m
    → IsBatch s (suc m) (offset_at s.outgoing_fds (suc m) - s.written)
part-IsBatch s m v few many apart =
    let end : ℕ = s.written + length s.outgoing in
    let here = IsQueue-drop s.written end s.outgoing_fds m (omega arith) v in
    let next = IsQueue-drop s.written end s.outgoing_fds (suc m) (omega arith) v in
    let rising = offset_at_mono s.written end s.outgoing_fds m (omega arith) v in
    record {
      few = few;
      some_bytes = omega (arith, here.0, rising, apart);
      in_buffer = omega (arith, next.1);
      in_step =
          IsQueue-weaken (offset_at s.outgoing_fds (suc m)) _ end end (drop (suc m) s.outgoing_fds)
            (omega (arith, next.0)) (omega arith) next.2;
    }

-- The first descriptors beyond what one call carries all belong to one message.
abbrev pub IsCrowded : List (ℕ × ℕ) → Type 0
IsCrowded fds =
    (stream_max_fds < length fds)
    × ((i : ℕ) → i ≤ stream_max_fds → offset_at fds i ≡ offset_at fds 0)

suc-ne-zero : (m : ℕ) → (suc m == 0) ≡ false
suc-ne-zero m = ground arith

-- While bytes wait, there is a batch to send, unless one message carries more descriptors than a
-- call can; and the batch is right.
pub batch_cases :
    (s : Socket)
    → InStep s
    → 0 < length s.outgoing
    → (batch s ≡ none) × IsCrowded s.outgoing_fds
      ⊎ ((n : ℕ) × (limit : ℕ) × (batch s ≡ some (n, limit)) × IsBatch s n limit)
unfolding batch
batch_cases s v full =
    elim (Bool-cases (ltb (min (length s.outgoing_fds) stream_max_fds) (length s.outgoing_fds))) [
      | inr all ↦ inr (_, _, rw all, whole-IsBatch s full (ground (arith, all)))
      | inl more ↦ many more (ground (arith, more))
    ]
  where
    many :
        ltb (min (length s.outgoing_fds) stream_max_fds) (length s.outgoing_fds) ≡ true
        → stream_max_fds < length s.outgoing_fds
        → (batch s ≡ none) × IsCrowded s.outgoing_fds
          ⊎ ((n : ℕ) × (limit : ℕ) × (batch s ≡ some (n, limit)) × IsBatch s n limit)
    many more long = go (back_off s.outgoing_fds stream_max_fds) refl
      where
        most : min (length s.outgoing_fds) stream_max_fds ≡ stream_max_fds
        most = omega arith

        go :
            (n : ℕ)
            → back_off s.outgoing_fds stream_max_fds ≡ n
            → (batch s ≡ none) × IsCrowded s.outgoing_fds
              ⊎ ((n : ℕ) × (limit : ℕ) × (batch s ≡ some (n, limit)) × IsBatch s n limit)
        go zero e =
            inl
              (rw (more, most, e), (long, λ i h. back_off-zero s.outgoing_fds stream_max_fds i e h))
        go (suc m) e = inr (
          suc m,
          _,
          rw (more, most, e, suc-ne-zero m),
          part-IsBatch s m v
              (omega (arith, ap (λ (k : ℕ). k) e, back_off-le s.outgoing_fds stream_max_fds)) long
              (back_off-suc s.outgoing_fds stream_max_fds e),
        )

-- After a call that took no more than it was offered, every descriptor still waiting belongs to a
-- message that has not started.
pub advance-InStep :
    (s : Socket) (n limit k : ℕ) → IsBatch s n limit → k ≤ limit → InStep (advance s n k)
unfolding advance
advance-InStep s n limit k b h =
    IsQueue-weaken (s.written + limit) _ _ _ (drop n s.outgoing_fds) (omega arith)
      (omega (arith, length-drop k s.outgoing, b.in_buffer)) b.in_step
