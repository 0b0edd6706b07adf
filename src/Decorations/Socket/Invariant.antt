-- ===== src/Decorations/Socket/Invariant.antt =====
-- src/decorations/wire.rs: the queue of descriptors of a `Socket` against the queue of its bytes.
use psbox.Common.{
  ℕ, zero, suc, ◌+◌, ◌<◌, ◌≤◌, ◌≡◌, refl, List, [], ◌∷◌, ◌++◌, length, drop, arith, ok, err,
}
use psbox.Decorations.Wire.{Message, Outcome, Written, write}
use psbox.Decorations.Wire.Size.{write-grows}
use psbox.Decorations.Socket.{Socket, new, tag, queued, send, offset_at}

-- The offsets rise, from `lo` on, and each lies before the end of the bytes.
abbrev pub IsQueue : ℕ → ℕ → List (ℕ × ℕ) → Type 0
IsQueue lo hi [] = Unit {0}
IsQueue lo hi ((at, f) ∷ fds) = (lo ≤ at) × (at < hi) × IsQueue at hi fds

-- Every descriptor waiting belongs to a message none of whose bytes has been sent.
abbrev pub InStep : Socket → Type 0
InStep s = IsQueue s.written (s.written + length s.outgoing) s.outgoing_fds

pub IsQueue-weaken :
    (lo lo' hi hi' : ℕ) (fds : List (ℕ × ℕ))
    → lo' ≤ lo
    → hi ≤ hi'
    → IsQueue lo hi fds
    → IsQueue lo' hi' fds
IsQueue-weaken lo lo' hi hi' [] p q v = tt
IsQueue-weaken lo lo' hi hi' ((at, f) ∷ fds) p q v =
    (omega arith, omega arith, IsQueue-weaken at at hi hi' fds (omega arith) q v.2)

-- Descriptors of the next message go behind.
IsQueue-tag :
    (lo hi hi' : ℕ) (fds : List (ℕ × ℕ)) (more : List ℕ)
    → lo ≤ hi
    → hi < hi'
    → IsQueue lo hi fds
    → IsQueue lo hi' (fds ++ tag hi more)
unfolding tag
IsQueue-tag lo hi hi' [] [] p q v = tt
IsQueue-tag lo hi hi' [] (f ∷ more) p q v = (p, q, IsQueue-tag hi hi hi' [] more (omega arith) q tt)
IsQueue-tag lo hi hi' ((at, f) ∷ fds) more p q v =
    (v.0, omega arith, IsQueue-tag at hi hi' fds more (omega arith) q v.2)

-- Behind the first `n` descriptors the offsets start at the offset of descriptor `n`.
pub IsQueue-drop :
    (lo hi : ℕ) (fds : List (ℕ × ℕ)) (n : ℕ)
    → n < length fds
    → IsQueue lo hi fds
    → (lo ≤ offset_at fds n) × (offset_at fds n < hi) × IsQueue (offset_at fds n) hi (drop n fds)
IsQueue-drop lo hi [] n h v = elim h [ ]
IsQueue-drop lo hi ((at, f) ∷ fds) zero h v = (v.0, v.1, (omega arith, v.1, v.2))
IsQueue-drop lo hi ((at, f) ∷ fds) (suc n) h v =
    let rest = IsQueue-drop at hi fds n (omega arith) v.2 in (omega arith, rest.1, rest.2)

queued-InStep :
    (s : Socket) (w : Written)
    → InStep s
    → length s.outgoing ≤ length w.out
    → (w.result ≡ ok tt → length s.outgoing < length w.out)
    → InStep (queued s (s.written + length s.outgoing) w).0
unfolding queued
queued-InStep s w v kept grown = go w.result refl
  where
    go :
        (r : Outcome (Unit {0}))
        → w.result ≡ r
        → InStep (queued s (s.written + length s.outgoing) w).0
    go (err e) is_err =
        rw (is_err, queued) (IsQueue-weaken _ _ _ _ s.outgoing_fds (omega arith) (omega arith) v)
    go (ok u) is_ok =
        rw (is_ok, queued)
          (IsQueue-tag s.written (s.written + length s.outgoing) _ s.outgoing_fds w.fds
            (omega arith) (omega (arith, grown is_ok)) v)

-- Queueing an event, whether it fits or is refused, keeps the descriptors in step with the bytes.
pub send-InStep : (msg : Message) (s : Socket) → InStep s → InStep (send msg s).0
unfolding send
send-InStep msg s v =
    let sizes = write-grows msg s.outgoing [] in
    queued-InStep s (write msg s.outgoing []) v sizes.0 sizes.1

pub new-InStep : InStep new
unfolding new
new-InStep = tt
