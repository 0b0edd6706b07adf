-- ===== src/Decorations/Socket.antt =====
-- src/decorations/wire.rs: `Socket`, the proxy's end of the bridge's connection. The kernel's answers
-- to `recv_stream` and `send_stream` are arguments, one for each call. The stream offset `written`
-- is a `u64` that counts bytes sent, and does not wrap.
pub mod Invariant
pub mod Batches
pub mod Delivery
pub mod Partial
pub mod Receive
mod Tests
use psbox.Common.{
  ℕ, zero, suc, ◌+◌, ◌-◌, ◌<◌, ◌≤◌, Bool, true, false, Option, none, some, List, [], ◌∷◌, ◌++◌, map,
  min, ltb, ◌==◌, if◌then◌else◌, length, take, drop, get_or, Result, ok, err,
}
use psbox.Decorations.Wire.{ArgumentType, Message, Error, Outcome, Written, parse, write}

pub record Socket : Type 0 where
  pub incoming : List ℕ
  pub incoming_fds : List ℕ
  pub outgoing : List ℕ
  -- Descriptors to send, each with the stream offset of the message that carries it.
  pub outgoing_fds : List (ℕ × ℕ)
  pub written : ℕ

unfoldable pub new : Socket
new = record { incoming = []; incoming_fds = []; outgoing = []; outgoing_fds = []; written = 0 }

-- `STREAM_MAX_FDS` of src/sys/fd.rs.
abbrev pub stream_max_fds : ℕ
stream_max_fds = 28

-- What `recv_stream` answers: the end of the stream, bytes with the descriptors that came with
-- them, or an error.
pub data Received : Type 0 where
  end_of_stream : Received
  bytes : List ℕ → List ℕ → Received
  would_block interrupted : Received
  fails : Received

-- How `fill` ends; `waits` is no end, but that the answers given here are used up.
pub data Filled : Type 0 where
  open_stream closed_stream failed waits : Filled

unfoldable pub fill : List Received → Socket → Socket × Filled
fill [] s = (s, waits)
fill (end_of_stream ∷ answers) s = (s, closed_stream)
fill (bytes b fds ∷ answers) s =
    fill answers (record s { incoming = s.incoming ++ b; incoming_fds = s.incoming_fds ++ fds })
fill (would_block ∷ answers) s = (s, open_stream)
fill (interrupted ∷ answers) s = fill answers s
fill (fails ∷ answers) s = (s, failed)

module _ (signature : ℕ → ℕ → Option (List ArgumentType)) where
  unfoldable took :
      Socket → List ℕ → Outcome (Option (Message × ℕ)) → Socket × Outcome (Option Message)
  took s fds (err e) = (record s { incoming_fds = fds }, err e)
  took s fds (ok none) = (record s { incoming_fds = fds }, ok none)
  took s fds (ok (some (msg, size))) =
      (record s { incoming = drop size s.incoming; incoming_fds = fds }, ok (some msg))

  unfoldable pub next : Socket → Socket × Outcome (Option Message)
  unfolding took
  next s = let (result, fds) = parse signature s.incoming s.incoming_fds in took s fds result

-- `fds.into_iter().map(|fd| (at, fd))`
pub tag : ℕ → List ℕ → List (ℕ × ℕ)
tag at [] = []
tag at (f ∷ fds) = (at, f) ∷ tag at fds

queued : Socket → ℕ → Written → Socket × Outcome (Unit {0})
unfolding tag
queued s at w = elim w.result [
  | err e ↦ (record s { outgoing = w.out }, err e)
  | ok _ ↦ (record s { outgoing = w.out; outgoing_fds = s.outgoing_fds ++ tag at w.fds }, ok tt)
]

pub send : Message → Socket → Socket × Outcome (Unit {0})
unfolding queued
send msg s = queued s (s.written + length s.outgoing) (write msg s.outgoing [])

unfoldable pub wants_write : Socket → Bool
wants_write s = if length s.outgoing == 0 then false else true

-- `self.outgoing_fds[i].0`; every index below is less than the length.
abbrev pub offset_at : List (ℕ × ℕ) → ℕ → ℕ
offset_at fds i = (get_or fds i (0, 0)).0

-- `while n > 0 && fds[n].0 == fds[n - 1].0 { n -= 1 }`
pub back_off : List (ℕ × ℕ) → ℕ → ℕ
back_off fds zero = zero
back_off fds (suc n) = if offset_at fds (suc n) == offset_at fds n then back_off fds n else suc n

-- One batch: how many descriptors go, and how many bytes at most. `none` is `InvalidData`.
pub batch : Socket → Option (ℕ × ℕ)
unfolding back_off
batch s =
    let most = min (length s.outgoing_fds) stream_max_fds in
    let n = back_off s.outgoing_fds most in
    if ltb most (length s.outgoing_fds)
    then (if n == 0 then none else some (n, offset_at s.outgoing_fds n - s.written))
    else some (most, length s.outgoing)

-- What `send_stream` answers.
pub data Sent : Type 0 where
  took_bytes : ℕ → Sent
  would_block interrupted : Sent
  fails : Sent

-- What went out in one call: the bytes, and the descriptors attached to the first of them.
pub record Chunk : Type 0 where
  pub data_sent : List ℕ
  pub fds_sent : List (ℕ × ℕ)

pub data Flushed : Type 0 where
  done blocked failed invalid_data waits : Flushed

pub record Flush : Type 0 where
  pub socket : Socket
  pub chunks : List Chunk
  pub status : Flushed

-- The state and the chunk of a call that took `k` bytes and `n` descriptors.
pub advance : Socket → ℕ → ℕ → Socket
advance s n k = record s {
  outgoing = drop k s.outgoing;
  written = s.written + k;
  outgoing_fds = drop n s.outgoing_fds;
}

abbrev pub chunk : Socket → ℕ → ℕ → Chunk
chunk s n k = record { data_sent = take k s.outgoing; fds_sent = take n s.outgoing_fds }

abbrev pub stopped : Socket → Flushed → Flush
stopped s status = record { socket = s; chunks = []; status = status }

abbrev pub and_then : Chunk → Flush → Flush
and_then c f = record f { chunks = c ∷ f.chunks }

pub flush : List Sent → Socket → Flush
unfolding advance batch
flush [] s = if length s.outgoing == 0 then stopped s done else stopped s waits
flush (answer ∷ answers) s = elim (length s.outgoing == 0) [
  | true ↦ stopped s done
  | false ↦ elim (batch s) [
    | none ↦ stopped s invalid_data
    | some (n, limit) ↦ elim answer [
      | took_bytes k ↦ and_then (chunk s n k) (flush answers (advance s n k))
      | would_block ↦ stopped s blocked
      | interrupted ↦ flush answers s
      | fails ↦ stopped s failed
    ]
  ]
]
