-- ===== src/Decorations/Socket/Partial.antt =====
-- src/decorations/wire.rs: an event queued after a flush that stopped inside a word.
use psbox.Common.{
  ℕ, ◌+◌, ◌%◌, ◌^◌, ◌≤◌, ◌<◌, ◌≡◌, ◌≢◌, ap, Option, List, ◌++◌, length, drop, ok, err,
}
use psbox.Common.Bytes.{IsU32}
use psbox.Decorations.Wire.{ArgumentType, malformed_header, parse}
use psbox.Decorations.Wire.Misaligned.{array_event, array_size, array_bytes, write_misaligned}
use psbox.Decorations.Socket.{Socket, advance, send, queued}

module _ (signature : ℕ → ℕ → Option (List ArgumentType)) where
  -- A flush that sent `k` bytes and left a number of them that is no multiple of four leaves a
  -- socket that takes an event with one array of at most 65000 bytes, from a 32-bit sender with a
  -- 16-bit opcode, and queues for it bytes whose header `parse` refuses, whatever follows them.
  pub send_after_partial :
      (s : Socket) (n k sender opcode : ℕ) (bytes rest fds : List ℕ)
      → length (drop k s.outgoing) % 4 ≢ 0
      → length bytes ≤ 65000
      → IsU32 sender
      → opcode < 2 ^ 16
      → ((send (array_event sender opcode bytes) (advance s n k)).1 ≡ ok tt)
        × ((send (array_event sender opcode bytes) (advance s n k)).0.outgoing
            ≡ drop k s.outgoing ++ array_bytes sender opcode (length (drop k s.outgoing)) bytes)
        × (parse signature
              (array_bytes sender opcode (length (drop k s.outgoing)) bytes ++ rest)
              fds
            ≡ (
              err (malformed_header (array_size (length (drop k s.outgoing)) (length bytes))),
              fds,
            ))
  unfolding send advance
  send_after_partial s n k sender opcode bytes rest fds odd short sd o =
      let (written, refused) =
        write_misaligned signature (drop k s.outgoing) bytes rest fds sender opcode odd short sd
          o in
      let at : ℕ = s.written + k + length (drop k s.outgoing) in
      (
        ap (λ w. (queued (advance s n k) at w).1) written,
        ap (λ w. (queued (advance s n k) at w).0.outgoing) written,
        refused,
      )
