-- ===== src/Decorations/Socket/Receive.antt =====
-- Receiving on the socket of src/decorations/wire.rs: `Socket::fill` and `Socket::next`.
use psbox.Common.{
  ℕ, ◌^◌, ◌≤◌, ◌<◌, ◌≡◌, sym, ap, ap₂, ◌∙◌, Option, some, List, [], ◌∷◌, ◌++◌, append_assoc,
  append-nil, length, drop, drop-append_length, arith, ok,
}
use psbox.Common.Bytes.{IsU32, u32_bytes}
use psbox.Decorations.Wire.{ArgumentType, Message, u16_max}
use psbox.Decorations.Wire.Encoding.{args_fds, encode, message_size, FitsAll}
use psbox.Decorations.Wire.Parse.{parse-encode}
use psbox.Decorations.Socket.{Socket, Received, bytes, fill, next}

-- The bytes that the kernel gives until it has no more, and the descriptors.
abbrev pub received : List Received → List ℕ
received [] = []
received (bytes b fds ∷ answers) = b ++ received answers
received (Received.interrupted ∷ answers) = received answers
received (_ ∷ answers) = []

abbrev pub received_fds : List Received → List ℕ
received_fds [] = []
received_fds (bytes b fds ∷ answers) = fds ++ received_fds answers
received_fds (Received.interrupted ∷ answers) = received_fds answers
received_fds (_ ∷ answers) = []

abbrev with_read : Socket → List ℕ → List ℕ → Socket
with_read s b fds = record s { incoming = s.incoming ++ b; incoming_fds = s.incoming_fds ++ fds }

nothing_read : (s : Socket) → s ≡ with_read s [] []
nothing_read s =
    ap₂ (λ a b. record s { incoming = a; incoming_fds = b }) (sym (append-nil s.incoming))
      (sym (append-nil s.incoming_fds))

-- However the kernel cuts the stream, `fill` keeps all of it in order.
fill-received :
    (answers : List Received) (s : Socket)
    → (fill answers s).0 ≡ with_read s (received answers) (received_fds answers)
unfolding fill
fill-received [] s = nothing_read s
fill-received (Received.end_of_stream ∷ answers) s = nothing_read s
fill-received (bytes b fds ∷ answers) s =
    fill-received answers (with_read s b fds)
    ∙ ap₂ (λ x y. record s { incoming = x; incoming_fds = y })
        (append_assoc s.incoming b (received answers))
        (append_assoc s.incoming_fds fds (received_fds answers))
fill-received (Received.would_block ∷ answers) s = nothing_read s
fill-received (Received.interrupted ∷ answers) s = fill-received answers s
fill-received (Received.fails ∷ answers) s = nothing_read s

length-encode : (msg : Message) → message_size msg ≡ length (encode msg)
unfolding encode u32_bytes
length-encode msg = omega arith

module _ (signature : ℕ → ℕ → Option (List ArgumentType)) where
  next-encode :
      (s : Socket) (msg : Message) (sig : List ArgumentType) (rest more : List ℕ)
      → signature msg.sender msg.opcode ≡ some sig
      → FitsAll sig msg.args
      → IsU32 msg.sender
      → msg.opcode < 2 ^ 16
      → message_size msg ≤ u16_max
      → s.incoming ≡ encode msg ++ rest
      → s.incoming_fds ≡ args_fds msg.args ++ more
      → next signature s ≡ (record s { incoming = rest; incoming_fds = more }, ok (some msg))
  unfolding next
  next-encode s msg sig rest more known fits sender opcode small came came_fds =
      let taken : drop (message_size msg) (encode msg ++ rest) ≡ rest =
        ap (λ n. drop n (encode msg ++ rest)) (length-encode msg)
        ∙ drop-append_length (encode msg) rest in
      rw (came, came_fds, parse-encode signature msg sig rest more known fits sender opcode small)
        (ap (λ xs. (record s { incoming = xs; incoming_fds = more }, ok (some msg))) taken)

  -- For a request of at most 65535 bytes that fits its signature, with a 32-bit sender and a 16-bit
  -- opcode: when what was left to read and what `fill` gets, in whatever pieces, is its encoding and
  -- more, with its descriptors and more, `next` gives the request, and what is behind it is kept.
  pub next-fill :
      (answers : List Received) (s : Socket) (msg : Message) (sig : List ArgumentType)
      (rest more : List ℕ)
      → signature msg.sender msg.opcode ≡ some sig
      → FitsAll sig msg.args
      → IsU32 msg.sender
      → msg.opcode < 2 ^ 16
      → message_size msg ≤ u16_max
      → s.incoming ++ received answers ≡ encode msg ++ rest
      → s.incoming_fds ++ received_fds answers ≡ args_fds msg.args ++ more
      → next signature (fill answers s).0
        ≡ (record s { incoming = rest; incoming_fds = more }, ok (some msg))
  next-fill answers s msg sig rest more known fits sender opcode small came came_fds =
      rw (fill-received answers s) (
        next-encode (with_read s (received answers) (received_fds answers)) msg sig rest more known
          fits sender opcode small came came_fds)
