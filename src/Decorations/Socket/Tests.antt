-- ===== src/Decorations/Socket/Tests.antt =====
-- Runs of `Socket` of src/decorations/wire.rs, and its theorems at concrete sockets.
use psbox.Common.{
  true, false, ◌≤◌, ℕ, ◌≡◌, refl, Option, some, List, [], ◌∷◌, ◌++◌, drop, arith, ok, err,
}
use psbox.Decorations.Wire.{ArgumentType, Arg, Message, malformed_header, parse}
use psbox.Decorations.Wire.Misaligned.{array_event, array_size, array_bytes}
use psbox.Common.Bytes.{u32_bytes}
use psbox.Decorations.Wire.{u16_max}
use psbox.Decorations.Wire.Encoding.{encode, encode_args, encode_arg, message_size}
use psbox.Decorations.Socket.Receive.{received, next-fill}
use psbox.Decorations.Socket.{
  Received, bytes, fill, next, wants_write, open_stream, Socket, Sent, took_bytes, advance, send,
  flush, batch, new, done,
}
use psbox.Decorations.Socket.Invariant.{InStep, send-InStep, new-InStep}
use psbox.Decorations.Socket.Delivery.{Delivers, IsHonest, flush-Delivers}
use psbox.Decorations.Socket.Partial.{send_after_partial}

abbrev event : Message
event = record { sender = 5; opcode = 2; args = Arg.fd 7 ∷ [] }

send-InStep_example : InStep (send event new).0
send-InStep_example = send-InStep event new new-InStep

-- Two messages of eight bytes; the second carries descriptor 7.
abbrev waiting : Socket
waiting = record {
  incoming = [];
  incoming_fds = [];
  outgoing = 1 ∷ 2 ∷ 3 ∷ 4 ∷ 5 ∷ 6 ∷ 7 ∷ 8 ∷ 1 ∷ 2 ∷ 3 ∷ 4 ∷ 5 ∷ 6 ∷ 7 ∷ 8 ∷ [];
  outgoing_fds = (108, 7) ∷ [];
  written = 100;
}

-- The kernel takes ten bytes, is interrupted, and takes the rest.
abbrev answers : List Sent
answers = took_bytes 10 ∷ Sent.interrupted ∷ took_bytes 6 ∷ []

answers-IsHonest : IsHonest answers waiting
unfolding batch advance
answers-IsHonest = omega arith

flush-Delivers_example : Delivers waiting (flush answers waiting)
flush-Delivers_example = flush-Delivers answers waiting (omega arith) answers-IsHonest

flush_done : (flush answers waiting).status ≡ done
unfolding flush
flush_done = refl

abbrev known : ℕ → ℕ → Option (List ArgumentType)
known sender opcode = some (ArgumentType.array ∷ [])

send_after_partial_example :
    ((send (array_event 3 1 []) (advance waiting 1 10)).1 ≡ ok tt)
    × ((send (array_event 3 1 []) (advance waiting 1 10)).0.outgoing
        ≡ drop 10 waiting.outgoing ++ array_bytes 3 1 6 [])
    × (parse known (array_bytes 3 1 6 [] ++ []) [] ≡ (err (malformed_header (array_size 6 0)), []))
send_after_partial_example =
    send_after_partial known waiting 1 10 3 1 [] [] [] (omega arith) (omega arith) (omega arith)
      (omega arith)

-- A request with a number and a descriptor, which comes in two pieces, with one byte of the next.
abbrev request : Message
request = record { sender = 5; opcode = 2; args = Arg.uint 300 ∷ Arg.fd 7 ∷ [] }

abbrev typed : ℕ → ℕ → Option (List ArgumentType)
typed sender opcode = some (ArgumentType.uint ∷ ArgumentType.fd ∷ [])

abbrev pieces : List Received
pieces =
    bytes (5 ∷ 0 ∷ 0 ∷ 0 ∷ 2 ∷ 0 ∷ []) (7 ∷ [])
    ∷ Received.interrupted
    ∷ bytes (12 ∷ 0 ∷ 44 ∷ 1 ∷ 0 ∷ 0 ∷ 9 ∷ []) []
    ∷ Received.would_block
    ∷ []

request_bytes : [] ++ received pieces ≡ encode request ++ (9 ∷ [])
unfolding encode encode_args encode_arg u32_bytes
request_bytes = refl

request_small : message_size request ≤ u16_max
unfolding encode_args encode_arg u32_bytes
request_small = omega arith

next-fill_example :
    next typed (fill pieces waiting).0
    ≡ (record waiting { incoming = 9 ∷ []; incoming_fds = [] }, ok (some request))
next-fill_example =
    next-fill typed pieces waiting request _ (9 ∷ []) [] refl (omega arith, (tt, tt)) (omega arith)
      (omega arith) request_small request_bytes refl

stays_open : (fill pieces new).1 ≡ open_stream
unfolding fill
stays_open = refl

writes : (wants_write new ≡ false) × (wants_write waiting ≡ true)
unfolding wants_write new
writes = (refl, refl)
