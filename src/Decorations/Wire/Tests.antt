-- ===== src/Decorations/Wire/Tests.antt =====
-- Runs of src/decorations/wire.rs, and its theorems at concrete messages.
use psbox.Common.{ℕ, ◌≡◌, refl, Option, none, some, List, [], ◌∷◌, ◌++◌, arith, ok, err}
use psbox.Common.Bytes.{u32_bytes}
use psbox.Decorations.Wire.{
  required, ArgumentType, Arg, Message, Written, malformed_header, parse, parse_args, has_nul,
  write, ends_early,
}
use psbox.Decorations.Wire.Encoding.{args_fds, message_size, encode}
use psbox.Decorations.Wire.Write.{write_lem, written}
use psbox.Decorations.Wire.Parse.{parse-encode, parse-write}
use psbox.Decorations.Wire.Misaligned.{
  array_event, array_size, array_bytes, wrote, write_misaligned,
}

abbrev known : ℕ → ℕ → Option (List ArgumentType)
known sender opcode =
    some (ArgumentType.int ∷ ArgumentType.str required ∷ ArgumentType.fd ∷ ArgumentType.array ∷ [])

-- A request with a number, the text "hi", descriptor 7 and an array of three bytes.
abbrev request : Message
request = record {
  sender = 5;
  opcode = 2;
  args = Arg.int 300 ∷ Arg.str (some (104 ∷ 105 ∷ [])) ∷ Arg.fd 7 ∷ Arg.array (1 ∷ 2 ∷ 3 ∷ []) ∷ [];
}

request_size : message_size request ≡ 28
unfolding encode psbox.Decorations.Wire.Encoding.encode_args
    psbox.Decorations.Wire.Encoding.encode_arg psbox.Decorations.Wire.Encoding.encode_array
    psbox.Decorations.Wire.Encoding.padding u32_bytes
request_size = refl

write_lem_example : write request [] (9 ∷ []) ≡ written request [] (9 ∷ [])
write_lem_example = write_lem request [] (9 ∷ []) refl (omega arith)

parse-encode_example :
    parse known (encode request ++ (1 ∷ [])) (7 ∷ 8 ∷ [])
    ≡ (ok (some (request, message_size request)), 8 ∷ [])
unfolding psbox.Decorations.Wire.has_nul
parse-encode_example =
    parse-encode known request _ (1 ∷ []) (8 ∷ []) refl (omega arith, (refl, (tt, (tt, tt))))
      (omega arith) (omega arith) (omega (arith, request_size))

parse-write_example :
    parse known ((write request [] []).out ++ (1 ∷ [])) ((write request [] []).fds ++ (8 ∷ []))
    ≡ (ok (some (request, message_size request)), 8 ∷ [])
unfolding psbox.Decorations.Wire.has_nul
parse-write_example =
    parse-write known request _ (1 ∷ []) (8 ∷ []) refl (omega arith, (refl, (tt, (tt, tt))))
      (omega arith) (omega arith) (omega (arith, request_size))

-- Behind one byte that is still to go, an event with an empty array is 15 bytes.
write_misaligned_example :
    (write (array_event 3 1 []) (0 ∷ []) [] ≡ wrote ((0 ∷ []) ++ array_bytes 3 1 1 []))
    × (parse known (array_bytes 3 1 1 [] ++ []) [] ≡ (err (malformed_header (array_size 1 0)), []))
write_misaligned_example =
    write_misaligned known (0 ∷ []) [] [] [] 3 1 (omega arith) (omega arith) (omega arith)
      (omega arith)

fifteen : array_size 1 0 ≡ 15
fifteen = refl

parse_short : parse known (1 ∷ 0 ∷ 0 ∷ 0 ∷ []) [] ≡ (ok none, [])
unfolding parse
parse_short = refl
