-- ===== src/Decorations/Wire/Parse.antt =====
-- `parse` of src/decorations/wire.rs on what `write` wrote.
use psbox.Common.{
  ℕ, zero, ◌+◌, ◌-◌, ◌*◌, ◌%◌, ◌/◌, ◌^◌, ◌≤◌, ◌<◌, ◌≡◌, refl, sym, ap, ap₂, ◌∙◌, false, Option,
  none, some, List, [], ◌∷◌, ◌++◌, length, length-append, length-replicate, append_assoc, take,
  drop, ltb, arith, ok, lt→ltb, not_lt→ltb, ==_iff, take-append_length, drop-append_length,
}
use Prim.Native.Nat.{bit_and}
use psbox.Common.Bits.{bit_and-mask}
use psbox.Common.Bytes.{u32_bytes, u32_of-bytes, IsU32}
use psbox.Decorations.Wire.{
  ArgumentType, Arg, Message, header, u16_max, next_multiple_of_4, split_last, take_u32, take_array,
  parse_arg, parse_args, count_fds, parse, parse_body, parse_signed, parse_sized, write,
}
use psbox.Decorations.Wire.Write.{write_lem}
use psbox.Decorations.Wire.Encoding.{
  padding, encode_array, encode_arg, encode_args, arg_fds, args_fds, message_size, encode,
  length-encode_array, length-encode_args, Fits, FitsAll,
}

take_u32-bytes : (v : ℕ) (rest : List ℕ) → IsU32 v → take_u32 (u32_bytes v ++ rest) ≡ ok (v, rest)
unfolding take_u32 u32_bytes
take_u32-bytes v rest fits = ap (λ w. ok (w, rest)) (u32_of-bytes v fits)

take_array-encode :
    (bytes rest : List ℕ)
    → length bytes ≤ u16_max
    → take_array (encode_array bytes ++ rest) ≡ ok (bytes, rest)
unfolding take_array encode_array
take_array-encode bytes rest small =
    rw
      (
        append_assoc (u32_bytes (length bytes % 2 ^ 32)) (bytes ++ padding (length bytes)) rest,
        take_u32-bytes (length bytes % 2 ^ 32) ((bytes ++ padding (length bytes)) ++ rest)
            (omega arith),
        small_word,
        lt→ltb (next_multiple_of_4 (length bytes)) (2 ^ 64) (omega arith),
        long_enough,
      )
      (ap₂ (λ front back. ok (front, back))
        (ap (take (length bytes)) (append_assoc bytes (padding (length bytes)) rest)
          ∙ take-append_length bytes (padding (length bytes) ++ rest))
        (ap (λ n. drop n ((bytes ++ padding (length bytes)) ++ rest)) (sym length-padded)
          ∙ drop-append_length (bytes ++ padding (length bytes)) rest))
  where
    small_word : length bytes % 2 ^ 32 ≡ length bytes
    small_word = omega arith

    length-padded : length (bytes ++ padding (length bytes)) ≡ next_multiple_of_4 (length bytes)
    length-padded = omega (
      arith,
      length-append bytes (padding (length bytes)),
      length-replicate (next_multiple_of_4 (length bytes) - length bytes) zero,
    )

    long_enough :
        ltb (length ((bytes ++ padding (length bytes)) ++ rest)) (next_multiple_of_4 (length bytes))
        ≡ false
    long_enough =
        not_lt→ltb _ _
          (omega (arith, length-append (bytes ++ padding (length bytes)) rest, length-padded))

split_last-append : (xs : List ℕ) (x : ℕ) → split_last (xs ++ x ∷ []) ≡ some (x, xs)
unfolding split_last
split_last-append [] x = refl
split_last-append (y ∷ xs) x = rw (split_last-append xs x)

encode_array-nil : encode_array [] ≡ u32_bytes 0
unfolding encode_array padding u32_bytes
encode_array-nil = refl

-- The loop reads one argument of its type back, and takes its descriptor from the queue.
parse_arg-encode :
    (t : ArgumentType) (a : Arg) (rest more : List ℕ)
    → Fits t a
    → length (encode_arg a) ≤ u16_max
    → parse_arg t (encode_arg a ++ rest) (arg_fds a ++ more) ≡ ok (a, rest, more)
unfolding parse_arg encode_arg split_last
parse_arg-encode ArgumentType.int (Arg.int v) rest more fits small = rw (take_u32-bytes v rest fits)
parse_arg-encode ArgumentType.uint (Arg.uint v) rest more fits small =
    rw (take_u32-bytes v rest fits)
parse_arg-encode ArgumentType.fixed (Arg.fixed v) rest more fits small =
    rw (take_u32-bytes v rest fits)
parse_arg-encode (ArgumentType.object n) (Arg.object v) rest more fits small =
    rw (take_u32-bytes v rest fits)
parse_arg-encode ArgumentType.new_id (Arg.new_id v) rest more fits small =
    rw (take_u32-bytes v rest fits)
parse_arg-encode (ArgumentType.str n) (Arg.str none) rest more fits small =
    rw (← encode_array-nil, take_array-encode [] rest (omega arith), fits, split_last)
parse_arg-encode (ArgumentType.str n) (Arg.str (some s)) rest more fits small = rw (
  take_array-encode (s ++ 0 ∷ []) rest (omega (arith, length-encode_array (s ++ 0 ∷ []))),
  split_last-append s 0,
  fits,
)
parse_arg-encode ArgumentType.array (Arg.array a) rest more fits small =
    rw (take_array-encode a rest (omega (arith, length-encode_array a)))
parse_arg-encode ArgumentType.fd (Arg.fd f) rest more fits small = refl
parse_arg-encode _ _ rest more fits small = absurd fits

parse_args-encode :
    (sig : List ArgumentType) (args : List Arg) (more : List ℕ)
    → FitsAll sig args
    → length (encode_args args) ≤ u16_max
    → parse_args sig (encode_args args) (args_fds args ++ more) ≡ (ok (args, []), more)
unfolding parse_args encode_args
parse_args-encode [] [] more fits small = refl
parse_args-encode (t ∷ sig) (a ∷ args) more (fit, fits) small =
    let sizes = length-append (encode_arg a) (encode_args args) in
    rw (
      append_assoc (arg_fds a) (args_fds args) more,
      parse_arg-encode t a (encode_args args) (args_fds args ++ more) fit (omega (arith, sizes)),
      parse_args-encode sig args more fits (omega (arith, sizes)),
      parse_args,
    )
parse_args-encode [] (a ∷ args) more fits small = absurd fits
parse_args-encode (t ∷ sig) [] more fits small = absurd fits

count_fds-arg :
    (t : ArgumentType) (a : Arg) (sig : List ArgumentType)
    → Fits t a
    → count_fds (t ∷ sig) ≡ length (arg_fds a) + count_fds sig
unfolding count_fds
count_fds-arg ArgumentType.int (Arg.int v) sig fits = omega arith
count_fds-arg ArgumentType.uint (Arg.uint v) sig fits = omega arith
count_fds-arg ArgumentType.fixed (Arg.fixed v) sig fits = omega arith
count_fds-arg (ArgumentType.object n) (Arg.object v) sig fits = omega arith
count_fds-arg ArgumentType.new_id (Arg.new_id v) sig fits = omega arith
count_fds-arg (ArgumentType.str n) (Arg.str s) sig fits = omega arith
count_fds-arg ArgumentType.array (Arg.array b) sig fits = omega arith
count_fds-arg ArgumentType.fd (Arg.fd f) sig fits = omega arith
count_fds-arg _ _ sig fits = absurd fits

-- A message that fits its signature carries a descriptor for every `fd` of it.
count_fds-args :
    (sig : List ArgumentType) (args : List Arg)
    → FitsAll sig args
    → count_fds sig ≡ length (args_fds args)
count_fds-args [] [] fits = unfold count_fds in refl
count_fds-args (t ∷ sig) (a ∷ args) (fit, fits) = omega (
  arith,
  count_fds-arg t a sig fit,
  count_fds-args sig args fits,
  length-append (arg_fds a) (args_fds args),
)
count_fds-args [] (a ∷ args) fits = absurd fits
count_fds-args (t ∷ sig) [] fits = absurd fits

-- The body between the header and what follows the message.
body-slice :
    (head body rest : List ℕ)
    → length head ≡ header
    → drop header (take (header + length body) (head ++ (body ++ rest))) ≡ body
body-slice head body rest eight =
    ap (λ n. drop header (take n (head ++ (body ++ rest)))) whole
    ∙ ap (λ xs. drop header (take (length (head ++ body)) xs)) (sym (append_assoc head body rest))
    ∙ ap (drop header) (take-append_length (head ++ body) rest)
    ∙ ap (λ n. drop n (head ++ body)) (sym eight)
    ∙ drop-append_length head body
  where
    whole : header + length body ≡ length (head ++ body)
    whole = omega (arith, length-append head body, eight)

module _ (msg : Message) (sig : List ArgumentType) (fits : FitsAll sig msg.args)
    (small : message_size msg ≤ u16_max) where
  parse_body-encode :
      (head rest more : List ℕ)
      → length head ≡ header
      → parse_body msg.sender msg.opcode
          (message_size msg)
          (head ++ (encode_args msg.args ++ rest))
          (args_fds msg.args ++ more)
          sig
        ≡ (ok (some (msg, message_size msg)), more)
  unfolding parse_body
  parse_body-encode head rest more eight = rw (
    not_lt→ltb (length (args_fds msg.args ++ more)) (count_fds sig)
        (omega (arith, count_fds-args sig msg.args fits, length-append (args_fds msg.args) more)),
    body-slice head (encode_args msg.args) rest eight,
    parse_args-encode sig msg.args more fits (omega arith),
  )

  parse_sized-encode :
      (signature : ℕ → ℕ → Option (List ArgumentType)) (head rest more : List ℕ)
      → length head ≡ header
      → msg.opcode < 2 ^ 16
      → signature msg.sender msg.opcode ≡ some sig
      → parse_sized signature msg.sender
          (message_size msg * 2 ^ 16 + msg.opcode)
          (head ++ (encode_args msg.args ++ rest))
          (args_fds msg.args ++ more)
        ≡ (ok (some (msg, message_size msg)), more)
  unfolding parse_sized parse_signed
  parse_sized-encode signature head rest more eight opcode known =
      rw
        (
          size_field,
          opcode_field,
          not_lt→ltb (message_size msg) header (omega arith),
          (==_iff (message_size msg % 4) 0).1 (omega (arith, length-encode_args msg.args)),
          not_lt→ltb (length (head ++ (encode_args msg.args ++ rest))) (message_size msg) (
              omega (
                arith,
                length-append head (encode_args msg.args ++ rest),
                length-append (encode_args msg.args) rest,
              )),
          known,
        )
        (parse_body-encode head rest more eight)
    where
      size_field : (message_size msg * 2 ^ 16 + msg.opcode) / 2 ^ 16 ≡ message_size msg
      size_field = omega arith

      opcode_field : bit_and (message_size msg * 2 ^ 16 + msg.opcode) 0xffff ≡ msg.opcode
      opcode_field = bit_and-mask 16 (message_size msg * 2 ^ 16 + msg.opcode) ∙ omega arith

module _ (signature : ℕ → ℕ → Option (List ArgumentType)) where
  -- For a message of at most 65535 bytes that fits its signature, with a 32-bit sender and a 16-bit
  -- opcode, `parse` takes its encoding off the front of the input and its descriptors off the front
  -- of the queue, and leaves what follows.
  pub parse-encode :
      (msg : Message) (sig : List ArgumentType) (rest more : List ℕ)
      → signature msg.sender msg.opcode ≡ some sig
      → FitsAll sig msg.args
      → IsU32 msg.sender
      → msg.opcode < 2 ^ 16
      → message_size msg ≤ u16_max
      → parse signature (encode msg ++ rest) (args_fds msg.args ++ more)
        ≡ (ok (some (msg, message_size msg)), more)
  unfolding parse encode u32_bytes
  parse-encode msg sig rest more known fits sender opcode small =
      rw
        (
          u32_of-bytes msg.sender sender,
          u32_of-bytes (message_size msg * 2 ^ 16 + msg.opcode) (omega arith),
        )
        (parse_sized-encode msg sig fits small signature
          (u32_bytes msg.sender ++ u32_bytes (message_size msg * 2 ^ 16 + msg.opcode)) rest more
          refl opcode known)

  -- For a message of at most 65535 bytes that fits its signature, with a 32-bit sender and a 16-bit
  -- opcode, what `write` puts into an empty buffer is parsed back as that message with its size and
  -- its descriptors, and the bytes and descriptors behind it are left.
  pub parse-write :
      (msg : Message) (sig : List ArgumentType) (rest more : List ℕ)
      → signature msg.sender msg.opcode ≡ some sig
      → FitsAll sig msg.args
      → IsU32 msg.sender
      → msg.opcode < 2 ^ 16
      → message_size msg ≤ u16_max
      → parse signature ((write msg [] []).out ++ rest) ((write msg [] []).fds ++ more)
        ≡ (ok (some (msg, message_size msg)), more)
  parse-write msg sig rest more known fits sender opcode small =
      rw (write_lem msg [] [] refl opcode, not_lt→ltb u16_max (message_size msg) small)
        (parse-encode msg sig rest more known fits sender opcode small)
