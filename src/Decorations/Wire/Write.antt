-- ===== src/Decorations/Wire/Write.antt =====
-- `write` of src/decorations/wire.rs against the encoding.
use psbox.Common.{
  ℕ, ◌+◌, ◌-◌, ◌*◌, ◌%◌, ◌^◌, ◌≤◌, ◌<◌, ◌≡◌, sym, ap, ap₂, ◌∙◌, none, some, List, [], ◌∷◌, ◌++◌,
  length, length-append, replicate, append-nil, append_assoc, take, drop, ltb, if◌then◌else◌,
  bit_or, Bool-cases, inl, inr, arith, ok, err, take-append_length, drop-append_length, drop-drop,
}
use psbox.Common.Bits.{bit_or-shifted}
use psbox.Common.Bytes.{u32_bytes, length-u32_bytes}
use psbox.Decorations.Wire.{
  Arg, Message, Written, too_large, header, u16_max, put_array, write_arg, write_args, write,
  copy_at,
}
use psbox.Decorations.Wire.Encoding.{
  padding, encode_array, encode_arg, encode_args, arg_fds, args_fds, message_size, encode,
  length-encode_arg,
}

-- In a buffer that ends on a word the padding depends on the array alone.
put_array-encode :
    (out bytes : List ℕ) → length out % 4 ≡ 0 → put_array out bytes ≡ out ++ encode_array bytes
unfolding put_array encode_array u32_bytes
put_array-encode out bytes aligned =
    ap (λ n. ((out ++ u32_bytes (length bytes % 2 ^ 32)) ++ bytes) ++ replicate n 0)
      (omega (
        arith,
        length-append (out ++ u32_bytes (length bytes % 2 ^ 32)) bytes,
        length-append out (u32_bytes (length bytes % 2 ^ 32)),
        length-u32_bytes (length bytes % 2 ^ 32),
      ))
    ∙ append_assoc (out ++ u32_bytes (length bytes % 2 ^ 32)) bytes (padding (length bytes))
    ∙ append_assoc out (u32_bytes (length bytes % 2 ^ 32)) (bytes ++ padding (length bytes))

write_arg-encode :
    (a : Arg) (out fds : List ℕ)
    → length out % 4 ≡ 0
    → write_arg a (out, fds) ≡ (out ++ encode_arg a, fds ++ arg_fds a)
unfolding write_arg encode_arg
write_arg-encode (Arg.str (some s)) out fds aligned =
    rw (put_array-encode out (s ++ 0 ∷ []) aligned, append-nil)
write_arg-encode (Arg.array a) out fds aligned = rw (put_array-encode out a aligned, append-nil)
write_arg-encode (Arg.fd f) out fds aligned = rw append-nil
write_arg-encode (Arg.int v) out fds aligned = rw append-nil
write_arg-encode (Arg.uint v) out fds aligned = rw append-nil
write_arg-encode (Arg.fixed v) out fds aligned = rw append-nil
write_arg-encode (Arg.object v) out fds aligned = rw append-nil
write_arg-encode (Arg.new_id v) out fds aligned = rw append-nil
write_arg-encode (Arg.str none) out fds aligned = rw append-nil

write_args-encode :
    (args : List Arg) (out fds : List ℕ)
    → length out % 4 ≡ 0
    → write_args args (out, fds) ≡ (out ++ encode_args args, fds ++ args_fds args)
unfolding write_args encode_args
write_args-encode [] out fds aligned = rw (append-nil out, append-nil fds)
write_args-encode (a ∷ args) out fds aligned = rw (write_arg-encode a out fds aligned) (
    write_args-encode args (out ++ encode_arg a) (fds ++ arg_fds a)
      (omega (arith, length-append out (encode_arg a), length-encode_arg a, aligned))
    ∙ rw (
      append_assoc out (encode_arg a) (encode_args args),
      append_assoc fds (arg_fds a) (args_fds args),
    ))

-- Writing over `old` behind `before`.
copy_at-append :
    (before old bytes rest : List ℕ)
    → length old ≡ length bytes
    → copy_at (length before) bytes (before ++ (old ++ rest)) ≡ before ++ (bytes ++ rest)
copy_at-append before old bytes rest same =
    ap₂ (λ front back. front ++ (bytes ++ back)) (take-append_length before (old ++ rest))
      (sym (drop-drop (length bytes) (length before) (before ++ (old ++ rest)))
        ∙ ap (drop (length bytes)) (drop-append_length before (old ++ rest))
        ∙ rw (← same) (drop-append_length old rest))

pub header_word :
    (size opcode : ℕ)
    → size ≤ u16_max
    → opcode < 2 ^ 16
    → bit_or (size % 2 ^ 32 * 2 ^ 16 % 2 ^ 32) opcode ≡ size * 2 ^ 16 + opcode
header_word size opcode fits small =
    let whole : size % 2 ^ 32 * 2 ^ 16 % 2 ^ 32 ≡ size * 2 ^ 16 = omega arith in
    rw whole (bit_or-shifted 16 size opcode small)

abbrev four_zeros : List ℕ
four_zeros = replicate 4 0

-- Both words of the header go over the eight zero bytes that hold their place.
pub header-filled :
    (out sender word rest : List ℕ)
    → length sender ≡ 4
    → length word ≡ 4
    → copy_at
        (length out + 4)
        word
        (copy_at (length out) sender ((out ++ replicate header 0) ++ rest))
      ≡ out ++ (sender ++ (word ++ rest))
header-filled out sender word rest four four' =
    rw
      (
        append_assoc out (replicate header 0) rest,
        copy_at-append out four_zeros sender (four_zeros ++ rest) (sym four),
        ← append_assoc out sender (four_zeros ++ rest),
      )
      (ap (λ n. copy_at n word ((out ++ sender) ++ (four_zeros ++ rest)))
          (omega (arith, length-append out sender))
        ∙ copy_at-append (out ++ sender) four_zeros word rest (sym four')
        ∙ append_assoc out sender (word ++ rest))

abbrev refused : Message → List ℕ → List ℕ → Written
refused msg out fds = record {
  result = err (too_large (message_size msg));
  out = out;
  fds = fds ++ args_fds msg.args;
}

abbrev appended : Message → List ℕ → List ℕ → Written
appended msg bytes fds = record { result = ok tt; out = bytes; fds = fds ++ args_fds msg.args }

-- What `write` leaves in a buffer that ends on a word.
abbrev pub written : Message → List ℕ → List ℕ → Written
written msg out fds =
    if ltb u16_max (message_size msg)
    then refused msg out fds
    else appended msg (out ++ encode msg) fds

pub body-size :
    (out rest : List ℕ)
    → length ((out ++ replicate header 0) ++ rest) - length out ≡ header + length rest
body-size out rest =
    omega (
      arith,
      length-append (out ++ replicate header 0) rest,
      length-append out (replicate header 0),
    )

-- Into a buffer whose length is a multiple of four, `write` appends the encoding of the message and
-- its descriptors; a message of more than 65535 bytes is refused, and the buffer is left as it was.
pub write_lem :
    (msg : Message) (out fds : List ℕ)
    → length out % 4 ≡ 0
    → msg.opcode < 2 ^ 16
    → write msg out fds ≡ written msg out fds
unfolding write encode
write_lem msg out fds aligned small =
    rw
      (
        write_args-encode msg.args (out ++ replicate header 0) fds
            (omega (arith, length-append out (replicate header 0), aligned)),
        body-size out (encode_args msg.args),
      )
      (elim (Bool-cases (ltb u16_max (message_size msg))) [
        | inl big ↦ rw big (
            ap (λ bytes. refused msg bytes fds)
              (ap (take (length out)) (append_assoc out (replicate header 0) (encode_args msg.args))
                ∙ take-append_length out (replicate header 0 ++ encode_args msg.args)))
        | inr fits ↦
            rw (fits, header_word (message_size msg) msg.opcode (ground (arith, fits)) small)
              (ap (λ bytes. appended msg bytes fds)
                (header-filled out (u32_bytes msg.sender) _ (encode_args msg.args)
                  (length-u32_bytes msg.sender) (length-u32_bytes _)))
      ])
