-- ===== src/Decorations/Wire/Misaligned.antt =====
-- `write` of src/decorations/wire.rs in a buffer whose length is no multiple of four.
use psbox.Common.{
  ℕ, zero, ◌+◌, ◌-◌, ◌*◌, ◌%◌, ◌/◌, ◌^◌, ◌≤◌, ◌<◌, ◌≡◌, ◌≢◌, ap, ◌∙◌, false, Option, List, [], ◌∷◌,
  ◌++◌, length, length-append, length-replicate, replicate, append_assoc, ltb, ◌==◌, arith, ok, err,
  not_lt→ltb, Bool-cases, inl, inr,
}
use psbox.Common.Bytes.{u32_bytes, u32_of-bytes, length-u32_bytes, IsU32}
use psbox.Decorations.Wire.{
  ArgumentType, Arg, Message, Written, malformed_header, header, u16_max, next_multiple_of_4, parse,
  parse_sized, put_array, write,
}
use psbox.Decorations.Wire.Write.{header-filled, header_word, body-size}

-- An event with one array.
abbrev pub array_event : ℕ → ℕ → List ℕ → Message
array_event sender opcode bytes = record {
  sender = sender;
  opcode = opcode;
  args = Arg.array bytes ∷ [];
}

-- The size that `write` counts for it behind `start` bytes.
abbrev pub array_size : ℕ → ℕ → ℕ
array_size start n = next_multiple_of_4 (start + 12 + n) - start

pub array_tail : ℕ → List ℕ → List ℕ
array_tail start bytes =
    u32_bytes (length bytes % 2 ^ 32)
    ++ (bytes
        ++ replicate (next_multiple_of_4 (start + 12 + length bytes) - (start + 12 + length bytes))
            0)

length-array_tail :
    (start : ℕ) (bytes : List ℕ)
    → header + length (array_tail start bytes) ≡ array_size start (length bytes)
unfolding array_tail u32_bytes
length-array_tail start bytes = omega (
  arith,
  length-u32_bytes (length bytes % 2 ^ 32),
  length-append bytes (replicate pad 0),
  length-replicate pad zero,
)
  where
    pad : ℕ
    pad = next_multiple_of_4 (start + 12 + length bytes) - (start + 12 + length bytes)

put_array-tail :
    (out bytes : List ℕ)
    → put_array (out ++ replicate header 0) bytes
      ≡ (out ++ replicate header 0) ++ array_tail (length out) bytes
unfolding put_array array_tail u32_bytes
put_array-tail out bytes =
    ap
      (λ n.
        (((out ++ replicate header 0) ++ count) ++ bytes) ++ replicate (next_multiple_of_4 n - n) 0)
      (omega (
        arith,
        length-append ((out ++ replicate header 0) ++ count) bytes,
        length-append (out ++ replicate header 0) count,
        length-append out (replicate header 0),
        length-u32_bytes (length bytes % 2 ^ 32),
      ))
    ∙ append_assoc ((out ++ replicate header 0) ++ count) bytes _
    ∙ append_assoc (out ++ replicate header 0) count _
  where
    count : List ℕ
    count = u32_bytes (length bytes % 2 ^ 32)

-- The bytes that `write` appends behind `start` others.
abbrev pub array_bytes : ℕ → ℕ → ℕ → List ℕ → List ℕ
array_bytes sender opcode start bytes =
    u32_bytes sender
    ++ (u32_bytes (array_size start (length bytes) * 2 ^ 16 + opcode) ++ array_tail start bytes)

abbrev pub wrote : List ℕ → Written
wrote bytes = record { result = ok tt; out = bytes; fds = [] }

pub write-array_event :
    (out bytes : List ℕ) (sender opcode : ℕ)
    → length bytes ≤ 65000
    → opcode < 2 ^ 16
    → write (array_event sender opcode bytes) out []
      ≡ wrote (out ++ array_bytes sender opcode (length out) bytes)
unfolding write
write-array_event out bytes sender opcode short small =
    rw
      (
        put_array-tail out bytes,
        body-size out (array_tail (length out) bytes),
        length-array_tail (length out) bytes,
        not_lt→ltb u16_max (array_size (length out) (length bytes)) fits,
        header_word (array_size (length out) (length bytes)) opcode fits small,
      )
      (ap (λ b. wrote b)
        (header-filled out (u32_bytes sender) _ (array_tail (length out) bytes)
          (length-u32_bytes sender) (length-u32_bytes _)))
  where
    fits : array_size (length out) (length bytes) ≤ u16_max
    fits = omega arith

module _ (signature : ℕ → ℕ → Option (List ArgumentType)) where
  sized_malformed :
      (sender size opcode : ℕ) (buf fds : List ℕ)
      → opcode < 2 ^ 16
      → size % 4 ≢ 0
      → parse_sized signature sender (size * 2 ^ 16 + opcode) buf fds
        ≡ (err (malformed_header size), fds)
  unfolding parse_sized
  sized_malformed sender size opcode buf fds o odd =
      rw (size_field, odd_test)
        (elim (Bool-cases (ltb size header)) [ inl short ↦ rw short | inr long ↦ rw long ])
    where
      size_field : (size * 2 ^ 16 + opcode) / 2 ^ 16 ≡ size
      size_field = omega arith

      odd_test : (size % 4 == 0) ≡ false
      odd_test = ground (arith, odd)

  -- A header whose size is no multiple of four is refused.
  parse_malformed :
      (sender size opcode : ℕ) (rest fds : List ℕ)
      → IsU32 sender
      → opcode < 2 ^ 16
      → size ≤ u16_max
      → size % 4 ≢ 0
      → parse signature (u32_bytes sender ++ (u32_bytes (size * 2 ^ 16 + opcode) ++ rest)) fds
        ≡ (err (malformed_header size), fds)
  unfolding parse u32_bytes
  parse_malformed sender size opcode rest fds s o fits odd =
      rw (u32_of-bytes sender s, u32_of-bytes (size * 2 ^ 16 + opcode) (omega arith))
        (sized_malformed sender size opcode
          (u32_bytes sender ++ (u32_bytes (size * 2 ^ 16 + opcode) ++ rest)) fds o odd)

  -- Behind a number of bytes that is no multiple of four, `write` accepts an event with an array,
  -- and the bytes that it appends for it are no message: whatever follows, the peer refuses the
  -- header.
  pub write_misaligned :
      (out bytes rest fds : List ℕ) (sender opcode : ℕ)
      → length out % 4 ≢ 0
      → length bytes ≤ 65000
      → IsU32 sender
      → opcode < 2 ^ 16
      → (write (array_event sender opcode bytes) out []
          ≡ wrote (out ++ array_bytes sender opcode (length out) bytes))
        × (parse signature (array_bytes sender opcode (length out) bytes ++ rest) fds
            ≡ (err (malformed_header (array_size (length out) (length bytes))), fds))
  unfolding u32_bytes
  write_misaligned out bytes rest fds sender opcode odd short s o = (
    write-array_event out bytes sender opcode short o,
    parse_malformed sender (array_size (length out) (length bytes)) opcode
        (array_tail (length out) bytes ++ rest) fds s o (omega arith) (omega arith),
  )
