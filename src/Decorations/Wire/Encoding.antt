-- ===== src/Decorations/Wire/Encoding.antt =====
-- The encoding that src/decorations/wire.rs writes, argument by argument and without a buffer.
use psbox.Common.{
  ℕ, zero, ◌+◌, ◌-◌, ◌*◌, ◌%◌, ◌^◌, ◌≡◌, refl, false, none, some, List, [], ◌∷◌, ◌++◌, length,
  length-append, length-replicate, replicate, arith,
}
use psbox.Common.Bytes.{u32_bytes, length-u32_bytes, IsU32}
use psbox.Decorations.Wire.{
  nullable, ArgumentType, Arg, Message, header, next_multiple_of_4, has_nul,
}

unfoldable pub padding : ℕ → List ℕ
padding n = replicate (next_multiple_of_4 n - n) 0

unfoldable pub encode_array : List ℕ → List ℕ
unfolding padding
encode_array bytes = u32_bytes (length bytes % 2 ^ 32) ++ (bytes ++ padding (length bytes))

unfoldable pub encode_arg : Arg → List ℕ
unfolding encode_array
encode_arg (Arg.int v) = u32_bytes v
encode_arg (Arg.uint v) = u32_bytes v
encode_arg (Arg.fixed v) = u32_bytes v
encode_arg (Arg.object v) = u32_bytes v
encode_arg (Arg.new_id v) = u32_bytes v
encode_arg (Arg.str none) = u32_bytes 0
encode_arg (Arg.str (some s)) = encode_array (s ++ 0 ∷ [])
encode_arg (Arg.array a) = encode_array a
encode_arg (Arg.fd f) = []

unfoldable pub encode_args : List Arg → List ℕ
encode_args [] = []
encode_args (a ∷ args) = encode_arg a ++ encode_args args

abbrev pub arg_fds : Arg → List ℕ
arg_fds (Arg.fd f) = f ∷ []
arg_fds _ = []

abbrev pub args_fds : List Arg → List ℕ
args_fds [] = []
args_fds (a ∷ args) = arg_fds a ++ args_fds args

-- The size of a message in bytes, its header included.
abbrev pub message_size : Message → ℕ
message_size msg = header + length (encode_args msg.args)

unfoldable pub encode : Message → List ℕ
encode msg =
    u32_bytes msg.sender
    ++ (u32_bytes (message_size msg * 2 ^ 16 + msg.opcode) ++ encode_args msg.args)

-- An argument of the type: words fit 32 bits, a string has no NUL inside.
abbrev pub Fits : ArgumentType → Arg → Type 0
Fits ArgumentType.int (Arg.int v) = IsU32 v
Fits ArgumentType.uint (Arg.uint v) = IsU32 v
Fits ArgumentType.fixed (Arg.fixed v) = IsU32 v
Fits (ArgumentType.object _) (Arg.object v) = IsU32 v
Fits ArgumentType.new_id (Arg.new_id v) = IsU32 v
Fits (ArgumentType.str null) (Arg.str none) = null ≡ nullable
Fits (ArgumentType.str null) (Arg.str (some s)) = has_nul s ≡ false
Fits ArgumentType.array (Arg.array a) = Unit {0}
Fits ArgumentType.fd (Arg.fd f) = Unit {0}
Fits _ _ = ⊥

abbrev pub FitsAll : List ArgumentType → List Arg → Type 0
FitsAll [] [] = Unit {0}
FitsAll (t ∷ sig) (a ∷ args) = Fits t a × FitsAll sig args
FitsAll _ _ = ⊥

pub length-encode_array :
    (bytes : List ℕ) → length (encode_array bytes) ≡ 4 + next_multiple_of_4 (length bytes)
unfolding encode_array u32_bytes
length-encode_array bytes = omega (
  arith,
  length-u32_bytes (length bytes % 2 ^ 32),
  length-append (u32_bytes (length bytes % 2 ^ 32)) (bytes ++ padding (length bytes)),
  length-append bytes (padding (length bytes)),
  length-replicate (next_multiple_of_4 (length bytes) - length bytes) zero,
)

pub length-encode_arg : (a : Arg) → length (encode_arg a) % 4 ≡ 0
unfolding encode_arg
length-encode_arg (Arg.str (some s)) = omega (arith, length-encode_array (s ++ 0 ∷ []))
length-encode_arg (Arg.array a) = omega (arith, length-encode_array a)
length-encode_arg (Arg.fd f) = omega arith
length-encode_arg (Arg.int v) = omega (arith, length-u32_bytes v)
length-encode_arg (Arg.uint v) = omega (arith, length-u32_bytes v)
length-encode_arg (Arg.fixed v) = omega (arith, length-u32_bytes v)
length-encode_arg (Arg.object v) = omega (arith, length-u32_bytes v)
length-encode_arg (Arg.new_id v) = omega (arith, length-u32_bytes v)
length-encode_arg (Arg.str none) = omega (arith, length-u32_bytes 0)

pub length-encode_args : (args : List Arg) → length (encode_args args) % 4 ≡ 0
unfolding encode_args
length-encode_args [] = refl
length-encode_args (a ∷ args) = omega (
  arith,
  length-append (encode_arg a) (encode_args args),
  length-encode_arg a,
  length-encode_args args,
)
