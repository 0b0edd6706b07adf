-- ===== src/Decorations/Wire.antt =====
-- src/decorations/wire.rs: the Wayland wire format. Bytes and words are natural numbers, an `i32`
-- argument is the `u32` of its bit pattern, and a descriptor is its number.
pub mod Encoding
pub mod Write
pub mod Parse
pub mod Size
pub mod Misaligned
mod Tests
use psbox.Common.{
  ℕ, zero, suc, ◌+◌, ◌-◌, ◌*◌, ◌/◌, ◌%◌, ◌^◌, ◌≡◌, Bool, true, false, ◌&&◌, ◌||◌, not, Option, none,
  some, List, [], ◌∷◌, ◌++◌, bit_or, ltb, leb, ◌==◌, if◌then◌else◌, length, take, drop, replicate,
  Result, ok, err, ◌>>=◌, ◌>>◌, ensure, ok_or,
}
use psbox.Common.Bytes.{u32_bytes, u32_of}
use Prim.Native.Nat.{bit_and}

-- `wayland_backend::protocol::AllowNull`
pub data AllowNull : Type 0 where
  nullable required : AllowNull

-- `wayland_backend::protocol::ArgumentType`
pub data ArgumentType : Type 0 where
  int uint fixed : ArgumentType
  object : AllowNull → ArgumentType
  new_id : ArgumentType
  str : AllowNull → ArgumentType
  array : ArgumentType
  fd : ArgumentType

-- `Argument<u32, OwnedFd>`. A string has its bytes without the NUL at its end.
pub data Arg : Type 0 where
  int uint fixed object new_id : ℕ → Arg
  str : Option (List ℕ) → Arg
  array : List ℕ → Arg
  fd : ℕ → Arg

pub record Message : Type 0 where
  pub sender : ℕ
  pub opcode : ℕ
  pub args : List Arg

-- One constructor for each `bail!` and `context`; `panics` is an `expect` that fails.
pub data Error : Type 0 where
  malformed_header : ℕ → Error
  unknown_request : ℕ → ℕ → Error
  missing_descriptors : ℕ → ℕ → Error
  ends_early array_too_long nul_inside : Error
  malformed_string : Error
  left_over : ℕ → Error
  too_large : ℕ → Error
  panics : Error

abbrev pub Outcome : Type 0 → Type 0
Outcome A = Result Error A

abbrev pub header : ℕ
header = 8

abbrev pub u16_max : ℕ
u16_max = 65535

-- `usize::next_multiple_of(4)`
abbrev pub next_multiple_of_4 : ℕ → ℕ
next_multiple_of_4 n = (n + 3) / 4 * 4

-- `usize::checked_next_multiple_of(4)` on a 64-bit machine.
abbrev checked_next_multiple_of_4 : ℕ → Option ℕ
checked_next_multiple_of_4 n =
    if ltb (next_multiple_of_4 n) (2 ^ 64) then some (next_multiple_of_4 n) else none

pub take_u32 : List ℕ → Outcome (ℕ × List ℕ)
take_u32 (a ∷ b ∷ c ∷ d ∷ rest) = ok (u32_of a b c d, rest)
take_u32 _ = err ends_early

pub take_array : List ℕ → Outcome (List ℕ × List ℕ)
unfolding take_u32
take_array body = do
  (len, rest) ← take_u32 body
  padded ← ok_or (checked_next_multiple_of_4 len) array_too_long
  ensure (not (ltb (length rest) padded)) ends_early
  ok (take len rest, drop padded rest)

-- `slice::split_last`: the last element, and those before it.
abbrev push_front : ℕ → Option (ℕ × List ℕ) → Option (ℕ × List ℕ)
push_front x none = some (x, [])
push_front x (some (last, front)) = some (last, x ∷ front)

pub split_last : List ℕ → Option (ℕ × List ℕ)
split_last [] = none
split_last (x ∷ xs) = push_front x (split_last xs)

-- `CString::new` refuses a NUL inside.
pub has_nul : List ℕ → Bool
has_nul [] = false
has_nul (b ∷ bs) = b == 0 || has_nul bs

pub parse_str : AllowNull → Option (ℕ × List ℕ) → Outcome Arg
unfolding has_nul
parse_str nullable none = ok (Arg.str none)
parse_str required none = err malformed_string
parse_str null (some (zero, text)) =
    if has_nul text then err nul_inside else ok (Arg.str (some text))
parse_str null (some (suc b, text)) = err malformed_string

-- One turn of the loop over the signature: the argument, the rest of the body, the descriptors left.
pub parse_arg : ArgumentType → List ℕ → List ℕ → Outcome (Arg × List ℕ × List ℕ)
unfolding take_u32 take_array parse_str split_last
parse_arg ArgumentType.int body fds = do (v, rest) ← take_u32 body; ok (Arg.int v, rest, fds)
parse_arg ArgumentType.uint body fds = do (v, rest) ← take_u32 body; ok (Arg.uint v, rest, fds)
parse_arg ArgumentType.fixed body fds = do (v, rest) ← take_u32 body; ok (Arg.fixed v, rest, fds)
parse_arg (ArgumentType.object _) body fds = do
  (v, rest) ← take_u32 body
  ok (Arg.object v, rest, fds)
parse_arg ArgumentType.new_id body fds = do (v, rest) ← take_u32 body; ok (Arg.new_id v, rest, fds)
parse_arg (ArgumentType.str null) body fds = do
  (bytes, rest) ← take_array body
  a ← parse_str null (split_last bytes)
  ok (a, rest, fds)
parse_arg ArgumentType.array body fds = do
  (bytes, rest) ← take_array body
  ok (Arg.array bytes, rest, fds)
parse_arg ArgumentType.fd body [] = err panics
parse_arg ArgumentType.fd body (f ∷ fds) = ok (Arg.fd f, body, fds)

abbrev push_arg : Arg → Outcome (List Arg × List ℕ) → Outcome (List Arg × List ℕ)
push_arg a (ok (args, rest)) = ok (a ∷ args, rest)
push_arg a (err e) = err e

-- The loop, with the queue of descriptors as it leaves it also where it fails.
pub parse_args : List ArgumentType → List ℕ → List ℕ → Outcome (List Arg × List ℕ) × List ℕ
parse_args [] body fds = (ok ([], body), fds)
parse_args (t ∷ sig) body fds = elim (parse_arg t body fds) [
  | err e ↦ (err e, fds)
  | ok (a, rest, fds') ↦ let result = parse_args sig rest fds' in (push_arg a result.0, result.1)
]

pub count_fds : List ArgumentType → ℕ
count_fds [] = 0
count_fds (ArgumentType.fd ∷ sig) = suc (count_fds sig)
count_fds (_ ∷ sig) = count_fds sig

abbrev finish : ℕ → ℕ → ℕ → Outcome (List Arg × List ℕ) → Outcome (Option (Message × ℕ))
finish sender opcode size (err e) = err e
finish sender opcode size (ok (args, [])) =
    ok (some (record { sender = sender; opcode = opcode; args = args }, size))
finish sender opcode size (ok (args, b ∷ rest)) = err (left_over (length (b ∷ rest)))

-- `parse` once the signature is known.
parse_body :
    ℕ → ℕ → ℕ → List ℕ → List ℕ → List ArgumentType → Outcome (Option (Message × ℕ)) × List ℕ
unfolding parse_args count_fds
parse_body sender opcode size buf fds sig =
    let result = parse_args sig (drop header (take size buf)) fds in
    if ltb (length fds) (count_fds sig)
    then (err (missing_descriptors sender opcode), fds)
    else (finish sender opcode size result.0, result.1)

parse_signed :
    ℕ
    → ℕ
    → ℕ
    → List ℕ
    → List ℕ
    → Option (List ArgumentType)
    → Outcome (Option (Message × ℕ)) × List ℕ
unfolding parse_body
parse_signed sender opcode size buf fds none = (err (unknown_request sender opcode), fds)
parse_signed sender opcode size buf fds (some sig) = parse_body sender opcode size buf fds sig

module _ (signature : ℕ → ℕ → Option (List ArgumentType)) where
  -- With the words of the header: the sender, and the size over the opcode.
  parse_sized : ℕ → ℕ → List ℕ → List ℕ → Outcome (Option (Message × ℕ)) × List ℕ
  unfolding parse_signed
  parse_sized sender word buf fds =
      let size = word / 2 ^ 16 in
      let opcode = bit_and word 0xffff in
      if ltb size header || not (size % 4 == 0)
      then (err (malformed_header size), fds)
      else if ltb (length buf) size
      then (ok none, fds)
      else parse_signed sender opcode size buf fds (signature sender opcode)

  pub parse : List ℕ → List ℕ → Outcome (Option (Message × ℕ)) × List ℕ
  unfolding parse_sized
  parse (s0 ∷ s1 ∷ s2 ∷ s3 ∷ w0 ∷ w1 ∷ w2 ∷ w3 ∷ rest) fds =
      parse_sized (u32_of s0 s1 s2 s3) (u32_of w0 w1 w2 w3)
        (s0 ∷ s1 ∷ s2 ∷ s3 ∷ w0 ∷ w1 ∷ w2 ∷ w3 ∷ rest) fds
  parse _ fds = (ok none, fds)

-- `out.resize(out.len().next_multiple_of(4), 0)`
pub pad_to_4 : List ℕ → List ℕ
pad_to_4 out = out ++ replicate (next_multiple_of_4 (length out) - length out) 0

pub put_array : List ℕ → List ℕ → List ℕ
unfolding pad_to_4
put_array out bytes = pad_to_4 ((out ++ u32_bytes (length bytes % 2 ^ 32)) ++ bytes)

pub write_arg : Arg → List ℕ × List ℕ → List ℕ × List ℕ
unfolding put_array
write_arg (Arg.int v) (out, fds) = (out ++ u32_bytes v, fds)
write_arg (Arg.fixed v) (out, fds) = (out ++ u32_bytes v, fds)
write_arg (Arg.uint v) (out, fds) = (out ++ u32_bytes v, fds)
write_arg (Arg.object v) (out, fds) = (out ++ u32_bytes v, fds)
write_arg (Arg.new_id v) (out, fds) = (out ++ u32_bytes v, fds)
write_arg (Arg.str none) (out, fds) = (out ++ u32_bytes 0, fds)
write_arg (Arg.str (some s)) (out, fds) = (put_array out (s ++ 0 ∷ []), fds)
write_arg (Arg.array a) (out, fds) = (put_array out a, fds)
write_arg (Arg.fd f) (out, fds) = (out, fds ++ f ∷ [])

pub write_args : List Arg → List ℕ × List ℕ → List ℕ × List ℕ
unfolding write_arg
write_args [] s = s
write_args (a ∷ args) s = write_args args (write_arg a s)

-- `out[at..at + bytes.len()].copy_from_slice(bytes)`
abbrev pub copy_at : ℕ → List ℕ → List ℕ → List ℕ
copy_at at bytes out = take at out ++ (bytes ++ drop (at + length bytes) out)

-- What `write` leaves: its result, the buffer and the descriptors.
pub record Written : Type 0 where
  pub result : Outcome (Unit {0})
  pub out : List ℕ
  pub fds : List ℕ

pub write : Message → List ℕ → List ℕ → Written
unfolding write_args
write msg out fds =
    let start = length out in
    let body = write_args msg.args (out ++ replicate header 0, fds) in
    let size = length body.0 - start in
    let word = bit_or (size % 2 ^ 32 * 2 ^ 16 % 2 ^ 32) msg.opcode in
    if ltb u16_max size
    then record { result = err (too_large size); out = take start body.0; fds = body.1 }
    else record {
      result = ok tt;
      out = copy_at (start + 4) (u32_bytes word) (copy_at start (u32_bytes msg.sender) body.0);
      fds = body.1;
    }
