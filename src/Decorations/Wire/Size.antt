-- ===== src/Decorations/Wire/Size.antt =====
-- The length of the buffer that `write` of src/decorations/wire.rs writes to.
use psbox.Common.{
  ℕ, ◌+◌, ◌-◌, ◌≤◌, ◌<◌, ◌≡◌, none, some, List, [], ◌∷◌, ◌++◌, length, length-append, length-take,
  length-drop, replicate, take, drop, ltb, Bool-cases, inl, inr, arith, ok,
}
use psbox.Common.Bytes.{u32_bytes}
use psbox.Decorations.Wire.{
  Arg, Message, header, u16_max, put_array, write_arg, write_args, write, copy_at,
}

put_array-grows : (out bytes : List ℕ) → length out ≤ length (put_array out bytes)
unfolding put_array
put_array-grows out bytes = grind (arith, length-append)

write_arg-grows : (a : Arg) (out fds : List ℕ) → length out ≤ length (write_arg a (out, fds)).0
unfolding write_arg
write_arg-grows (Arg.str (some s)) out fds = put_array-grows out _
write_arg-grows (Arg.array a) out fds = put_array-grows out a
write_arg-grows (Arg.fd f) out fds = omega arith
write_arg-grows (Arg.str none) out fds = omega (arith, length-append out (u32_bytes 0))
write_arg-grows (Arg.int v) out fds = omega (arith, length-append out (u32_bytes v))
write_arg-grows (Arg.uint v) out fds = omega (arith, length-append out (u32_bytes v))
write_arg-grows (Arg.fixed v) out fds = omega (arith, length-append out (u32_bytes v))
write_arg-grows (Arg.object v) out fds = omega (arith, length-append out (u32_bytes v))
write_arg-grows (Arg.new_id v) out fds = omega (arith, length-append out (u32_bytes v))

write_args-grows :
    (args : List Arg) (out fds : List ℕ) → length out ≤ length (write_args args (out, fds)).0
unfolding write_args
write_args-grows [] out fds = omega arith
write_args-grows (a ∷ args) out fds = omega (
  arith,
  write_arg-grows a out fds,
  write_args-grows args (write_arg a (out, fds)).0 (write_arg a (out, fds)).1,
)

length-copy_at :
    (at : ℕ) (bytes out : List ℕ) → at ≤ length out → length out ≤ length (copy_at at bytes out)
length-copy_at at bytes out h = omega (
  arith,
  length-append (take at out) (bytes ++ drop (at + length bytes) out),
  length-append bytes (drop (at + length bytes) out),
  length-take at out,
  length-drop (at + length bytes) out,
)

-- A message that is written takes bytes, and one that is refused takes none away.
pub write-grows :
    (msg : Message) (out fds : List ℕ)
    → (length out ≤ length (write msg out fds).out)
      × ((write msg out fds).result ≡ ok tt → length out < length (write msg out fds).out)
unfolding write
write-grows msg out fds = elim (Bool-cases (ltb u16_max (length body - length out))) [
  | inl big ↦ rw big (omega (arith, length-take (length out) body, grown), λ e. cc)
  | inr fits ↦ rw fits (omega (arith, filled, grown), λ e. omega (arith, filled, grown))
]
  where
    body : List ℕ
    body = (write_args msg.args (out ++ replicate header 0, fds)).0

    grown : length out + header ≤ length body
    grown = omega (
      arith,
      write_args-grows msg.args (out ++ replicate header 0) fds,
      length-append out (replicate header 0),
    )

    filled :
        (word : List ℕ)
        → length body
          ≤ length
              (copy_at (length out + 4) word (copy_at (length out) (u32_bytes msg.sender) body))
    filled word = omega (
      arith,
      grown,
      length-copy_at (length out) (u32_bytes msg.sender) body (omega (arith, grown)),
      length-copy_at (length out + 4) word (copy_at (length out) (u32_bytes msg.sender) body) (
          omega (
            arith,
            grown,
            length-copy_at (length out) (u32_bytes msg.sender) body (omega (arith, grown)),
          )),
    )
