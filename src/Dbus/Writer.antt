-- ===== src/Dbus/Writer.antt =====
-- src/dbus/value.rs: `Writer` and `encode_body`. The buffer is passed on. `alignment` of an element
-- type that is empty panics, so writing may fail.
use psbox.Common.{
  ℕ, ◌+◌, ◌-◌, ◌%◌, ◌^◌, Bool, List, [], ◌∷◌, ◌++◌, if◌then◌else◌, length, take, drop, replicate,
  ok, ◌>>=◌,
}
use psbox.Common.Text.{Text}
use psbox.Common.Words.{le_bytes}
use psbox.Dbus.Signature.{Outcome, alignment}
use psbox.Dbus.Value.{Value, Values, Entries, signature, signatures}
use psbox.Dbus.Reader.{padding_to}

-- The loop pushes zeros until the length is a multiple of `n`.
abbrev pub align : ℕ → List ℕ → List ℕ
align n out = out ++ replicate (padding_to n (length out)) 0

abbrev pub write_u32 : ℕ → List ℕ → List ℕ
write_u32 v out = align 4 out ++ le_bytes 4 v

abbrev pub write_string : Text → List ℕ → List ℕ
write_string s out = write_u32 (length s % 2 ^ 32) out ++ (s ++ 0 ∷ [])

abbrev pub write_sig : Text → List ℕ → List ℕ
write_sig s out = out ++ ((length s % 256) ∷ (s ++ 0 ∷ []))

abbrev pub bit : Bool → ℕ
bit b = if b then 1 else 0

-- `buf[len_at..len_at + 4].copy_from_slice(..)`, with the length of what was written from `start` on.
abbrev pub patch_len : ℕ → ℕ → List ℕ → List ℕ
patch_len len_at start out =
    take len_at out ++ (le_bytes 4 ((length out - start) % 2 ^ 32) ++ drop (len_at + 4) out)

unfoldable pub align_value : Value → List ℕ → Outcome (List ℕ)
unfolding signature
align_value v out = do n ← alignment (signature v); ok (align n out)

unfoldable mutual
  unfolding signature align_value

  -- The `match` of `Writer::write`. What stands before it, `align_value`, is put where it is called.
  pub write_aligned : Value → List ℕ → Outcome (List ℕ)
  write_aligned (Value.byte b) out = ok (out ++ b ∷ [])
  write_aligned (Value.bool b) out = ok (write_u32 (bit b) out)
  write_aligned (Value.i16 n) out = ok (out ++ le_bytes 2 n)
  write_aligned (Value.u16 n) out = ok (out ++ le_bytes 2 n)
  write_aligned (Value.i32 n) out = ok (write_u32 n out)
  write_aligned (Value.u32 n) out = ok (write_u32 n out)
  write_aligned (Value.fd n) out = ok (write_u32 n out)
  write_aligned (Value.i64 n) out = ok (out ++ le_bytes 8 n)
  write_aligned (Value.u64 n) out = ok (out ++ le_bytes 8 n)
  write_aligned (Value.double n) out = ok (out ++ le_bytes 8 n)
  write_aligned (Value.str s) out = ok (write_string s out)
  write_aligned (Value.path s) out = ok (write_string s out)
  write_aligned (Value.sig s) out = ok (write_sig s out)
  write_aligned (Value.variant inner) out = do
    out ← align_value inner (write_sig (signature inner) out)
    write_aligned inner out
  write_aligned (Value.struct fields) out = write_all fields out
  write_aligned (Value.array elem items) out = do
    n ← alignment elem
    let head = write_u32 0 out
    let start = align n head
    done ← write_all items start
    ok (patch_len (length head - 4) (length start) done)
  write_aligned (Value.dict _ _ entries) out = do
    let head = write_u32 0 out
    let start = align 8 head
    done ← write_entries entries start
    ok (patch_len (length head - 4) (length start) done)

  pub write_all : Values → List ℕ → Outcome (List ℕ)
  write_all Values.nothing out = ok out
  write_all (Values.item v vs) out = do
    out ← align_value v out
    out ← write_aligned v out
    write_all vs out

  pub write_entries : Entries → List ℕ → Outcome (List ℕ)
  write_entries Entries.no_pair out = ok out
  write_entries (Entries.pair k v rest) out = do
    out ← align_value k (align 8 out)
    out ← write_aligned k out
    out ← align_value v out
    out ← write_aligned v out
    write_entries rest out

-- `Writer::write`
unfoldable pub write : Value → List ℕ → Outcome (List ℕ)
unfolding align_value write_aligned
write v out = do out ← align_value v out; write_aligned v out

unfoldable pub encode_body : Values → Outcome (Text × List ℕ)
unfolding write_aligned signature
encode_body values = do out ← write_all values []; ok (signatures values, out)
