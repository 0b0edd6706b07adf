-- ===== src/Dbus/RoundTrip/Ahead.antt =====
-- `Reader` of src/dbus/value.rs where it is known what stands at its position.
use psbox.Common.{
  ℕ, zero, ◌+◌, ◌%◌, ◌^◌, ◌<◌, ◌≡◌, sym, ap, ◌∙◌, true, false, List, [], ◌∷◌, ◌++◌, not_lt→ltb,
  length, length-append, length-replicate, drop, replicate, take-append_length, drop-append_length,
  drop-drop, arith, ok,
}
use psbox.Common.Words.{le_bytes, length-le_bytes, of_le_bytes-le_bytes}
use psbox.Common.Utf8.{is_utf8}
use psbox.Dbus.Reader.{padding_to, align, take_bytes, read_word, read_u32, read_byte, read_string}

-- What the buffer has from `pos` to its end.
abbrev pub Ahead : List ℕ → ℕ → List ℕ → Type 0
Ahead buf pos xs = (drop pos buf ≡ xs) × (pos + length xs ≡ length buf)

pub past :
    (buf : List ℕ) (pos : ℕ) (xs rest : List ℕ)
    → Ahead buf pos (xs ++ rest)
    → Ahead buf (pos + length xs) rest
past buf pos xs rest (at, size) = (
  sym (drop-drop (length xs) pos buf) ∙ ap (drop (length xs)) at ∙ drop-append_length xs rest,
  omega (arith, size, length-append xs rest),
)

module _ (buf : List ℕ) (pos : ℕ) where
  pub take_bytes-Ahead :
      (xs rest : List ℕ)
      → Ahead buf pos (xs ++ rest)
      → take_bytes buf false (length xs) pos ≡ ok (xs, pos + length xs)
  unfolding take_bytes
  take_bytes-Ahead xs rest (at, size) =
      rw
        (not_lt→ltb (length buf) (pos + length xs) (omega (arith, size, length-append xs rest)), at)
        (ap (λ ys. ok (ys, pos + length xs)) (take-append_length xs rest))

  pub align-Ahead :
      (n : ℕ) (rest : List ℕ)
      → Ahead buf pos (replicate (padding_to n pos) zero ++ rest)
      → align buf false n pos ≡ ok (pos + padding_to n pos)
  unfolding align
  align-Ahead n rest (at, size) = rw (
      not_lt→ltb (length buf) (pos + padding_to n pos) (
        omega (
          arith,
          size,
          length-append (replicate (padding_to n pos) zero) rest,
          length-replicate (padding_to n pos) zero,
        )))

  pub read_word-Ahead :
      (n v : ℕ) (rest : List ℕ)
      → v < 256 ^ n
      → Ahead buf pos (le_bytes n v ++ rest)
      → read_word buf false n pos ≡ ok (v, pos + n)
  unfolding read_word
  read_word-Ahead n v rest fits ahead =
      let taken = take_bytes-Ahead (le_bytes n v) rest ahead in
      let sized = rw (length-le_bytes n v) at taken in rw (sized, of_le_bytes-le_bytes n v fits)

  pub read_u32-Ahead :
      (v : ℕ) (rest : List ℕ)
      → pos % 4 ≡ 0
      → v < 2 ^ 32
      → Ahead buf pos (le_bytes 4 v ++ rest)
      → read_u32 buf false pos ≡ ok (v, pos + 4)
  unfolding read_u32
  read_u32-Ahead v rest aligned fits ahead =
      let none : padding_to 4 pos ≡ 0 = omega arith in
      let same : pos + padding_to 4 pos ≡ pos = omega arith in
      let padded : Ahead buf pos (replicate (padding_to 4 pos) zero ++ (le_bytes 4 v ++ rest)) =
        rw none ahead in
      rw (align-Ahead 4 (le_bytes 4 v ++ rest) padded, same) (read_word-Ahead 4 v rest fits ahead)

  pub read_byte-Ahead :
      (b : ℕ) (rest : List ℕ) → Ahead buf pos (b ∷ rest) → read_byte buf false pos ≡ ok (b, pos + 1)
  unfolding read_byte
  read_byte-Ahead b rest ahead = rw (take_bytes-Ahead (b ∷ []) rest ahead)

pub read_string-Ahead :
    (buf : List ℕ) (pos : ℕ) (s rest : List ℕ)
    → is_utf8 s ≡ true
    → Ahead buf pos (s ++ zero ∷ rest)
    → read_string buf false (length s) pos ≡ ok (s, pos + length s + 1)
unfolding read_string
read_string-Ahead buf pos s rest utf8 ahead = rw (
  take_bytes-Ahead buf pos s (zero ∷ rest) ahead,
  take_bytes-Ahead buf (pos + length s) (zero ∷ []) rest (past buf pos s (zero ∷ rest) ahead),
  utf8,
)
