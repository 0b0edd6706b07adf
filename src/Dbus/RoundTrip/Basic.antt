-- ===== src/Dbus/RoundTrip/Basic.antt =====
-- The values without parts of src/dbus/value.rs, written and read.
use psbox.Common.{
  ℕ, zero, suc, ◌+◌, ◌%◌, ◌^◌, ◌≤◌, ◌<◌, ◌≡◌, refl, sym, ap, ◌∙◌, true, false, List, [], ◌∷◌, ◌++◌,
  append_assoc, append-nil, length, length-append, length-replicate, replicate, arith, ok,
}
use psbox.Common.Text.{Text}
use psbox.Common.Utf8.{is_utf8}
use psbox.Common.Words.{le_bytes, length-le_bytes}
use psbox.Dbus.Signature.{alignment_of}
use psbox.Dbus.Value.{Value, signature}
use psbox.Dbus.Reader.{
  padding_to, read_letter, read_depth, read_bool, read_u32, read_word, read_string, read_byte,
}
use psbox.Dbus.Writer.{align_value, write_u32, write_string, write_sig, write_aligned, write}
use psbox.Dbus.RoundTrip.{Fits}
use psbox.Dbus.RoundTrip.Ahead.{
  Ahead, past, align-Ahead, read_byte-Ahead, read_word-Ahead, read_u32-Ahead, read_string-Ahead,
}
use psbox.Dbus.RoundTrip.Loops.{ReadsBack, Written, Ahead-two}

-- The same as `Written` once the buffer is on the boundary of the value, for a value whose type
-- starts with `c`.
abbrev pub WrittenAligned : ℕ → Value → ℕ → Text → List ℕ → Type 0
WrittenAligned levels v c sig out =
    (ext : List ℕ) × (write_aligned v out ≡ ok (out ++ ext))
    × (1 ≤ length ext)
    × ReadsBack
        (λ buf pos. read_letter buf false (suc levels) (read_depth buf false levels) c sig pos) v
        (length out) ext

-- A boundary is reached by padding, as the reader skips it.
pub Written-aligned :
    (levels : ℕ) (v : Value) (c : ℕ) (sig : Text)
    → signature v ≡ c ∷ sig
    → ((n : ℕ) → (n + padding_to (alignment_of c) n) % alignment_of c ≡ 0)
    → ((out : List ℕ) → length out % alignment_of c ≡ 0 → WrittenAligned levels v c sig out)
    → (out : List ℕ) → Written (suc levels) v out
unfolding write align_value read_depth
Written-aligned levels v c sig typed boundary body out =
    let pad = replicate (padding_to (alignment_of c) (length out)) zero in
    let padded = length-replicate (padding_to (alignment_of c) (length out)) zero in
    let on : length (out ++ pad) % alignment_of c ≡ 0 =
      ap (λ n. n % alignment_of c) (length-append out pad ∙ ap (λ n. length out + n) padded)
      ∙ boundary (length out) in
    let (ext, written, some_byte, back) = body (out ++ pad) on in
    (
      pad ++ ext,
      rw typed (written ∙ ap ok (append_assoc out pad ext)),
      omega (arith, some_byte, length-append pad ext),
      λ buf rest small ahead.
          let (at_pad, at_ext) = Ahead-two buf out pad ext rest ahead in
          let aligned = align-Ahead buf (length out) (alignment_of c) (ext ++ rest) at_pad in
          let there : length out + padding_to (alignment_of c) (length out) ≡ length (out ++ pad) =
            omega (arith, length-append out pad, padded) in
          rw (typed, aligned, there, back buf rest small at_ext)
            (ap (λ n. ok (v, n)) (omega (arith, length-append out pad, length-append pad ext))),
    )

-- On its boundary a word needs no padding.
pub write_u32-aligned :
    (v : ℕ) (out : List ℕ) → length out % 4 ≡ 0 → write_u32 v out ≡ out ++ le_bytes 4 v
write_u32-aligned v out on =
    let none : padding_to 4 (length out) ≡ 0 = omega arith in rw (none, append-nil out)

on_four : (c : ℕ) → alignment_of c ≡ 4 → (n : ℕ) → n % alignment_of c ≡ 0 → n % 4 ≡ 0
on_four c four n on = rw four at on

four_boundary :
    (c : ℕ)
    → alignment_of c ≡ 4
    → (n : ℕ) → (n + padding_to (alignment_of c) n) % alignment_of c ≡ 0
four_boundary c four n = rw four (omega arith)

-- A word of four bytes, for a value that is nothing else.
u32-Written :
    (levels : ℕ) (v : Value) (c n : ℕ)
    → signature v ≡ c ∷ []
    → alignment_of c ≡ 4
    → n < 2 ^ 32
    → ((out : List ℕ) → write_aligned v out ≡ ok (write_u32 n out))
    → ((buf : List ℕ) (pos : ℕ)
        → read_u32 buf false pos ≡ ok (n, pos + 4)
        → read_letter buf false (suc levels) (read_depth buf false levels) c [] pos
          ≡ ok (v, pos + 4))
    → (out : List ℕ) → Written (suc levels) v out
u32-Written levels v c n typed four fits writes reads =
    Written-aligned levels v c [] typed (four_boundary c four) (λ out on. (
      le_bytes 4 n,
      writes out ∙ ap ok (write_u32-aligned n out (on_four c four (length out) on)),
      omega (arith, length-le_bytes 4 n),
      λ buf rest small ahead.
          reads buf (length out)
            (read_u32-Ahead buf (length out) n rest (on_four c four (length out) on) fits ahead)
          ∙ ap (λ k. ok (v, length out + k)) (sym (length-le_bytes 4 n)),
    ))

-- A word of `w` bytes.
word-Written :
    (levels : ℕ) (v : Value) (c n w : ℕ)
    → signature v ≡ c ∷ []
    → ((n : ℕ) → (n + padding_to (alignment_of c) n) % alignment_of c ≡ 0)
    → 1 ≤ w
    → n < 256 ^ w
    → ((out : List ℕ) → write_aligned v out ≡ ok (out ++ le_bytes w n))
    → ((buf : List ℕ) (pos : ℕ)
        → read_word buf false w pos ≡ ok (n, pos + w)
        → read_letter buf false (suc levels) (read_depth buf false levels) c [] pos
          ≡ ok (v, pos + w))
    → (out : List ℕ) → Written (suc levels) v out
word-Written levels v c n w typed boundary some_byte fits writes reads =
    Written-aligned levels v c [] typed boundary (λ out on. (
      le_bytes w n,
      writes out,
      omega (arith, length-le_bytes w n),
      λ buf rest small ahead.
          reads buf (length out) (read_word-Ahead buf (length out) w n rest fits ahead)
          ∙ ap (λ k. ok (v, length out + k)) (sym (length-le_bytes w n)),
    ))

-- A text with its length in front and a NUL behind.
string-Written :
    (levels : ℕ) (v : Value) (c : ℕ) (s : Text)
    → signature v ≡ c ∷ []
    → alignment_of c ≡ 4
    → is_utf8 s ≡ true
    → ((out : List ℕ) → write_aligned v out ≡ ok (write_string s out))
    → ((buf : List ℕ) (pos : ℕ)
        → read_u32 buf false pos ≡ ok (length s, pos + 4)
        → read_string buf false (length s) (pos + 4) ≡ ok (s, pos + 4 + length s + 1)
        → read_letter buf false (suc levels) (read_depth buf false levels) c [] pos
          ≡ ok (v, pos + 4 + length s + 1))
    → (out : List ℕ) → Written (suc levels) v out
string-Written levels v c s typed four_at utf8 writes reads =
    Written-aligned levels v c [] typed (four_boundary c four_at) λ out on_c.
      let on = on_four c four_at (length out) on_c in
      let word = le_bytes 4 (length s % 2 ^ 32) in
      let four = length-le_bytes 4 (length s % 2 ^ 32) in
      let whole = length-append word (s ++ zero ∷ []) in
      let text = length-append s (zero ∷ []) in
      (
        word ++ (s ++ zero ∷ []),
        writes out
            ∙ ap (λ o. ok (o ++ (s ++ zero ∷ []))) (write_u32-aligned (length s % 2 ^ 32) out on)
            ∙ ap ok (append_assoc out word (s ++ zero ∷ [])),
        omega (arith, whole, four),
        λ buf rest small ahead.
            let (at_word, at_text) = Ahead-two buf out word (s ++ zero ∷ []) rest ahead in
            let fits : length s % 2 ^ 32 ≡ length s =
              omega (arith, small, at_text.1, length-append (s ++ zero ∷ []) rest, text) in
            let read_len = rw fits at (
              read_u32-Ahead buf (length out) (length s % 2 ^ 32) ((s ++ zero ∷ []) ++ rest) on
                (omega arith) at_word) in
            let there : length (out ++ word) ≡ length out + 4 =
              omega (arith, length-append out word, four) in
            let read_text = rw there at (
              read_string-Ahead buf (length (out ++ word)) s rest utf8
                (rw (← append_assoc s (zero ∷ []) rest) at_text)) in
            reads buf (length out) read_len read_text
            ∙ ap (λ k. ok (v, k)) (omega (arith, whole, four, text)),
      )

-- A signature, with its length in a byte.
pub sig-aligned :
    (s : Text) (out : List ℕ)
    → is_utf8 s ≡ true
    → length s < 256
    → (ext : List ℕ) × (write_sig s out ≡ out ++ ext)
      × (length ext ≡ length s + 2)
      × ((buf rest : List ℕ)
          → Ahead buf (length out) (ext ++ rest)
          → (read_byte buf false (length out) ≡ ok (length s, length out + 1))
            × (read_string buf false (length s) (length out + 1)
                ≡ ok (s, length out + 1 + length s + 1)))
sig-aligned s out utf8 short =
    let fits : length s % 256 ≡ length s = omega arith in
    (
      length s ∷ (s ++ zero ∷ []),
      ap (λ n. out ++ n ∷ (s ++ zero ∷ [])) fits,
      omega (arith, length-append s (zero ∷ [])),
      λ buf rest ahead. (
        read_byte-Ahead buf (length out) (length s) ((s ++ zero ∷ []) ++ rest) ahead,
        read_string-Ahead buf (length out + 1) s rest utf8 (
            rw (← append_assoc s (zero ∷ []) rest)
              (past buf (length out) (length s ∷ []) ((s ++ zero ∷ []) ++ rest) ahead)),
      ),
    )

-- Each kind of value that has no parts and fits its type.
abbrev pub IsBasic : Value → Type 0
IsBasic (Value.variant _) = ⊥
IsBasic (Value.struct _) = ⊥
IsBasic (Value.array _ _) = ⊥
IsBasic (Value.dict _ _ _) = ⊥
IsBasic _ = Unit

pub basic-Written :
    (levels : ℕ) (v : Value)
    → IsBasic v
    → Fits (suc levels) v
    → (out : List ℕ) → Written (suc levels) v out
unfolding signature alignment_of write_aligned read_letter read_bool Fits
basic-Written levels (Value.byte b) basic fits =
    Written-aligned levels (Value.byte b) b'y' [] refl (λ n. omega arith)
      λ out on. (
        b ∷ [],
        refl,
        omega arith,
        λ buf rest small ahead. rw (read_byte-Ahead buf (length out) b rest ahead),
      )
basic-Written levels (Value.bool true) basic fits =
    u32-Written levels (Value.bool true) b'b' 1 refl refl (omega arith) (λ out. refl)
      (λ buf pos h. rw h)
basic-Written levels (Value.bool false) basic fits =
    u32-Written levels (Value.bool false) b'b' 0 refl refl (omega arith) (λ out. refl)
      (λ buf pos h. rw h)
basic-Written levels (Value.i16 n) basic fits =
    word-Written levels (Value.i16 n) b'n' n 2 refl (λ n. omega arith) (omega arith) fits
      (λ out. refl) (λ buf pos h. rw h)
basic-Written levels (Value.u16 n) basic fits =
    word-Written levels (Value.u16 n) b'q' n 2 refl (λ n. omega arith) (omega arith) fits
      (λ out. refl) (λ buf pos h. rw h)
basic-Written levels (Value.i64 n) basic fits =
    word-Written levels (Value.i64 n) b'x' n 8 refl (λ n. omega arith) (omega arith) fits
      (λ out. refl) (λ buf pos h. rw h)
basic-Written levels (Value.u64 n) basic fits =
    word-Written levels (Value.u64 n) b't' n 8 refl (λ n. omega arith) (omega arith) fits
      (λ out. refl) (λ buf pos h. rw h)
basic-Written levels (Value.double n) basic fits =
    word-Written levels (Value.double n) b'd' n 8 refl (λ n. omega arith) (omega arith) fits
      (λ out. refl) (λ buf pos h. rw h)
basic-Written levels (Value.i32 n) basic fits =
    u32-Written levels (Value.i32 n) b'i' n refl refl fits (λ out. refl) (λ buf pos h. rw h)
basic-Written levels (Value.u32 n) basic fits =
    u32-Written levels (Value.u32 n) b'u' n refl refl fits (λ out. refl) (λ buf pos h. rw h)
basic-Written levels (Value.fd n) basic fits =
    u32-Written levels (Value.fd n) b'h' n refl refl fits (λ out. refl) (λ buf pos h. rw h)
basic-Written levels (Value.str s) basic fits =
    string-Written levels (Value.str s) b's' s refl refl fits (λ out. refl)
      (λ buf pos h h'. rw (h, h'))
basic-Written levels (Value.path s) basic fits =
    string-Written levels (Value.path s) b'o' s refl refl fits (λ out. refl)
      (λ buf pos h h'. rw (h, h'))
basic-Written levels (Value.sig s) basic fits =
    Written-aligned levels (Value.sig s) b'g' [] refl (λ n. omega arith)
      λ out on.
        let (ext, wrote, size, back) = sig-aligned s out fits.0 fits.1 in
        (
          ext,
          ap ok wrote,
          omega (arith, size),
          λ buf rest small ahead.
              let (read_len, read_text) = back buf rest ahead in
              rw (read_len, read_text) (ap (λ k. ok (Value.sig s, k)) (omega (arith, size))),
        )
basic-Written levels (Value.variant _) basic fits = absurd basic
basic-Written levels (Value.struct _) basic fits = absurd basic
basic-Written levels (Value.array _ _) basic fits = absurd basic
basic-Written levels (Value.dict _ _ _) basic fits = absurd basic
