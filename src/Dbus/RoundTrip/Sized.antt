-- ===== src/Dbus/RoundTrip/Sized.antt =====
-- Arrays and dictionaries of src/dbus/value.rs: a length that is patched in once the elements are
-- written, padding up to the boundary of the elements, and the elements.
use psbox.Common.{
  ℕ, zero, suc, ◌+◌, ◌-◌, ◌%◌, ◌^◌, ◌<◌, ◌≡◌, refl, sym, ap, ap₂, ◌∙◌, false, List, [], ◌∷◌, ◌++◌,
  append_assoc, length, length-append, length-replicate, replicate, take, drop, take-append_length,
  drop-append_length, ◌==◌, ==_iff, ltb, not_lt→ltb, arith, ok, ◌>>=◌,
}
use psbox.Common.Text.{Text}
use psbox.Common.Words.{le_bytes, length-le_bytes}
use psbox.Dbus.Signature.{Outcome, alignment_of, type_len}
use psbox.Dbus.Value.{Value, Values, Entries}
use psbox.Dbus.Reader.{
  read_depth, align as align_at, padding_to, init, read_letter, read_u32, read_array, read_elements,
  read_dict,
}
use psbox.Dbus.Writer.{align, write_u32, write_aligned, write_all, write_entries, patch_len}
use psbox.Dbus.RoundTrip.{IsType, Fits, FitItems, FitEntries}
use psbox.Dbus.RoundTrip.Ahead.{Ahead, align-Ahead, read_u32-Ahead}
use psbox.Dbus.RoundTrip.Loops.{ReadsBack, Written, Ahead-two, write_all-items}
use psbox.Dbus.RoundTrip.Pairs.{write_entries-back}
use psbox.Dbus.Signature.Complete.{type_len-spell}
use psbox.Dbus.RoundTrip.Containers.{init-append}
use psbox.Dbus.RoundTrip.Basic.{WrittenAligned, write_u32-aligned}

abbrev pub head : List ℕ → List ℕ
head out = out ++ le_bytes 4 0

-- What stands between the length and the elements, where their boundary is `n`.
abbrev pub gap : ℕ → List ℕ → List ℕ
gap n out = replicate (padding_to n (length (head out))) zero

-- The whole array, once its elements are written as `ext`.
abbrev pub sized : ℕ → List ℕ → List ℕ → List ℕ
sized n out ext = le_bytes 4 (length ext % 2 ^ 32) ++ (gap n out ++ ext)

length-head : (out : List ℕ) → length (head out) ≡ length out + 4
length-head out = omega (arith, length-append out (le_bytes 4 0), length-le_bytes 4 0)

patch_len-head :
    (n : ℕ) (out ext : List ℕ)
    → patch_len
        (length (head out) - 4)
        (length (head out ++ gap n out))
        ((head out ++ gap n out) ++ ext)
      ≡ out ++ sized n out ext
patch_len-head n out ext =
    let four = length-head out in
    let back : length (head out) - 4 ≡ length out = omega (arith, four) in
    let len : length ((head out ++ gap n out) ++ ext) - length (head out ++ gap n out)
        ≡ length ext =
      omega (arith, length-append (head out ++ gap n out) ext) in
    let behind : (head out ++ gap n out) ++ ext ≡ head out ++ (gap n out ++ ext) =
      append_assoc (head out) (gap n out) ext in
    let whole = behind ∙ append_assoc out (le_bytes 4 0) (gap n out ++ ext) in
    ap₂
      (λ a b.
        take a ((head out ++ gap n out) ++ ext)
        ++ (le_bytes 4 (b % 2 ^ 32) ++ drop (a + 4) ((head out ++ gap n out) ++ ext)))
      back len
    ∙ ap₂ (λ a b. a ++ (le_bytes 4 (length ext % 2 ^ 32) ++ b))
        (ap (take (length out)) whole ∙ take-append_length out (le_bytes 4 0 ++ (gap n out ++ ext)))
        (ap (λ k. drop k ((head out ++ gap n out) ++ ext)) (sym four)
          ∙ ap (drop (length (head out))) behind
          ∙ drop-append_length (head out) (gap n out ++ ext))

-- What is read before the elements, and where that leaves the reader.
sized-Ahead :
    (n : ℕ) (out ext buf rest : List ℕ)
    → length out % 4 ≡ 0
    → length buf < 2 ^ 32
    → Ahead buf (length out) (sized n out ext ++ rest)
    → (read_u32 buf false (length out) ≡ ok (length ext, length (head out)))
      × (align_at buf false n (length (head out)) ≡ ok (length (head out ++ gap n out)))
      × Ahead buf (length (head out ++ gap n out)) (ext ++ rest)
      × (ltb (length buf) (length (head out ++ gap n out) + length ext) ≡ false)
sized-Ahead n out ext buf rest on small ahead =
    let word = le_bytes 4 (length ext % 2 ^ 32) in
    let four = length-le_bytes 4 (length ext % 2 ^ 32) in
    let (at_word, at_gap) = Ahead-two buf out word (gap n out ++ ext) rest ahead in
    let same : length (out ++ word) ≡ length (head out) =
      omega (arith, length-append out word, four, length-head out) in
    let at_gap' : Ahead buf (length (head out)) ((gap n out ++ ext) ++ rest) = rw same at at_gap in
    let (here, there) = Ahead-two buf (head out) (gap n out) ext rest at_gap' in
    let fits : length ext % 2 ^ 32 ≡ length ext =
      omega (arith, small, there.1, length-append ext rest) in
    (
      read_u32-Ahead buf (length out) (length ext % 2 ^ 32) ((gap n out ++ ext) ++ rest) on
            (omega arith) at_word
          ∙ ap₂ (λ a b. ok (a, b)) fits (sym (length-head out)),
      align-Ahead buf (length (head out)) n (ext ++ rest) here
          ∙ ap ok (
              omega (
                arith,
                length-append (head out) (gap n out),
                length-replicate (padding_to n (length (head out))) zero,
              )),
      there,
      not_lt→ltb (length buf) (length (head out ++ gap n out) + length ext)
          (omega (arith, there.1, length-append ext rest)),
    )

length-sized :
    (n : ℕ) (out ext : List ℕ)
    → length (head out ++ gap n out) + length ext ≡ length out + length (sized n out ext)
length-sized n out ext = omega (
  arith,
  length-head out,
  length-append (head out) (gap n out),
  length-append (le_bytes 4 (length ext % 2 ^ 32)) (gap n out ++ ext),
  length-le_bytes 4 (length ext % 2 ^ 32),
  length-append (gap n out) ext,
)

-- The length is patched in behind the elements, however these are written.
patched :
    (loop : List ℕ → Outcome (List ℕ)) (n : ℕ) (out ext : List ℕ)
    → length out % 4 ≡ 0
    → loop (head out ++ gap n out) ≡ ok ((head out ++ gap n out) ++ ext)
    → (do
      done ← loop (align n (write_u32 0 out))
      ok (patch_len (length (write_u32 0 out) - 4) (length (align n (write_u32 0 out))) done))
      ≡ ok (out ++ sized n out ext)
patched loop n out ext on written =
    rw (write_u32-aligned 0 out on, written) (ap ok (patch_len-head n out ext))

module _ (levels : ℕ)
    (each : (v : Value) → Fits levels v → (out : List ℕ) → Written levels v out) where
  -- An array as its length, the gap and its elements.
  pub array-sized :
      (c : ℕ) (kind : Text) (items : Values)
      → (c ≡ b'{' → ⊥)
      → FitItems levels (c ∷ kind) items
      → (out : List ℕ) → length out % 4 ≡ 0
      → (ext : List ℕ) × (write_aligned (Value.array (c ∷ kind) items) out
          ≡ ok (out ++ sized (alignment_of c) out ext))
        × ReadsBack
            (λ buf.
              read_letter buf false (suc levels) (read_depth buf false levels) b'a' (c ∷ kind))
            (Value.array (c ∷ kind) items)
            (length out)
            (sized (alignment_of c) out ext)
  unfolding write_aligned read_letter read_array read_elements
  array-sized c kind items no_entry fits out on =
      let n = alignment_of c in
      let (ext, written, back) =
        write_all-items levels each (c ∷ kind) items fits (head out ++ gap n out) in
      let not_entry : (c == b'{') ≡ false = ground (arith, no_entry) in
      (
        ext,
        patched (write_all items) n out ext on written,
        λ buf rest small ahead.
            let (read_len, aligned, at_items, inside) =
              sized-Ahead n out ext buf rest on small ahead in
            let read =
              back (length ext) (length (head out ++ gap n out) + length ext) (omega arith) refl buf
                rest small at_items in
            let end = length (head out ++ gap n out) + length ext in
            rw (read_len, aligned, inside, not_entry, read, (==_iff end end).1 refl)
              (ap (λ k. ok (Value.array (c ∷ kind) items, k)) (length-sized n out ext)),
      )

  pub array-aligned :
      (c : ℕ) (kind : Text) (items : Values)
      → (c ≡ b'{' → ⊥)
      → FitItems levels (c ∷ kind) items
      → (out : List ℕ) → length out % 4 ≡ 0
      → WrittenAligned levels (Value.array (c ∷ kind) items) b'a' (c ∷ kind) out
  array-aligned c kind items no_entry fits out on =
      let n = alignment_of c in
      let (ext, written, back) = array-sized c kind items no_entry fits out on in
      (
        sized n out ext,
        written,
        omega (
          arith,
          length-append (le_bytes 4 (length ext % 2 ^ 32)) (gap n out ++ ext),
          length-le_bytes 4 (length ext % 2 ^ 32),
        ),
        back,
      )

  pub dict-aligned :
      (k v : Text) (entries : Entries)
      → IsType (suc levels) k
      → FitEntries levels k v entries
      → (out : List ℕ) → length out % 4 ≡ 0
      → WrittenAligned levels (Value.dict k v entries) b'a' (b'{' ∷ (k ++ (v ++ b'}' ∷ []))) out
  unfolding write_aligned read_letter read_array read_elements read_dict alignment_of
  dict-aligned k v entries (t, w, spelled) fits out on =
      let (ext, written, back) =
        write_entries-back levels each k v entries fits (head out ++ gap 8 out) in
      let kinds : init (k ++ (v ++ b'}' ∷ [])) ≡ k ++ v =
        ap init (sym (append_assoc k v (b'}' ∷ []))) ∙ init-append (k ++ v) b'}' in
      let measured : type_len (suc levels) (k ++ v) ≡ ok (length k) =
        rw spelled (type_len-spell (suc levels) t v w) in
      (
        sized 8 out ext,
        patched (write_entries entries) 8 out ext on written,
        omega (
          arith,
          length-append (le_bytes 4 (length ext % 2 ^ 32)) (gap 8 out ++ ext),
          length-le_bytes 4 (length ext % 2 ^ 32),
        ),
        λ buf rest small ahead.
            let (read_len, aligned, at_items, inside) =
              sized-Ahead 8 out ext buf rest on small ahead in
            let read =
              back (length ext) (length (head out ++ gap 8 out) + length ext) (omega arith) refl buf
                rest small at_items in
            let end = length (head out ++ gap 8 out) + length ext in
            rw
              (
                read_len,
                aligned,
                inside,
                kinds,
                measured,
                take-append_length k v,
                drop-append_length k v,
                read,
                (==_iff end end).1 refl,
              )
              (ap (λ n. ok (Value.dict k v entries, n)) (length-sized 8 out ext)),
      )
