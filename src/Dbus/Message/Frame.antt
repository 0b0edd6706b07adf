-- ===== src/Dbus/Message/Frame.antt =====
-- `frame_len` and `Message::parse_header` of src/dbus/message.rs on bytes that start with known ones.
use psbox.Common.{
  ℕ, ◌+◌, ◌%◌, ◌^◌, ◌≤◌, ◌<◌, ◌≡◌, refl, ap, ◌∙◌, false, none, some, get_elem?, List, [], ◌∷◌, ◌++◌,
  append-nil, length, length-append, take, drop, not_lt→ltb, ==_iff, arith, ok,
}
use psbox.Common.Text.{codes}
use psbox.Common.Words.{le_bytes, length-le_bytes, of_le_bytes-le_bytes}
use psbox.Dbus.Signature.{Outcome, max_depth, alignment_of}
use psbox.Dbus.Value.{Value, Values, signature}
use psbox.Dbus.Reader.{padding_to, read, read_depth, read_letter}
use psbox.Dbus.Writer.{align_value, write}
use psbox.Dbus.RoundTrip.{FitItems}
use psbox.Dbus.RoundTrip.Ahead.{align-Ahead}
use psbox.Dbus.RoundTrip.Loops.{ReadsBack}
use psbox.Dbus.RoundTrip.Sized.{head, sized, array-sized}
use psbox.Dbus.RoundTrip.Body.{fits-Written}
use psbox.Dbus.Message.{
  pad8, max_message, frame_len, prefix_u32, big_endian, set_fields, parse_header,
}
use psbox.Dbus.Message.Header.{headed, field_kind}

sized-12 :
    (out ext : List ℕ) → length out ≡ 12 → sized 8 out ext ≡ le_bytes 4 (length ext % 2 ^ 32) ++ ext
sized-12 out ext twelve =
    let sixteen : padding_to 8 (length (head out)) ≡ 0 =
      omega (arith, length-append out (le_bytes 4 0), length-le_bytes 4 0, twelve) in
    rw sixteen

ReadsBack-at :
    {A : Type 0} (reads : List ℕ → ℕ → Outcome (A × ℕ)) (v : A) (pos pos' : ℕ) (ext ext' : List ℕ)
    → pos ≡ pos'
    → ext ≡ ext'
    → ReadsBack reads v pos ext
    → ReadsBack reads v pos' ext'
ReadsBack-at reads v pos pos' ext ext' p q back = rw (← p, ← q) back

-- The array of header fields, behind the twelve bytes in front of it.
pub fields-Written :
    (items : Values) (out : List ℕ)
    → FitItems max_depth field_kind items
    → length out ≡ 12
    → (ext : List ℕ) × (write (Value.array field_kind items) out
        ≡ ok (out ++ (le_bytes 4 (length ext % 2 ^ 32) ++ ext)))
      × ReadsBack
          (λ buf. read buf false (codes "a(yv)"))
          (Value.array field_kind items)
          12
          (le_bytes 4 (length ext % 2 ^ 32) ++ ext)
unfolding write align_value signature alignment_of read read_depth
fields-Written items out fits twelve =
    let (ext, written, back) =
      array-sized max_depth (fits-Written max_depth) b'(' (codes "yv)") items
        (λ e. absurd (omega (arith, e))) fits out (omega arith) in
    let none : padding_to 4 (length out) ≡ 0 = omega arith in
    let shape = sized-12 out ext twelve in
    (
      ext,
      rw (none, append-nil out) (written ∙ ap (λ s. ok (out ++ s)) shape),
      λ buf rest small ahead.
          rw (align-Ahead buf 12 4 ((le_bytes 4 (length ext % 2 ^ 32) ++ ext) ++ rest) ahead) (
            ReadsBack-at
              (λ buf.
                read_letter buf false (max_depth + 1) (read_depth buf false max_depth) b'a'
                  field_kind)
              (Value.array field_kind items) (length out) 12 (sized 8 out ext)
              (le_bytes 4 (length ext % 2 ^ 32) ++ ext) twelve shape back buf rest small ahead),
    )

-- The sixteen bytes in front of the fields, as they are read.
module _ (k f n len size : ℕ) (rest buf : List ℕ)
    (cells : buf
      ≡ b'l' ∷ k ∷ f ∷ 1 ∷ (le_bytes 4 len ++ (le_bytes 4 n ++ (le_bytes 4 size ++ rest))))
    (small_len : len < 2 ^ 32) (small_n : n < 2 ^ 32) (small_size : size < 2 ^ 32) where
  cells_bytes :
      (get_elem? buf 0 ≡ some b'l')
      × (get_elem? buf 1 ≡ some k)
      × (get_elem? buf 2 ≡ some f)
      × (get_elem? buf 3 ≡ some 1)
  cells_bytes = (
    ap (λ b. get_elem? b 0) cells,
    ap (λ b. get_elem? b 1) cells,
    ap (λ b. get_elem? b 2) cells,
    ap (λ b. get_elem? b 3) cells,
  )

  cells_words :
      (prefix_u32 buf 4 false ≡ len)
      × (prefix_u32 buf 8 false ≡ n)
      × (prefix_u32 buf 12 false ≡ size)
      × (16 ≤ length buf)
  unfolding prefix_u32 le_bytes
  cells_words = (
    ap (λ b. prefix_u32 b 4 false) cells ∙ of_le_bytes-le_bytes 4 len (omega arith),
    ap (λ b. prefix_u32 b 8 false) cells ∙ of_le_bytes-le_bytes 4 n (omega arith),
    ap (λ b. prefix_u32 b 12 false) cells ∙ of_le_bytes-le_bytes 4 size (omega arith),
    omega (arith, ap length cells),
  )

  cells_prefix :
      (get_elem? (take 16 buf) 0 ≡ some b'l')
      × (prefix_u32 (take 16 buf) 4 false ≡ len)
      × (prefix_u32 (take 16 buf) 12 false ≡ size)
  unfolding prefix_u32 le_bytes
  cells_prefix = (
    ap (λ b. get_elem? (take 16 b) 0) cells,
    ap (λ b. prefix_u32 (take 16 b) 4 false) cells ∙ of_le_bytes-le_bytes 4 len (omega arith),
    ap (λ b. prefix_u32 (take 16 b) 12 false) cells ∙ of_le_bytes-le_bytes 4 size (omega arith),
  )

-- What `parse_header` does with a little-endian message once its sixteen bytes and its fields are
-- read.
pub header-read :
    (k f n len size : ℕ) (items : Values) (rest buf : List ℕ)
    → buf ≡ b'l' ∷ k ∷ f ∷ 1 ∷ (le_bytes 4 len ++ (le_bytes 4 n ++ (le_bytes 4 size ++ rest)))
    → len < 2 ^ 32
    → n < 2 ^ 32
    → size < 2 ^ 32
    → pad8 (16 + size) + len ≡ length buf
    → length buf ≤ max_message
    → read buf false (codes "a(yv)") 12 ≡ ok (Value.array field_kind items, 16 + size)
    → (frame_len (take 16 buf) ≡ ok (length buf))
      × (parse_header buf
          ≡ ok (
            record (set_fields (headed k f n none none none none none none [] 0) items) {
              body = drop (pad8 (16 + size)) buf;
            },
            false,
          ))
unfolding frame_len parse_header big_endian
header-read k f n len size items rest buf cells small_len small_n small_size total few fields =
    let (first, kind, flags, version) =
      cells_bytes k f n len size rest buf cells small_len small_n small_size in
    let (at_4, at_8, at_12, long) =
      cells_words k f n len size rest buf cells small_len small_n small_size in
    let (first', at_4', at_12') =
      cells_prefix k f n len size rest buf cells small_len small_n small_size in
    let frame : frame_len (take 16 buf) ≡ ok (length buf) =
      rw (first', at_12', at_4', total, not_lt→ltb max_message (length buf) few) in
    (
      frame,
      rw (
        not_lt→ltb (length buf) 16 long,
        frame,
        (==_iff (length buf) (length buf)).1 refl,
        version,
        first,
        kind,
        flags,
        fields,
        at_8,
        at_12,
        (==_iff (16 + size) (16 + size)).1 refl,
      ),
    )
