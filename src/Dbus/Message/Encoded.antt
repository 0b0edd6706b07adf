-- ===== src/Dbus/Message/Encoded.antt =====
-- `Message::encode`, `frame_len` and `Message::parse` of src/dbus/message.rs: messages and their frames.
use psbox.Common.{
  ℕ, zero, ◌+◌, ◌%◌, ◌^◌, ◌≤◌, ◌<◌, ◌≡◌, sym, ap, ap₂, ◌∙◌, false, none, List, ◌∷◌, ◌++◌,
  append_assoc, length, length-append, length-replicate, replicate, take, drop, drop-append_length,
  arith, ok, ok-injective,
}
use psbox.Common.Text.{codes}
use psbox.Common.Words.{le_bytes, length-le_bytes}
use psbox.Dbus.Value.{Value, Values}
use psbox.Dbus.Reader.{padding_to, read}
use psbox.Dbus.Writer.{align}
use psbox.Dbus.RoundTrip.Ahead.{Ahead}
use psbox.Dbus.RoundTrip.Loops.{ReadsBack}
use psbox.Dbus.Message.{
  Message, pad8, max_message, frame_len, header_fields, parse_header, parse, encode, args,
}
use psbox.Dbus.Message.Header.{field_kind, HeaderFits, header_fields-fits, set_fields-header_fields}
use psbox.Dbus.Message.Frame.{fields-Written, header-read}

-- The twelve bytes in front of the header fields.
abbrev front : Message → ℕ → List ℕ
front m n = b'l' ∷ m.kind ∷ m.flags ∷ 1 ∷ (le_bytes 4 (length m.body % 2 ^ 32) ++ le_bytes 4 n)

length-front : (m : Message) (n : ℕ) → length (front m n) ≡ 12
length-front m n =
    let sizes = length-append (le_bytes 4 (length m.body % 2 ^ 32)) (le_bytes 4 n) in
    omega (arith, sizes, length-le_bytes 4 (length m.body % 2 ^ 32), length-le_bytes 4 n)

module _ (m : Message) (n : ℕ) (ext buf : List ℕ) (small : n < 2 ^ 32)
    (few : length buf ≤ max_message)
    (framed : buf
      ≡ align 8 (front m n ++ (le_bytes 4 (length ext % 2 ^ 32) ++ ext)) ++ m.body) where
  -- The zeros in front of the body.
  abbrev zeros : List ℕ
  zeros =
      replicate (padding_to 8 (length (front m n ++ (le_bytes 4 (length ext % 2 ^ 32) ++ ext))))
        zero

  sizes :
      (length (front m n ++ (le_bytes 4 (length ext % 2 ^ 32) ++ ext)) ≡ 16 + length ext)
      × (pad8 (16 + length ext) + length m.body ≡ length buf)
      × (length zeros + (16 + length ext) ≡ pad8 (16 + length ext))
  sizes =
      let whole : length (front m n ++ (le_bytes 4 (length ext % 2 ^ 32) ++ ext))
          ≡ 16 + length ext =
        omega (
          arith,
          length-append (front m n) (le_bytes 4 (length ext % 2 ^ 32) ++ ext),
          length-front m n,
          length-append (le_bytes 4 (length ext % 2 ^ 32)) ext,
          length-le_bytes 4 (length ext % 2 ^ 32),
        ) in
      let padded : length zeros + (16 + length ext) ≡ pad8 (16 + length ext) = omega (
        arith,
        whole,
        length-replicate
            (padding_to 8 (length (front m n ++ (le_bytes 4 (length ext % 2 ^ 32) ++ ext)))) zero,
      ) in
      (
        whole,
        omega (
          arith,
          whole,
          padded,
          ap length framed,
          length-append (align 8 (front m n ++ (le_bytes 4 (length ext % 2 ^ 32) ++ ext))) m.body,
          length-append (front m n ++ (le_bytes 4 (length ext % 2 ^ 32) ++ ext)) zeros,
        ),
        padded,
      )

  shape : buf ≡ front m n ++ ((le_bytes 4 (length ext % 2 ^ 32) ++ ext) ++ (zeros ++ m.body))
  shape =
      framed
      ∙ append_assoc (front m n ++ (le_bytes 4 (length ext % 2 ^ 32) ++ ext)) zeros m.body
      ∙ append_assoc (front m n) (le_bytes 4 (length ext % 2 ^ 32) ++ ext) (zeros ++ m.body)

  frame-Ahead : Ahead buf 12 ((le_bytes 4 (length ext % 2 ^ 32) ++ ext) ++ (zeros ++ m.body))
  frame-Ahead =
      let behind = (le_bytes 4 (length ext % 2 ^ 32) ++ ext) ++ (zeros ++ m.body) in
      (
        ap (drop 12) shape
            ∙ ap (λ k. drop k (front m n ++ behind)) (sym (length-front m n))
            ∙ drop-append_length (front m n) behind,
        omega (arith, ap length shape, length-append (front m n) behind, length-front m n),
      )

  frame-cells :
      buf
      ≡ b'l'
        ∷ m.kind
        ∷ m.flags
        ∷ 1
        ∷ (le_bytes 4 (length m.body)
            ++ (le_bytes 4 n ++ (le_bytes 4 (length ext) ++ (ext ++ (zeros ++ m.body)))))
  unfolding le_bytes
  frame-cells =
      let (whole, total, padded) = sizes in
      let body_fits : length m.body % 2 ^ 32 ≡ length m.body = omega (arith, total, few) in
      let ext_fits : length ext % 2 ^ 32 ≡ length ext = omega (arith, total, few) in
      shape
      ∙ ap₂
          (λ a b.
            b'l'
            ∷ m.kind
            ∷ m.flags
            ∷ 1
            ∷ (le_bytes 4 a ++ (le_bytes 4 n ++ (le_bytes 4 b ++ (ext ++ (zeros ++ m.body))))))
          body_fits ext_fits

  frame-body : drop (pad8 (16 + length ext)) buf ≡ m.body
  frame-body =
      let (whole, total, padded) = sizes in
      let before = align 8 (front m n ++ (le_bytes 4 (length ext % 2 ^ 32) ++ ext)) in
      let end : pad8 (16 + length ext) ≡ length before = omega (
        arith,
        whole,
        padded,
        length-append (front m n ++ (le_bytes 4 (length ext % 2 ^ 32) ++ ext)) zeros,
      ) in
      ap₂ drop end framed ∙ drop-append_length before m.body

  parse_header-framed :
      ReadsBack
        (λ buf. read buf false (codes "a(yv)"))
        (Value.array field_kind (header_fields m))
        12
        (le_bytes 4 (length ext % 2 ^ 32) ++ ext)
      → (frame_len (take 16 buf) ≡ ok (length buf))
        × (parse_header buf ≡ ok (record m { serial = n; sender = none }, false))
  parse_header-framed back =
      let (whole, total, padded) = sizes in
      let end : 12 + length (le_bytes 4 (length ext % 2 ^ 32) ++ ext) ≡ 16 + length ext = omega (
        arith,
        length-append (le_bytes 4 (length ext % 2 ^ 32)) ext,
        length-le_bytes 4 (length ext % 2 ^ 32),
      ) in
      let fields : read buf false (codes "a(yv)") 12
          ≡ ok (Value.array field_kind (header_fields m), 16 + length ext) =
        back buf (zeros ++ m.body) (omega (arith, few)) frame-Ahead
        ∙ ap (λ k. ok (Value.array field_kind (header_fields m), k)) end in
      let (frame, parsed) =
        header-read m.kind m.flags n (length m.body) (length ext) (header_fields m)
          (ext ++ (zeros ++ m.body)) buf frame-cells (omega (arith, total, few)) small
          (omega (arith, total, few)) total few fields in
      (
        frame,
        parsed
            ∙ ap₂ (λ (h : Message) (b : List ℕ). ok (record h { body = b }, false))
                (set_fields-header_fields m n) frame-body,
      )

-- For a header that fits and a serial of 32 bits, where `encode` gives a frame of at most the largest
-- size and the body decodes: `frame_len` of the frame's sixteen bytes is its length, and both
-- `parse_header` and `parse` read the message back, with the serial and without the sender.
pub parse-encode_message :
    (m : Message) (n : ℕ) (buf : List ℕ)
    → HeaderFits m
    → n < 2 ^ 32
    → encode m n ≡ ok buf
    → length buf ≤ max_message
    → (values : Values) → args m ≡ ok values
    → (frame_len (take 16 buf) ≡ ok (length buf))
      × (parse_header buf ≡ ok (record m { serial = n; sender = none }, false))
      × (parse buf ≡ ok (record m { serial = n; sender = none }))
unfolding encode parse args le_bytes
parse-encode_message m n buf fits small encoded few values decoded =
    let (ext, written, back) =
      fields-Written (header_fields m) (front m n) (header_fields-fits m fits) (length-front m n) in
    let framed = ok-injective (rw written at encoded) in
    let (frame, parsed) = parse_header-framed m n ext buf small few (sym framed) back in
    (frame, parsed, rw (parsed, decoded))
