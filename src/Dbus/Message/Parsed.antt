-- ===== src/Dbus/Message/Parsed.antt =====
-- What `Message::parse_header` of src/dbus/message.rs accepts.
use psbox.Common.{
  ℕ, ◌+◌, ◌≤◌, ◌≡◌, refl, sym, ap, ◌∙◌, Bool, true, false, not, some, none, Option, List, [], ◌∷◌,
  length, length-drop, get_elem?, take, drop, take-drop-take, ltb, ◌==◌, ==_iff, arith, ok, ensure,
  ok_or, >>=-eq-ok, ok-injective, Bool-cases, inl, inr,
}
use psbox.Common.Text.{codes}
use psbox.Dbus.Signature.{DecodeError}
use psbox.Dbus.Reader.{read}
use psbox.Dbus.Message.{
  Message, pad8, max_message, big_endian, prefix_u32, frame_len, read_fields_and_body, parse_header,
  elements,
}

ensure-eq-ok : (b : Bool) (e : DecodeError) {u : Unit {0}} → ensure b e ≡ ok u → b ≡ true
ensure-eq-ok true e h = refl
ensure-eq-ok false e h = cc

ok_or-eq-ok : (o : Option ℕ) (e : DecodeError) {n : ℕ} → ok_or o e ≡ ok n → o ≡ some n
ok_or-eq-ok none e h = cc
ok_or-eq-ok (some n) e h = ap some (ok-injective h)

prefix_u32-take :
    (buf : List ℕ) (at : ℕ) (big : Bool)
    → at + 4 ≤ 16
    → prefix_u32 (take 16 buf) at big ≡ prefix_u32 buf at big
unfolding prefix_u32
prefix_u32-take buf at big inside = rw (take-drop-take 4 at 16 buf inside)

first-take : (buf : List ℕ) → get_elem? (take 16 buf) 0 ≡ get_elem? buf 0
first-take [] = refl
first-take (b ∷ buf) = refl

-- What a length that `frame_len` gives is made of.
frame_len-eq-ok :
    (buf : List ℕ) (total : ℕ)
    → frame_len (take 16 buf) ≡ ok total
    → (first : ℕ) × (big : Bool) × (get_elem? buf 0 ≡ some first)
      × (big_endian first ≡ ok big)
      × (total ≡ pad8 (16 + prefix_u32 buf 12 big) + prefix_u32 buf 4 big)
      × (total ≤ max_message)
unfolding frame_len
frame_len-eq-ok buf total h =
    let (first, is_first, more) = >>=-eq-ok (ok_or (get_elem? (take 16 buf) 0) _) _ h in
    let (big, is_big, last) = >>=-eq-ok (big_endian first) _ more in
    let sum = pad8 (16 + prefix_u32 (take 16 buf) 12 big) + prefix_u32 (take 16 buf) 4 big in
    elim (Bool-cases (ltb max_message sum)) [
      | inl large ↦ cc (rw large at last)
      | inr fits ↦
          let same : sum ≡ total = ok-injective (rw fits at last) in
          (
            first,
            big,
            sym (first-take buf) ∙ ok_or-eq-ok (get_elem? (take 16 buf) 0) _ is_first,
            is_big,
            omega (
              arith,
              same,
              prefix_u32-take buf 12 big (omega arith),
              prefix_u32-take buf 4 big (omega arith),
            ),
            ground (arith, same, fits),
          )
    ]

body-read :
    (buf : List ℕ) (order : Bool) (kind flags : ℕ) (m : Message) (big : Bool)
    → read_fields_and_body buf order kind flags ≡ ok (m, big)
    → (order ≡ big) × (m.body ≡ drop (pad8 (16 + prefix_u32 buf 12 order)) buf)
unfolding read_fields_and_body
body-read buf order kind flags m big h =
    let (value, _, h1) = >>=-eq-ok (read buf order (codes "a(yv)") 12) _ h in
    let (fields, _, h2) = >>=-eq-ok (elements value.0) _ h1 in
    let (_, _, last) = >>=-eq-ok (ensure (value.1 == 16 + prefix_u32 buf 12 order) _) _ h2 in
    let same = ok-injective last in
    (ap (λ (p : Message × Bool). p.1) same, sym (ap (λ (p : Message × Bool). p.0.body) same))

some-injective : {a b : ℕ} → some a ≡ some b → a ≡ b
some-injective e = ground (arith, e)

header-parts :
    (buf : List ℕ) (m : Message) (big : Bool)
    → parse_header buf ≡ ok (m, big)
    → (frame_len (take 16 buf) ≡ ok (length buf))
      × ((first : ℕ) × (get_elem? buf 0 ≡ some first) × (big_endian first ≡ ok big))
      × (m.body ≡ drop (pad8 (16 + prefix_u32 buf 12 big)) buf)
unfolding parse_header
header-parts buf m big h =
    let (_, _, h1) = >>=-eq-ok (ensure (not (ltb (length buf) 16)) _) _ h in
    let (total, framed, h2) = >>=-eq-ok (frame_len (take 16 buf)) _ h1 in
    let (_, whole, h3) = >>=-eq-ok (ensure (length buf == total) _) _ h2 in
    let (version, _, h4) = >>=-eq-ok (ok_or (get_elem? buf 3) _) _ h3 in
    let (_, _, h5) = >>=-eq-ok (ensure (version == 1) _) _ h4 in
    let (first, is_first, h6) = >>=-eq-ok (ok_or (get_elem? buf 0) _) _ h5 in
    let (order, is_order, h7) = >>=-eq-ok (big_endian first) _ h6 in
    let (kind, _, h8) = >>=-eq-ok (ok_or (get_elem? buf 1) _) _ h7 in
    let (flags, _, h9) = >>=-eq-ok (ok_or (get_elem? buf 2) _) _ h8 in
    finish total framed (ensure-eq-ok (length buf == total) _ whole) first
      (ok_or-eq-ok (get_elem? buf 0) _ is_first) order is_order
      (body-read buf order kind flags m big h9)
  where
    finish :
        (total : ℕ)
        → frame_len (take 16 buf) ≡ ok total
        → (length buf == total) ≡ true
        → (first : ℕ) → get_elem? buf 0 ≡ some first
        → (order : Bool) → big_endian first ≡ ok order
        → (order ≡ big) × (m.body ≡ drop (pad8 (16 + prefix_u32 buf 12 order)) buf)
        → (frame_len (take 16 buf) ≡ ok (length buf))
          × ((first : ℕ) × (get_elem? buf 0 ≡ some first) × (big_endian first ≡ ok big))
          × (m.body ≡ drop (pad8 (16 + prefix_u32 buf 12 big)) buf)
    finish total framed whole first is_first order is_order (same, body) = (
      framed ∙ ap ok (sym ((==_iff (length buf) total).0 whole)),
      (first, is_first, is_order ∙ ap ok same),
      body ∙ ap (λ b. drop (pad8 (16 + prefix_u32 buf 12 b)) buf) same,
    )

-- Bytes whose header is read are one whole frame of at most the largest size: its length is what
-- `frame_len` says, and the body is the bytes behind the padded header fields, as many as the
-- header declares.
pub parse_header-eq-ok :
    (buf : List ℕ) (m : Message) (big : Bool)
    → parse_header buf ≡ ok (m, big)
    → (frame_len (take 16 buf) ≡ ok (length buf))
      × (length buf ≤ max_message)
      × (m.body ≡ drop (pad8 (16 + prefix_u32 buf 12 big)) buf)
      × (length m.body ≡ prefix_u32 buf 4 big)
parse_header-eq-ok buf m big h =
    let (framed, (first, is_first, is_big), body) = header-parts buf m big h in
    let (first', big', is_first', is_big', sum, fits) = frame_len-eq-ok buf (length buf) framed in
    let one_first : first ≡ first' = some-injective (sym is_first ∙ is_first') in
    let one_order : big' ≡ big =
      ok-injective (sym is_big' ∙ ap big_endian (sym one_first) ∙ is_big) in
    let sum_is : length buf ≡ pad8 (16 + prefix_u32 buf 12 big) + prefix_u32 buf 4 big =
      sum ∙ ap (λ b. pad8 (16 + prefix_u32 buf 12 b) + prefix_u32 buf 4 b) one_order in
    (
      framed,
      fits,
      body,
      omega (arith, ap length body, length-drop (pad8 (16 + prefix_u32 buf 12 big)) buf, sum_is),
    )
