-- ===== src/Dbus/Message/Header.antt =====
-- The header fields of src/dbus/message.rs: those that `encode` lists and those that `parse_header`
-- takes.
use psbox.Common.{
  ℕ, zero, suc, ◌+◌, ◌^◌, ◌<◌, ◌≡◌, refl, ◌∙◌, true, Option, none, some, [], ◌∷◌, length, arith,
}
use psbox.Common.Text.{Text, codes}
use psbox.Common.Utf8.{is_utf8}
use psbox.Dbus.Signature.{max_depth, is_basic}
use psbox.Dbus.Signature.Grammar.{SigType, spell, Within}
use psbox.Dbus.Value.{Value, Values, signature}
use psbox.Dbus.Message.{
  Message, push_text, push_word, push_signature, push_fds, header_fields, set_fields, field_with,
}
use psbox.Dbus.RoundTrip.{IsType, Fits, FitItems}

-- A message with the given header and nothing else.
abbrev pub headed :
    ℕ
    → ℕ
    → ℕ
    → Option Text
    → Option Text
    → Option Text
    → Option Text
    → Option ℕ
    → Option Text
    → Text
    → ℕ
    → Message
headed kind flags serial path interface member error_name reply_serial destination signature fds =
    record {
      kind = kind;
      flags = flags;
      serial = serial;
      path = path;
      interface = interface;
      member = member;
      error_name = error_name;
      reply_serial = reply_serial;
      destination = destination;
      sender = none;
      signature = signature;
      unix_fds = fds;
      body = [];
    }

module _ (k f n : ℕ) (rest : Values) where
  sets_path :
      (p : Option Text)
      → set_fields (headed k f n none none none none none none [] 0) (push_text 1 Value.path p rest)
        ≡ set_fields (headed k f n p none none none none none [] 0) rest
  unfolding set_fields
  sets_path none = refl
  sets_path (some s) = refl

  sets_interface :
      (p i : Option Text)
      → set_fields (headed k f n p none none none none none [] 0) (push_text 2 Value.str i rest)
        ≡ set_fields (headed k f n p i none none none none [] 0) rest
  unfolding set_fields
  sets_interface p none = refl
  sets_interface p (some s) = refl

  sets_member :
      (p i m : Option Text)
      → set_fields (headed k f n p i none none none none [] 0) (push_text 3 Value.str m rest)
        ≡ set_fields (headed k f n p i m none none none [] 0) rest
  unfolding set_fields
  sets_member p i none = refl
  sets_member p i (some s) = refl

  sets_error :
      (p i m e : Option Text)
      → set_fields (headed k f n p i m none none none [] 0) (push_text 4 Value.str e rest)
        ≡ set_fields (headed k f n p i m e none none [] 0) rest
  unfolding set_fields
  sets_error p i m none = refl
  sets_error p i m (some s) = refl

  sets_reply :
      (p i m e : Option Text) (r : Option ℕ)
      → set_fields (headed k f n p i m e none none [] 0) (push_word 5 r rest)
        ≡ set_fields (headed k f n p i m e r none [] 0) rest
  unfolding set_fields
  sets_reply p i m e none = refl
  sets_reply p i m e (some s) = refl

  sets_destination :
      (p i m e : Option Text) (r : Option ℕ) (d : Option Text)
      → set_fields (headed k f n p i m e r none [] 0) (push_text 6 Value.str d rest)
        ≡ set_fields (headed k f n p i m e r d [] 0) rest
  unfolding set_fields
  sets_destination p i m e r none = refl
  sets_destination p i m e r (some s) = refl

  sets_signature :
      (p i m e : Option Text) (r : Option ℕ) (d : Option Text) (s : Text)
      → set_fields (headed k f n p i m e r d [] 0) (push_signature s rest)
        ≡ set_fields (headed k f n p i m e r d s 0) rest
  unfolding set_fields
  sets_signature p i m e r d [] = refl
  sets_signature p i m e r d (c ∷ s) = refl

sets_fds :
    (k f n : ℕ) (p i m e : Option Text) (r : Option ℕ) (d : Option Text) (s : Text) (u : ℕ)
    → set_fields (headed k f n p i m e r d s 0) (push_fds u Values.nothing)
      ≡ headed k f n p i m e r d s u
unfolding set_fields
sets_fds k f n p i m e r d s zero = refl
sets_fds k f n p i m e r d s (suc u) = refl

pub set_fields-header_fields :
    (m : Message) (n : ℕ)
    → set_fields (headed m.kind m.flags n none none none none none none [] 0) (header_fields m)
      ≡ record m { serial = n; sender = none; body = [] }
unfolding header_fields
set_fields-header_fields m n =
    sets_path m.kind m.flags n _ m.path
    ∙ sets_interface m.kind m.flags n _ m.path m.interface
    ∙ sets_member m.kind m.flags n _ m.path m.interface m.member
    ∙ sets_error m.kind m.flags n _ m.path m.interface m.member m.error_name
    ∙ sets_reply m.kind m.flags n _ m.path m.interface m.member m.error_name m.reply_serial
    ∙ sets_destination m.kind m.flags n _ m.path m.interface m.member m.error_name m.reply_serial
        m.destination
    ∙ sets_signature m.kind m.flags n _ m.path m.interface m.member m.error_name m.reply_serial
        m.destination m.signature
    ∙ sets_fds m.kind m.flags n m.path m.interface m.member m.error_name m.reply_serial
        m.destination m.signature m.unix_fds

-- The texts of the header are UTF-8, its signature is short, and its words have 32 bits.
abbrev pub IsText : Option Text → Type 0
IsText none = Unit
IsText (some s) = is_utf8 s ≡ true

abbrev pub IsWord : Option ℕ → Type 0
IsWord none = Unit
IsWord (some n) = n < 2 ^ 32

abbrev pub HeaderFits : Message → Type 0
HeaderFits m =
    IsText m.path
    × IsText m.interface
    × IsText m.member
    × IsText m.error_name
    × IsWord m.reply_serial
    × IsText m.destination
    × (is_utf8 m.signature ≡ true)
    × (length m.signature < 256)
    × (m.unix_fds < 2 ^ 32)

abbrev pub field_kind : Text
field_kind = codes "(yv)"

abbrev ListFits : Values → Type 0
ListFits vs = FitItems max_depth field_kind vs

one_letter : (c : ℕ) → is_basic c ≡ true → IsType (max_depth + 1) (c ∷ [])
unfolding Within spell
one_letter c basic = (SigType.basic c, basic, refl)

module _ (code : ℕ) (rest : Values) (small : code < 256) (fits : ListFits rest) where
  field-Fits :
      (v : Value) (c : ℕ)
      → signature v ≡ c ∷ []
      → is_basic c ≡ true
      → is_utf8 (c ∷ []) ≡ true
      → Fits 62 v
      → ListFits (field_with code v rest)
  unfolding FitItems Fits signature is_basic
  field-Fits v c typed basic ascii fit =
      let letter : IsType (max_depth + 1) (signature v) = rw typed (one_letter c basic) in
      let utf8 : is_utf8 (signature v) ≡ true = rw typed ascii in
      let short : length (signature v) < 256 = rw typed (omega arith) in
      (
        refl,
        (tt, (one_letter b'y' refl, small, (one_letter b'v' refl, (letter, utf8, short, fit), tt))),
        fits,
      )

  path-Fits : (o : Option Text) → IsText o → ListFits (push_text code Value.path o rest)
  unfolding Fits signature is_basic is_utf8
  path-Fits none text = fits
  path-Fits (some s) text = field-Fits (Value.path s) b'o' refl refl refl text

  str-Fits : (o : Option Text) → IsText o → ListFits (push_text code Value.str o rest)
  unfolding Fits signature is_basic is_utf8
  str-Fits none text = fits
  str-Fits (some s) text = field-Fits (Value.str s) b's' refl refl refl text

  word-Fits : (o : Option ℕ) → IsWord o → ListFits (push_word code o rest)
  unfolding Fits signature is_basic is_utf8
  word-Fits none word = fits
  word-Fits (some n) word = field-Fits (Value.u32 n) b'u' refl refl refl word

signature-Fits :
    (sig : Text) (rest : Values)
    → ListFits rest
    → is_utf8 sig ≡ true
    → length sig < 256
    → ListFits (push_signature sig rest)
unfolding Fits signature is_basic is_utf8
signature-Fits [] rest fits text short = fits
signature-Fits (c ∷ sig) rest fits text short =
    field-Fits 8 rest (omega arith) fits (Value.sig (c ∷ sig)) b'g' refl refl refl (text, short)

fds-Fits : (n : ℕ) → n < 2 ^ 32 → ListFits (push_fds n Values.nothing)
unfolding Fits signature is_basic is_utf8 FitItems
fds-Fits zero word = tt
fds-Fits (suc n) word =
    field-Fits 9 Values.nothing (omega arith) tt (Value.u32 (suc n)) b'u' refl refl refl word

pub header_fields-fits :
    (m : Message) → HeaderFits m → FitItems max_depth field_kind (header_fields m)
unfolding header_fields
header_fields-fits m (path, interface, member, error_name, reply, destination, utf8, short, fds) =
    path-Fits 1 _ (omega arith)
      (str-Fits 2 _ (omega arith)
        (str-Fits 3 _ (omega arith)
          (str-Fits 4 _ (omega arith)
            (word-Fits 5 _ (omega arith)
              (str-Fits 6 _ (omega arith)
                (signature-Fits m.signature _ (fds-Fits m.unix_fds fds) utf8 short) m.destination
                destination)
              m.reply_serial reply)
            m.error_name error_name)
          m.member member)
        m.interface interface)
      m.path path
