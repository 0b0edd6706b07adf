-- ===== src/Dbus/Tests.antt =====
-- Bodies of src/dbus/value.rs, and the theorems about them at concrete values.
use psbox.Common.{ℕ, ◌+◌, ◌≡◌, refl, true, false, List, [], ◌∷◌, ok, err, arith}
use psbox.Common.Text.{codes}
use psbox.Common.Utf8.{is_utf8}
use psbox.Common.Words.{of_be_bytes, of_le_bytes, le_bytes}
use psbox.Dbus.Signature.{
  max_depth, alignment_of, truncated_value, bad_boolean, element_overruns, is_basic,
}
use psbox.Dbus.Signature.Grammar.{SigType, Fields, spell, Within}
use psbox.Dbus.Value.{Value, Values, Entries, signatures}
use psbox.Dbus.Reader.{decode_body}
use psbox.Dbus.Writer.{encode_body}
use psbox.Dbus.RoundTrip.{FitFields, Fits, IsType}
use psbox.Dbus.RoundTrip.Body.{decode_body-encode_body}
use psbox.Dbus.Signature.NoPanic.{NoPanic}

-- As in the tests of the source: `"abc"`, 0x1234, 1.0 and [1, 2], most significant byte first.
reads_big_endian :
    decode_body
      (codes "sqdau")
      (0 ∷ 0 ∷ 0 ∷ 3 ∷ 97 ∷ 98 ∷ 99 ∷ 0 ∷ 0x12 ∷ 0x34 ∷ 0 ∷ 0 ∷ 0 ∷ 0 ∷ 0 ∷ 0 ∷ 0x3f ∷ 0xf0 ∷ 0 ∷ 0
        ∷ 0 ∷ 0 ∷ 0 ∷ 0 ∷ 0 ∷ 0 ∷ 0 ∷ 8 ∷ 0 ∷ 0 ∷ 0 ∷ 1 ∷ 0 ∷ 0 ∷ 0 ∷ 2 ∷ [])
      true
    ≡ ok (
        Values.item (Value.str (codes "abc")) (
          Values.item (Value.u16 0x1234) (
            Values.item (Value.double 0x3ff0000000000000) (
              Values.item
                (Value.array
                  (codes "u")
                  (Values.item (Value.u32 1) (Values.item (Value.u32 2) Values.nothing)))
                Values.nothing))))
unfolding decode_body alignment_of of_be_bytes of_le_bytes is_utf8
reads_big_endian = refl

rejects_bad_input :
    (decode_body (codes "s") (5 ∷ 0 ∷ 0 ∷ 0 ∷ 97 ∷ []) false ≡ err truncated_value)
    × (decode_body (codes "b") (2 ∷ 0 ∷ 0 ∷ 0 ∷ []) false ≡ err (bad_boolean 2))
    × (decode_body (codes "au") (1 ∷ 0 ∷ 0 ∷ 0 ∷ 7 ∷ 0 ∷ 0 ∷ 0 ∷ []) false ≡ err element_overruns)
unfolding decode_body alignment_of of_be_bytes of_le_bytes is_utf8
rejects_bad_input = (refl, refl, refl)

-- One value of most kinds: `y`, `o`, `as` with no element, `(ub)` and `a{sv}`.
abbrev sample : Values
sample = Values.item (Value.byte 7) (
    Values.item (Value.path (codes "/a")) (
      Values.item (Value.array (codes "s") Values.nothing) (
        Values.item
          (Value.struct (Values.item (Value.u32 9) (Values.item (Value.bool true) Values.nothing)))
          (Values.item
            (Value.dict (codes "s") (codes "v") (
              Entries.pair (Value.str (codes "k")) (Value.variant (Value.str (codes "v")))
                Entries.no_pair))
            Values.nothing))))

abbrev letter : ℕ → SigType
letter c = SigType.basic c

sample_fits : FitFields (max_depth + 1) sample
unfolding FitFields Within is_basic spell signatures is_utf8
sample_fits = (
  (letter b'y', refl, refl),
  omega arith,
  (
    (letter b'o', refl, refl),
    refl,
    (
      (SigType.array (letter b's'), refl, refl),
      no_texts,
      (pair_type, pair_fits, (options_type, options_fit, tt)),
    ),
  ),
)
  where
    no_texts : Fits (max_depth + 1) (Value.array (codes "s") Values.nothing)
    no_texts = ((letter b's', refl, refl), (λ e. absurd (omega (arith, e))), tt)

    pair_type : IsType (max_depth + 1) (codes "(ub)")
    pair_type = (
      SigType.struct (Fields.field (letter b'u') (Fields.field (letter b'b') Fields.end)),
      (tt, (refl, (refl, tt))),
      refl,
    )

    pair_fits :
        Fits
          (max_depth + 1)
          (Value.struct (Values.item (Value.u32 9) (Values.item (Value.bool true) Values.nothing)))
    pair_fits = (tt, ((letter b'u', refl, refl), omega arith, ((letter b'b', refl, refl), tt, tt)))

    options_type : IsType (max_depth + 1) (codes "a{sv}")
    options_type =
        (SigType.array (SigType.dict_entry (letter b's') (letter b'v')), (refl, refl), refl)

    options_fit : Fits (max_depth + 1) (
        Value.dict (codes "s") (codes "v") (
          Entries.pair
            (Value.str (codes "k"))
            (Value.variant (Value.str (codes "v")))
            Entries.no_pair))
    options_fit = (
      (letter b's', refl, refl),
      (letter b'v', refl, refl),
      (refl, refl, refl, ((letter b's', refl, refl), refl, omega arith, refl), tt),
    )

abbrev sample_body : List ℕ
sample_body =
    7 ∷ 0 ∷ 0 ∷ 0 ∷ 2 ∷ 0 ∷ 0 ∷ 0 ∷ 47 ∷ 97 ∷ 0 ∷ 0 ∷ 0 ∷ 0 ∷ 0 ∷ 0 ∷ 9 ∷ 0 ∷ 0 ∷ 0 ∷ 1 ∷ 0 ∷ 0 ∷ 0
    ∷ 18 ∷ 0 ∷ 0 ∷ 0 ∷ 0 ∷ 0 ∷ 0 ∷ 0 ∷ 1 ∷ 0 ∷ 0 ∷ 0 ∷ 107 ∷ 0 ∷ 1 ∷ 115 ∷ 0 ∷ 0 ∷ 0 ∷ 0 ∷ 1 ∷ 0 ∷ 0
    ∷ 0 ∷ 118 ∷ 0 ∷ []

encoded : encode_body sample ≡ ok (codes "yoas(ub)a{sv}", sample_body)
unfolding encode_body alignment_of le_bytes
encoded = refl

decode_body-encode_body_example : decode_body (codes "yoas(ub)a{sv}") sample_body false ≡ ok sample
decode_body-encode_body_example =
    decode_body-encode_body sample (codes "yoas(ub)a{sv}") sample_body sample_fits encoded
      (omega arith)
