-- ===== src/Dbus/RoundTrip/Containers.antt =====
-- Variants, structs, arrays and dictionaries of src/dbus/value.rs, written and read where their parts
-- are.
use psbox.Common.{
  ℕ, ◌+◌, ◌<◌, ◌≡◌, refl, sym, ap, ap₂, ◌∙◌, true, List, [], ◌∷◌, ◌++◌, append_assoc, append-nil,
  length, length-append, arith, ok,
}
use psbox.Common.Text.{Text}
use psbox.Common.Utf8.{is_utf8}
use psbox.Dbus.Signature.{max_depth, split_signature}
use psbox.Dbus.Signature.Grammar.{Fields, spell, spell_all, WithinAll}
use psbox.Dbus.Signature.Splitting.{split_signature_lem, spell_each}
use psbox.Dbus.Value.{Value, Values, signature, signatures}
use psbox.Dbus.Reader.{init, read_letter, read_variant, read_struct}
use psbox.Dbus.Writer.{write_aligned, write}
use psbox.Dbus.RoundTrip.{IsType, IsSome, Fits, FitFields}
use psbox.Dbus.RoundTrip.Loops.{Written, Ahead-two, signature_list, write_all-fields}
use psbox.Dbus.RoundTrip.Basic.{WrittenAligned, sig-aligned}

-- One complete type is split into itself.
split_signature-type :
    (sig : Text) → IsType (max_depth + 1) sig → split_signature sig ≡ ok (sig ∷ [])
unfolding spell_all WithinAll
split_signature-type sig (t, w, spelled) = (split_signature_lem sig (sig ∷ [])).1 (
  Fields.field t Fields.end,
  (w, tt),
  spelled ∙ sym (append-nil (spell t)),
  ap (λ s. s ∷ []) spelled,
)

-- The signatures of the fields are those that they split into.
pub fields-type :
    (levels : ℕ) (vs : Values)
    → FitFields levels vs
    → (ts : Fields) × WithinAll (max_depth + 1) ts
      × (signatures vs ≡ spell_all ts)
      × (signature_list vs ≡ spell_each ts)
unfolding signatures FitFields spell_all WithinAll
fields-type levels Values.nothing fits = (Fields.end, tt, refl, refl)
fields-type levels (Values.item v vs) ((t, w, spelled), fit, fits) =
    let (ts, ws, all_spelled, each) = fields-type levels vs fits in
    (Fields.field t ts, (w, ws), ap₂ (◌++◌) spelled all_spelled, ap₂ (◌∷◌) spelled each)

pub init-append : (s : Text) (c : ℕ) → init (s ++ c ∷ []) ≡ s
init-append [] c = refl
init-append (d ∷ []) c = refl
init-append (d ∷ e ∷ s) c = ap (◌∷◌ d) (init-append (e ∷ s) c)

module _ (levels : ℕ)
    (each : (v : Value) → Fits levels v → (out : List ℕ) → Written levels v out) where
  pub variant-aligned :
      (v : Value)
      → IsType (max_depth + 1) (signature v)
      → is_utf8 (signature v) ≡ true
      → length (signature v) < 256
      → Fits levels v
      → (out : List ℕ) → WrittenAligned levels (Value.variant v) b'v' [] out
  unfolding write_aligned write read_letter read_variant
  variant-aligned v typed utf8 short fit out =
      let (kind, wrote, size, back) = sig-aligned (signature v) out utf8 short in
      let (ext, written, some_byte, back') = each v fit (out ++ kind) in
      (
        kind ++ ext,
        rw wrote written ∙ ap ok (append_assoc out kind ext),
        omega (arith, some_byte, length-append kind ext),
        λ buf rest small ahead.
            let (at_kind, at_value) = Ahead-two buf out kind ext rest ahead in
            let (read_len, read_kind) = back buf (ext ++ rest) at_kind in
            let there : length (out ++ kind) ≡ length out + 1 + length (signature v) + 1 =
              omega (arith, length-append out kind, size) in
            rw
              (
                read_len,
                read_kind,
                split_signature-type (signature v) typed,
                rw there at (back' buf rest small at_value),
              )
              (ap (λ n. ok (Value.variant v, n)) (omega (arith, size, length-append kind ext))),
      )

  pub struct-aligned :
      (vs : Values)
      → IsSome vs
      → FitFields levels vs
      → (out : List ℕ)
      → WrittenAligned levels (Value.struct vs) b'(' (signatures vs ++ b')' ∷ []) out
  unfolding write_aligned read_letter read_struct
  struct-aligned vs some_field fits out =
      let (ext, written, some_byte, back) = write_all-fields levels each vs fits out in
      let (ts, ws, spelled, split) = fields-type levels vs fits in
      let splits =
        (split_signature_lem (signatures vs) (signature_list vs)).1 (ts, ws, spelled, split) in
      (
        ext,
        written,
        some_byte some_field,
        λ buf rest small ahead.
            rw (init-append (signatures vs) b')', splits, back buf rest small ahead),
      )
