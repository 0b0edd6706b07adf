-- ===== src/Dbus/RoundTrip/Body.antt =====
-- `encode_body` and `decode_body` of src/dbus/value.rs: message bodies, written and read.
use psbox.Common.{
  ℕ, zero, suc, ◌+◌, ◌^◌, ◌<◌, ◌≡◌, refl, sym, ap, ◌∙◌, false, List, [], ◌∷◌, ◌++◌, append-nil,
  length, ==_iff, arith, ok, ok-injective,
}
use psbox.Common.Text.{Text}
use psbox.Dbus.Signature.{max_depth, alignment_of, split_signature}
use psbox.Dbus.Signature.Grammar.{spell-first}
use psbox.Dbus.Signature.Splitting.{split_signature_lem}
use psbox.Dbus.Value.{Value, Values, signature, signatures}
use psbox.Dbus.Reader.{read, read_depth, read_fields, decode_body}
use psbox.Dbus.Writer.{encode_body}
use psbox.Dbus.RoundTrip.{IsType, Fits, FitFields}
use psbox.Dbus.RoundTrip.Loops.{Written, signature_list, write_all-fields}
use psbox.Dbus.RoundTrip.Basic.{Written-aligned, basic-Written}
use psbox.Dbus.RoundTrip.Containers.{variant-aligned, struct-aligned, fields-type}
use psbox.Dbus.RoundTrip.Sized.{array-aligned, dict-aligned}

-- No type is spelled by the empty text.
nil-IsType : (levels : ℕ) → IsType levels [] → ⊥
nil-IsType levels (t, w, spelled) = let (c, s, first, other) = spell-first levels t w in cc

pub fits-Written : (levels : ℕ) (v : Value) → Fits levels v → (out : List ℕ) → Written levels v out
unfolding Fits signature alignment_of
fits-Written zero v fits = absurd fits
fits-Written (suc levels) (Value.variant v) (typed, utf8, short, fit) =
    Written-aligned levels (Value.variant v) b'v' [] refl (λ n. omega arith)
      (λ out on. variant-aligned levels (fits-Written levels) v typed utf8 short fit out)
fits-Written (suc levels) (Value.struct vs) (some_field, fits) =
    Written-aligned levels (Value.struct vs) b'(' (signatures vs ++ b')' ∷ []) refl
      (λ n. omega arith)
      (λ out on. struct-aligned levels (fits-Written levels) vs some_field fits out)
fits-Written (suc levels) (Value.array [] items) (typed, no_entry, fits) =
    absurd (nil-IsType (max_depth + 1) typed)
fits-Written (suc levels) (Value.array (c ∷ kind) items) (typed, no_entry, fits) =
    Written-aligned levels (Value.array (c ∷ kind) items) b'a' (c ∷ kind) refl (λ n. omega arith)
      (array-aligned levels (fits-Written levels) c kind items no_entry fits)
fits-Written (suc levels) (Value.dict k v entries) (typed_k, typed_v, fits) =
    Written-aligned levels (Value.dict k v entries) b'a' (b'{' ∷ (k ++ (v ++ b'}' ∷ []))) refl
      (λ n. omega arith) (dict-aligned levels (fits-Written levels) k v entries typed_k fits)
fits-Written (suc levels) v fits = basic-Written levels v tt fits

decode_body-written :
    (vs : Values) (body : List ℕ)
    → split_signature (signatures vs) ≡ ok (signature_list vs)
    → read_fields body false (read_depth body false (max_depth + 1)) (signature_list vs) 0
      ≡ ok (vs, 0 + length body)
    → decode_body (signatures vs) body false ≡ ok vs
unfolding decode_body read
decode_body-written vs body splits back =
    let end = length body in
    let all : 0 + end ≡ end = omega arith in rw (splits, back, all, (==_iff end end).1 refl)

-- Values that fit their types are read back from what they are written as, if that is shorter than
-- 2^32 bytes.
pub decode_body-encode_body :
    (vs : Values) (sig : Text) (body : List ℕ)
    → FitFields (max_depth + 1) vs
    → encode_body vs ≡ ok (sig, body)
    → length body < 2 ^ 32
    → decode_body sig body false ≡ ok vs
unfolding encode_body
decode_body-encode_body vs sig body fits encoded small =
    let (ext, written, _, back) =
      write_all-fields (max_depth + 1) (fits-Written (max_depth + 1)) vs fits [] in
    let (ts, ws, spelled, split) = fields-type (max_depth + 1) vs fits in
    let splits =
      (split_signature_lem (signatures vs) (signature_list vs)).1 (ts, ws, spelled, split) in
    let same : (signatures vs, ext) ≡ (sig, body) = ok-injective (sym (rw written) ∙ encoded) in
    let short : length ext < 2 ^ 32 = rw (ap (λ (p : Text × List ℕ). length p.1) same) small in
    ap (λ (p : Text × List ℕ). decode_body p.0 p.1 false) (sym same)
    ∙ decode_body-written vs ext splits (
        back ext [] short
          (sym (append-nil ext), ap (λ xs. 0 + length xs) (append-nil ext) ∙ omega arith))
