-- ===== src/Dbus/Signature/Tests.antt =====
-- Signatures of src/dbus/value.rs, and the theorems about them at concrete texts.
use psbox.Common.{◌≡◌, ◌≢◌, ◌↔◌, refl, [], ◌∷◌, ok, err, replicate, ◌++◌}
use psbox.Common.Text.{codes}
use psbox.Dbus.Signature.{
  complete_type_len, split_signature, truncated_signature, unterminated_struct, signature_too_deep,
  out_of_fuel,
}
use psbox.Dbus.Signature.Splitting.{split_signature_lem, IsSplit}
use psbox.Dbus.Signature.Fuel.{split_signature-ends}

splits :
    split_signature (codes "yotashda{sv}")
    ≡ ok (
        codes "y" ∷ codes "o" ∷ codes "t" ∷ codes "as" ∷ codes "h" ∷ codes "d" ∷ codes "a{sv}" ∷ [])
unfolding split_signature
splits = refl

rejects :
    (split_signature (codes "a") ≡ err truncated_signature)
    × (split_signature (codes "(") ≡ err unterminated_struct)
    × (split_signature (codes "{ss}") ≡ ok (codes "{ss}" ∷ []))
    × (split_signature (replicate 100 b'a' ++ codes "y") ≡ err signature_too_deep)
unfolding split_signature
rejects = (refl, refl, refl, refl)

split_signature_lem_example :
    (split_signature (codes "s(ub)") ≡ ok (codes "s" ∷ codes "(ub)" ∷ []))
    ↔ IsSplit (codes "s(ub)") (codes "s" ∷ codes "(ub)" ∷ [])
split_signature_lem_example = split_signature_lem (codes "s(ub)") (codes "s" ∷ codes "(ub)" ∷ [])

split_signature-ends_example :
    (complete_type_len (codes "((i)") 3 ≢ err out_of_fuel)
    × (split_signature (codes "((i)") ≢ err out_of_fuel)
split_signature-ends_example = split_signature-ends (codes "((i)") 3
