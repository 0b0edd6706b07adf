-- ===== src/Dbus/Signature/NoPanic.antt =====
-- Panics while a signature of src/dbus/value.rs is measured or split.
use psbox.Common.{
  ◌==◌, ℕ, zero, suc, ◌+◌, ◌≡◌, refl, Bool, true, false, [], ◌∷◌, length, drop, if◌then◌else◌, ok,
  err, ◌>>=◌, ensure,
}
use psbox.Common.Text.{Text}
use psbox.Dbus.Signature.{
  Outcome, DecodeError, is_panic, fields_len, is_basic, type_len, complete_type_len, split_all,
  split_signature, max_depth,
}

abbrev panicked : {A : Type 0} → Outcome A → Bool
panicked (ok _) = false
panicked (err e) = is_panic e

pub record NoPanic {A : Type 0} (result : Outcome A) : Type 0 where
  pub calm : panicked result ≡ false

pub gives : {A : Type 0} {a : A} → NoPanic {A = A} (ok a)
gives = record { calm = refl }

pub fails : {A : Type 0} {e : DecodeError} → is_panic e ≡ false → NoPanic {A = A} (err e)
fails h = record { calm = h }

pub then-NoPanic :
    {A B : Type 0} (result : Outcome A) (next : A → Outcome B)
    → NoPanic result
    → ((a : A) → result ≡ ok a → NoPanic (next a))
    → NoPanic (result >>= next)
then-NoPanic (ok a) next p h = h a refl
then-NoPanic (err e) next p h = fails p.calm

pub if-NoPanic :
    {A : Type 0} (test : Bool) (x y : Outcome A)
    → NoPanic x
    → NoPanic y
    → NoPanic (if test then x else y)
if-NoPanic true x y hx hy = hx
if-NoPanic false x y hx hy = hy

pub ensure-NoPanic : (test : Bool) (e : DecodeError) → is_panic e ≡ false → NoPanic (ensure test e)
ensure-NoPanic true e h = gives
ensure-NoPanic false e h = fails h

fields_len-NoPanic :
    (one : Text → Outcome ℕ)
    → ((sig : Text) → NoPanic (one sig))
    → (fuel : ℕ) (sig : Text) (i : ℕ) → NoPanic (fields_len one fuel sig i)
unfolding fields_len
fields_len-NoPanic one safe fuel [] i = fails refl
fields_len-NoPanic one safe zero (c ∷ rest) i = if-NoPanic (c == b')') _ _ gives (fails refl)
fields_len-NoPanic one safe (suc fuel) (c ∷ rest) i = if-NoPanic (c == b')') _ _ gives (
    then-NoPanic (one (c ∷ rest)) _ (safe (c ∷ rest))
      λ n _. fields_len-NoPanic one safe fuel (drop n (c ∷ rest)) (i + n))

pub type_len-NoPanic : (levels : ℕ) (sig : Text) → NoPanic (type_len levels sig)
unfolding type_len
type_len-NoPanic zero sig = fails refl
type_len-NoPanic (suc levels) [] = fails refl
type_len-NoPanic (suc levels) (c ∷ sig) = if-NoPanic (is_basic c) _ _ gives (
    if-NoPanic (c == b'a') _ _
      (then-NoPanic (type_len levels sig) _ (type_len-NoPanic levels sig) (λ n _. gives))
      (if-NoPanic (c == b'(') _ _
        (then-NoPanic (fields_len (type_len levels) (length sig) sig 1) _
          (fields_len-NoPanic (type_len levels) (type_len-NoPanic levels) (length sig) sig 1)
          (λ i _. if-NoPanic (i == 1) _ _ (fails refl) gives))
        (if-NoPanic (c == b'{') _ _
          (then-NoPanic (type_len levels sig) _ (type_len-NoPanic levels sig) λ k _.
            then-NoPanic (type_len levels (drop k sig)) _ (type_len-NoPanic levels (drop k sig))
              (λ v _. if-NoPanic _ _ _ gives (fails refl)))
          (fails refl))))

split_all-NoPanic : (fuel : ℕ) (sig : Text) → NoPanic (split_all fuel sig)
unfolding split_all complete_type_len
split_all-NoPanic fuel [] = gives
split_all-NoPanic zero (c ∷ sig) = fails refl
split_all-NoPanic (suc fuel) (c ∷ sig) =
    then-NoPanic (complete_type_len (c ∷ sig) 0) _ (type_len-NoPanic (max_depth + 1) (c ∷ sig))
      λ n _.
        then-NoPanic (split_all fuel (drop n (c ∷ sig))) _
          (split_all-NoPanic fuel (drop n (c ∷ sig))) (λ more _. gives)

pub split_signature-NoPanic : (sig : Text) → NoPanic (split_signature sig)
unfolding split_signature
split_signature-NoPanic sig = split_all-NoPanic (length sig) sig
