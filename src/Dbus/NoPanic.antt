-- ===== src/Dbus/NoPanic.antt =====
-- Panics of `Reader` in src/dbus/value.rs, which indexes its buffer and the types that it is given.
pub mod Values
use psbox.Common.{
  sym, ap, ◌∙◌, ok-injective, ◌==◌, ℕ, zero, suc, ◌+◌, ◌-◌, ◌≤◌, ◌≡◌, refl, Bool, true, false, inl,
  inr, List, [], ◌∷◌, length, take, drop, length-take, length-drop, ltb, Bool-cases, if-cases,
  if◌then◌else◌, arith, ok, err, ◌>>=◌, ensure,
}
use psbox.Common.Text.{Text}
use psbox.Dbus.Signature.{
  Outcome, DecodeError, is_panic, not_nul_terminated, invalid_utf8, type_len, complete_type_len,
  split_signature, max_depth,
}
use psbox.Common.Utf8.{is_utf8}
use psbox.Dbus.Reader.{
  padding_to, is_zero_byte, align, take_bytes, read_word, read_u32, read_byte, read_string,
  read_bool,
}
use psbox.Dbus.Signature.NoPanic.{
  NoPanic, gives, fails, then-NoPanic, if-NoPanic, ensure-NoPanic, type_len-NoPanic,
  split_signature-NoPanic,
}

module _ (buf : List ℕ) (big : Bool) where
  pub align-NoPanic : (n pos : ℕ) → NoPanic (align buf big n pos)
  unfolding align
  align-NoPanic n pos =
      if-NoPanic (ltb (length buf) (pos + padding_to n pos)) _ _ (fails refl) gives

  pub take_bytes-NoPanic : (n pos : ℕ) → NoPanic (take_bytes buf big n pos)
  unfolding take_bytes
  take_bytes-NoPanic n pos = if-NoPanic (ltb (length buf) (pos + n)) _ _ (fails refl) gives

  pub read_word-NoPanic : (n pos : ℕ) → NoPanic (read_word buf big n pos)
  unfolding read_word
  read_word-NoPanic n pos =
      then-NoPanic (take_bytes buf big n pos) _ (take_bytes-NoPanic n pos) (λ r _. gives)

  pub read_u32-NoPanic : (pos : ℕ) → NoPanic (read_u32 buf big pos)
  unfolding read_u32
  read_u32-NoPanic pos =
      then-NoPanic (align buf big 4 pos) _ (align-NoPanic 4 pos) (λ pos _. read_word-NoPanic 4 pos)

  first-there : (xs : List ℕ) → 1 ≤ length xs → (b : ℕ) × (take 1 xs ≡ b ∷ [])
  first-there [] h = absurd (omega arith)
  first-there (x ∷ xs) h = (x, refl)

  -- One byte that was taken is there.
  taken-one :
      (pos : ℕ) {r : List ℕ × ℕ} → take_bytes buf big 1 pos ≡ ok r → (b : ℕ) × (r.0 ≡ b ∷ [])
  unfolding take_bytes
  taken-one pos {r} h = elim (if-cases (ltb (length buf) (pos + 1)) h) [
    | inl (_, h) ↦ cc h
    | inr (fits, h) ↦
        let (b, one) = first-there (drop pos buf) (ground (arith, fits, length-drop pos buf)) in
        (b, ap (λ q. q.0) (sym (ok-injective h)) ∙ one)
  ]

  pub read_byte-NoPanic : (pos : ℕ) → NoPanic (read_byte buf big pos)
  unfolding read_byte
  read_byte-NoPanic pos =
      then-NoPanic (take_bytes buf big 1 pos) _ (take_bytes-NoPanic 1 pos)
        λ r e. let (b, one) = taken-one pos e in rw one gives

  pub read_string-NoPanic : (len pos : ℕ) → NoPanic (read_string buf big len pos)
  unfolding read_string
  read_string-NoPanic len pos =
      then-NoPanic (take_bytes buf big len pos) _ (take_bytes-NoPanic len pos) λ s _.
        then-NoPanic (take_bytes buf big 1 s.1) _ (take_bytes-NoPanic 1 s.1) λ l _.
          then-NoPanic (ensure (is_zero_byte l.0) not_nul_terminated) _
            (ensure-NoPanic (is_zero_byte l.0) _ refl)
            λ _ _.
              then-NoPanic (ensure (is_utf8 s.0) invalid_utf8) _
                (ensure-NoPanic (is_utf8 s.0) _ refl) (λ _ _. gives)

  pub read_bool-NoPanic : (pos : ℕ) → NoPanic (read_bool buf big pos)
  unfolding read_bool
  read_bool-NoPanic pos =
      then-NoPanic (read_u32 buf big pos) _ (read_u32-NoPanic pos)
        (λ v _. if-NoPanic (v.0 == 0) _ _ gives (if-NoPanic (v.0 == 1) _ _ gives (fails refl)))
