-- ===== src/Desktop/Exec/Quoting.antt =====
-- `split_exec` of src/desktop.rs on what `join_exec` makes.
use psbox.Common.{
  ℕ, ◌≡◌, refl, ap, ◌∙◌, Bool, true, false, ◌||◌, List, [], ◌∷◌, ◌++◌, ◌==◌, append-nil,
  append_assoc, arith, Bool-cases, inl, inr, ok, ||-eq-false,
}
use psbox.Common.Text.{Text, contains}
use psbox.Desktop.Exec.{
  Split, outside, quoted, is_special, next_char, split_from, finished, start, split_exec,
  quoted_chars, any_quoted, needs_quotes, in_quotes, quote_arg, join_exec,
}

split_from-append :
    (s : Split) (xs ys : Text) → split_from s (xs ++ ys) ≡ split_from (split_from s xs) ys
unfolding split_from
split_from-append s [] ys = refl
split_from-append s (x ∷ xs) ys = split_from-append (next_char s x) xs ys

-- In an argument that has been read so far.
abbrev within : List Text → Text → Split
within args cur = record { args = args; cur = cur; have = true; place = outside }

abbrev between : List Text → Text → Split
between args cur = record { args = args; cur = cur; have = true; place = quoted }

special_quoted :
    (args : List Text) (cur cs : Text) (c : ℕ)
    → is_special c ≡ true
    → split_from (between args cur) (b'\\' ∷ c ∷ cs) ≡ split_from (between args (cur ++ c ∷ [])) cs
unfolding split_from next_char
special_quoted args cur cs c s = rw s refl

special-false : (c : ℕ) → is_special c ≡ false → ((c == b'"') ≡ false) × ((c == b'\\') ≡ false)
unfolding is_special
special-false c s = (ground (arith, s), ground (arith, s))

plain_quoted :
    (args : List Text) (cur cs : Text) (c : ℕ)
    → is_special c ≡ false
    → split_from (between args cur) (c ∷ cs) ≡ split_from (between args (cur ++ c ∷ [])) cs
unfolding split_from next_char
plain_quoted args cur cs c s = let (q, b) = special-false c s in rw (q, b) refl

split_from-in_quotes :
    (args : List Text) (cur a : Text)
    → split_from (between args cur) (in_quotes a) ≡ within args (cur ++ a)
unfolding split_from next_char is_special
split_from-in_quotes args cur [] = rw (append-nil cur) refl
split_from-in_quotes args cur (c ∷ a) = elim (Bool-cases (is_special c)) [
  | inl s ↦ rw s (
      special_quoted args cur (in_quotes a) c s
      ∙ split_from-in_quotes args (cur ++ c ∷ []) a
      ∙ ap (within args) (append_assoc cur (c ∷ []) a))
  | inr s ↦ rw s (
      plain_quoted args cur (in_quotes a) c s
      ∙ split_from-in_quotes args (cur ++ c ∷ []) a
      ∙ ap (within args) (append_assoc cur (c ∷ []) a))
]

needless :
    (c : ℕ)
    → contains c quoted_chars ≡ false
    → ((c == b'"') ≡ false) × ((c == b' ' || c == b'\t') ≡ false)
unfolding contains
needless c h = (ground (arith, h), ground (arith, h))

-- A character that needs no quotes.
next_char-plain :
    (args : List Text) (cur : Text) (have : Bool) (c : ℕ)
    → contains c quoted_chars ≡ false
    → next_char (record { args = args; cur = cur; have = have; place = outside }) c
      ≡ within args (cur ++ c ∷ [])
unfolding next_char
next_char-plain args cur have c h = let (q, b) = needless c h in rw (q, b) refl

split_from-plain :
    (args : List Text) (cur a : Text)
    → any_quoted a ≡ false
    → split_from (within args cur) a ≡ within args (cur ++ a)
unfolding split_from
split_from-plain args cur [] h = rw (append-nil cur) refl
split_from-plain args cur (c ∷ a) h =
    let (n, rest) = ||-eq-false (contains c quoted_chars) (any_quoted a) h in
    ap (λ s. split_from s a) (next_char-plain args cur true c n)
    ∙ split_from-plain args (cur ++ c ∷ []) a rest
    ∙ ap (within args) (append_assoc cur (c ∷ []) a)

split_from-quote_arg :
    (args : List Text) (a : Text) → split_from (start args) (quote_arg a) ≡ within args a
unfolding split_from quote_arg needs_quotes next_char
split_from-quote_arg args [] = refl
split_from-quote_arg args (c ∷ a) = elim (Bool-cases (any_quoted (c ∷ a))) [
  | inl q ↦ rw q (split_from-in_quotes args [] (c ∷ a))
  | inr n ↦
      let (m, rest) = ||-eq-false (contains c quoted_chars) (any_quoted a) n in
      rw n (
        ap (λ s. split_from s a) (next_char-plain args [] false c m)
        ∙ split_from-plain args (c ∷ []) a rest)
]

split_from-join_exec :
    (args : List Text) (a : Text) (more : List Text)
    → finished (split_from (start args) (join_exec (a ∷ more))) ≡ ok (args ++ a ∷ more)
unfolding join_exec split_from next_char
split_from-join_exec args a [] = rw (split_from-quote_arg args a) refl
split_from-join_exec args a (b ∷ more) =
    rw
      (
        split_from-append (start args) (quote_arg a) (b' ' ∷ join_exec (b ∷ more)),
        split_from-quote_arg args a,
      )
      (split_from-join_exec (args ++ a ∷ []) b more ∙ ap ok (append_assoc args (a ∷ []) (b ∷ more)))

-- Whatever the arguments are, the value that they are joined to is split into them.
pub split_exec-join_exec : (args : List Text) → split_exec (join_exec args) ≡ ok args
unfolding split_exec join_exec split_from
split_exec-join_exec [] = refl
split_exec-join_exec (a ∷ more) = split_from-join_exec [] a more
