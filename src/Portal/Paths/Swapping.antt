-- ===== src/Portal/Paths/Swapping.antt =====
-- `swap_sender` of src/portal.rs: which paths it is for, and its opposite.
use psbox.Common.{
  ℕ, ◌≡◌, refl, sym, ap, ◌∙◌, ◌⊎◌, inl, inr, Bool, true, false, Option, none, some, [], ◌∷◌, ◌++◌,
  append_assoc, ◌==◌, ==_iff, ◌↔◌, if-cases, Option-cases, some-injective, if◌then◌else◌,
}
use psbox.Common.Text.{
  Text, eq, eq_sound, eq_refl, strip_prefix, strip_prefix-append, strip_prefix-eq-some, split_once,
  split_once-append, split_once-none, split_once-eq-some, contains,
}
use psbox.Portal.Names.{request_prefix, session_prefix}
use psbox.Portal.Paths.{segment, rejoin, swap_under, or_else, swap_sender}

-- A request or session of the caller whose segment is `seg`, with the rest of the path behind that.
pub data Owned (path seg : Text) (prefix tail : Text) : Type 0 where
  whole :
      (prefix ≡ request_prefix) ⊎ (prefix ≡ session_prefix)
      → path ≡ prefix ++ seg
      → tail ≡ []
      → Owned path seg prefix tail
  below :
      (prefix ≡ request_prefix) ⊎ (prefix ≡ session_prefix)
      → path ≡ prefix ++ (seg ++ b'/' ∷ tail)
      → Owned path seg prefix tail

split-Owned :
    (prefix path from to rest : Text) (parts : Option (Text × Text)) {q : Text}
    → (prefix ≡ request_prefix) ⊎ (prefix ≡ session_prefix)
    → path ≡ prefix ++ rest
    → split_once b'/' rest ≡ parts
    → (let (seg, tail) = segment rest parts in
        if eq seg from then some (rejoin prefix to tail) else none)
      ≡ some q
    → (tail : Text) × Owned path from prefix tail × (q ≡ rejoin prefix to tail)
split-Owned prefix path from to rest none known at split h = elim (if-cases (eq rest from) h) [
  | inl (same, h) ↦ (
    [],
    Owned.whole known (at ∙ ap (◌++◌ prefix) (eq_sound rest from same)) refl,
    sym (some-injective h),
  )
  | inr (_, h) ↦ cc h
]
split-Owned prefix path from to rest (some (seg, tail)) known at split h =
    elim (if-cases (eq seg from) h) [
      | inl (same, h) ↦ (
        tail,
        Owned.below known (
            at
            ∙ ap (◌++◌ prefix) (
                split_once-eq-some b'/' rest split
                ∙ ap (λ s. s ++ b'/' ∷ tail) (eq_sound seg from same))),
        sym (some-injective h),
      )
      | inr (_, h) ↦ cc h
    ]

swap_under-Owned :
    (prefix path from to : Text) {q : Text}
    → (prefix ≡ request_prefix) ⊎ (prefix ≡ session_prefix)
    → swap_under prefix (strip_prefix prefix path) from to ≡ some q
    → (tail : Text) × Owned path from prefix tail × (q ≡ rejoin prefix to tail)
swap_under-Owned prefix path from to known h = elim (Option-cases (strip_prefix prefix path)) [
  | inl none_left ↦ cc (rw none_left at h)
  | inr (rest, left) ↦
      split-Owned prefix path from to rest (split_once b'/' rest) known
        (strip_prefix-eq-some prefix path left) refl (rw left at h)
]

or_else-cases :
    (o other : Option Text) {q : Text} → or_else o other ≡ some q → (o ≡ some q) ⊎ (other ≡ some q)
or_else-cases none other h = inr h
or_else-cases (some p) other h = inl h

or_else-some : (o other : Option Text) {q : Text} → o ≡ some q → or_else o other ≡ some q
or_else-some o other e = ap (λ o. or_else o other) e

swap_sender-Owned :
    (path from to : Text) {q : Text}
    → swap_sender path from to ≡ some q
    → (prefix : Text) × (tail : Text) × Owned path from prefix tail × (q ≡ rejoin prefix to tail)
unfolding swap_sender
swap_sender-Owned path from to h =
    elim (or_else-cases (swap_under request_prefix (strip_prefix request_prefix path) from to) _
      h) [
        | inl e ↦
            let (tail, owned, swapped) =
              swap_under-Owned request_prefix path from to (inl refl) e in
            (request_prefix, tail, owned, swapped)
        | inr e ↦
            let (tail, owned, swapped) =
              swap_under-Owned session_prefix path from to (inr refl) e in
            (session_prefix, tail, owned, swapped)
      ]

module _ (from to : Text) (plain : contains b'/' from ≡ false) where
  swap_under-whole :
      (prefix : Text)
      → swap_under prefix (strip_prefix prefix (prefix ++ from)) from to
        ≡ some (rejoin prefix to [])
  swap_under-whole prefix =
      rw (strip_prefix-append prefix from, split_once-none b'/' from plain, eq_refl from) refl

  swap_under-below :
      (prefix tail : Text)
      → swap_under prefix (strip_prefix prefix (prefix ++ (from ++ b'/' ∷ tail))) from to
        ≡ some (rejoin prefix to tail)
  swap_under-below prefix tail =
      rw
        (
          strip_prefix-append prefix (from ++ b'/' ∷ tail),
          split_once-append b'/' from tail plain,
          eq_refl from,
        )
        refl

  not_a_request : (rest : Text) → strip_prefix request_prefix (session_prefix ++ rest) ≡ none
  unfolding strip_prefix
  not_a_request rest = refl

  Owned-swap_sender :
      {path prefix tail : Text}
      → Owned path from prefix tail
      → swap_sender path from to ≡ some (rejoin prefix to tail)
  unfolding swap_sender
  Owned-swap_sender (Owned.whole (inl known) path tail) =
      rw (path, known, tail) (or_else-some _ _ (swap_under-whole request_prefix))
  Owned-swap_sender (Owned.whole (inr known) path tail) =
      rw (path, known, tail, not_a_request from) (swap_under-whole session_prefix)
  Owned-swap_sender {tail = tail} (Owned.below (inl known) path) =
      rw (path, known) (or_else-some _ _ (swap_under-below request_prefix tail))
  Owned-swap_sender {tail = tail} (Owned.below (inr known) path) =
      rw (path, known, not_a_request (from ++ b'/' ∷ tail)) (swap_under-below session_prefix tail)

-- For a segment without `/`: `swap_sender` changes just the requests and sessions of the caller whose
-- segment it is, and gives the path with the other segment in its place, without a `/` at its end.
pub swap_sender_lem :
    (from to path : Text) {q : Text}
    → contains b'/' from ≡ false
    → (swap_sender path from to ≡ some q) ↔ (
        (prefix : Text) × (tail : Text) × Owned path from prefix tail × (q ≡ rejoin prefix to tail))
swap_sender_lem from to path plain =
    (swap_sender-Owned path from to, λ owned. rw owned.3 (Owned-swap_sender from to plain owned.2))

abbrev pub ends_in : ℕ → Text → Bool
ends_in c [] = false
ends_in c (d ∷ []) = d == c
ends_in c (d ∷ e ∷ s) = ends_in c (e ∷ s)

ends_in-append : (c : ℕ) (s : Text) → ends_in c (s ++ c ∷ []) ≡ true
ends_in-append c [] = (==_iff c c).1 refl
ends_in-append c (d ∷ []) = (==_iff c c).1 refl
ends_in-append c (d ∷ e ∷ s) = ends_in-append c (e ∷ s)

rejoined :
    {prefix to : Text} (tail : Text)
    → (prefix ≡ request_prefix) ⊎ (prefix ≡ session_prefix)
    → Owned (rejoin prefix to tail) to prefix tail
rejoined [] known = Owned.whole known refl refl
rejoined (c ∷ tail) known = Owned.below known refl

Owned-swapped :
    {path seg prefix tail : Text} (to : Text)
    → Owned path seg prefix tail
    → Owned (rejoin prefix to tail) to prefix tail
Owned-swapped {tail = tail} to (Owned.whole known _ _) = rejoined tail known
Owned-swapped {tail = tail} to (Owned.below known _) = rejoined tail known

Owned-rejoin :
    {path seg prefix : Text} (tail : Text)
    → ends_in b'/' path ≡ false
    → Owned path seg prefix tail
    → rejoin prefix seg tail ≡ path
Owned-rejoin tail clean (Owned.whole known path none_left) = rw (path, none_left) refl
Owned-rejoin {seg = seg} {prefix} [] clean (Owned.below known path) = cc (
  clean,
  ap (ends_in b'/') (path ∙ sym (append_assoc prefix seg (b'/' ∷ []))),
  ends_in-append b'/' (prefix ++ seg),
)
Owned-rejoin (c ∷ tail) clean (Owned.below known path) = rw path refl

-- For segments without `/` and a path that does not end in `/`: what `swap_sender` made of the path
-- is turned back into it by the swap from the second segment to the first.
pub swap_sender-swap_sender :
    (from to path : Text) {q : Text}
    → contains b'/' from ≡ false
    → contains b'/' to ≡ false
    → ends_in b'/' path ≡ false
    → swap_sender path from to ≡ some q
    → swap_sender q to from ≡ some path
swap_sender-swap_sender from to path plain_from plain_to clean h =
    let (prefix, tail, owned, swapped) = swap_sender-Owned path from to h in
    rw swapped (
      Owned-swap_sender to from plain_to (Owned-swapped to owned)
      ∙ ap some (Owned-rejoin tail clean owned))
