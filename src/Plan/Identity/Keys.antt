-- ===== src/Plan/Identity/Keys.antt =====
-- src/plan.rs: keys against identities.
use psbox.Common.{
  ◌≡◌, refl, sym, ap, ◌∙◌, true, false, Option, none, some, ◌∷◌, ◌++◌, ok, ◌>>◌, >>=-eq-ok,
  ok-injective, Bool-cases, inl, inr, arith,
}
use psbox.Common.Text.{
  Text, codes, eq, eq_sound, eq_refl, all, contains, contains-all, strip_prefix,
  strip_prefix-append, strip_prefix-eq-some, strip_prefix-all, split_once, split_once-append,
  split_once-none, split_once-eq-some,
}
use psbox.Spec.Names.{word_char, validate_sandbox_name, unnamed_name}
use psbox.Plan.Identity.{
  Identity, instance_of, task_of, unnamed, key, id_char, validate, spelled_task, spelled, parse_key,
  from_key,
}

word_char-dot : word_char b'.' ≡ false
unfolding word_char
word_char-dot = refl

-- A sandbox name has no dot.
sandbox_no_dot : (s : Text) → validate_sandbox_name s ≡ ok tt → contains b'.' s ≡ false
unfolding validate_sandbox_name
sandbox_no_dot s v = contains-all word_char b'.' s word_char-dot (ground (arith, v))

from_key-accepted :
    (k : Text) (id : Identity)
    → parse_key k (split_once b'.' k) ≡ ok id
    → validate id ≡ ok tt
    → from_key k ≡ ok id
unfolding from_key
from_key-accepted k id p v = rw (p, v)

from_key-rejected :
    (k : Text) {id : Identity}
    → from_key k ≡ ok id
    → (parse_key k (split_once b'.' k) ≡ ok id) × (validate id ≡ ok tt)
unfolding from_key
from_key-rejected k e =
    let (id', parsed, rest) =
      >>=-eq-ok (parse_key k (split_once b'.' k)) (λ i. validate i >> ok i) e in
    let (_, valid, same) = >>=-eq-ok (validate id') (λ _. ok id') rest in
    (ground (arith, parsed, same), ground (arith, valid, same))

-- The key of a valid identity is read back as that identity.
pub from_key-key : (id : Identity) → validate id ≡ ok tt → from_key (key id) ≡ ok id
unfolding key validate parse_key
from_key-key (instance_of s none) v =
    from_key-accepted s (instance_of s none)
      (rw (split_once-none b'.' s (sandbox_no_dot s (ground (arith, v))))) v
from_key-key (instance_of s (some i)) v =
    from_key-accepted _ (instance_of s (some i))
      (rw (
        split_once-append b'.' s (codes "instance-" ++ i) (sandbox_no_dot s (ground (arith, v))),
        strip_prefix-append (codes "instance-") i,
      ))
      v
from_key-key (task_of s t) v =
    from_key-accepted _ (task_of s t)
      (rw (
        split_once-append b'.' s (codes "task-" ++ t) (sandbox_no_dot s (ground (arith, v))),
        not_instance t,
        strip_prefix-append (codes "task-") t,
      ))
      v
  where
    not_instance : (t : Text) → strip_prefix (codes "instance-") (codes "task-" ++ t) ≡ none
    not_instance t = unfold strip_prefix in refl
from_key-key (unnamed id) v =
    from_key-accepted _ (unnamed id)
      (rw (
        split_once-append b'.' unnamed_name id (unfold contains in refl),
        strip_prefix-all id_char b'i' (codes "nstance-") id (unfold id_char in refl) hex,
        strip_prefix-all id_char b't' (codes "ask-") id (unfold id_char in refl) hex,
        eq_refl unnamed_name,
      ))
      v
  where
    hex : all id_char id ≡ true
    hex = ground (arith, v)

-- What a key spells is an identity with that key: the text behind the dot, case by case.
key-spelled_task :
    (a rest : Text) (o : Option Text) (id : Identity)
    → strip_prefix (codes "task-") rest ≡ o
    → spelled_task a rest o ≡ ok id
    → key id ≡ a ++ (b'.' ∷ rest)
unfolding key spelled_task
key-spelled_task a rest (some t) id q e =
    rw (← ok-injective e, strip_prefix-eq-some (codes "task-") rest q) refl
key-spelled_task a rest none id q e = elim (Bool-cases (eq a unnamed_name)) [
  | inl same ↦ rw (← ok-injective (rw same at e), eq_sound a unnamed_name same) refl
  | inr other ↦ cc (rw other at e)
]

key-spelled :
    (a rest : Text) (o : Option Text) (id : Identity)
    → strip_prefix (codes "instance-") rest ≡ o
    → spelled a rest o ≡ ok id
    → key id ≡ a ++ (b'.' ∷ rest)
unfolding key spelled
key-spelled a rest (some i) id q e =
    rw (← ok-injective e, strip_prefix-eq-some (codes "instance-") rest q) refl
key-spelled a rest none id q e = key-spelled_task a rest _ id refl e

key-parse_key :
    (k : Text) (r : Option (Text × Text)) (id : Identity)
    → split_once b'.' k ≡ r
    → parse_key k r ≡ ok id
    → key id ≡ k
unfolding key parse_key
key-parse_key k none id q e = rw (← ok-injective e) refl
key-parse_key k (some (a, rest)) id q e =
    key-spelled a rest _ id refl e ∙ sym (split_once-eq-some b'.' k q)

-- A key that is accepted is the key of the identity it is read as, and that identity is valid.
pub key-from_key :
    (k : Text) {id : Identity} → from_key k ≡ ok id → (key id ≡ k) × (validate id ≡ ok tt)
key-from_key k {id} e =
    let (parsed, valid) = from_key-rejected k e in
    (key-parse_key k (split_once b'.' k) id refl parsed, valid)

-- Two valid identities with one key are the same identity: the forms of a key do not collide.
key-injective : (i j : Identity) → validate i ≡ ok tt → validate j ≡ ok tt → key i ≡ key j → i ≡ j
key-injective i j vi vj e =
    ok-injective (sym (from_key-key i vi) ∙ ap from_key e ∙ from_key-key j vj)
