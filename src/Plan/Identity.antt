-- ===== src/Plan/Identity.antt =====
-- src/plan.rs: `Identity`, which supervisor is meant, and the key that names its socket and unit.
pub mod Keys
mod Tests
use psbox.Common.{
  ℕ, ◌≡◌, Bool, true, false, ◌&&◌, ◌||◌, not, Option, none, some, List, [], ◌∷◌, ◌++◌, ◌==◌, length,
  if◌then◌else◌, Result, ok, err, ◌>>=◌, ◌>>◌, ensure,
}
use psbox.Common.Text.{
  Text, codes, eq, all, is_ascii_hexdigit, is_ascii_uppercase, strip_prefix, split_once,
}
use psbox.Spec.Names.{NameError, is_empty, word_char, validate_sandbox_name, unnamed_name}

-- A sandbox instance, the default one where the instance is `none`; a run of a task; or an unnamed
-- sandbox.
pub data Identity : Type 0 where
  instance_of : Text → Option Text → Identity
  task_of : Text → Text → Identity
  unnamed : Text → Identity

pub data IdentityError : Type 0 where
  bad_sandbox : NameError → IdentityError
  bad_id bad_instance bad_task : IdentityError
  bad_key : IdentityError

unfoldable pub sandbox : Identity → Text
sandbox (instance_of s i) = s
sandbox (task_of s t) = s
sandbox (unnamed id) = unnamed_name

unfoldable pub key : Identity → Text
key (instance_of s none) = s
key (instance_of s (some i)) = s ++ (b'.' ∷ (codes "instance-" ++ i))
key (task_of s t) = s ++ (b'.' ∷ (codes "task-" ++ t))
key (unnamed id) = unnamed_name ++ (b'.' ∷ id)

-- A hexadecimal digit as `random_id` writes it.
unfoldable pub id_char : ℕ → Bool
unfolding is_ascii_hexdigit is_ascii_uppercase
id_char c = is_ascii_hexdigit c && not (is_ascii_uppercase c)

valid_id : Text → Bool
unfolding id_char
valid_id id = length id == 16 && all id_char id

valid_extra : Text → Bool
unfolding word_char
valid_extra v = not (is_empty v) && all word_char v

abbrev name_error : Result NameError (Unit {0}) → Result IdentityError (Unit {0})
name_error (ok _) = ok tt
name_error (err e) = err (bad_sandbox e)

pub validate : Identity → Result IdentityError (Unit {0})
unfolding valid_id valid_extra
validate (instance_of s none) = name_error (validate_sandbox_name s)
validate (instance_of s (some i)) = do
  name_error (validate_sandbox_name s)
  ensure (valid_extra i) bad_instance
validate (task_of s t) = do name_error (validate_sandbox_name s); ensure (valid_extra t) bad_task
validate (unnamed id) = ensure (valid_id id) bad_id

-- The identity that a key spells, before it is validated. `a` stands before the first dot and `rest`
-- behind it.
spelled_task : Text → Text → Option Text → Result IdentityError Identity
spelled_task a rest (some t) = ok (task_of a t)
spelled_task a rest none = if eq a unnamed_name then ok (unnamed rest) else err bad_key

spelled : Text → Text → Option Text → Result IdentityError Identity
unfolding spelled_task
spelled a rest (some i) = ok (instance_of a (some i))
spelled a rest none = spelled_task a rest (strip_prefix (codes "task-") rest)

parse_key : Text → Option (Text × Text) → Result IdentityError Identity
unfolding spelled
parse_key k none = ok (instance_of k none)
parse_key k (some (a, rest)) = spelled a rest (strip_prefix (codes "instance-") rest)

pub from_key : Text → Result IdentityError Identity
unfolding parse_key
from_key k = do id ← parse_key k (split_once b'.' k); validate id; ok id
