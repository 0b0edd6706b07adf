-- ===== src/Plan/Identity/Tests.antt =====
-- Keys of src/plan.rs, and the theorems about them at concrete identities.
use psbox.Common.{◌≡◌, refl, some, ok, err}
use psbox.Common.Text.{codes, eq, all, strip_prefix, split_once}
use psbox.Spec.Names.{validate_sandbox_name}
use psbox.Plan.Identity.{
  sandbox, Identity, instance_of, task_of, unnamed, key, validate, from_key, bad_key,
}
use psbox.Plan.Identity.Keys.{from_key-key, key-from_key}

abbrev work : Identity
work = instance_of (codes "firefox") (some (codes "work"))

abbrev build : Identity
build = task_of (codes "dev") (codes "build")

work_valid : validate work ≡ ok tt
unfolding validate validate_sandbox_name all eq
work_valid = refl

build_valid : validate build ≡ ok tt
unfolding validate validate_sandbox_name all eq
build_valid = refl

unnamed_valid : validate (unnamed (codes "0123456789abcdef")) ≡ ok tt
unfolding validate validate_sandbox_name all eq
unnamed_valid = refl

from_key-key_example : from_key (key work) ≡ ok work
from_key-key_example = from_key-key work work_valid

read_build : from_key (codes "dev.task-build") ≡ ok build
unfolding from_key split_once strip_prefix validate validate_sandbox_name all eq
read_build = refl

key-from_key_example : (key build ≡ codes "dev.task-build") × (validate build ≡ ok tt)
key-from_key_example = key-from_key (codes "dev.task-build") read_build

bad : from_key (codes "dev.thing") ≡ err bad_key
unfolding from_key split_once strip_prefix validate validate_sandbox_name all eq
bad = refl

names : (sandbox work ≡ codes "firefox") × (sandbox (unnamed (codes "00")) ≡ codes "sandbox")
unfolding sandbox
names = (refl, refl)
