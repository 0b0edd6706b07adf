-- ===== src/Portal/Policy/PlainNames.antt =====
-- `plain_file_names` of src/portal.rs: the names that a caller may give for files to be saved.
use psbox.Common.{
  ◌≡◌, ◌≢◌, refl, ap, ◌⊎◌, inl, inr, true, false, Bool, Option, none, some, [], ◌∷◌, ◌++◌, not,
  Bool-cases, &&-eq-true, Option-cases, ◌==◌, ==_iff,
}
use psbox.Common.Text.{Text, codes, eq, eq_sound, eq_ne, contains, or_default}
use psbox.Dbus.Value.{Value, Values, dict_get}
use psbox.Dbus.Message.{Message}
use psbox.Portal.Names.{portal_name, portal_path, file_chooser_iface, introspection}
use psbox.Portal.Arguments.{
  update_arg, arg, forget_folder, files_plain, bytes_of, strip_nul, plain_name, plain_bytes, plain,
  all_plain, plain_file_names,
}
use psbox.Portal.Policy.{Policy, FileRequest, Verdict, check}
use psbox.Portal.Policy.Options.{option_of, forwarded_arguments}
use psbox.Portal.Policy.Dropped.{file_chooser-some}

-- A byte string, with or without a NUL behind it, that names a file of a folder.
pub record IsPlain (v : Value) : Type 0 where
  pub elem : Text
  pub items : Values
  pub bytes : Text
  pub name : Text
  pub array_is : v ≡ Value.array elem items
  pub bytes_are : bytes_of items ≡ some bytes
  pub terminated : (bytes ≡ name) ⊎ (bytes ≡ name ++ 0 ∷ [])
  pub not_empty : name ≢ []
  pub not_here : name ≢ codes "."
  pub not_parent : name ≢ codes ".."
  pub no_slash : contains b'/' name ≡ false
  pub no_nul : contains 0 name ≡ false

abbrev pub AllPlain : Values → Type 0
AllPlain Values.nothing = Unit
AllPlain (Values.item v vs) = IsPlain v × AllPlain vs

-- No files are named, or all of them plainly.
pub data PlainFiles (files : Option Value) : Type 0 where
  absent : files ≡ none → PlainFiles files
  listed :
      (names : Values)
      → files ≡ some (Value.array (codes "ay") names)
      → AllPlain names
      → PlainFiles files

strip_nul-cases : (bs : Text) → (bs ≡ strip_nul bs) ⊎ (bs ≡ strip_nul bs ++ 0 ∷ [])
unfolding strip_nul
strip_nul-cases [] = inl refl
strip_nul-cases (b ∷ []) = elim (Bool-cases (b == 0)) [
  | inl nul ↦ inr (rw nul (ap (λ c. c ∷ []) ((==_iff b 0).0 nul)))
  | inr other ↦ inl (rw other refl)
]
strip_nul-cases (b ∷ c ∷ bs) = elim (strip_nul-cases (c ∷ bs)) [
  | inl e ↦ inl (ap (◌∷◌ b) e)
  | inr e ↦ inr (ap (◌∷◌ b) e)
]

not-eq-true : (b : Bool) → not b ≡ true → b ≡ false
not-eq-true true h = cc h
not-eq-true false h = refl

plain_bytes-some :
    (o : Option Text)
    → plain_bytes o ≡ true
    → (bytes : Text) × (o ≡ some bytes) × (plain_name (strip_nul bytes) ≡ true)
plain_bytes-some none h = cc h
plain_bytes-some (some bytes) h = (bytes, refl, h)

plain-IsPlain : (v : Value) → plain v ≡ true → IsPlain v
unfolding plain_name
plain-IsPlain (Value.array elem items) h =
    let (bytes, e, named) = plain_bytes-some (bytes_of items) h in
    let name = strip_nul bytes in
    let (named, nul) = &&-eq-true _ _ named in
    let (named, slash) = &&-eq-true _ _ named in
    let (named, parent) = &&-eq-true _ _ named in
    let (empty, here) = &&-eq-true _ _ named in
    record {
      elem = elem;
      items = items;
      bytes = bytes;
      name = name;
      array_is = refl;
      bytes_are = e;
      terminated = strip_nul-cases bytes;
      not_empty = eq_ne name [] (not-eq-true _ empty);
      not_here = eq_ne name (codes ".") (not-eq-true _ here);
      not_parent = eq_ne name (codes "..") (not-eq-true _ parent);
      no_slash = not-eq-true _ slash;
      no_nul = not-eq-true _ nul;
    }
plain-IsPlain _ h = cc h

all_plain-AllPlain : (vs : Values) → all_plain vs ≡ true → AllPlain vs
unfolding all_plain
all_plain-AllPlain Values.nothing h = tt
all_plain-AllPlain (Values.item v vs) h =
    let (here, there) = &&-eq-true (plain v) _ h in
    (plain-IsPlain v here, all_plain-AllPlain vs there)

plain_file_names-PlainFiles : (v : Value) → plain_file_names v ≡ true → PlainFiles (some v)
unfolding plain_file_names
plain_file_names-PlainFiles (Value.array elem names) h =
    let (sig, all) = &&-eq-true _ _ h in
    PlainFiles.listed names (ap (λ s. some (Value.array s names)) (eq_sound elem (codes "ay") sig))
      (all_plain-AllPlain names all)
plain_file_names-PlainFiles _ h = cc h

files_plain-PlainFiles :
    (opts : Option Value) → files_plain opts ≡ true → PlainFiles (option_of opts (codes "files"))
files_plain-PlainFiles none h = PlainFiles.absent refl
files_plain-PlainFiles (some opts) h = elim (Option-cases (dict_get opts (codes "files"))) [
  | inl e ↦ PlainFiles.absent e
  | inr (files, e) ↦ rw e (plain_file_names-PlainFiles files (rw e at h))
]

module _ (policy : Policy) (identified : Bool) (m : Message) {a : Option Values}
    {f : Option FileRequest} where
  -- A file chooser call that is forwarded on the portal's object has the arguments replaced, and the
  -- option `files` of those is absent or a list of byte strings, each the name of a file that is not
  -- empty, not `.` or `..`, and without `/` and NUL but for one NUL at its end.
  pub check-PlainFiles :
      or_default m.destination ≡ portal_name
      → or_default m.path ≡ portal_path
      → or_default m.interface ≡ file_chooser_iface
      → (or_default m.member ≡ codes "OpenFile")
        ⊎ ((or_default m.member ≡ codes "SaveFile") ⊎ (or_default m.member ≡ codes "SaveFiles"))
      → check policy identified m ≡ Verdict.forward a f
      → (ws : Values) × (a ≡ some ws) × PlainFiles (option_of (arg 2 ws) (codes "files"))
  unfolding eq introspection
  check-PlainFiles d p iface member h =
      let (vs, _, h) =
        forwarded_arguments m policy identified d p (rw iface refl) (rw iface refl) h in
      let (e, tested) = file_chooser-some policy m _ vs member (rw iface at h) in
      (update_arg 2 forget_folder vs, e, files_plain-PlainFiles _ tested)
