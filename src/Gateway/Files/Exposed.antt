-- ===== src/Gateway/Files/Exposed.antt =====
-- `map_file_results` of src/gateway.rs: the files that a response names.
use psbox.Common.{
  ◌≢◌, ◌≡◌, refl, sym, ap, inl, inr, Bool, true, false, Option, none, some, ◌∷◌, Option-cases,
  some-injective,
}
use psbox.Common.Text.{Text, codes}
use psbox.Dbus.Value.{Value, Values, Entries, as_str, dict_get}
use psbox.Dbus.Value.Dictionary.{dict_get-dict_set_self, dict_get-dict_remove}
use psbox.Portal.Arguments.{arg, str_of}
use psbox.Portal.Policy.{FileRequest, open_file, save_file, screenshot}
use psbox.Portal.Policy.Options.{arg-update_arg}
use psbox.Portal.Uri.{uri_to_path, path_to_uri}
use psbox.Portal.Uri.Decoded.{uri_to_path-absolute}
use psbox.Gateway.Files.{
  creates, expose_uri, expose_str, with_uri, map_screenshot, push_uri, mapped, with_uris,
  map_results, succeeded, map_file_results,
}

module _ (expose : Text → Bool → Option Text) where
  -- The URI of what the host made visible of the absolute path that the given one names.
  pub record IsExposed (kind : FileRequest) (given : Option Text) (uri : Text) : Type 0 where
    pub source : Text
    pub source_is : given ≡ some source
    pub path : Text
    pub visible : Text
    pub path_is : uri_to_path source ≡ some (b'/' ∷ path)
    pub shown : expose (b'/' ∷ path) (creates kind) ≡ some visible
    pub uri_is : uri ≡ path_to_uri visible

  -- The URIs of what was made visible of the given ones, in order; some may be left out.
  pub data AllExposed (kind : FileRequest) : Values → Values → Type 0 where
    nothing : AllExposed kind Values.nothing Values.nothing
    left_out :
        {v : Value} {vs uris : Values}
        → AllExposed kind vs uris
        → AllExposed kind (Values.item v vs) uris
    passed :
        {v : Value} {vs uris : Values} (uri : Text)
        → IsExposed kind (as_str v) uri
        → AllExposed kind vs uris
        → AllExposed kind (Values.item v vs) (Values.item (Value.str uri) uris)

  abbrev is_array : Option Value → Bool
  is_array (some (Value.array _ _)) = true
  is_array _ = false

  -- What stands in the results `after` in place of what stood in those `before`.
  pub data Exposes (kind : FileRequest) (before after : Value) : Type 0 where
    withheld : kind ≡ screenshot → dict_get after (codes "uri") ≡ none → Exposes kind before after
    shot :
        (uri : Text)
        → kind ≡ screenshot
        → dict_get after (codes "uri") ≡ some (Value.str uri)
        → IsExposed kind (str_of (dict_get before (codes "uri"))) uri
        → Exposes kind before after
    files :
        (elem : Text) (given uris : Values)
        → kind ≢ screenshot
        → dict_get before (codes "uris") ≡ some (Value.array elem given)
        → dict_get after (codes "uris") ≡ some (Value.array (codes "s") uris)
        → AllExposed kind given uris
        → Exposes kind before after
    no_list :
        kind ≢ screenshot
        → is_array (dict_get before (codes "uris")) ≡ false
        → after ≡ before
        → Exposes kind before after

  visible-IsExposed :
      (kind : FileRequest) (source path uri : Text) (visible : Option Text)
      → uri_to_path source ≡ some (b'/' ∷ path)
      → expose (b'/' ∷ path) (creates kind) ≡ visible
      → elim visible [ none ↦ none | some p ↦ some (path_to_uri p) ] ≡ some uri
      → IsExposed kind (some source) uri
  visible-IsExposed kind source path uri none s e h = cc h
  visible-IsExposed kind source path uri (some p) s e h = record {
    source = source;
    source_is = refl;
    path_is = s;
    path = path;
    visible = p;
    shown = e;
    uri_is = sym (some-injective h);
  }

  expose_uri-IsExposed :
      (kind : FileRequest) (given uri : Text)
      → expose_uri expose kind given ≡ some uri
      → IsExposed kind (some given) uri
  unfolding expose_uri
  expose_uri-IsExposed kind given uri h = elim (Option-cases (uri_to_path given)) [
    | inl no_path ↦ cc (rw no_path at h)
    | inr (path, e) ↦
        let (rest, absolute) = uri_to_path-absolute given e in
        visible-IsExposed kind given rest uri (expose (b'/' ∷ rest) (creates kind))
          (rw absolute at e) refl (rw (e, absolute) at h)
  ]

  expose_str-IsExposed :
      (kind : FileRequest) (given : Option Text) (uri : Text)
      → expose_str expose kind given ≡ some uri
      → IsExposed kind given uri
  expose_str-IsExposed kind none uri h = cc h
  expose_str-IsExposed kind (some given) uri h = expose_uri-IsExposed kind given uri h

  push_uri-AllExposed :
      (kind : FileRequest) (v : Value) (o : Option Text) (vs rest : Values)
      → ((uri : Text) → o ≡ some uri → IsExposed kind (as_str v) uri)
      → AllExposed kind vs rest
      → AllExposed kind (Values.item v vs) (push_uri o rest)
  push_uri-AllExposed kind v none vs rest h all = AllExposed.left_out all
  push_uri-AllExposed kind v (some uri) vs rest h all = AllExposed.passed uri (h uri refl) all

  mapped-AllExposed :
      (kind : FileRequest) (vs : Values) → AllExposed kind vs (mapped expose kind vs)
  unfolding mapped
  mapped-AllExposed kind Values.nothing = AllExposed.nothing
  mapped-AllExposed kind (Values.item v vs) =
      push_uri-AllExposed kind v (expose_str expose kind (as_str v)) vs (mapped expose kind vs)
        (expose_str-IsExposed kind (as_str v)) (mapped-AllExposed kind vs)

  with_uri-Exposes :
      (kt vt : Text) (entries : Entries) (o : Option Text)
      → ((uri : Text)
          → o ≡ some uri
          → IsExposed screenshot (str_of (dict_get (Value.dict kt vt entries) (codes "uri"))) uri)
      → Exposes screenshot (Value.dict kt vt entries) (with_uri (Value.dict kt vt entries) o)
  with_uri-Exposes kt vt entries none h =
      Exposes.withheld refl (dict_get-dict_remove (Value.dict kt vt entries) (codes "uri"))
  with_uri-Exposes kt vt entries (some uri) h =
      Exposes.shot uri refl (dict_get-dict_set_self kt vt entries (codes "uri") (Value.str uri))
        (h uri refl)

  with_uris-Exposes :
      (kind : FileRequest) (kt vt : Text) (entries : Entries) (o : Option Value)
      → kind ≢ screenshot
      → dict_get (Value.dict kt vt entries) (codes "uris") ≡ o
      → Exposes kind (Value.dict kt vt entries) (with_uris expose kind (Value.dict kt vt entries) o)
  with_uris-Exposes kind kt vt entries (some (Value.array elem uris)) n e =
      Exposes.files elem uris (mapped expose kind uris) n e
        (dict_get-dict_set_self kt vt entries (codes "uris") _) (mapped-AllExposed kind uris)
  with_uris-Exposes kind kt vt entries none n e = Exposes.no_list n (ap is_array e) refl
  with_uris-Exposes kind kt vt entries (some _) n e = Exposes.no_list n (ap is_array e) refl

  map_results-Exposes :
      (kind : FileRequest) (kt vt : Text) (entries : Entries)
      → Exposes kind (Value.dict kt vt entries) (map_results expose kind (Value.dict kt vt entries))
  unfolding map_results map_screenshot
  map_results-Exposes screenshot kt vt entries =
      with_uri-Exposes kt vt entries _ (
        expose_str-IsExposed screenshot
          (str_of (dict_get (Value.dict kt vt entries) (codes "uri"))))
  map_results-Exposes open_file kt vt entries =
      with_uris-Exposes open_file kt vt entries _ (λ e. cc e) refl
  map_results-Exposes save_file kt vt entries =
      with_uris-Exposes save_file kt vt entries _ (λ e. cc e) refl

  -- In a response that succeeded and has its results: of a screenshot, the option `uri` is absent or
  -- the URI of what the host exposed of the absolute path that it named; of another request, the option
  -- `uris` is a list of such URIs for some of those that it had, in order, unless it was no array, and
  -- then the results stay as they were.
  pub map_file_results-Exposes :
      (kind : FileRequest) (vs : Values) (kt vt : Text) (entries : Entries)
      → succeeded (arg 0 vs) ≡ true
      → arg 1 vs ≡ some (Value.dict kt vt entries)
      → (after : Value) × (arg 1 (map_file_results expose vs kind) ≡ some after)
        × Exposes kind (Value.dict kt vt entries) after
  unfolding map_file_results
  map_file_results-Exposes kind vs kt vt entries done given = (
    map_results expose kind (Value.dict kt vt entries),
    rw (done, arg-update_arg 1 (map_results expose kind) vs, given) refl,
    map_results-Exposes kind kt vt entries,
  )
