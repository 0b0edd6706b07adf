-- ===== src/Gateway/Files.antt =====
-- The files in a response of src/gateway.rs: `map_file_results`. What the host does to make a path
-- visible in the sandbox is a parameter.
pub mod Exposed
use psbox.Common.{ℕ, Bool, true, false, Option, none, some, List, [], ◌∷◌, ◌==◌, if◌then◌else◌}
use psbox.Common.Text.{Text, codes}
use psbox.Dbus.Value.{Value, Values, as_str, as_u32, dict_get, dict_set, dict_remove}
use psbox.Portal.Arguments.{arg, update_arg, str_of}
use psbox.Portal.Policy.{FileRequest, open_file, save_file, screenshot}
use psbox.Portal.Uri.{uri_to_path, path_to_uri}

abbrev pub creates : FileRequest → Bool
creates save_file = true
creates _ = false

abbrev pub with_uri : Value → Option Text → Value
with_uri results (some uri) = dict_set results (codes "uri") (Value.str uri)
with_uri results none = dict_remove results (codes "uri")

abbrev pub push_uri : Option Text → Values → Values
push_uri none rest = rest
push_uri (some uri) rest = Values.item (Value.str uri) rest

abbrev pub succeeded : Option Value → Bool
succeeded (some (Value.u32 code)) = code == 0
succeeded _ = false

-- `host.expose(path, create)`
module _ (expose : Text → Bool → Option Text) where
  abbrev pub exposed_path : FileRequest → Option Text → Option Text
  exposed_path kind none = none
  exposed_path kind (some path) = elim (expose path (creates kind)) [
    | none ↦ none
    | some p ↦ some (path_to_uri p)
  ]

  unfoldable pub expose_uri : FileRequest → Text → Option Text
  unfolding uri_to_path path_to_uri
  expose_uri kind uri = exposed_path kind (uri_to_path uri)

  abbrev pub expose_str : FileRequest → Option Text → Option Text
  expose_str kind none = none
  expose_str kind (some uri) = expose_uri kind uri

  unfoldable pub map_screenshot : Value → Value
  unfolding expose_uri dict_get dict_set dict_remove
  map_screenshot results =
      with_uri results (expose_str screenshot (str_of (dict_get results (codes "uri"))))

  -- The two `filter_map`s and the `map` over the list.
  unfoldable pub mapped : FileRequest → Values → Values
  unfolding expose_uri
  mapped kind Values.nothing = Values.nothing
  mapped kind (Values.item v vs) = push_uri (expose_str kind (as_str v)) (mapped kind vs)

  abbrev pub with_uris : FileRequest → Value → Option Value → Value
  with_uris kind results (some (Value.array _ uris)) =
      dict_set results (codes "uris") (Value.array (codes "s") (mapped kind uris))
  with_uris kind results _ = results

  unfoldable pub map_results : FileRequest → Value → Value
  unfolding map_screenshot mapped dict_get dict_set
  map_results screenshot results = map_screenshot results
  map_results kind results = with_uris kind results (dict_get results (codes "uris"))

  unfoldable pub map_file_results : Values → FileRequest → Values
  unfolding arg update_arg map_results
  map_file_results args kind =
      if succeeded (arg 0 args) then update_arg 1 (map_results kind) args else args
