-- ===== src/Dbus/Value/Tests.antt =====
-- Dictionaries and paths of src/dbus/value.rs at concrete values.
use psbox.Common.{◌≡◌, ◌≢◌, refl, Option, none, some, true, ◌++◌}
use psbox.Common.Text.{Text, codes, eq}
use psbox.Dbus.Value.{Value, Values, Entries, dict_get, dict_set, dict_remove, map_paths}
use psbox.Dbus.Value.Dictionary.{dict_get-dict_set}

abbrev handle : Text
handle = codes "handle_token"

abbrev multiple : Text
multiple = codes "multiple"

abbrev options : Entries
options = Entries.pair (Value.str handle) (Value.variant (Value.str (codes "t1"))) Entries.no_pair

abbrev map_of : Entries → Value
map_of entries = Value.dict (codes "s") (codes "v") entries

keys_differ : multiple ≢ handle
keys_differ = λ e. cc

dict_get-dict_set_example :
    (dict_get (dict_set (map_of options) multiple (Value.bool true)) multiple
      ≡ some (Value.bool true))
    × (dict_get (dict_set (map_of options) multiple (Value.bool true)) handle
        ≡ dict_get (map_of options) handle)
    × (dict_get (dict_remove (map_of options) multiple) multiple ≡ none)
    × (dict_get (dict_remove (map_of options) multiple) handle ≡ dict_get (map_of options) handle)
dict_get-dict_set_example =
    dict_get-dict_set (codes "s") (codes "v") options multiple handle (Value.bool true) keys_differ

got : dict_get (map_of options) handle ≡ some (Value.str (codes "t1"))
unfolding dict_get eq
got = refl

abbrev nested : Value
nested =
    Value.variant (Value.array (codes "o") (Values.item (Value.path (codes "/a")) Values.nothing))

abbrev below : Text → Option Text
below p = some (p ++ codes "/x")

maps_nested_paths :
    map_paths below nested
    ≡ Value.variant
        (Value.array (codes "o") (Values.item (Value.path (codes "/a/x")) Values.nothing))
unfolding map_paths
maps_nested_paths = refl
