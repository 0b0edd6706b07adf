-- ===== src/Portal/Policy/Dropped.antt =====
-- `check` of src/portal.rs: the options that it is to drop, which would name files of the host or
-- repeat an earlier choice.
use psbox.Common.{ℕ, ◌≡◌, refl, ◌⊎◌, inl, inr, true, Bool, Option, none, some, if-cases, ok, err}
use psbox.Common.Text.{Text, codes, eq, or_default}
use psbox.Dbus.Signature.{Outcome}
use psbox.Dbus.Value.{Value, Values, dict_get}
use psbox.Dbus.Value.Dictionary.{dict_get-dict_remove, dict_get-dict_remove_absent}
use psbox.Dbus.Message.{Message, args}
use psbox.Portal.Names.{
  portal_name, portal_path, notifications_name, notifications_path, screen_cast_iface,
  file_chooser_iface, introspection,
}
use psbox.Portal.Arguments.{
  update_arg, arg, forget_selection, forget_folder, files_plain, read_hints,
}
use psbox.Portal.Policy.{
  malformed_arguments, Policy, FileRequest, Verdict, open_file, save_file, check_arguments,
  choose_file, check_notification, strip_notify_paths, strip_hints, check,
}
use psbox.Portal.Policy.Listed.{unread-ne}
use psbox.Portal.Policy.Options.{option_map, arg-update_arg, option_of, forwarded_arguments}

-- A call on the portal's object or that of notifications with an option, of the argument `i`, that is dropped.
pub data Drops (dest path iface member : Text) (i : ℕ) (key : Text) : Type 0 where
  folder :
      dest ≡ portal_name
      → path ≡ portal_path
      → iface ≡ file_chooser_iface
      → (member ≡ codes "OpenFile") ⊎ ((member ≡ codes "SaveFile") ⊎ (member ≡ codes "SaveFiles"))
      → i ≡ 2
      → (key ≡ codes "current_folder") ⊎ (key ≡ codes "current_file")
      → Drops dest path iface member i key
  selection :
      dest ≡ portal_name
      → path ≡ portal_path
      → iface ≡ screen_cast_iface
      → member ≡ codes "SelectSources"
      → i ≡ 1
      → (key ≡ codes "persist_mode") ⊎ (key ≡ codes "restore_token")
      → Drops dest path iface member i key
  hints :
      dest ≡ notifications_name
      → path ≡ notifications_path
      → iface ≡ notifications_name
      → member ≡ codes "Notify"
      → i ≡ 6
      → (key ≡ codes "image-path") ⊎ ((key ≡ codes "image_path") ⊎ (key ≡ codes "sound-file"))
      → Drops dest path iface member i key

option_of-map :
    (o : Option Value) (f : Value → Value) (key : Text)
    → ((v : Value) → dict_get (f v) key ≡ none)
    → option_of (option_map f o) key ≡ none
option_of-map none f key h = refl
option_of-map (some v) f key h = h v

option_of-update_arg :
    (i : ℕ) (f : Value → Value) (vs : Values) (key : Text)
    → ((v : Value) → dict_get (f v) key ≡ none)
    → option_of (arg i (update_arg i f vs)) key ≡ none
option_of-update_arg i f vs key h = rw (arg-update_arg i f vs) (option_of-map (arg i vs) f key h)

forget_folder-drops :
    (key : Text)
    → (key ≡ codes "current_folder") ⊎ (key ≡ codes "current_file")
    → (v : Value) → dict_get (forget_folder v) key ≡ none
forget_folder-drops key (inl k) v = rw k (
    dict_get-dict_remove_absent _ _ (codes "current_file")
      (dict_get-dict_remove v (codes "current_folder")))
forget_folder-drops key (inr k) v = rw k (dict_get-dict_remove _ (codes "current_file"))

forget_selection-drops :
    (key : Text)
    → (key ≡ codes "persist_mode") ⊎ (key ≡ codes "restore_token")
    → (v : Value) → dict_get (forget_selection v) key ≡ none
forget_selection-drops key (inl k) v = rw k (
    dict_get-dict_remove_absent _ _ (codes "restore_token")
      (dict_get-dict_remove v (codes "persist_mode")))
forget_selection-drops key (inr k) v = rw k (dict_get-dict_remove _ (codes "restore_token"))

read_hints-drops :
    (key : Text)
    → (key ≡ codes "image-path") ⊎ ((key ≡ codes "image_path") ⊎ (key ≡ codes "sound-file"))
    → (v : Value) → dict_get (read_hints v) key ≡ none
read_hints-drops key (inl k) v = rw k (
    dict_get-dict_remove_absent _ _ (codes "sound-file") (
      dict_get-dict_remove_absent _ _ (codes "image_path")
        (dict_get-dict_remove v (codes "image-path"))))
read_hints-drops key (inr (inl k)) v = rw k (
    dict_get-dict_remove_absent _ _ (codes "sound-file")
      (dict_get-dict_remove _ (codes "image_path")))
read_hints-drops key (inr (inr k)) v = rw k (dict_get-dict_remove _ (codes "sound-file"))

module _ {a : Option Values} {f : Option FileRequest} where
  choose_file-some :
      (vs : Values) (file : FileRequest)
      → choose_file vs file ≡ Verdict.forward a f
      → (a ≡ some (update_arg 2 forget_folder vs))
        × (files_plain (arg 2 (update_arg 2 forget_folder vs)) ≡ true)
  unfolding choose_file
  choose_file-some vs file h =
      elim (if-cases (files_plain (arg 2 (update_arg 2 forget_folder vs))) h) [
        | inl (t, h) ↦ (cc h, t)
        | inr (_, h) ↦ cc h
      ]

  pub file_chooser-some :
      (policy : Policy) (m : Message) (member : Text) (vs : Values)
      → (member ≡ codes "OpenFile") ⊎ ((member ≡ codes "SaveFile") ⊎ (member ≡ codes "SaveFiles"))
      → check_arguments policy m file_chooser_iface member vs ≡ Verdict.forward a f
      → (a ≡ some (update_arg 2 forget_folder vs))
        × (files_plain (arg 2 (update_arg 2 forget_folder vs)) ≡ true)
  unfolding check_arguments eq
  file_chooser-some policy m member vs (inl e) h = choose_file-some vs open_file (rw e at h)
  file_chooser-some policy m member vs (inr (inl e)) h = choose_file-some vs save_file (rw e at h)
  file_chooser-some policy m member vs (inr (inr e)) h = choose_file-some vs save_file (rw e at h)

  strip_hints-some :
      (read : Outcome Values)
      → strip_hints read ≡ Verdict.forward a f
      → (vs : Values) × (a ≡ some (update_arg 6 read_hints vs))
  strip_hints-some (err e) h = absurd (unread-ne a f e malformed_arguments h)
  strip_hints-some (ok vs) h = (vs, cc h)

notified :
    (policy : Policy) (identified : Bool) (m : Message) {a : Option Values} {f : Option FileRequest}
    → or_default m.destination ≡ notifications_name
    → or_default m.path ≡ notifications_path
    → or_default m.interface ≡ notifications_name
    → or_default m.member ≡ codes "Notify"
    → check policy identified m ≡ Verdict.forward a f
    → strip_hints (args m) ≡ Verdict.forward a f
unfolding check check_notification strip_notify_paths
notified policy identified m d p iface member h = rw (d, p, iface, member) at h

module _ (policy : Policy) (identified : Bool) (m : Message) {a : Option Values}
    {f : Option FileRequest} where
  -- A forwarded call to open or save files, to select the sources of a screen cast, or to show a
  -- notification has its arguments replaced by others, in which these options are absent: the folder
  -- and file to start in; the persist mode and restore token; the image path, in both spellings, and
  -- the sound file.
  pub check-Drops :
      {i : ℕ} {key : Text}
      → Drops
          (or_default m.destination)
          (or_default m.path)
          (or_default m.interface)
          (or_default m.member)
          i
          key
      → check policy identified m ≡ Verdict.forward a f
      → (ws : Values) × (a ≡ some ws) × (option_of (arg i ws) key ≡ none)
  unfolding eq introspection check_arguments
  check-Drops {key = key} (Drops.folder d p iface member i k) h =
      let (vs, _, h) =
        forwarded_arguments m policy identified d p (rw iface refl) (rw iface refl) h in
      (
        update_arg 2 forget_folder vs,
        (file_chooser-some policy m _ vs member (rw iface at h)).0,
        rw i (option_of-update_arg 2 forget_folder vs key (forget_folder-drops key k)),
      )
  check-Drops {key = key} (Drops.selection d p iface member i k) h =
      let (vs, _, h) =
        forwarded_arguments m policy identified d p (rw iface refl) (rw iface refl) h in
      (
        update_arg 1 forget_selection vs,
        cc (rw (iface, member) at h),
        rw i (option_of-update_arg 1 forget_selection vs key (forget_selection-drops key k)),
      )
  check-Drops {key = key} (Drops.hints d p iface member i k) h =
      let (vs, e) = strip_hints-some (args m) (notified policy identified m d p iface member h) in
      (
        update_arg 6 read_hints vs,
        e,
        rw i (option_of-update_arg 6 read_hints vs key (read_hints-drops key k)),
      )
