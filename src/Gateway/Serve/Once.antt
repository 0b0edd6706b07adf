-- ===== src/Gateway/Serve/Once.antt =====
-- The replies to a call of a client of src/gateway.rs.
use psbox.Common.{
  ℕ, ◌≡◌, refl, ap, ◌∙◌, Bool, true, false, Option, none, some, List, [], ◌∷◌, ◌==◌, ==_iff,
  Bool-cases, inl, inr, ok,
}
use psbox.Common.Text.{Text}
use psbox.Dbus.Message.{Message}
use psbox.Portal.Policy.{FileRequest}
use psbox.Gateway.State.{Pending, Client, map_get, map_remove}
use psbox.Gateway.Relay.{handle_of, note_file, note_open, noted, relay_to, relay_found, relay_reply}

map_get-map_remove :
    (m : List (ℕ × Pending)) (key : ℕ) → map_get (◌==◌) (map_remove (◌==◌) m key) key ≡ none
map_get-map_remove [] key = refl
map_get-map_remove ((k, p) ∷ rest) key = elim (Bool-cases (k == key)) [
  | inl same ↦ rw same (map_get-map_remove rest key)
  | inr other ↦ rw (other, other) (map_get-map_remove rest key)
]

map_get-map_remove_ne :
    (m : List (ℕ × Pending)) (key other : ℕ)
    → (key == other) ≡ false
    → map_get (◌==◌) (map_remove (◌==◌) m key) other ≡ map_get (◌==◌) m other
map_get-map_remove_ne [] key other ne = refl
map_get-map_remove_ne ((k, p) ∷ rest) key other ne = elim (Bool-cases (k == key)) [
  | inl same ↦ rw (same, (==_iff k key).0 same, ne) (map_get-map_remove_ne rest key other ne)
  | inr differs ↦ elim (Bool-cases (k == other)) [
    | inl it ↦ rw (differs, it) refl
    | inr not_it ↦ rw (differs, not_it) (map_get-map_remove_ne rest key other ne)
  ]
]

note_file-pending :
    (kind : Option FileRequest) (handle : Option Text) (c : Client)
    → (note_file kind handle c).pending ≡ c.pending
note_file-pending (some kind) (some handle) c = refl
note_file-pending (some kind) none c = refl
note_file-pending none handle c = refl

note_open-pending :
    (opens : Bool) (handle : Option Text) (c : Client)
    → (note_open opens handle c).pending ≡ c.pending
note_open-pending true (some handle) c = refl
note_open-pending true none c = refl
note_open-pending false handle c = refl

noted-pending :
    (c : Client) (serial : ℕ) (p : Pending) (handle : Option Text)
    → (noted c serial p handle).pending ≡ map_remove (◌==◌) c.pending serial
noted-pending c serial p handle =
    note_open-pending p.opens handle _ ∙ note_file-pending p.file handle _

relay_to-client :
    (c : Client) (msg : Message) (fds : List ℕ) (p : Pending) → (relay_to c msg fds p).0 ≡ c
relay_to-client c msg fds p = elim (Bool-cases c.gone) [
  | inl gone ↦ rw gone refl
  | inr here ↦ rw here refl
]

-- What is left to be answered after a reply with this serial.
record Answers (c d : Client) (serial : ℕ) : Type 0 where
  pub answered : map_get (◌==◌) d.pending serial ≡ none
  pub others_kept :
      (other : ℕ)
      → (serial == other) ≡ false
      → map_get (◌==◌) d.pending other ≡ map_get (◌==◌) c.pending other

relay_found-Answers :
    (c : Client) (msg : Message) (fds : List ℕ) (serial : ℕ) (found : Option Pending)
    → map_get (◌==◌) c.pending serial ≡ found
    → Answers c (relay_found c msg fds serial found).0 serial
relay_found-Answers c msg fds serial none e = record {
  answered = e;
  others_kept = λ other ne. refl;
}
relay_found-Answers c msg fds serial (some p) e =
    let same = relay_to-client (noted c serial p (handle_of msg)) msg fds p in
    let left = ap (λ d. d.pending) same ∙ noted-pending c serial p (handle_of msg) in
    record {
      answered = rw left (map_get-map_remove c.pending serial);
      others_kept = λ other ne. rw left (map_get-map_remove_ne c.pending serial other ne);
    }

relay_reply-Answers :
    (c : Client) (msg : Message) (fds : List ℕ) (serial : ℕ)
    → msg.reply_serial ≡ some serial
    → Answers c (relay_reply c msg fds).0 serial
unfolding relay_reply
relay_reply-Answers c msg fds serial s =
    rw s (relay_found-Answers c msg fds serial (map_get (◌==◌) c.pending serial) refl)

unanswered :
    (c : Client) (msg : Message) (fds : List ℕ) (serial : ℕ)
    → msg.reply_serial ≡ some serial
    → map_get (◌==◌) c.pending serial ≡ none
    → relay_reply c msg fds ≡ (c, ok [])
unfolding relay_reply
unanswered c msg fds serial s e = rw (s, e) refl

-- For two replies with the same serial: once the first was handled, whether it could be passed on or
-- not, the second changes nothing and sends nothing, and every call with another serial is still
-- waited for as it was.
pub relay_reply-once :
    (c : Client) (first second : Message) (fds more : List ℕ) (serial other : ℕ)
    → first.reply_serial ≡ some serial
    → second.reply_serial ≡ some serial
    → (serial == other) ≡ false
    → let d = (relay_reply c first fds).0 in
      (relay_reply d second more ≡ (d, ok []))
      × (map_get (◌==◌) d.pending other ≡ map_get (◌==◌) c.pending other)
relay_reply-once c first second fds more serial other s t ne =
    let a = relay_reply-Answers c first fds serial s in
    (unanswered (relay_reply c first fds).0 second more serial t a.answered, a.others_kept other ne)
