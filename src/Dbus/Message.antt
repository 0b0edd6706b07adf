-- ===== src/Dbus/Message.antt =====
-- src/dbus/message.rs: messages, their headers and their frames.
pub mod Header
pub mod Frame
pub mod Encoded
pub mod Parsed
mod Tests
use psbox.Common.{
  ℕ, zero, suc, ◌+◌, ◌-◌, ◌*◌, ◌/◌, ◌%◌, ◌^◌, Bool, true, false, ◌&&◌, not, Option, none, some,
  List, [], ◌∷◌, ◌++◌, ◌==◌, ltb, if◌then◌else◌, length, get_elem?, take, drop, Result, ok, err,
  ◌>>=◌, ◌>>◌, ensure, ok_or,
}
use psbox.Common.Text.{Text, codes, eq}
use psbox.Common.Words.{of_le_bytes, of_be_bytes}
use psbox.Dbus.Signature.{
  DecodeError, Outcome, unknown_byte_order, message_too_large, short_header, length_mismatch,
  unsupported_version, fields_mismatch, panics,
}
use psbox.Dbus.Value.{Value, Values}
use psbox.Dbus.Reader.{read, decode_body}
use psbox.Dbus.Writer.{align, write_u32, write, encode_body}

abbrev pub method_call_kind : ℕ
method_call_kind = 1

abbrev pub method_return_kind : ℕ
method_return_kind = 2

abbrev pub error_kind : ℕ
error_kind = 3

abbrev pub signal_kind : ℕ
signal_kind = 4

abbrev pub flag_no_reply_expected : ℕ
flag_no_reply_expected = 1

abbrev pub max_message : ℕ
max_message = 128 * 1024 * 1024

pub record Message : Type 0 where
  pub kind : ℕ
  pub flags : ℕ
  pub serial : ℕ
  pub path : Option Text
  pub interface : Option Text
  pub member : Option Text
  pub error_name : Option Text
  pub reply_serial : Option ℕ
  pub destination : Option Text
  pub sender : Option Text
  pub signature : Text
  pub unix_fds : ℕ
  pub body : List ℕ

-- `Message::default()`
abbrev pub default : Message
default = record {
  kind = 0;
  flags = 0;
  serial = 0;
  path = none;
  interface = none;
  member = none;
  error_name = none;
  reply_serial = none;
  destination = none;
  sender = none;
  signature = [];
  unix_fds = 0;
  body = [];
}

abbrev pub pad8 : ℕ → ℕ
pad8 n = (n + 7) / 8 * 8

unfoldable pub big_endian : ℕ → Outcome Bool
big_endian first =
    if first == b'l' then ok false else if first == b'B' then ok true else err unknown_byte_order

-- The slice is inside the prefix wherever it is taken.
unfoldable pub prefix_u32 : List ℕ → ℕ → Bool → ℕ
prefix_u32 prefix at big =
    let b = take 4 (drop at prefix) in if big then of_be_bytes b else of_le_bytes b

unfoldable pub frame_len : List ℕ → Outcome ℕ
unfolding big_endian prefix_u32
frame_len prefix = do
  first ← ok_or (get_elem? prefix 0) panics
  big ← big_endian first
  let total = pad8 (16 + prefix_u32 prefix 12 big) + prefix_u32 prefix 4 big
  if ltb max_message total then err message_too_large else ok total

unfoldable pub set_body : Message → Values → Outcome Message
unfolding encode_body
set_body m args = do (sig, body) ← encode_body args; ok (record m { signature = sig; body = body })

unfoldable pub method_call : Text → Text → Text → Text → Values → Outcome Message
unfolding set_body
method_call dest path iface member args =
    set_body
      (record default {
        kind = method_call_kind;
        destination = some dest;
        path = some path;
        interface = some iface;
        member = some member;
      })
      args

unfoldable pub method_return : Message → Message
method_return to = record default {
  kind = method_return_kind;
  flags = flag_no_reply_expected;
  reply_serial = some to.serial;
  destination = to.sender;
}

unfoldable pub error : Message → Text → Text → Outcome Message
unfolding set_body
error to name text =
    set_body
      (record default {
        kind = error_kind;
        flags = flag_no_reply_expected;
        reply_serial = some to.serial;
        destination = to.sender;
        error_name = some name;
      })
      (Values.item (Value.str text) Values.nothing)

-- `self.flags & FLAG_NO_REPLY_EXPECTED` is the lowest bit.
unfoldable pub expects_reply : Message → Bool
expects_reply m = m.kind == method_call_kind && m.flags % 2 == 0

unfoldable pub args : Message → Outcome Values
unfolding decode_body
args m = decode_body m.signature m.body false

abbrev is_text : Option Text → Text → Bool
is_text none t = false
is_text (some s) t = eq s t

unfoldable pub is : Message → Text → Text → Bool
is m iface member = is_text m.interface iface && is_text m.member member

-- The code and value of a header field: the last two of its struct.
abbrev code_and_value : Value → Value → Option (ℕ × Value)
code_and_value (Value.byte code) (Value.variant v) = some (code, v)
code_and_value _ _ = none

unfoldable pub field_of : Values → Option (ℕ × Value)
field_of Values.nothing = none
field_of (Values.item a Values.nothing) = none
field_of (Values.item a (Values.item b Values.nothing)) = code_and_value a b
field_of (Values.item a (Values.item b (Values.item c rest))) =
    field_of (Values.item b (Values.item c rest))

-- The `match (code, *v)`, by the value first.
unfoldable pub set_field : Message → ℕ → Value → Message
set_field m code (Value.path s) = if code == 1 then record m { path = some s } else m
set_field m code (Value.str s) =
    if code == 2
    then record m { interface = some s }
    else if code == 3
    then record m { member = some s }
    else if code == 4
    then record m { error_name = some s }
    else if code == 6
    then record m { destination = some s }
    else if code == 7
    then record m { sender = some s }
    else m
set_field m code (Value.u32 n) =
    if code == 5
    then record m { reply_serial = some n }
    else if code == 9
    then record m { unix_fds = n }
    else m
set_field m code (Value.sig s) = if code == 8 then record m { signature = s } else m
set_field m code _ = m

abbrev set_read : Message → Option (ℕ × Value) → Message
set_read m none = m
set_read m (some (code, v)) = set_field m code v

abbrev set_struct : Message → Value → Message
set_struct m (Value.struct kv) = set_read m (field_of kv)
set_struct m _ = m

unfoldable pub set_fields : Message → Values → Message
unfolding field_of set_field
set_fields m Values.nothing = m
set_fields m (Values.item f fs) = set_fields (set_struct m f) fs

abbrev elements : Value → Outcome Values
elements (Value.array _ items) = ok items
elements _ = err panics

-- The part of `parse_header` behind the sixteen bytes: the fields and the body.
unfoldable pub read_fields_and_body : List ℕ → Bool → ℕ → ℕ → Outcome (Message × Bool)
unfolding set_fields prefix_u32
read_fields_and_body buf big kind flags = do
  (v, pos) ← read buf big (codes "a(yv)") 12
  fields ← elements v
  let m =
      set_fields (record default { kind = kind; flags = flags; serial = prefix_u32 buf 8 big })
        fields
  let fields_end = 16 + prefix_u32 buf 12 big
  ensure (pos == fields_end) fields_mismatch
  ok (record m { body = drop (pad8 fields_end) buf }, big)

-- `Message::parse_header`
unfoldable pub parse_header : List ℕ → Outcome (Message × Bool)
unfolding frame_len big_endian read_fields_and_body
parse_header buf = do
  ensure (not (ltb (length buf) 16)) short_header
  total ← frame_len (take 16 buf)
  ensure (length buf == total) length_mismatch
  version ← ok_or (get_elem? buf 3) panics
  ensure (version == 1) unsupported_version
  first ← ok_or (get_elem? buf 0) panics
  big ← big_endian first
  kind ← ok_or (get_elem? buf 1) panics
  flags ← ok_or (get_elem? buf 2) panics
  read_fields_and_body buf big kind flags

unfoldable pub parse : List ℕ → Outcome Message
unfolding parse_header
parse buf = do
  (m, big) ← parse_header buf
  args ← decode_body m.signature m.body big
  if big then (do (_, body) ← encode_body args; ok (record m { body = body })) else ok m

abbrev field_with : ℕ → Value → Values → Values
field_with code v rest =
    Values.item
      (Value.struct (Values.item (Value.byte code) (Values.item (Value.variant v) Values.nothing)))
      rest

abbrev push_text : ℕ → (Text → Value) → Option Text → Values → Values
push_text code make none rest = rest
push_text code make (some s) rest = field_with code (make s) rest

abbrev push_word : ℕ → Option ℕ → Values → Values
push_word code none rest = rest
push_word code (some n) rest = field_with code (Value.u32 n) rest

abbrev push_signature : Text → Values → Values
push_signature [] rest = rest
push_signature (c ∷ sig) rest = field_with 8 (Value.sig (c ∷ sig)) rest

abbrev push_fds : ℕ → Values → Values
push_fds zero rest = rest
push_fds (suc n) rest = field_with 9 (Value.u32 (suc n)) rest

unfoldable pub header_fields : Message → Values
header_fields m = push_text 1 Value.path m.path (
    push_text 2 Value.str m.interface (
      push_text 3 Value.str m.member (
        push_text 4 Value.str m.error_name (
          push_word 5 m.reply_serial (
            push_text 6 Value.str m.destination
              (push_signature m.signature (push_fds m.unix_fds Values.nothing)))))))

-- `Message::encode`
unfoldable pub encode : Message → ℕ → Outcome (List ℕ)
unfolding header_fields write
encode m serial = do
  let start = b'l' ∷ m.kind ∷ m.flags ∷ 1 ∷ []
  let sizes = write_u32 serial (write_u32 (length m.body % 2 ^ 32) start)
  out ← write (Value.array (codes "(yv)") (header_fields m)) sizes
  ok (align 8 out ++ m.body)
