-- ===== src/Dbus/Message/Tests.antt =====
-- Messages of src/dbus/message.rs, and the theorem about them at a concrete one.
use psbox.Common.{
  ◌≤◌, ◌+◌, drop, ℕ, ◌≡◌, refl, true, false, some, List, [], ◌∷◌, ok, err, length, take, arith,
}
use psbox.Common.Text.{codes, eq}
use psbox.Common.Utf8.{is_utf8}
use psbox.Common.Words.{of_le_bytes, le_bytes}
use psbox.Dbus.Signature.{alignment_of, element_overruns}
use psbox.Dbus.Value.{Value, Values}
use psbox.Dbus.Reader.{read}
use psbox.Dbus.Message.{
  max_message, pad8, prefix_u32, Message, default, method_call, method_return, error, expects_reply,
  is, args, frame_len, parse_header, parse, encode,
}
use psbox.Dbus.Message.Header.{HeaderFits}
use psbox.Dbus.Message.Parsed.{parse_header-eq-ok}
use psbox.Dbus.Message.Encoded.{parse-encode_message}

abbrev call : Message
call = record default {
  kind = 1;
  path = some (codes "/p");
  interface = some (codes "i.f");
  member = some (codes "m");
  destination = some (codes "d.e");
  signature = codes "u";
  body = 4 ∷ 3 ∷ 2 ∷ 1 ∷ [];
}

calls :
    method_call
      (codes "d.e")
      (codes "/p")
      (codes "i.f")
      (codes "m")
      (Values.item (Value.u32 0x01020304) Values.nothing)
    ≡ ok call
unfolding method_call alignment_of le_bytes
calls = refl

answers :
    (expects_reply call ≡ true)
    × (expects_reply (method_return call) ≡ false)
    × (is call (codes "i.f") (codes "m") ≡ true)
    × ((method_return (record call { serial = 9; sender = some (codes ":1.5") })).destination
        ≡ some (codes ":1.5"))
    × (error call (codes "e") (codes "no")
        ≡ ok (record default {
          kind = 3;
          flags = 1;
          reply_serial = some 0;
          error_name = some (codes "e");
          signature = codes "s";
          body = 2 ∷ 0 ∷ 0 ∷ 0 ∷ 110 ∷ 111 ∷ 0 ∷ [];
        }))
unfolding expects_reply method_return is error eq alignment_of le_bytes
answers = (refl, refl, refl, refl, refl)

-- The last header field runs past the length that the prefix declares.
runs_into_the_body :
    parse (
      0x6c ∷ 2 ∷ 1 ∷ 1 ∷ 4 ∷ 0 ∷ 0 ∷ 0 ∷ 0 ∷ 0 ∷ 1 ∷ 1 ∷ 4 ∷ 0 ∷ 0 ∷ 0 ∷ 1 ∷ 1 ∷ 0x67 ∷ 0 ∷ 4 ∷ 0
      ∷ 0 ∷ 0 ∷ 0 ∷ 0 ∷ 0 ∷ 0 ∷ [])
    ≡ err element_overruns
unfolding parse alignment_of of_le_bytes is_utf8 read
runs_into_the_body = refl

call_fits : HeaderFits call
unfolding is_utf8
call_fits = (refl, refl, refl, tt, tt, refl, refl, omega arith, omega arith)

call_args : args call ≡ ok (Values.item (Value.u32 0x01020304) Values.nothing)
unfolding args alignment_of of_le_bytes
call_args = refl

abbrev frame : List ℕ
frame =
    108 ∷ 1 ∷ 0 ∷ 1 ∷ 4 ∷ 0 ∷ 0 ∷ 0 ∷ 7 ∷ 0 ∷ 0 ∷ 0 ∷ 71 ∷ 0 ∷ 0 ∷ 0 ∷ 1 ∷ 1 ∷ 111 ∷ 0 ∷ 2 ∷ 0 ∷ 0
    ∷ 0 ∷ 47 ∷ 112 ∷ 0 ∷ 0 ∷ 0 ∷ 0 ∷ 0 ∷ 0 ∷ 2 ∷ 1 ∷ 115 ∷ 0 ∷ 3 ∷ 0 ∷ 0 ∷ 0 ∷ 105 ∷ 46 ∷ 102 ∷ 0
    ∷ 0 ∷ 0 ∷ 0 ∷ 0 ∷ 3 ∷ 1 ∷ 115 ∷ 0 ∷ 1 ∷ 0 ∷ 0 ∷ 0 ∷ 109 ∷ 0 ∷ 0 ∷ 0 ∷ 0 ∷ 0 ∷ 0 ∷ 0 ∷ 6 ∷ 1
    ∷ 115 ∷ 0 ∷ 3 ∷ 0 ∷ 0 ∷ 0 ∷ 100 ∷ 46 ∷ 101 ∷ 0 ∷ 0 ∷ 0 ∷ 0 ∷ 0 ∷ 8 ∷ 1 ∷ 103 ∷ 0 ∷ 1 ∷ 117 ∷ 0
    ∷ 0 ∷ 4 ∷ 3 ∷ 2 ∷ 1 ∷ []

encodes : encode call 7 ≡ ok frame
unfolding encode alignment_of le_bytes
encodes = refl

parse-encode_message_example :
    (frame_len (take 16 frame) ≡ ok (length frame))
    × (parse_header frame ≡ ok (record call { serial = 7 }, false))
    × (parse frame ≡ ok (record call { serial = 7 }))
parse-encode_message_example =
    parse-encode_message call 7 frame call_fits (omega arith) encodes (omega arith)
      (Values.item (Value.u32 0x01020304) Values.nothing) call_args

parse_header-eq-ok_example :
    (frame_len (take 16 frame) ≡ ok (length frame))
    × (length frame ≤ max_message)
    × ((record call { serial = 7 }).body ≡ drop (pad8 (16 + prefix_u32 frame 12 false)) frame)
    × (length call.body ≡ prefix_u32 frame 4 false)
parse_header-eq-ok_example =
    parse_header-eq-ok frame (record call { serial = 7 }) false parse-encode_message_example.1
