-- ===== src/Gateway/Forward/Writes.antt =====
-- Panics of `forward` in src/gateway.rs: at a body that is read, and at one that is written.
use psbox.Common.{
  ℕ, ◌≢◌, refl, Bool, true, false, ◌||◌, not, Option, none, some, if◌then◌else◌, ok, err,
}
use psbox.Common.Text.{Text, contains}
use psbox.Dbus.Signature.{Outcome}
use psbox.Dbus.Signature.NoPanic.{NoPanic}
use psbox.Dbus.Value.{Values, map_paths_all}
use psbox.Dbus.Writer.{encode_body}
use psbox.Dbus.Message.{Message, args, set_body, expects_reply}
use psbox.Dbus.Writable.{
  AllWritable, Succeeds, then-Succeeds, encode_body-Succeeds, map_paths_all-Writable,
}
use psbox.Dbus.Writable.Decoded.{Gives}
use psbox.Portal.Policy.{Policy, FileRequest, Verdict}
use psbox.Portal.Policy.Rewritten.{Sendable, args-Writable, args-NoPanic, check-Sendable}
use psbox.Portal.Paths.{any_path_in, rewrite_args, rewrite_paths, swap_sender}
use psbox.Gateway.State.{Via, Held, Client}
use psbox.Gateway.Forward.{
  Answers, panics, Gate, gate, addressed, outgoing, swapped, send_on, introspected, by_verdict,
  register_again, verdict, through, forward,
}

set_body-Succeeds : (m : Message) (vs : Values) → AllWritable vs → Succeeds (set_body m vs)
unfolding set_body
set_body-Succeeds m vs w =
    then-Succeeds (encode_body vs) _ (encode_body-Succeeds vs w) (λ body. (_, refl))

if-Succeeds :
    {A : Type 0} (test : Bool) (x y : Outcome A)
    → Succeeds x
    → Succeeds y
    → Succeeds (if test then x else y)
if-Succeeds true x y hx hy = hx
if-Succeeds false x y hx hy = hy

rewrite_args-Succeeds :
    (m : Message) (f : Text → Option Text) (read : Outcome Values)
    → Gives AllWritable read
    → NoPanic read
    → Succeeds (rewrite_args m f read)
rewrite_args-Succeeds m f (err e) w n = (m, rw n.calm refl)
rewrite_args-Succeeds m f (ok vs) w n =
    if-Succeeds (any_path_in f vs) _ _
      (set_body-Succeeds m (map_paths_all f vs) (map_paths_all-Writable f vs w)) (m, refl)

-- The paths in a message can always be rewritten, whatever its body.
pub rewrite_paths-Succeeds : (m : Message) (from to : Text) → Succeeds (rewrite_paths m from to)
unfolding rewrite_paths
rewrite_paths-Succeeds m from to =
    if-Succeeds (not (contains b'o' m.signature || contains b'v' m.signature)) _ _ (_, refl)
      (rewrite_args-Succeeds _ (λ p. swap_sender p from to) (args _) (args-Writable _)
        (args-NoPanic _))

outgoing-Succeeds :
    (msg : Message) (dest : Option Text) (vs : Option Values) (file : Option FileRequest)
    → Sendable (Verdict.forward vs file)
    → Succeeds (outgoing msg dest vs)
unfolding outgoing
outgoing-Succeeds msg dest none file w = (_, refl)
outgoing-Succeeds msg dest (some vs) file w = set_body-Succeeds (addressed msg dest) vs w

swapped-Succeeds :
    (c : Client) (via : Via) (out : Outcome Message) → Succeeds out → Succeeds (swapped c via out)
swapped-Succeeds c Via.portal out (m, e) = rw e (rewrite_paths-Succeeds m c.private_seg c.host_seg)
swapped-Succeeds c (Via.talk _) out (m, e) = rw e (m, refl)

send_on-no_panic :
    (serial : Option ℕ) (c : Client) (call : Held) (file : Option FileRequest)
    (out : Outcome Message)
    → Succeeds out
    → (send_on serial c call file out).2 ≢ panics
send_on-no_panic none c call file out (m, s) e = cc (rw s at e)
send_on-no_panic (some serial) c call file out (m, s) e = cc (rw s at e)

introspected-no_panic :
    (expects replied : Bool) (c : Client) (call : Held)
    → (introspected expects replied c call).2 ≢ panics
introspected-no_panic false replied c call e = cc e
introspected-no_panic true true c call e = cc e
introspected-no_panic true false c call e = cc e

by_verdict-no_panic :
    (answers : Answers) (c : Client) (call : Held) (dest : Option Text) (v : Verdict)
    → Sendable v
    → (by_verdict answers c call dest v).2 ≢ panics
by_verdict-no_panic answers c call dest (Verdict.forward vs file) w =
    send_on-no_panic answers.serial c call file (swapped c call.via (outgoing call.msg dest vs)) (
      swapped-Succeeds c call.via (outgoing call.msg dest vs)
        (outgoing-Succeeds call.msg dest vs file w))
by_verdict-no_panic answers c call dest (Verdict.deny why) w = λ e. cc e
by_verdict-no_panic answers c call dest (Verdict.missing why) w = λ e. cc e
by_verdict-no_panic answers c call dest Verdict.panics w = absurd w
by_verdict-no_panic answers c call dest Verdict.introspect w =
    introspected-no_panic (expects_reply call.msg) answers.replied c call

register_again-no_panic :
    (serial : Option ℕ) (c : Client) (call : Held) (from_held : Bool) (app_id : Text)
    → (register_again serial c call from_held app_id).2 ≢ panics
register_again-no_panic none c call from_held app_id e = cc e
register_again-no_panic (some serial) c call true app_id e = cc e
register_again-no_panic (some serial) c call false app_id e = cc e

verdict-Sendable :
    (policy : Policy) (c : Client) (call : Held) (via : Via) → Sendable (verdict policy c call via)
verdict-Sendable policy c call Via.portal = check-Sendable policy _ call.msg
verdict-Sendable policy c call (Via.talk _) = tt

through-no_panic :
    (policy : Policy) (answers : Answers) (c : Client) (call : Held) (from_held : Bool) (g : Gate)
    → (through policy answers c call from_held g).2 ≢ panics
through-no_panic policy answers c call from_held Gate.wait = λ e. cc e
through-no_panic policy answers c call from_held (Gate.again app_id) =
    register_again-no_panic answers.serial c call from_held app_id
through-no_panic policy answers c call from_held (Gate.pass dest) =
    by_verdict-no_panic answers c call dest (verdict policy c call call.via)
      (verdict-Sendable policy c call call.via)

pub forward-no_panic :
    (policy : Policy) (answers : Answers) (c : Client) (call : Held) (from_held : Bool)
    → (forward policy answers c call from_held).2 ≢ panics
unfolding forward
forward-no_panic policy answers c call from_held =
    through-no_panic policy answers c call from_held (gate c call from_held)
