-- ===== src/Lib.antt =====
-- Petris Sandbox (psbox) runs desktop applications in sandboxes made of Linux namespaces. This
-- library models the parts of it that decide: the system call filter, the Wayland codec and socket
-- of the title bar proxy, the D-Bus codec, the portal policy, the gateway that puts that policy
-- into effect, the desktop entries that launch apps through psbox, and the names that tell
-- sandboxes apart, each as functions that follow the Rust source, with the theorems that make them
-- correct.
--
-- How the parts interact: the client and the supervisor find one another by the key of an identity
-- (plan.rs); the supervisor installs the filter (sys/seccomp.rs) in each process it starts, and
-- starts the proxy (decorations/), which reads requests from xwayland-satellite and queues events
-- for it on a socket (decorations/wire.rs). The gateway (gateway.rs) stands between a sandbox and
-- the session bus: it asks the policy (portal.rs, `check`) about every call of a client to the
-- portals and notifications, reads and rewrites bodies with the codec (dbus/value.rs), and makes
-- and answers messages (dbus/message.rs); portal calls wait in a queue while a client is
-- registered again with a portal that has restarted.
--
-- Files and the code that they model (paths are from the repository's root):
--
--   Common: the helpers that the other files share. `Result` is Rust's; a text is the list of its
--     bytes; words are natural numbers, with their wrap-around written out.
--   Seccomp: src/sys/seccomp.rs. `program` builds the filter for a target and a setting, and `run`
--     is the interpreter of its tests. Policy says the verdicts without jumps, Machine has the rules
--     for single instructions, Program the theorem.
--   Decorations/Wire: src/decorations/wire.rs, `parse` and `write`. Encoding says the encoding
--     without a buffer; Write, Parse and Misaligned are about the two functions.
--   Decorations/Socket: the `Socket` of the same file. Each call of the kernel answers by an
--     argument. Invariant, Batches, Delivery and Partial are about sending, Receive is about
--     receiving.
--   Decorations/Scale: src/decorations/scale.rs, the scales but not the modes of outputs; Rounding
--     is about rounding up.
--   Spec/Names: the name tests of src/spec.rs.
--   Dbus/Signature: the signatures of src/dbus/value.rs. Grammar says the trees that they spell;
--     Complete, Sound and Splitting relate the two, Fuel is about the loops.
--   Dbus/Value: `Value` of the same file; Dictionary and Paths are about its operations.
--   Dbus/Reader, Dbus/Writer: `Reader`, `Writer`, `decode_body` and `encode_body`. Dbus/RoundTrip
--     is about reading what was written, Writable about which values can be written, and NoPanic
--     about the panics of the reader.
--   Dbus/Message: src/dbus/message.rs. Header is about the fields of a header, Frame about the
--     bytes in front of them, Encoded about whole messages, Parsed about what is accepted.
--   Portal: src/portal.rs. Names has the names, tables and tests on names; Arguments has what is
--     done with the arguments of a call; Policy has `check`, and its children say what is forwarded
--     (Reach, Listed), with which options (Options, Dropped, PlainNames) and to callers without an
--     identity (Files, Unidentified); Services is about `service_for`, Paths has the paths of
--     requests and sessions, Uri the `file://` URIs.
--   Gateway: src/gateway.rs. State has a client and what is sent, Forward is `forward`, Relay has
--     what is passed back, Files is `map_file_results`, and Serve has the handlers of messages and
--     the setting up of a client; their children are about them. Queue is `registered`, with the
--     thread of a client's host connection and the one that takes calls in as a step relation; its
--     children are about the states that are reached and the loop over the held calls.
--   Desktop: src/desktop.rs. Exec has the `Exec` values, and Exec/Quoting is about their round
--     trip; Entry is `Entry` without `parse` and `render`, and its children Lines, Keys and Sections
--     are about what is found in one; Rewrite is `Target`, `rewrite`, `finish` and `hidden`, and its
--     children are about what these leave in an entry.
--   Plan/Identity: `Identity` of src/plan.rs, its key and `from_key`.
--
-- Bounds and fuel: the interpreter of the filter runs for at most as many rounds as the program
-- has instructions, which is enough since no instruction jumps back. A flush takes one answer of
-- the kernel for each call that it makes; it stops as waiting when the given answers are used up.
-- The loops over a signature take at most as many turns as it has letters; the depth of a type or
-- value is counted down from the limit of 64; the loop over an array may take as many turns as the
-- array has bytes. Words are 32 bits wide where the source has `u32`; lengths are `usize` on a
-- 64-bit machine and do not wrap. `forward` panics where reading or writing a body does; the other
-- handlers of the gateway take a body whose reading would panic as one that cannot be read. The
-- gateway's model has no fuel: each handler is one step, and a loop over pending or held messages
-- follows the list.
--
-- Not modelled: what only calls the kernel or a library (namespaces, mounts, cgroups, sockets,
-- Jsonnet, the terminal), and, as yet, the decisions of the other files: most checks of spec.rs,
-- the mounts and networks of plan.rs, decorations/proxy.rs and frame.rs, devices.rs, unnamed.rs,
-- and the supervisor. The numbers of the `libc` crate are a parameter, with the one hypothesis
-- that the four instruction codes are distinct and fit 16 bits. In the gateway, a hash map is the
-- list of its entries, and what is drained from one comes in that order; each handler runs as one
-- step, but for the loop over held calls, whose turns are steps of their own; the answers of the
-- buses and of the host that exposes files are arguments of the steps; the texts of log lines and
-- of the introspection data are left out.
pub mod Common
pub mod Seccomp
pub mod Decorations
pub mod Spec
pub mod Plan
pub mod Dbus
pub mod Portal
pub mod Gateway
pub mod Desktop
