-- ===== src/Dbus/RoundTrip.antt =====
-- `Writer` and `Reader` of src/dbus/value.rs against one another. This file says which values that is
-- about; Ahead is about reading what is known to stand at a position, Loops about the fields and
-- elements, Pairs about those of dictionaries, Basic, Containers and Sized about each kind of value,
-- Body about message bodies.
pub mod Ahead
pub mod Loops
pub mod Pairs
pub mod Basic
pub mod Containers
pub mod Sized
pub mod Body
use psbox.Common.{
  ℕ, zero, suc, ◌+◌, ◌*◌, ◌%◌, ◌^◌, ◌≤◌, ◌<◌, ◌≡◌, ◌≢◌, Bool, true, false, List, [], ◌∷◌, ◌++◌,
  length,
}
use psbox.Common.Text.{Text}
use psbox.Common.Utf8.{is_utf8}
use psbox.Dbus.Signature.{max_depth}
use psbox.Dbus.Signature.Grammar.{SigType, spell, Within}
use psbox.Dbus.Value.{Value, Values, Entries, signature, signatures}

-- A text that is one complete type.
abbrev pub IsType : ℕ → Text → Type 0
IsType levels sig = (t : SigType) × Within levels t × (sig ≡ spell t)

abbrev StartsWithEntry : Text → Type 0
StartsWithEntry [] = ⊥
StartsWithEntry (c ∷ _) = c ≡ b'{'

abbrev IsSome : Values → Type 0
IsSome Values.nothing = ⊥
IsSome (Values.item v vs) = Unit

-- The words are as wide as their types, the texts are UTF-8, the signatures are complete types, a
-- struct has a field, an element has the type of its array, and nothing is deeper than the levels.
unfoldable mutual
  unfolding signature

  pub Fits : ℕ → Value → Type 0
  Fits zero v = ⊥
  Fits (suc levels) (Value.byte n) = n < 256
  Fits (suc levels) (Value.bool b) = Unit
  Fits (suc levels) (Value.i16 n) = n < 2 ^ 16
  Fits (suc levels) (Value.u16 n) = n < 2 ^ 16
  Fits (suc levels) (Value.i32 n) = n < 2 ^ 32
  Fits (suc levels) (Value.u32 n) = n < 2 ^ 32
  Fits (suc levels) (Value.fd n) = n < 2 ^ 32
  Fits (suc levels) (Value.i64 n) = n < 2 ^ 64
  Fits (suc levels) (Value.u64 n) = n < 2 ^ 64
  Fits (suc levels) (Value.double n) = n < 2 ^ 64
  Fits (suc levels) (Value.str s) = is_utf8 s ≡ true
  Fits (suc levels) (Value.path s) = is_utf8 s ≡ true
  Fits (suc levels) (Value.sig s) = (is_utf8 s ≡ true) × (length s < 256)
  Fits (suc levels) (Value.variant inner) =
      IsType (max_depth + 1) (signature inner)
      × (is_utf8 (signature inner) ≡ true)
      × (length (signature inner) < 256)
      × Fits levels inner
  Fits (suc levels) (Value.struct fields) = IsSome fields × FitFields levels fields
  Fits (suc levels) (Value.array elem items) =
      IsType (max_depth + 1) elem × (StartsWithEntry elem → ⊥) × FitItems levels elem items
  Fits (suc levels) (Value.dict k v entries) =
      IsType (suc levels) k × IsType (max_depth + 1) v × FitEntries levels k v entries

  pub FitFields : ℕ → Values → Type 0
  FitFields levels Values.nothing = Unit
  FitFields levels (Values.item v vs) =
      IsType (max_depth + 1) (signature v) × Fits levels v × FitFields levels vs

  pub FitItems : ℕ → Text → Values → Type 0
  FitItems levels elem Values.nothing = Unit
  FitItems levels elem (Values.item v vs) =
      (signature v ≡ elem) × Fits levels v × FitItems levels elem vs

  pub FitEntries : ℕ → Text → Text → Entries → Type 0
  FitEntries levels k v Entries.no_pair = Unit
  FitEntries levels k v (Entries.pair a b rest) =
      (signature a ≡ k)
      × (signature b ≡ v)
      × Fits levels a
      × Fits levels b
      × FitEntries levels k v rest
