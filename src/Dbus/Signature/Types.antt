-- ===== src/Dbus/Signature/Types.antt =====
-- Texts of src/dbus/value.rs that spell one type, and what stands behind their first letter.
use psbox.Common.{
  ℕ, zero, suc, ◌+◌, ◌≤◌, ◌≡◌, refl, sym, ap, ◌∙◌, List, [], ◌∷◌, ◌++◌, length, take, drop, All,
  take-append_length, drop-append_length, append-nil, append_assoc, arith, ok, ok-injective, true,
  ◌==◌, ==_iff,
}
use psbox.Common.Text.{Text}
use psbox.Dbus.Reader.{init}
use psbox.Dbus.RoundTrip.Containers.{init-append}
use psbox.Dbus.Signature.{is_basic, max_depth, type_len, split_signature}
use psbox.Dbus.Signature.Grammar.{SigType, Fields, spell, spell_all, Within, WithinAll}
use psbox.Dbus.Signature.Complete.{type_len-spell}
use psbox.Dbus.Signature.Sound.{type_len-eq-ok}
use psbox.Dbus.Signature.Splitting.{spell_each, split_signature_lem}

-- At some depth, a type spells the text.
pub record IsType (sig : Text) : Type 0 where
  pub levels : ℕ
  pub type : SigType
  pub within : Within levels type
  pub spelled : sig ≡ spell type

spell_each-IsType : (levels : ℕ) (ts : Fields) → WithinAll levels ts → All IsType (spell_each ts)
unfolding WithinAll
spell_each-IsType levels Fields.end w = tt
spell_each-IsType levels (Fields.field t ts) (w, ws) = (
  record { levels = levels; type = t; within = w; spelled = refl },
  spell_each-IsType levels ts ws,
)

pub split_signature-IsType :
    (sig : Text) {parts : List Text} → split_signature sig ≡ ok parts → All IsType parts
split_signature-IsType sig {parts} h =
    let (ts, ws, whole, each) = (split_signature_lem sig parts).0 h in
    rw each (spell_each-IsType (max_depth + 1) ts ws)

-- A text that is split into one part is that part.
pub split_signature-one :
    (sig : Text) {parts : List Text}
    → split_signature sig ≡ ok parts
    → (length parts == 1) ≡ true
    → IsType sig
unfolding spell_all WithinAll
split_signature-one sig {parts} h one =
    let (ts, ws, whole, each) = (split_signature_lem sig parts).0 h in
    only ts ws whole (rw each at one)
  where
    only :
        (ts : Fields)
        → WithinAll (max_depth + 1) ts
        → sig ≡ spell_all ts
        → (length (spell_each ts) == 1) ≡ true
        → IsType sig
    only Fields.end ws whole one = cc one
    only (Fields.field t Fields.end) (w, ws) whole one = record {
      levels = max_depth + 1;
      type = t;
      within = w;
      spelled = whole ∙ append-nil (spell t);
    }
    only (Fields.field t (Fields.field u ts)) ws whole one =
        absurd (omega (arith, (==_iff (length (spell t ∷ spell u ∷ spell_each ts)) 1).0 one))

mutual
  unfolding Within

  Within-mono : (a b : ℕ) (t : SigType) → a ≤ b → Within a t → Within b t
  Within-mono zero b t le w = absurd w
  Within-mono (suc a) zero t le w = absurd (omega arith)
  Within-mono (suc a) (suc b) (SigType.basic c) le w = w
  Within-mono (suc a) (suc b) (SigType.array t) le w = Within-mono a b t (omega arith) w
  Within-mono (suc a) (suc b) (SigType.struct ts) le (f, w) =
      (f, WithinAll-mono a b ts (omega arith) w)
  Within-mono (suc a) (suc b) (SigType.dict_entry k v) le (wk, wv) =
      (Within-mono a b k (omega arith) wk, Within-mono a b v (omega arith) wv)

  WithinAll-mono : (a b : ℕ) (ts : Fields) → a ≤ b → WithinAll a ts → WithinAll b ts
  WithinAll-mono a b Fields.end le w = tt
  WithinAll-mono a b (Fields.field t ts) le (w, ws) =
      (Within-mono a b t le w, WithinAll-mono a b ts le ws)

-- A type in front of a text is measured as such, whatever the levels allowed.
measured :
    (levels own n : ℕ) (k : SigType) (rest : Text)
    → Within own k
    → type_len levels (spell k ++ rest) ≡ ok n
    → n ≡ length (spell k)
measured levels own n k rest w h =
    let (t, wt, size, split) = type_len-eq-ok levels (spell k ++ rest) n h in
    let here =
      type_len-spell (levels + own) k rest (Within-mono own (levels + own) k (omega arith) w) in
    let there =
      type_len-spell (levels + own) t (drop n (spell k ++ rest))
        (Within-mono levels (levels + own) t (omega arith) wt) in
    size ∙ ok-injective (sym there ∙ ap (type_len (levels + own)) (sym split) ∙ here)

-- What a dictionary of these kinds is split into.
pub kinds-IsType :
    (levels n own : ℕ) (k v : SigType)
    → Within own k
    → Within own v
    → type_len levels (spell k ++ spell v) ≡ ok n
    → IsType (take n (spell k ++ spell v)) × IsType (drop n (spell k ++ spell v))
kinds-IsType levels n own k v wk wv h =
    let size = measured levels own n k (spell v) wk h in
    (
      record {
        levels = own;
        type = k;
        within = wk;
        spelled = rw size (take-append_length (spell k) (spell v));
      },
      record {
        levels = own;
        type = v;
        within = wv;
        spelled = rw size (drop-append_length (spell k) (spell v));
      },
    )

cons-injective : {c d : ℕ} {s t : Text} → c ∷ s ≡ d ∷ t → (c ≡ d) × (s ≡ t)
cons-injective e = (ground (arith, e), ground (arith, e))

-- What stands behind the letter of an array.
pub array-IsType : (c : ℕ) (sig : Text) → (c == b'a') ≡ true → IsType (c ∷ sig) → IsType sig
unfolding spell Within is_basic
array-IsType c sig a w = go w.levels w.type w.within (rw ((==_iff c b'a').0 a) at w.spelled)
  where
    go : (levels : ℕ) (t : SigType) → Within levels t → b'a' ∷ sig ≡ spell t → IsType sig
    go zero t w e = absurd w
    go (suc levels) (SigType.basic d) w e = cc (rw (sym (cons-injective e).0) at w)
    go (suc levels) (SigType.array t) w e = record {
      levels = levels;
      type = t;
      within = w;
      spelled = (cons-injective e).1;
    }
    go (suc levels) (SigType.struct ts) w e = absurd (omega (arith, (cons-injective e).0))
    go (suc levels) (SigType.dict_entry k v) w e = absurd (omega (arith, (cons-injective e).0))

-- No type is spelled by no letter.
pub IsType-nil : IsType [] → ⊥
unfolding spell Within
IsType-nil w = go w.levels w.type w.within w.spelled
  where
    go : (levels : ℕ) (t : SigType) → Within levels t → [] ≡ spell t → ⊥
    go zero t w e = w
    go (suc levels) (SigType.basic d) w e = cc e
    go (suc levels) (SigType.array t) w e = cc e
    go (suc levels) (SigType.struct ts) w e = cc e
    go (suc levels) (SigType.dict_entry k v) w e = cc e

-- The kinds of a dictionary entry.
pub record Kinds (kinds : Text) : Type 0 where
  pub own : ℕ
  pub key : SigType
  pub val : SigType
  pub key_within : Within own key
  pub val_within : Within own val
  pub spelled : kinds ≡ spell key ++ spell val

pub entry-Kinds : (c : ℕ) (sig : Text) → (c == b'{') ≡ true → IsType (c ∷ sig) → Kinds (init sig)
unfolding spell Within is_basic
entry-Kinds c sig a w = go w.levels w.type w.within (rw ((==_iff c b'{').0 a) at w.spelled)
  where
    go : (levels : ℕ) (t : SigType) → Within levels t → b'{' ∷ sig ≡ spell t → Kinds (init sig)
    go zero t w e = absurd w
    go (suc levels) (SigType.basic d) w e = cc (rw (sym (cons-injective e).0) at w)
    go (suc levels) (SigType.array t) w e = absurd (omega (arith, (cons-injective e).0))
    go (suc levels) (SigType.struct ts) w e = absurd (omega (arith, (cons-injective e).0))
    go (suc levels) (SigType.dict_entry k v) (wk, wv) e = record {
      own = levels;
      key = k;
      val = v;
      key_within = wk;
      val_within = wv;
      spelled =
          ap init ((cons-injective e).1 ∙ sym (append_assoc (spell k) (spell v) (b'}' ∷ [])))
          ∙ init-append (spell k ++ spell v) b'}';
    }
