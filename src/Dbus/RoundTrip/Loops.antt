-- ===== src/Dbus/RoundTrip/Loops.antt =====
-- The loops of `Writer` and `Reader` in src/dbus/value.rs over fields and elements.
use psbox.Common.{
  ℕ, zero, suc, ◌+◌, ◌^◌, ◌≤◌, ◌<◌, ◌≡◌, sym, ap, ◌∙◌, false, List, [], ◌∷◌, ◌++◌, append_assoc,
  append-nil, lt→ltb, not_lt→ltb, length, length-append, arith, ok, err, ◌>>=◌,
}
use psbox.Common.Text.{Text}
use psbox.Dbus.Signature.{Outcome}
use psbox.Dbus.Value.{Value, Values, signature}
use psbox.Dbus.Reader.{read_fields, read_items, read_depth}
use psbox.Dbus.Writer.{align_value, write_aligned, write_all, write}
use psbox.Dbus.RoundTrip.{Fits, FitFields, FitItems, IsSome}
use psbox.Dbus.RoundTrip.Ahead.{Ahead, past}

-- `reads` gives back `v` from wherever `ext` stands in a small buffer.
abbrev pub ReadsBack : {A : Type 0} → (List ℕ → ℕ → Outcome (A × ℕ)) → A → ℕ → List ℕ → Type 0
ReadsBack reads v pos ext =
    (buf rest : List ℕ)
    → length buf < 2 ^ 32
    → Ahead buf pos (ext ++ rest)
    → reads buf pos ≡ ok (v, pos + length ext)

-- `v` is written behind `out` as at least one byte, and read back.
abbrev pub Written : ℕ → Value → List ℕ → Type 0
Written levels v out =
    (ext : List ℕ) × (write v out ≡ ok (out ++ ext))
    × (1 ≤ length ext)
    × ReadsBack (λ buf pos. read_depth buf false levels (signature v) pos) v (length out) ext

-- The signatures of the fields, one by one.
abbrev pub signature_list : Values → List Text
signature_list Values.nothing = []
signature_list (Values.item v vs) = signature v ∷ signature_list vs

pub write-then :
    {B : Type 0} (v : Value) (out : List ℕ) (k : List ℕ → Outcome B) {w : List ℕ}
    → write v out ≡ ok w
    → (do o ← align_value v out; o ← write_aligned v o; k o) ≡ k w
unfolding write
write-then v out k {w} h = go (align_value v out) h
  where
    go :
        (m : Outcome (List ℕ))
        → (do o ← m; write_aligned v o) ≡ ok w
        → (do o ← m; o ← write_aligned v o; k o) ≡ k w
    go (ok o) h = rw h
    go (err e) h = cc

module _ (buf out ext more rest : List ℕ) where
  pub Ahead-two :
      Ahead buf (length out) ((ext ++ more) ++ rest)
      → Ahead buf (length out) (ext ++ (more ++ rest))
        × Ahead buf (length (out ++ ext)) (more ++ rest)
  Ahead-two ahead =
      let first : Ahead buf (length out) (ext ++ (more ++ rest)) =
        rw (← append_assoc ext more rest) ahead in
      (first, rw (length-append out ext) (past buf (length out) ext (more ++ rest) first))

-- One after another.
pub reads-then :
    {A B C : Type 0} (reads : List ℕ → ℕ → Outcome (A × ℕ)) (reads' : List ℕ → ℕ → Outcome (B × ℕ))
    (f : A → B → C) (v : A) (w : B) (out ext more : List ℕ)
    → ReadsBack reads v (length out) ext
    → ReadsBack reads' w (length (out ++ ext)) more
    → ReadsBack
        (λ buf pos. do (a, pos) ← reads buf pos; (b, pos) ← reads' buf pos; ok (f a b, pos))
        (f v w)
        (length out)
        (ext ++ more)
reads-then reads reads' f v w out ext more back back' buf rest small ahead =
    let (here, there) = Ahead-two buf out ext more rest ahead in
    let second = rw (length-append out ext) at (back' buf rest small there) in
    rw (back buf (more ++ rest) small here, second)
      (ap (λ n. ok (f v w, n)) (omega (arith, length-append ext more)))

module _ (levels : ℕ)
    (each : (v : Value) → Fits levels v → (out : List ℕ) → Written levels v out) where
  pub write_all-fields :
      (vs : Values)
      → FitFields levels vs
      → (out : List ℕ)
      → (ext : List ℕ) × (write_all vs out ≡ ok (out ++ ext))
        × (IsSome vs → 1 ≤ length ext)
        × ReadsBack
            (λ buf pos. read_fields buf false (read_depth buf false levels) (signature_list vs) pos)
            vs
            (length out)
            ext
  unfolding write_all read_fields FitFields
  write_all-fields Values.nothing fits out = (
    [],
    ap ok (sym (append-nil out)),
    λ n. absurd n,
    λ buf rest small ahead. ap (λ n. ok (Values.nothing, n)) (omega arith),
  )
  write_all-fields (Values.item v vs) (one, fit, fits) out =
      let (ext, written, some_byte, back) = each v fit out in
      let (more, written', some', back') = write_all-fields vs fits (out ++ ext) in
      (
        ext ++ more,
        write-then v out (λ o. write_all vs o) written
            ∙ written'
            ∙ ap ok (append_assoc out ext more),
        λ n. omega (arith, some_byte, length-append ext more),
        reads-then (λ buf. read_depth buf false levels (signature v))
            (λ buf. read_fields buf false (read_depth buf false levels) (signature_list vs))
            Values.item v vs out ext more back back',
      )

  -- The elements of an array, up to the end of the last.
  pub write_all-items :
      (elem : Text) (vs : Values)
      → FitItems levels elem vs
      → (out : List ℕ)
      → (ext : List ℕ) × (write_all vs out ≡ ok (out ++ ext))
        × ((fuel end : ℕ)
            → length ext ≤ fuel
            → end ≡ length out + length ext
            → ReadsBack
                (λ buf pos. read_items buf false (read_depth buf false levels elem) fuel end pos)
                vs
                (length out)
                ext)
  unfolding write_all read_items FitItems
  write_all-items elem Values.nothing fits out = (
    [],
    ap ok (sym (append-nil out)),
    λ fuel end enough stop buf rest small ahead. last fuel end stop buf,
  )
    where
      last :
          (fuel end : ℕ)
          → end ≡ length out + 0
          → (buf : List ℕ)
          → read_items buf false (read_depth buf false levels elem) fuel end (length out)
            ≡ ok (Values.nothing, length out + 0)
      last zero end stop buf =
          rw (not_lt→ltb (length out) end (omega arith))
            (ap (λ n. ok (Values.nothing, n)) (omega arith))
      last (suc fuel) end stop buf =
          rw (not_lt→ltb (length out) end (omega arith))
            (ap (λ n. ok (Values.nothing, n)) (omega arith))
  write_all-items elem (Values.item v vs) (same, fit, fits) out =
      let (ext, written, some_byte, back) = each v fit out in
      let (more, written', back') = write_all-items elem vs fits (out ++ ext) in
      (
        ext ++ more,
        write-then v out (λ o. write_all vs o) written
            ∙ written'
            ∙ ap ok (append_assoc out ext more),
        λ fuel end enough stop.
            turn ext more some_byte (rw same at back) back' fuel end enough stop,
      )
    where
      turn :
          (ext more : List ℕ)
          → 1 ≤ length ext
          → ReadsBack (λ buf pos. read_depth buf false levels elem pos) v (length out) ext
          → ((fuel end : ℕ)
              → length more ≤ fuel
              → end ≡ length (out ++ ext) + length more
              → ReadsBack
                  (λ buf pos. read_items buf false (read_depth buf false levels elem) fuel end pos)
                  vs
                  (length (out ++ ext))
                  more)
          → (fuel end : ℕ) → length (ext ++ more) ≤ fuel
          → end ≡ length out + length (ext ++ more)
          → ReadsBack
              (λ buf pos. read_items buf false (read_depth buf false levels elem) fuel end pos)
              (Values.item v vs)
              (length out)
              (ext ++ more)
      turn ext more some_byte back back' zero end enough stop buf rest small ahead =
          absurd (omega (arith, length-append ext more))
      turn ext more some_byte back back' (suc fuel) end enough stop buf rest small ahead =
          rw (lt→ltb (length out) end (omega (arith, length-append ext more))) (
            reads-then (λ buf. read_depth buf false levels elem)
              (λ buf. read_items buf false (read_depth buf false levels elem) fuel end) Values.item
              v vs out ext more back
              (back' fuel end (omega (arith, length-append ext more))
                (omega (arith, length-append ext more, length-append out ext)))
              buf rest small ahead)
