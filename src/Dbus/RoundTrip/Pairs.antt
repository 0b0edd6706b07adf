-- ===== src/Dbus/RoundTrip/Pairs.antt =====
-- The loop over the entries of a dictionary in `Writer` and `Reader` of src/dbus/value.rs.
use psbox.Common.{
  ℕ, zero, suc, ◌+◌, ◌≤◌, ◌<◌, ◌≡◌, sym, ap, ◌∙◌, false, List, [], ◌++◌, append_assoc, append-nil,
  lt→ltb, not_lt→ltb, length, length-append, length-replicate, replicate, arith, ok, ◌>>=◌,
}
use psbox.Common.Text.{Text}
use psbox.Dbus.Signature.{Outcome}
use psbox.Dbus.Value.{Value, Entries}
use psbox.Dbus.Reader.{align as align_at, padding_to, read_entries, read_depth}
use psbox.Dbus.Writer.{align_value, write_aligned, write_entries}
use psbox.Dbus.RoundTrip.{Fits, FitEntries}
use psbox.Dbus.RoundTrip.Ahead.{align-Ahead}
use psbox.Dbus.RoundTrip.Loops.{ReadsBack, Written, Ahead-two, write-then}

-- One turn of the loop over the entries, from what its parts read.
read_entries-turn :
    (buf : List ℕ) (key val : ℕ → Outcome (Value × ℕ)) (fuel end : ℕ) (k v : Value) (es : Entries)
    (out pad ext_k ext_v more : List ℕ)
    → length out < end
    → align_at buf false 8 (length out) ≡ ok (length out + length pad)
    → key (length (out ++ pad)) ≡ ok (k, length (out ++ pad) + length ext_k)
    → val (length ((out ++ pad) ++ ext_k)) ≡ ok (v, length ((out ++ pad) ++ ext_k) + length ext_v)
    → read_entries buf false key val fuel end (length (((out ++ pad) ++ ext_k) ++ ext_v))
      ≡ ok (es, length (((out ++ pad) ++ ext_k) ++ ext_v) + length more)
    → read_entries buf false key val (suc fuel) end (length out)
      ≡ ok (Entries.pair k v es, length out + length (pad ++ (ext_k ++ (ext_v ++ more))))
unfolding read_entries
read_entries-turn buf key val fuel end k v es out pad ext_k ext_v more go_on aligned read_k read_v
      read =
    rw
      (
        lt→ltb (length out) end go_on,
        aligned,
        sym (length-append out pad),
        read_k,
        sym (length-append (out ++ pad) ext_k),
        read_v,
        sym (length-append ((out ++ pad) ++ ext_k) ext_v),
        read,
      )
      (ap (λ n. ok (Entries.pair k v es, n))
        (omega (
          arith,
          length-append out pad,
          length-append (out ++ pad) ext_k,
          length-append ((out ++ pad) ++ ext_k) ext_v,
          length-append pad (ext_k ++ (ext_v ++ more)),
          length-append ext_k (ext_v ++ more),
          length-append ext_v more,
        )))

module _ (levels : ℕ)
    (each : (v : Value) → Fits levels v → (out : List ℕ) → Written levels v out) where
  -- The entries of a dictionary, up to the end of the last.
  pub write_entries-back :
      (kt vt : Text) (es : Entries)
      → FitEntries levels kt vt es
      → (out : List ℕ)
      → (ext : List ℕ) × (write_entries es out ≡ ok (out ++ ext))
        × ((fuel end : ℕ)
            → length ext ≤ fuel
            → end ≡ length out + length ext
            → ReadsBack
                (λ buf pos.
                  read_entries buf false
                    (read_depth buf false levels kt)
                    (read_depth buf false levels vt)
                    fuel
                    end
                    pos)
                es
                (length out)
                ext)
  unfolding write_entries read_entries FitEntries
  write_entries-back kt vt Entries.no_pair fits out = (
    [],
    ap ok (sym (append-nil out)),
    λ fuel end enough stop buf rest small ahead. last fuel end stop buf,
  )
    where
      last :
          (fuel end : ℕ)
          → end ≡ length out + 0
          → (buf : List ℕ)
          → read_entries buf false
              (read_depth buf false levels kt)
              (read_depth buf false levels vt)
              fuel
              end
              (length out)
            ≡ ok (Entries.no_pair, length out + 0)
      last zero end stop buf =
          rw (not_lt→ltb (length out) end (omega arith))
            (ap (λ n. ok (Entries.no_pair, n)) (omega arith))
      last (suc fuel) end stop buf =
          rw (not_lt→ltb (length out) end (omega arith))
            (ap (λ n. ok (Entries.no_pair, n)) (omega arith))
  write_entries-back kt vt (Entries.pair k v es) (same_k, same_v, fit_k, fit_v, fits) out =
      let pad = replicate (padding_to 8 (length out)) zero in
      let (ext_k, written_k, some_k, back_k) = each k fit_k (out ++ pad) in
      let (ext_v, written_v, some_v, back_v) = each v fit_v ((out ++ pad) ++ ext_k) in
      let (more, written, back) =
        write_entries-back kt vt es fits (((out ++ pad) ++ ext_k) ++ ext_v) in
      (
        pad ++ (ext_k ++ (ext_v ++ more)),
        write-then k (out ++ pad)
              (λ o. do o ← align_value v o; o ← write_aligned v o; write_entries es o) written_k
            ∙ write-then v ((out ++ pad) ++ ext_k) (λ o. write_entries es o) written_v
            ∙ written
            ∙ ap ok (behind out pad ext_k ext_v more),
        λ fuel end enough stop.
            turn ext_k ext_v more some_k (rw same_k at back_k) (rw same_v at back_v) back fuel end
              enough stop,
      )
    where
      behind : (a b c d e : List ℕ) → (((a ++ b) ++ c) ++ d) ++ e ≡ a ++ (b ++ (c ++ (d ++ e)))
      behind a b c d e =
          append_assoc ((a ++ b) ++ c) d e
          ∙ append_assoc (a ++ b) c (d ++ e)
          ∙ append_assoc a b (c ++ (d ++ e))

      turn :
          (ext_k ext_v more : List ℕ)
          → 1 ≤ length ext_k
          → ReadsBack
              (λ buf. read_depth buf false levels kt)
              k
              (length (out ++ replicate (padding_to 8 (length out)) zero))
              ext_k
          → ReadsBack
              (λ buf. read_depth buf false levels vt)
              v
              (length ((out ++ replicate (padding_to 8 (length out)) zero) ++ ext_k))
              ext_v
          → ((fuel end : ℕ)
              → length more ≤ fuel
              → end
                ≡ length (((out ++ replicate (padding_to 8 (length out)) zero) ++ ext_k) ++ ext_v)
                  + length more
              → ReadsBack
                  (λ buf pos.
                    read_entries buf false
                      (read_depth buf false levels kt)
                      (read_depth buf false levels vt)
                      fuel
                      end
                      pos)
                  es
                  (length (((out ++ replicate (padding_to 8 (length out)) zero) ++ ext_k) ++ ext_v))
                  more)
          → (fuel end : ℕ)
          → length (replicate (padding_to 8 (length out)) zero ++ (ext_k ++ (ext_v ++ more))) ≤ fuel
          → end
            ≡ length out
              + length (replicate (padding_to 8 (length out)) zero ++ (ext_k ++ (ext_v ++ more)))
          → ReadsBack
              (λ buf pos.
                read_entries buf false
                  (read_depth buf false levels kt)
                  (read_depth buf false levels vt)
                  fuel
                  end
                  pos)
              (Entries.pair k v es)
              (length out)
              (replicate (padding_to 8 (length out)) zero ++ (ext_k ++ (ext_v ++ more)))
      turn ext_k ext_v more some_k back_k back_v back zero end enough stop buf rest small ahead =
          let pad = replicate (padding_to 8 (length out)) zero in
          absurd (
            omega (
              arith,
              some_k,
              length-append pad (ext_k ++ (ext_v ++ more)),
              length-append ext_k (ext_v ++ more),
            ))
      turn ext_k ext_v more some_k back_k back_v back (suc fuel) end enough stop buf rest small
            ahead =
          let pad = replicate (padding_to 8 (length out)) zero in
          let padded = length-replicate (padding_to 8 (length out)) zero in
          let whole = length-append pad (ext_k ++ (ext_v ++ more)) in
          let parts = length-append ext_k (ext_v ++ more) in
          let part = length-append ext_v more in
          let (at_pad, at_k) = Ahead-two buf out pad (ext_k ++ (ext_v ++ more)) rest ahead in
          let (here_k, at_v) = Ahead-two buf (out ++ pad) ext_k (ext_v ++ more) rest at_k in
          let (here_v, at_more) = Ahead-two buf ((out ++ pad) ++ ext_k) ext_v more rest at_v in
          let aligned : align_at buf false 8 (length out) ≡ ok (length out + length pad) =
            align-Ahead buf (length out) 8 ((ext_k ++ (ext_v ++ more)) ++ rest) at_pad
            ∙ ap (λ n. ok (length out + n)) (sym padded) in
          read_entries-turn buf (read_depth buf false levels kt) (read_depth buf false levels vt)
            fuel end k v es out pad ext_k ext_v more (omega (arith, stop, some_k, whole, parts))
            aligned (back_k buf ((ext_v ++ more) ++ rest) small here_k)
            (back_v buf (more ++ rest) small here_v)
            (back fuel end (omega (arith, enough, some_k, whole, parts, part))
              (omega (
                arith,
                stop,
                whole,
                parts,
                part,
                length-append out pad,
                length-append (out ++ pad) ext_k,
                length-append ((out ++ pad) ++ ext_k) ext_v,
              ))
              buf rest small at_more)
