-- ===== src/Seccomp/Machine.antt =====
-- The interpreter of the tests in src/sys/seccomp.rs, one instruction at a time.
use psbox.Common.{
  ℕ, zero, suc, ◌+◌, ◌≤◌, ◌≡◌, refl, sym, ap, ◌∙◌, Option, none, some, List, [], ◌∷◌, leb, ◌==◌,
  if◌then◌else◌, length, length-drop, get_elem?, drop, drop-drop, arith,
}
use psbox.Seccomp.{
  Libc, SockFilter, Call, Next, goes, returns, faults, follow, ld, jeq, jge, ret, stmt, jump, load,
  execute, run_from, run, offset_arg1_lo, offset_nr, offset_arch,
}
use psbox.Seccomp.Policy.{IsLibc}

get_elem?-drop :
    (p : List SockFilter) {q : List SockFilter} {f : SockFilter} (pc : ℕ)
    → drop pc p ≡ f ∷ q
    → get_elem? p pc ≡ some f
get_elem?-drop [] zero e = cc
get_elem?-drop [] (suc pc) e = cc
get_elem?-drop (x ∷ p) zero e = cc
get_elem?-drop (x ∷ p) (suc pc) e = get_elem?-drop p pc e

get_elem?-drop_nil : (p : List SockFilter) (pc : ℕ) → drop pc p ≡ [] → get_elem? p pc ≡ none
get_elem?-drop_nil [] pc e = refl
get_elem?-drop_nil (x ∷ p) zero e = cc
get_elem?-drop_nil (x ∷ p) (suc pc) e = get_elem?-drop_nil p pc e

drop-next :
    (p : List SockFilter) {q : List SockFilter} {f : SockFilter} (pc n : ℕ)
    → drop pc p ≡ f ∷ q
    → drop (pc + 1 + n) p ≡ drop n q
drop-next p pc n e = sym (drop-drop (suc n) pc p ∙ ap (λ k. drop k p) (omega arith)) ∙ rw e refl

follow-eq :
    (n : Next) {f g : ℕ → ℕ → Option ℕ} → ((o a : ℕ) → f o a ≡ g o a) → follow n f ≡ follow n g
follow-eq (goes offset acc) h = h offset acc
follow-eq (returns k) h = refl
follow-eq faults h = refl

module _ (c : Libc) (s : Call) where
  -- The interpreter over the instructions that are left.
  pub run_rest : ℕ → List SockFilter → ℕ → Option ℕ
  run_rest zero rest acc = none
  run_rest (suc fuel) [] acc = none
  run_rest (suc fuel) (f ∷ rest) acc =
      follow (execute c s f acc) (λ offset acc'. run_rest fuel (drop offset rest) acc')

  run_from-rest :
      (fuel : ℕ) (p q : List SockFilter) (pc acc : ℕ)
      → drop pc p ≡ q
      → run_from c s fuel p pc acc ≡ run_rest fuel q acc
  unfolding run_from run_rest
  run_from-rest zero p q pc acc e = refl
  run_from-rest (suc fuel) p [] pc acc e = rw (get_elem?-drop_nil p pc e, run_from)
  run_from-rest (suc fuel) p (f ∷ q) pc acc e =
      rw (get_elem?-drop p pc e, run_from)
        (follow-eq (execute c s f acc)
          (λ n a. run_from-rest fuel p (drop n q) (pc + 1 + n) a (drop-next p pc n e)))

  pub run-rest : (p : List SockFilter) → run c s p ≡ run_rest (length p) p 0
  unfolding run
  run-rest p = run_from-rest (length p) p p 0 0 refl

-- The instructions left decide the call by returning `r`, with a round for each instruction at most.
abbrev pub Decides : Libc → Call → List SockFilter → ℕ → ℕ → Type 0
Decides c s rest acc r = (fuel : ℕ) → length rest ≤ fuel → run_rest c s fuel rest acc ≡ some r

module _ (c : Libc) (known : IsLibc c) (s : Call) where
  run_ret :
      (fuel k acc : ℕ) (rest : List SockFilter)
      → run_rest c s (suc fuel) (stmt (ret c) k ∷ rest) acc ≡ some k
  unfolding run_rest execute stmt
  run_ret fuel k acc rest = ground arith

  run_jeq :
      (fuel k jt jf acc : ℕ) (rest : List SockFilter)
      → run_rest c s (suc fuel) (jump (jeq c) k jt jf ∷ rest) acc
        ≡ run_rest c s fuel (drop (if acc == k then jt else jf) rest) acc
  unfolding run_rest execute jump
  run_jeq fuel k jt jf acc rest = ground arith

  run_jge :
      (fuel k jt jf acc : ℕ) (rest : List SockFilter)
      → run_rest c s (suc fuel) (jump (jge c) k jt jf ∷ rest) acc
        ≡ run_rest c s fuel (drop (if leb k acc then jt else jf) rest) acc
  unfolding run_rest execute jump
  run_jge fuel k jt jf acc rest = ground arith

  run_ld_nr :
      (fuel acc : ℕ) (rest : List SockFilter)
      → run_rest c s (suc fuel) (stmt (ld c) offset_nr ∷ rest) acc ≡ run_rest c s fuel rest s.nr
  unfolding run_rest execute stmt load
  run_ld_nr fuel acc rest = ground arith

  run_ld_arch :
      (fuel acc : ℕ) (rest : List SockFilter)
      → run_rest c s (suc fuel) (stmt (ld c) offset_arch ∷ rest) acc ≡ run_rest c s fuel rest s.arch
  unfolding run_rest execute stmt load
  run_ld_arch fuel acc rest = ground arith

  run_ld_arg1 :
      (fuel acc : ℕ) (rest : List SockFilter)
      → run_rest c s (suc fuel) (stmt (ld c) offset_arg1_lo ∷ rest) acc
        ≡ run_rest c s fuel rest s.arg1
  unfolding run_rest execute stmt load
  run_ld_arg1 fuel acc rest = ground arith

  pub Decides-ret : (k acc : ℕ) (rest : List SockFilter) → Decides c s (stmt (ret c) k ∷ rest) acc k
  Decides-ret k acc rest zero h = absurd (omega arith)
  Decides-ret k acc rest (suc fuel) h = run_ret fuel k acc rest

  pub Decides-jeq :
      (k jt jf acc r : ℕ) (rest : List SockFilter)
      → Decides c s (drop (if acc == k then jt else jf) rest) acc r
      → Decides c s (jump (jeq c) k jt jf ∷ rest) acc r
  Decides-jeq k jt jf acc r rest d zero h = absurd (omega arith)
  Decides-jeq k jt jf acc r rest d (suc fuel) h =
      run_jeq fuel k jt jf acc rest
      ∙ d fuel (omega (arith, length-drop (if acc == k then jt else jf) rest))

  pub Decides-jge :
      (k jt jf acc r : ℕ) (rest : List SockFilter)
      → Decides c s (drop (if leb k acc then jt else jf) rest) acc r
      → Decides c s (jump (jge c) k jt jf ∷ rest) acc r
  Decides-jge k jt jf acc r rest d zero h = absurd (omega arith)
  Decides-jge k jt jf acc r rest d (suc fuel) h =
      run_jge fuel k jt jf acc rest
      ∙ d fuel (omega (arith, length-drop (if leb k acc then jt else jf) rest))

  pub Decides-ld_nr :
      (acc r : ℕ) (rest : List SockFilter)
      → Decides c s rest s.nr r
      → Decides c s (stmt (ld c) offset_nr ∷ rest) acc r
  Decides-ld_nr acc r rest d zero h = absurd (omega arith)
  Decides-ld_nr acc r rest d (suc fuel) h = run_ld_nr fuel acc rest ∙ d fuel (omega arith)

  pub Decides-ld_arch :
      (acc r : ℕ) (rest : List SockFilter)
      → Decides c s rest s.arch r
      → Decides c s (stmt (ld c) offset_arch ∷ rest) acc r
  Decides-ld_arch acc r rest d zero h = absurd (omega arith)
  Decides-ld_arch acc r rest d (suc fuel) h = run_ld_arch fuel acc rest ∙ d fuel (omega arith)

  pub Decides-ld_arg1 :
      (acc r : ℕ) (rest : List SockFilter)
      → Decides c s rest s.arg1 r
      → Decides c s (stmt (ld c) offset_arg1_lo ∷ rest) acc r
  Decides-ld_arg1 acc r rest d zero h = absurd (omega arith)
  Decides-ld_arg1 acc r rest d (suc fuel) h = run_ld_arg1 fuel acc rest ∙ d fuel (omega arith)
