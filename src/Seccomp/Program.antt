-- ===== src/Seccomp/Program.antt =====
-- The filter of src/sys/seccomp.rs against the policy.
use psbox.Common.{
  ℕ, suc, ◌+◌, ◌*◌, ◌≤◌, ◌≡◌, refl, ◌∙◌, Bool, true, false, some, List, [], ◌∷◌, ◌++◌, ◌&&◌, leb,
  ◌==◌, if◌then◌else◌, length, drop, drop-append_length, append-nil, Bool-cases, lt→ltb, inl, inr,
  arith,
}
use psbox.Seccomp.{
  Libc, Target, x86_64, aarch64, SockFilter, Call, audit_arch, audit_arch_i386, stmt, jump,
  i386_ioctl, u32, ld, jeq, ret, deny, run, deny_each, checks, offset_arg1_lo, native_block,
  compat_block, program, denied_syscalls, i386_numbers, i386_denied, offset_nr, offset_arch,
}
use psbox.Seccomp.Machine.{
  Decides, Decides-ret, Decides-jeq, Decides-jge, Decides-ld_nr, Decides-ld_arch, Decides-ld_arg1,
  run-rest,
}
use psbox.Seccomp.Policy.{
  IsLibc, contains, injects, filtered, native_verdict, compat_verdict, verdict,
}

deny_each-append :
    (c : Libc) (denied : List ℕ) (rest tail : List SockFilter)
    → deny_each c denied rest ++ tail ≡ deny_each c denied (rest ++ tail)
unfolding deny_each
deny_each-append c [] rest tail = refl
deny_each-append c (nr ∷ denied) rest tail = rw (deny_each-append c denied rest tail)

module _ (c : Libc) (known : IsLibc c) (s : Call) where
  deny_each-Decides :
      (denied : List ℕ) (rest : List SockFilter) (acc r : ℕ)
      → Decides c s rest acc r
      → Decides c s (deny_each c denied rest) acc (if contains denied acc then deny c else r)
  unfolding deny_each
  deny_each-Decides [] rest acc r d = d
  deny_each-Decides (nr ∷ denied) rest acc r d =
      let ih = deny_each-Decides denied rest acc r d in
      Decides-jeq c known s nr 0 1 acc _ _ (elim (Bool-cases (acc == nr)) [
        | inl hit ↦ rw hit (Decides-ret c known s (deny c) acc _)
        | inr miss ↦ rw miss ih
      ])

  -- The last seven instructions of `checks`.
  ioctl-Decides :
      (ioctl : ℕ) (tail : List SockFilter)
      → Decides c s
          (jump (jeq c) ioctl 0 5
            ∷ stmt (ld c) offset_arg1_lo
            ∷ jump (jeq c) (u32 c.tiocsti) 2 0
            ∷ jump (jeq c) (u32 c.tioclinux) 1 0
            ∷ stmt (ret c) c.seccomp_ret_allow
            ∷ stmt (ret c) (deny c)
            ∷ stmt (ret c) c.seccomp_ret_allow
            ∷ tail)
          s.nr
          (if s.nr == ioctl && injects c s then deny c else c.seccomp_ret_allow)
  ioctl-Decides ioctl tail =
      Decides-jeq c known s ioctl 0 5 s.nr _ _ (elim (Bool-cases (s.nr == ioctl)) [
        | inr other ↦ rw other (Decides-ret c known s c.seccomp_ret_allow s.nr tail)
        | inl is_ioctl ↦ rw is_ioctl (
            Decides-ld_arg1 c known s s.nr _ _ (
              Decides-jeq c known s (u32 c.tiocsti) 2 0 s.arg1 _ _
                (elim (Bool-cases (s.arg1 == u32 c.tiocsti)) [
                  | inl hit ↦ rw hit (Decides-ret c known s (deny c) s.arg1 _)
                  | inr miss ↦ rw miss (
                      Decides-jeq c known s (u32 c.tioclinux) 1 0 s.arg1 _ _
                        (elim (Bool-cases (s.arg1 == u32 c.tioclinux)) [
                          | inl hit ↦ rw hit (Decides-ret c known s (deny c) s.arg1 _)
                          | inr miss' ↦
                              rw miss' (Decides-ret c known s c.seccomp_ret_allow s.arg1 _)
                        ]))
                ])))
      ])

  checks-Decides :
      (denied : List ℕ) (ioctl : ℕ) (tail : List SockFilter)
      → Decides c s (checks c denied ioctl ++ tail) s.nr (filtered c denied ioctl s)
  unfolding checks
  checks-Decides denied ioctl tail =
      rw (deny_each-append c denied _ tail)
        (deny_each-Decides denied _ s.nr _ (ioctl-Decides ioctl tail))

  native-Decides :
      (t : Target) (tail : List SockFilter) (acc : ℕ)
      → Decides c s (native_block c t ++ tail) acc (native_verdict c t s)
  unfolding native_block
  native-Decides aarch64 tail acc = Decides-ld_nr c known s acc _ _ (checks-Decides _ _ tail)
  native-Decides x86_64 tail acc = Decides-ld_nr c known s acc _ _ (
      Decides-jge c known s 0x4000_0000 0 1 s.nr _ _ (elim (Bool-cases (leb 0x4000_0000 s.nr)) [
        | inl x32 ↦ rw x32 (Decides-ret c known s (deny c) s.nr _)
        | inr native ↦ rw native (checks-Decides _ _ tail)
      ]))

length-deny_each :
    (c : Libc) (denied : List ℕ) (rest : List SockFilter)
    → length (deny_each c denied rest) ≡ 2 * length denied + length rest
unfolding deny_each
length-deny_each c [] rest = omega arith
length-deny_each c (nr ∷ denied) rest = omega (arith, length-deny_each c denied rest)

-- The jump over the native block fits.
length-native_block : (c : Libc) (t : Target) → length (native_block c t) ≤ 42
unfolding native_block checks denied_syscalls
length-native_block c x86_64 = omega (arith, length-deny_each c)
length-native_block c aarch64 = omega (arith, length-deny_each c)

drop_native :
    (f : SockFilter) (native block : List SockFilter)
    → drop (1 + length native) (f ∷ native ++ block) ≡ block
drop_native f native block = rw (one-add (length native)) (drop-append_length native block)
  where
    one-add : (n : ℕ) → 1 + n ≡ suc n
    one-add n = omega arith

module _ (c : Libc) (known : IsLibc c) (s : Call) where
  plain-Decides :
      (t : Target)
      → Decides c s
          (stmt (ld c) offset_arch
            ∷ jump (jeq c) (audit_arch t) 1 0
            ∷ stmt (ret c) c.seccomp_ret_kill_process
            ∷ native_block c t)
          0
          (if s.arch == audit_arch t then native_verdict c t s else c.seccomp_ret_kill_process)
  plain-Decides t = Decides-ld_arch c known s 0 _ _ (
      Decides-jeq c known s (audit_arch t) 1 0 s.arch _ _
        (elim (Bool-cases (s.arch == audit_arch t)) [
          | inl native ↦ rw native (rw append-nil at (native-Decides c known s t [] s.arch))
          | inr foreign ↦
              rw foreign
                (Decides-ret c known s c.seccomp_ret_kill_process s.arch (native_block c t))
        ]))

  -- The second test of the architecture, and its jump over the native block.
  split-Decides :
      (t : Target) (arch r : ℕ) (block : List SockFilter)
      → Decides c s block s.arch r
      → Decides c s
          (stmt (ld c) offset_arch
              ∷ jump (jeq c) (audit_arch t) 2 0
              ∷ jump (jeq c) arch (1 + length (native_block c t)) 0
              ∷ stmt (ret c) c.seccomp_ret_kill_process
              ∷ native_block c t
            ++ block)
          0
          (if s.arch == audit_arch t
            then native_verdict c t s
            else if s.arch == arch
            then r
            else c.seccomp_ret_kill_process)
  split-Decides t arch r block d = Decides-ld_arch c known s 0 _ _ (
      Decides-jeq c known s (audit_arch t) 2 0 s.arch _ _
        (elim (Bool-cases (s.arch == audit_arch t)) [
          | inl native ↦ rw native (native-Decides c known s t block s.arch)
          | inr foreign ↦ rw foreign (
              Decides-jeq c known s arch (1 + length (native_block c t)) 0 s.arch _ _
                (elim (Bool-cases (s.arch == arch)) [
                  | inl compat ↦ rw (compat, drop_native _ (native_block c t) block) d
                  | inr other ↦ rw other (
                      Decides-ret c known s c.seccomp_ret_kill_process s.arch
                        (native_block c t ++ block))
                ]))
        ]))

  compat-Decides :
      (acc : ℕ)
      → Decides c s
          (stmt (ld c) offset_nr
            ∷ checks c (i386_denied (i386_numbers c) (denied_syscalls c x86_64)) i386_ioctl)
          acc
          (compat_verdict c s)
  compat-Decides acc = Decides-ld_nr c known s acc _ _ (
      rw append-nil at (
        checks-Decides c known s (i386_denied (i386_numbers c) (denied_syscalls c x86_64))
          i386_ioctl []))

  decided : (p : List SockFilter) {r : ℕ} → Decides c s p 0 r → run c s p ≡ some r
  decided p d = run-rest c s p ∙ d (length p) (omega arith)

  -- For every target, setting and system call the program is built, which means that its long jump
  -- fits a byte, and run on the call it returns the verdict of the policy: no run leaves the
  -- program or meets another instruction, a call of a foreign architecture kills the process, an
  -- x32 call, a denied number and a terminal-injecting `ioctl` are refused, and the rest is allowed.
  pub run-program :
      (t : Target) (allow_32bit : Bool)
      → (p : List SockFilter) × (program c t allow_32bit ≡ some p)
        × (run c s p ≡ some (verdict c t allow_32bit s))
  unfolding program compat_block
  run-program aarch64 allow_32bit = (_, refl, decided _ (plain-Decides aarch64))
  run-program x86_64 false = (_, refl, decided _ (plain-Decides x86_64))
  run-program x86_64 true = (
    _,
    rw (
        lt→ltb (1 + length (native_block c x86_64)) 256
          (omega (arith, length-native_block c x86_64))),
    decided _ (split-Decides x86_64 audit_arch_i386 _ _ (compat-Decides s.arch)),
  )
