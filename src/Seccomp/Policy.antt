-- ===== src/Seccomp/Policy.antt =====
-- The policy that the filter of src/sys/seccomp.rs stands for, said without jumps.
use psbox.Common.{
  ℕ, ◌<◌, ◌≢◌, ◌^◌, Bool, false, List, [], ◌∷◌, ◌&&◌, ◌||◌, map, leb, ◌==◌, if◌then◌else◌,
}
use psbox.Seccomp.{
  Libc, Target, x86_64, aarch64, Call, audit_arch, audit_arch_i386, i386_ioctl, u32, ld, jeq, jge,
  ret, deny, denied_syscalls, i386_numbers, i386_denied,
}

-- The four instructions are told apart by their codes, which fit 16 bits (linux/bpf_common.h).
pub record IsLibc (c : Libc) : Type 0 where
  pub ld_fits : ld c < 2 ^ 16
  pub jeq_fits : jeq c < 2 ^ 16
  pub jge_fits : jge c < 2 ^ 16
  pub ret_fits : ret c < 2 ^ 16
  pub jeq-ne-ld : jeq c ≢ ld c
  pub jge-ne-ld : jge c ≢ ld c
  pub ret-ne-ld : ret c ≢ ld c
  pub jge-ne-jeq : jge c ≢ jeq c
  pub ret-ne-jeq : ret c ≢ jeq c
  pub ret-ne-jge : ret c ≢ jge c

abbrev pub contains : List ℕ → ℕ → Bool
contains [] a = false
contains (x ∷ xs) a = a == x || contains xs a

module _ (c : Libc) where
  -- Whether the request of an `ioctl` types into a terminal.
  abbrev pub injects : Call → Bool
  injects s = s.arg1 == u32 c.tiocsti || s.arg1 == u32 c.tioclinux

  abbrev pub filtered : List ℕ → ℕ → Call → ℕ
  filtered denied ioctl s =
      if contains denied s.nr
      then deny c
      else if s.nr == ioctl && injects s
      then deny c
      else c.seccomp_ret_allow

  abbrev pub is_x32 : Target → ℕ → Bool
  is_x32 x86_64 nr = leb 0x4000_0000 nr
  is_x32 aarch64 nr = false

  abbrev pub native_verdict : Target → Call → ℕ
  native_verdict t s =
      if is_x32 t s.nr then deny c else filtered (map u32 (denied_syscalls c t)) (u32 c.sys_ioctl) s

  abbrev pub compat_verdict : Call → ℕ
  compat_verdict s = filtered (i386_denied (i386_numbers c) (denied_syscalls c x86_64)) i386_ioctl s

  abbrev pub has_compat : Target → Bool → Bool
  has_compat x86_64 allow_32bit = allow_32bit
  has_compat aarch64 allow_32bit = false

  abbrev pub verdict : Target → Bool → Call → ℕ
  verdict t allow_32bit s =
      if s.arch == audit_arch t
      then native_verdict t s
      else if has_compat t allow_32bit && s.arch == audit_arch_i386
      then compat_verdict s
      else c.seccomp_ret_kill_process
