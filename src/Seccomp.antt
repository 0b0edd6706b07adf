-- ===== src/Seccomp.antt =====
-- src/sys/seccomp.rs: the system call filter of a sandbox, a classic BPF program.
-- The numbers that the `libc` crate gives are fields of `Libc`, a parameter; the `cfg` lines on
-- the architecture are the argument `Target`. Words of the filter are natural numbers below 2 ^ 32.
pub mod Policy
pub mod Machine
pub mod Program
mod Tests
use psbox.Common.{
  ℕ, zero, suc, ◌+◌, ◌*◌, ◌%◌, ◌^◌, ◌<◌, ◌≡◌, ◌≢◌, Bool, true, false, Option, none, some, List, [],
  ◌∷◌, ◌++◌, map, bit_or, ltb, leb, ◌==◌, if◌then◌else◌, length, get_elem?,
}

-- The constants of the `libc` crate that the filter is written with.
pub record Libc : Type 0 where
  pub bpf_ld : ℕ
  pub bpf_w : ℕ
  pub bpf_abs : ℕ
  pub bpf_jmp : ℕ
  pub bpf_jeq : ℕ
  pub bpf_jge : ℕ
  pub bpf_ret : ℕ
  pub bpf_k : ℕ
  pub seccomp_ret_errno : ℕ
  pub eperm : ℕ
  pub seccomp_ret_kill_process : ℕ
  pub seccomp_ret_allow : ℕ
  pub tiocsti : ℕ
  pub tioclinux : ℕ
  pub sys_keyctl : ℕ
  pub sys_add_key : ℕ
  pub sys_request_key : ℕ
  pub sys_kexec_load : ℕ
  pub sys_kexec_file_load : ℕ
  pub sys_init_module : ℕ
  pub sys_finit_module : ℕ
  pub sys_delete_module : ℕ
  pub sys_reboot : ℕ
  pub sys_swapon : ℕ
  pub sys_swapoff : ℕ
  pub sys_acct : ℕ
  pub sys_quotactl : ℕ
  pub sys_quotactl_fd : ℕ
  pub sys_perf_event_open : ℕ
  pub sys_bpf : ℕ
  pub sys_ioctl : ℕ

-- `target_arch`
pub data Target : Type 0 where
  x86_64 aarch64 : Target

-- `libc::sock_filter`
pub record SockFilter : Type 0 where
  pub code : ℕ
  pub jt : ℕ
  pub jf : ℕ
  pub k : ℕ

abbrev pub audit_arch : Target → ℕ
audit_arch x86_64 = 0xc000_003e
audit_arch aarch64 = 0xc000_00b7

abbrev pub audit_arch_i386 : ℕ
audit_arch_i386 = 0x4000_0003

abbrev pub i386_ioctl : ℕ
i386_ioctl = 54

abbrev pub offset_nr : ℕ
offset_nr = 0

abbrev pub offset_arch : ℕ
offset_arch = 4

abbrev pub offset_arg1_lo : ℕ
offset_arg1_lo = 16 + 8

-- Arguments are `u32` words where the source casts with `as u32`.
abbrev pub u32 : ℕ → ℕ
u32 n = n % 2 ^ 32

pub stmt : ℕ → ℕ → SockFilter
stmt code k = record { code = code % 2 ^ 16; jt = 0; jf = 0; k = k }

pub jump : ℕ → ℕ → ℕ → ℕ → SockFilter
jump code k jt jf = record { code = code % 2 ^ 16; jt = jt; jf = jf; k = k }

module _ (c : Libc) where
  abbrev pub ld : ℕ
  ld = bit_or (bit_or c.bpf_ld c.bpf_w) c.bpf_abs

  abbrev pub jeq : ℕ
  jeq = bit_or (bit_or c.bpf_jmp c.bpf_jeq) c.bpf_k

  abbrev pub jge : ℕ
  jge = bit_or (bit_or c.bpf_jmp c.bpf_jge) c.bpf_k

  abbrev pub ret : ℕ
  ret = bit_or c.bpf_ret c.bpf_k

  abbrev pub deny : ℕ
  deny = bit_or c.seccomp_ret_errno (u32 c.eperm)

  -- On aarch64 the number of `kexec_file_load` is written out.
  abbrev pub kexec_file_load : Target → ℕ
  kexec_file_load x86_64 = c.sys_kexec_file_load
  kexec_file_load aarch64 = 294

  pub denied_syscalls : Target → List ℕ
  denied_syscalls t =
      c.sys_keyctl
      ∷ c.sys_add_key
      ∷ c.sys_request_key
      ∷ c.sys_kexec_load
      ∷ kexec_file_load t
      ∷ c.sys_init_module
      ∷ c.sys_finit_module
      ∷ c.sys_delete_module
      ∷ c.sys_reboot
      ∷ c.sys_swapon
      ∷ c.sys_swapoff
      ∷ c.sys_acct
      ∷ c.sys_quotactl
      ∷ c.sys_quotactl_fd
      ∷ c.sys_perf_event_open
      ∷ c.sys_bpf
      ∷ []

  unfoldable pub i386_numbers : List (ℕ × ℕ)
  i386_numbers =
      (c.sys_keyctl, 288)
      ∷ (c.sys_add_key, 286)
      ∷ (c.sys_request_key, 287)
      ∷ (c.sys_kexec_load, 283)
      ∷ (c.sys_init_module, 128)
      ∷ (c.sys_finit_module, 350)
      ∷ (c.sys_delete_module, 129)
      ∷ (c.sys_reboot, 88)
      ∷ (c.sys_swapon, 87)
      ∷ (c.sys_swapoff, 115)
      ∷ (c.sys_acct, 51)
      ∷ (c.sys_quotactl, 131)
      ∷ (c.sys_quotactl_fd, 443)
      ∷ (c.sys_perf_event_open, 336)
      ∷ (c.sys_bpf, 357)
      ∷ []

-- `I386_NUMBERS.iter().find(|(n, _)| *n == nr).map(|(_, i)| *i)`
unfoldable pub find_number : ℕ → List (ℕ × ℕ) → Option ℕ
find_number nr [] = none
find_number nr ((n, i) ∷ rest) = if n == nr then some i else find_number nr rest

abbrev keep_some : Option ℕ → List ℕ → List ℕ
keep_some none rest = rest
keep_some (some i) rest = i ∷ rest

-- The `filter_map` of `compat_block`.
unfoldable pub i386_denied : List (ℕ × ℕ) → List ℕ → List ℕ
i386_denied numbers [] = []
i386_denied numbers (nr ∷ rest) = keep_some (find_number nr numbers) (i386_denied numbers rest)

module _ (c : Libc) where
  pub deny_each : List ℕ → List SockFilter → List SockFilter
  deny_each [] rest = rest
  deny_each (nr ∷ denied) rest = jump (jeq c) nr 0 1 ∷ stmt (ret c) (deny c) ∷ deny_each denied rest

  pub checks : List ℕ → ℕ → List SockFilter
  unfolding deny_each
  checks denied ioctl = deny_each denied (
      jump (jeq c) ioctl 0 5
      ∷ stmt (ld c) offset_arg1_lo
      ∷ jump (jeq c) (u32 c.tiocsti) 2 0
      ∷ jump (jeq c) (u32 c.tioclinux) 1 0
      ∷ stmt (ret c) c.seccomp_ret_allow
      ∷ stmt (ret c) (deny c)
      ∷ stmt (ret c) c.seccomp_ret_allow
      ∷ [])

  -- The x32 ABI is denied whole.
  deny_x32 : Target → List SockFilter
  deny_x32 x86_64 = jump (jge c) 0x4000_0000 0 1 ∷ stmt (ret c) (deny c) ∷ []
  deny_x32 aarch64 = []

  pub native_block : Target → List SockFilter
  unfolding deny_x32
  native_block t =
      stmt (ld c) offset_nr ∷ deny_x32 t ++ checks (map u32 (denied_syscalls c t)) (u32 c.sys_ioctl)

  pub compat_block : Target → Bool → Option (ℕ × List SockFilter)
  compat_block x86_64 true =
      let denied = i386_denied (i386_numbers c) (denied_syscalls c x86_64) in
      some (audit_arch_i386, stmt (ld c) offset_nr ∷ checks denied i386_ioctl)
  compat_block x86_64 false = none
  compat_block aarch64 allow_32bit = none

  -- `none` is the panic of `expect` when the jump over the native block does not fit a `u8`.
  assemble : Target → List SockFilter → Option (ℕ × List SockFilter) → Option (List SockFilter)
  assemble t native none = some (
      stmt (ld c) offset_arch
      ∷ jump (jeq c) (audit_arch t) 1 0
      ∷ stmt (ret c) c.seccomp_ret_kill_process
      ∷ native)
  assemble t native (some (arch, block)) =
      if ltb (1 + length native) 256
      then some (
          stmt (ld c) offset_arch
            ∷ jump (jeq c) (audit_arch t) 2 0
            ∷ jump (jeq c) arch (1 + length native) 0
            ∷ stmt (ret c) c.seccomp_ret_kill_process
            ∷ native
          ++ block)
      else none

  pub program : Target → Bool → Option (List SockFilter)
  unfolding assemble
  program t allow_32bit = assemble t (native_block t) (compat_block t allow_32bit)

-- A system call as the filter sees it.
pub record Call : Type 0 where
  pub arch : ℕ
  pub nr : ℕ
  pub arg1 : ℕ

-- What one instruction does: go on `offset` instructions further with a new accumulator, return,
-- or panic.
pub data Next : Type 0 where
  goes : ℕ → ℕ → Next
  returns : ℕ → Next
  faults : Next

abbrev pub follow : Next → (ℕ → ℕ → Option ℕ) → Option ℕ
follow (goes offset acc) rest = rest offset acc
follow (returns k) rest = some k
follow faults rest = none

pub load : Call → ℕ → Next
load s k =
    if k == offset_nr
    then goes 0 s.nr
    else if k == offset_arch
    then goes 0 s.arch
    else if k == offset_arg1_lo
    then goes 0 s.arg1
    else faults

module _ (c : Libc) (s : Call) where
  -- One round of the interpreter in the tests of seccomp.rs.
  pub execute : SockFilter → ℕ → Next
  unfolding load
  execute f acc =
      if f.code == ld c
      then load s f.k
      else if f.code == jeq c
      then goes (if acc == f.k then f.jt else f.jf) acc
      else if f.code == jge c
      then goes (if leb f.k acc then f.jt else f.jf) acc
      else if f.code == ret c
      then returns f.k
      else faults

  -- `none` is a panic: an index outside the program, or an instruction that the filter does not
  -- use. An instruction never jumps back, so a program runs for at most its length of rounds.
  pub run_from : ℕ → List SockFilter → ℕ → ℕ → Option ℕ
  run_from zero p pc acc = none
  run_from (suc fuel) p pc acc = elim (get_elem? p pc) [
    | none ↦ none
    | some f ↦ follow (execute f acc) (λ offset acc'. run_from fuel p (pc + 1 + offset) acc')
  ]

  pub run : List SockFilter → Option ℕ
  unfolding run_from
  run p = run_from (length p) p 0 0
