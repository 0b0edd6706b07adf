-- ===== src/Seccomp/Tests.antt =====
-- Runs of the filter of src/sys/seccomp.rs with the constants of x86_64 Linux.
use psbox.Common.{◌≡◌, refl, true, false, some, List, arith}
use psbox.Seccomp.{Libc, SockFilter, x86_64, Call, deny, program, run}
use psbox.Seccomp.Policy.{IsLibc, verdict}
use psbox.Seccomp.Program.{run-program}

abbrev linux : Libc
linux = record {
  bpf_ld = 0;
  bpf_w = 0;
  bpf_abs = 0x20;
  bpf_jmp = 5;
  bpf_jeq = 0x10;
  bpf_jge = 0x30;
  bpf_ret = 6;
  bpf_k = 0;
  seccomp_ret_errno = 0x50000;
  eperm = 1;
  seccomp_ret_kill_process = 0x8000_0000;
  seccomp_ret_allow = 0x7fff_0000;
  tiocsti = 0x5412;
  tioclinux = 0x541c;
  sys_keyctl = 250;
  sys_add_key = 248;
  sys_request_key = 249;
  sys_kexec_load = 246;
  sys_kexec_file_load = 320;
  sys_init_module = 175;
  sys_finit_module = 313;
  sys_delete_module = 176;
  sys_reboot = 169;
  sys_swapon = 167;
  sys_swapoff = 168;
  sys_acct = 163;
  sys_quotactl = 179;
  sys_quotactl_fd = 443;
  sys_perf_event_open = 298;
  sys_bpf = 321;
  sys_ioctl = 16;
}

linux-IsLibc : IsLibc linux
linux-IsLibc = omega arith

-- `ioctl(fd, TIOCSTI)` of an i386 program.
abbrev inject : Call
inject = record { arch = 0x4000_0003; nr = 54; arg1 = 0x5412 }

run-program_example :
    (p : List SockFilter) × (program linux x86_64 true ≡ some p)
    × (run linux inject p ≡ some (verdict linux x86_64 true inject))
run-program_example = run-program linux linux-IsLibc inject x86_64 true

-- The policy at that call.
inject_denied : verdict linux x86_64 true inject ≡ deny linux
unfolding psbox.Seccomp.i386_denied psbox.Seccomp.find_number psbox.Seccomp.denied_syscalls
    psbox.Seccomp.i386_numbers
inject_denied = refl

inject_killed : verdict linux x86_64 false inject ≡ linux.seccomp_ret_kill_process
inject_killed = refl
