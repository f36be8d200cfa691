-- ===== src/Sandbox/Child/Seccomp.antt =====
-- `apply_filter` of src/sandbox/seccomp.rs, in the build for Linux. libseccomp is the argument
-- `Libseccomp`.
pub mod Allowed
use mikan_judge.Prelude.{ℕ, String, Option, none, some, List, [], ◌∷◌}
use mikan_judge.Prelude.Outcome.{Outcome, ok, err, panic, out_of_fuel, ◌>>=◌, ◌>>◌}

abbrev pub allowed : List String
allowed =
    "read" ∷ "write" ∷ "readv" ∷ "writev" ∷ "pread64" ∷ "pwrite64" ∷ "close" ∷ "fcntl" ∷ "fstat"
    ∷ "newfstatat" ∷ "lseek" ∷ "open" ∷ "openat" ∷ "access" ∷ "faccessat" ∷ "faccessat2"
    ∷ "getdents64" ∷ "readlinkat" ∷ "brk" ∷ "mmap" ∷ "munmap" ∷ "mprotect" ∷ "mremap" ∷ "madvise"
    ∷ "exit" ∷ "exit_group" ∷ "rt_sigaction" ∷ "rt_sigprocmask" ∷ "rt_sigreturn" ∷ "sigaltstack"
    ∷ "execve" ∷ "execveat" ∷ "futex" ∷ "set_tid_address" ∷ "set_robust_list" ∷ "sched_getaffinity"
    ∷ "rseq" ∷ "gettid" ∷ "getpid" ∷ "arch_prctl" ∷ "clock_gettime" ∷ "clock_getres"
    ∷ "gettimeofday" ∷ "ppoll" ∷ "prlimit64" ∷ "getrandom" ∷ "getuid" ∷ "geteuid" ∷ "getgid"
    ∷ "getegid" ∷ "getcwd" ∷ "sysinfo" ∷ "statx" ∷ "uname" ∷ "ioctl" ∷ []

-- What becomes of a system call.
pub data Action : Type 0 where
  allow kill_process : Action

-- A filter context: the action for the calls that no rule is for, and the rules, the latest first.
pub record Filter : Type 0 where
  pub default_action : Action
  pub rules : List (ℕ × Action)

-- How the calls of libseccomp end: opening a filter with its default action, finding the number of a
-- system call by its name, adding a rule, and loading.
pub record Libseccomp : Type 0 where
  pub new_filter : Action → Outcome (Unit {0})
  pub from_name : String → Option ℕ
  pub add_rule : Action → ℕ → Outcome (Unit {0})
  pub load : Outcome (Unit {0})

abbrev pub with_rule : ℕ → Filter → Filter
with_rule sc ctx = record ctx { rules = (sc, allow) ∷ ctx.rules }

-- `loaded` is the filter that the process has: one that is not loaded is dropped.
abbrev pub install : (loaded : Option Filter) → Outcome Filter → Outcome (Unit {0}) × Option Filter
install loaded (ok ctx) = (ok tt, some ctx)
install loaded (err e) = (err e, loaded)
install loaded panic = (panic, loaded)
install loaded out_of_fuel = (out_of_fuel, loaded)

module _ (lib : Libseccomp) where
  -- The loop over the names; one that the kernel does not know is passed over.
  unfoldable pub add_rules : List String → Filter → Outcome Filter
  add_rules [] ctx = ok ctx
  add_rules (name ∷ names) ctx = elim (lib.from_name name) [
    | none ↦ add_rules names ctx
    | some sc ↦ (do lib.add_rule allow sc; add_rules names (with_rule sc ctx))
  ]

  unfoldable pub prepared : Outcome Filter
  unfolding add_rules
  prepared = do
    lib.new_filter kill_process
    add_rules allowed (record { default_action = kill_process; rules = [] })

  unfoldable pub apply_filter : (loaded : Option Filter) → Outcome (Unit {0}) × Option Filter
  unfolding prepared
  apply_filter loaded = install loaded (do ctx ← prepared; lib.load; ok ctx)
