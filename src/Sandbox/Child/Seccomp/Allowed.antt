-- ===== src/Sandbox/Child/Seccomp/Allowed.antt =====
-- What the filter of src/sandbox/seccomp.rs does with a system call.
use mikan_judge.Prelude.{
  ℕ, String, List, [], ◌∷◌, Bool, true, false, ◌||◌, ◌&&◌, not, ◌==◌, eqb, if◌then◌else◌,
}
use mikan_judge.Prelude.Outcome.{Outcome, ok}
use mikan_judge.Sandbox.Child.Seccomp.{Libseccomp, Action, Filter}

-- What the kernel does with the call of a number under a filter.
pub action_in : ℕ → Action → List (ℕ × Action) → Action
action_in sc otherwise [] = otherwise
action_in sc otherwise ((n, a) ∷ rules) = if eqb n sc then a else action_in sc otherwise rules

abbrev pub action_of : Filter → ℕ → Action
action_of f sc = action_in sc f.default_action f.rules

pub elem : String → List String → Bool
elem x [] = false
elem x (y ∷ ys) = (x == y) || elem x ys

-- The calls that a submission must not make: of the network, on other processes and on the system.
abbrev pub forbidden : List String
forbidden =
    "socket" ∷ "socketpair" ∷ "connect" ∷ "bind" ∷ "listen" ∷ "accept" ∷ "accept4" ∷ "sendto"
    ∷ "recvfrom" ∷ "sendmsg" ∷ "recvmsg" ∷ "fork" ∷ "vfork" ∷ "clone" ∷ "clone3" ∷ "kill" ∷ "tkill"
    ∷ "tgkill" ∷ "ptrace" ∷ "process_vm_readv" ∷ "process_vm_writev" ∷ "mount" ∷ "umount2"
    ∷ "pivot_root" ∷ "chroot" ∷ "unshare" ∷ "setns" ∷ "setuid" ∷ "setgid" ∷ "setrlimit" ∷ "unlink"
    ∷ "unlinkat" ∷ "rename" ∷ "renameat2" ∷ "mkdir" ∷ "rmdir" ∷ "chmod" ∷ "chown" ∷ "truncate"
    ∷ "ftruncate" ∷ "reboot" ∷ "bpf" ∷ "init_module" ∷ "seccomp" ∷ "keyctl" ∷ []

-- The calls without which no program is started, reads, writes and ends.
abbrev pub needed : List String
needed =
    "execve" ∷ "brk" ∷ "mmap" ∷ "munmap" ∷ "mprotect" ∷ "arch_prctl" ∷ "openat" ∷ "read" ∷ "write"
    ∷ "close" ∷ "exit" ∷ "exit_group" ∷ []

disjoint : List String → List String → Bool
unfolding elem
disjoint [] ys = true
disjoint (x ∷ xs) ys = not (elem x ys) && disjoint xs ys

within : List String → List String → Bool
unfolding elem
within [] ys = true
within (x ∷ xs) ys = elem x ys && within xs ys

module _ (lib : Libseccomp) where
  is_ok : Outcome (Unit {0}) → Bool
  is_ok (ok _) = true
  is_ok _ = false
