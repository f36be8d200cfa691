-- ===== src/Sandbox/Pipes.antt =====
-- The pipes of src/sandbox/runner.rs: `drain_fd`, and the thread of `parent_collect` that writes
-- the input. What `read` and `write` return is a list; behind its end they return 0.
pub mod Limits
use mikan_judge.Prelude.{
  ℕ, zero, suc, ◌-◌, List, [], ◌∷◌, ◌++◌, length, take, drop, ltb, min, if◌then◌else◌,
}
use mikan_judge.Sandbox.{Bytes}

-- One read of n bytes. An empty chunk is `n <= 0`.
keep : ℕ → Bytes → Bytes → Bytes
keep max_bytes out chunk =
    let remaining = max_bytes - length out in
    if ltb 0 remaining then out ++ take (min (length chunk) remaining) chunk else out

drain_from : ℕ → Bytes → List Bytes → Bytes
drain_from max_bytes out [] = out
drain_from max_bytes out ([] ∷ _) = out
drain_from max_bytes out ((b ∷ chunk) ∷ reads) =
    drain_from max_bytes (keep max_bytes out (b ∷ chunk)) reads

unfoldable pub drain_fd : (max_bytes : ℕ) → (reads : List Bytes) → Bytes
unfolding drain_from keep
drain_fd max_bytes reads = drain_from max_bytes [] reads

-- The bytes that the pipe has taken, where the writes return these counts (0 for `n <= 0`).
unfoldable pub write_stdin : (remaining : Bytes) → (returns : List ℕ) → Bytes
write_stdin [] _ = []
write_stdin (b ∷ rest) [] = []
write_stdin (b ∷ rest) (zero ∷ _) = []
write_stdin (b ∷ rest) (suc n ∷ returns) =
    take (suc n) (b ∷ rest) ++ write_stdin (drop (suc n) (b ∷ rest)) returns
