-- ===== src/Sandbox/Pipes/Limits.antt =====
-- What the pipes of src/sandbox/runner.rs carry.
use mikan_judge.Prelude.{
  ℕ, zero, suc, ◌-◌, ◌≤◌, ◌≡◌, refl, ap, ◌∙◌, List, [], ◌∷◌, ◌++◌, length, take, drop, min, ltb,
  Bool-cases, false, sym, inl, inr, length-append, length-take, length-drop, All, ◌<◌, arith,
}
use mathlib.Core.List.{append_assoc, append-nil}
use mathlib.Core.Path.{◌≡⟨◌⟩◌, ◌∎}
use mikan_judge.Sandbox.{Bytes}
use mikan_judge.Sandbox.Pipes.{drain_fd, drain_from, keep, write_stdin}

-- The bytes in front of the first read that returns nothing.
abbrev pub until_end : List Bytes → Bytes
until_end [] = []
until_end ([] ∷ _) = []
until_end ((b ∷ chunk) ∷ reads) = (b ∷ chunk) ++ until_end reads

min-zero : (n : ℕ) → min n zero ≡ zero
min-zero n = omega arith

zero-min : (n : ℕ) → min zero n ≡ zero
zero-min n = omega arith

sub_zero : (n : ℕ) → n - zero ≡ n
sub_zero n = omega arith

min-suc : (n m : ℕ) → min (suc n) (suc m) ≡ suc (min n m)
min-suc n m = omega arith

zero_sub : (n : ℕ) → zero - n ≡ zero
zero_sub n = omega arith

suc_sub : (n m : ℕ) → suc n - suc m ≡ n - m
suc_sub n m = omega arith

no_room : (n : ℕ) → ltb 0 n ≡ false → n ≡ 0
no_room n h = ground arith

take-min : (n : ℕ) (xs : Bytes) → take (min (length xs) n) xs ≡ take n xs
take-min zero xs = rw (min-zero (length xs))
take-min (suc n) [] = rw (zero-min (suc n))
take-min (suc n) (x ∷ xs) = rw (min-suc (length xs) n) (ap (λ t. x ∷ t) (take-min n xs))

take-append : (n : ℕ) (xs ys : Bytes) → take n (xs ++ ys) ≡ take n xs ++ take (n - length xs) ys
take-append zero xs ys = rw (zero_sub (length xs))
take-append (suc n) [] ys = rw (sub_zero (suc n))
take-append (suc n) (x ∷ xs) ys = rw (suc_sub n (length xs)) (ap (λ t. x ∷ t) (take-append n xs ys))

keep-eq-take :
    (max_bytes : ℕ) (out chunk : Bytes)
    → keep max_bytes out chunk ≡ out ++ take (max_bytes - length out) chunk
unfolding keep
keep-eq-take max_bytes out chunk = elim (Bool-cases (ltb 0 (max_bytes - length out))) [
  | inl more ↦ rw more (rw (take-min (max_bytes - length out) chunk))
  | inr full ↦ rw full (rw (no_room (max_bytes - length out) full) (sym (append-nil out)))
]

take-nil : (n : ℕ) → take {A = ℕ} n [] ≡ []
take-nil zero = refl
take-nil (suc n) = refl

room_left :
    (max_bytes : ℕ) (out chunk : Bytes)
    → max_bytes - length (out ++ take (max_bytes - length out) chunk)
      ≡ max_bytes - length out - length chunk
room_left max_bytes out chunk = omega (
  arith,
  length-append out (take (max_bytes - length out) chunk),
  length-take (max_bytes - length out) chunk,
)

drain_from-eq-take :
    (max_bytes : ℕ) (out : Bytes) (reads : List Bytes)
    → drain_from max_bytes out reads ≡ out ++ take (max_bytes - length out) (until_end reads)
unfolding drain_from
drain_from-eq-take max_bytes out [] = rw (take-nil (max_bytes - length out)) (sym (append-nil out))
drain_from-eq-take max_bytes out ([] ∷ reads) =
    rw (take-nil (max_bytes - length out)) (sym (append-nil out))
drain_from-eq-take max_bytes out ((b ∷ chunk) ∷ reads) =
    let room = max_bytes - length out in
    drain_from max_bytes (keep max_bytes out (b ∷ chunk)) reads
    ≡⟨ drain_from-eq-take max_bytes (keep max_bytes out (b ∷ chunk)) reads ⟩
      keep max_bytes out (b ∷ chunk)
      ++ take (max_bytes - length (keep max_bytes out (b ∷ chunk))) (until_end reads)
    ≡⟨ ap (λ kept. kept ++ take (max_bytes - length kept) (until_end reads))
        (keep-eq-take max_bytes out (b ∷ chunk)) ⟩
      (out ++ take room (b ∷ chunk))
      ++ take (max_bytes - length (out ++ take room (b ∷ chunk))) (until_end reads)
    ≡⟨ ap (λ n. (out ++ take room (b ∷ chunk)) ++ take n (until_end reads))
        (room_left max_bytes out (b ∷ chunk)) ⟩
      (out ++ take room (b ∷ chunk)) ++ take (room - length (b ∷ chunk)) (until_end reads)
    ≡⟨ append_assoc out (take room (b ∷ chunk)) _ ⟩
      out ++ (take room (b ∷ chunk) ++ take (room - length (b ∷ chunk)) (until_end reads))
    ≡⟨ ap (λ t. out ++ t) (sym (take-append room (b ∷ chunk) (until_end reads))) ⟩
      out ++ take room ((b ∷ chunk) ++ until_end reads) ∎

-- What is kept of an output is its first `max_bytes` bytes, and all of it if it is shorter.
pub drain_fd-eq-take :
    (max_bytes : ℕ) (reads : List Bytes)
    → drain_fd max_bytes reads ≡ take max_bytes (until_end reads)
unfolding drain_fd
drain_fd-eq-take max_bytes reads =
    drain_from-eq-take max_bytes [] reads ∙ ap (λ n. take n (until_end reads)) (sub_zero max_bytes)

take-append-drop : (n : ℕ) (xs : Bytes) → take n xs ++ drop n xs ≡ xs
take-append-drop zero xs = refl
take-append-drop (suc n) [] = refl
take-append-drop (suc n) (x ∷ xs) = ap (λ t. x ∷ t) (take-append-drop n xs)

-- If every write of the input returns a positive count, and there are as many of them as the input
-- has bytes, the pipe takes the whole input, each byte once and in order.
pub write_stdin_whole :
    (input : Bytes) (returns : List ℕ)
    → All (λ n. 0 < n) returns
    → length input ≤ length returns
    → write_stdin input returns ≡ input
unfolding write_stdin
write_stdin_whole [] returns h k = refl
write_stdin_whole (b ∷ rest) [] h k = absurd (omega arith)
write_stdin_whole (b ∷ rest) (zero ∷ returns) h k = absurd (omega arith)
write_stdin_whole (b ∷ rest) (suc n ∷ returns) (h, hs) k =
    rw (write_stdin_whole (drop n rest) returns hs (omega (arith, length-drop n rest)))
      (take-append-drop (suc n) (b ∷ rest))
