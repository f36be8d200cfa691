-- ===== src/Sandbox/Wait/Loop.antt =====
-- The polling loop of `parent_collect` in src/sandbox/runner.rs.
use mikan_judge.Prelude.{
  ℕ, zero, suc, ◌+◌, ◌≤◌, ◌<◌, ◌≡◌, ◌≢◌, ◌⊎◌, refl, sym, true, false, Option, none, some, leb,
  leb→le, Bool-cases, inl, inr, arith,
}
use mathlib.Core.Path.{subst}
use mikan_judge.Sandbox.Wait.{
  StatusMacros, Poll, reaped, alive, failed, Waited, after_kill, parse_wait_status, wait_loop,
}

-- A poll that ends the loop.
abbrev pub Stops : ℕ → Poll → Type 0
Stops deadline (reaped _ _) = Unit
Stops deadline (alive now) = deadline ≤ now
Stops deadline failed = Unit

not_due : (deadline now : ℕ) → leb deadline now ≡ false → ¬ (deadline ≤ now)
not_due deadline now h = ground arith

later : (n i : ℕ) → i ≤ n → i ≢ n → suc i ≤ n
later n i h k = omega arith

module _ (m : StatusMacros) (child deadline : ℕ) (polls : ℕ → Poll) (last : Option (ℕ × ℕ)) where
  -- One round ends the loop, or leaves it to the next poll.
  Round : ℕ → ℕ → Type 0
  Round fuel i =
      ((w : Waited) × (wait_loop m child deadline polls last (suc fuel) i ≡ some w))
      ⊎ ((¬ Stops deadline (polls i))
          × (wait_loop m child deadline polls last (suc fuel) i
              ≡ wait_loop m child deadline polls last fuel (suc i)))

  Round-at : (p : Poll) (fuel i : ℕ) → polls i ≡ p → Round fuel i
  unfolding Round wait_loop
  Round-at (reaped raw maxrss) fuel i e = inl (
    record {
      final_status = some (parse_wait_status m child raw);
      maxrss = maxrss;
      was_killed = false;
    },
    rw (e, wait_loop) refl,
  )
  Round-at failed fuel i e =
      inl (record { final_status = none; maxrss = 0; was_killed = false }, rw (e, wait_loop) refl)
  Round-at (alive now) fuel i e = elim (Bool-cases (leb deadline now)) [
    | inl due ↦ inl (after_kill m child deadline last, rw (e, wait_loop) (rw due))
    | inr early ↦ inr (rw e (not_due deadline now early), rw (e, wait_loop) (rw early))
  ]

  -- With fuel for every poll up to one that ends it, the loop ends.
  pub wait_loop_returns :
      (n fuel i : ℕ)
      → i ≤ n
      → n < i + fuel
      → Stops deadline (polls n)
      → (w : Waited) × (wait_loop m child deadline polls last fuel i ≡ some w)
  unfolding Round
  wait_loop_returns n zero i h k s = absurd (omega arith)
  wait_loop_returns n (suc fuel) i h k s = elim (Round-at (polls i) fuel i refl) [
    | inl returned ↦ returned
    | inr (running, again) ↦ rw again (
        wait_loop_returns n fuel (suc i)
          (later n i h λ e. running (subst (λ j. Stops deadline (polls j)) (sym e) s)) (omega arith)
          s)
  ]

  killed_at :
      (p : Poll) (fuel i : ℕ) (w : Waited)
      → polls i ≡ p
      → wait_loop m child deadline polls last (suc fuel) i ≡ some w
      → w.was_killed ≡ true
      → ((now : ℕ) × (polls i ≡ alive now) × (deadline ≤ now))
        ⊎ (wait_loop m child deadline polls last fuel (suc i) ≡ some w)
  unfolding wait_loop
  killed_at (reaped raw maxrss) fuel i w p e k = absurd (ground (arith, p, e, k))
  killed_at failed fuel i w p e k = absurd (ground (arith, p, e, k))
  killed_at (alive now) fuel i w p e k = elim (Bool-cases (leb deadline now)) [
    | inl due ↦ inl (now, p, leb→le deadline now due)
    | inr early ↦ inr (ground (arith, p, e, early))
  ]

  -- A run is marked as killed only if some poll found the child alive at the deadline or later.
  pub wait_loop_killed :
      (fuel i : ℕ) (w : Waited)
      → wait_loop m child deadline polls last fuel i ≡ some w
      → w.was_killed ≡ true
      → (n : ℕ) × (now : ℕ) × (polls n ≡ alive now) × (deadline ≤ now)
  unfolding wait_loop
  wait_loop_killed zero i w e k = cc
  wait_loop_killed (suc fuel) i w e k = elim (killed_at (polls i) fuel i w refl e k) [
    | inl (now, p, due) ↦ (i, now, p, due)
    | inr e' ↦ wait_loop_killed fuel (suc i) w e' k
  ]
