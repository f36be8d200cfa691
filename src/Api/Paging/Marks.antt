-- ===== src/Api/Paging/Marks.antt =====
-- The page marks of `build_pagination` (src/api/handlers.rs).
use mikan_judge.Prelude.{
  ℕ, zero, suc, ◌+◌, ◌-◌, ◌≤◌, ◌<◌, ◌≡◌, refl, ap, Bool, true, false, List, [], ◌∷◌, ◌++◌, eqb,
  eqb→eq, ltb, ◌≢◌, leb, count, length, All, All-append, Bool-cases, inl, inr, arith, if◌then◌else◌,
}
use mikan_judge.Api.Paging.{range, left_end, right_end, build_pagination}

count-append :
    {A : Type 0} (p : A → Bool) (xs ys : List A) → count p (xs ++ ys) ≡ count p xs + count p ys
count-append p [] ys = omega arith
count-append p (x ∷ xs) ys = omega (arith, count-append p xs ys)

module _ (c : ℕ) where
  count-range_out : (a n : ℕ) → (c < a) → count (eqb c) (range a n) ≡ 0
  count-range_out a zero h = refl
  count-range_out a (suc n) h = ground (arith, count-range_out (suc a) n (omega arith), h)

  count-range_behind : (a n : ℕ) → (a + n ≤ c) → count (eqb c) (range a n) ≡ 0
  count-range_behind a zero h = refl
  count-range_behind a (suc n) h = ground (arith, count-range_behind (suc a) n (omega arith), h)

  count-range_in : (a n : ℕ) → a ≤ c → c < a + n → count (eqb c) (range a n) ≡ 1
  count-range_in a zero h k = absurd (omega arith)
  count-range_in a (suc n) h k = elim (Bool-cases (eqb c a)) [
    | inl here ↦ ground (arith, here, count-range_out (suc a) n)
    | inr there ↦ ground (arith, there, count-range_in (suc a) n)
  ]

All-range : (t a n : ℕ) → a + n ≤ suc t → All (λ m. m ≤ t) (range a n)
All-range t a zero h = tt
All-range t a (suc n) h = (omega arith, All-range t (suc a) n (omega arith))

length-range : (a n : ℕ) → length (range a n) ≡ n
length-range a zero = refl
length-range a (suc n) = ap suc (length-range (suc a) n)

leb-gt : (a b : ℕ) → leb a b ≡ false → b < a
leb-gt a b h = ground arith

eqb-ne : (a b : ℕ) → eqb a b ≡ false → a ≢ b
eqb-ne a b h = ground arith

module _ (c t : ℕ) (low : 1 ≤ c) (high : c ≤ t) (many : 7 < t) where
  gap-count : (b : Bool) → count (eqb c) (if b then 0 ∷ [] else []) ≡ 0
  gap-count true = ground arith
  gap-count false = refl

  abbrev middle : ℕ
  middle = right_end c t + 1 - left_end c

  ends-count :
      (if eqb c 1 then 1 else 0)
        + count (eqb c) (range (left_end c) middle)
        + (if eqb c t then 1 else 0)
      ≡ 1
  ends-count = elim (Bool-cases (eqb c 1)) [
    | inl first ↦
        let is = eqb→eq c 1 first in
        let none_inside = count-range_out c (left_end c) middle (omega (arith, is)) in
        ground (arith, none_inside, first, is, many)
    | inr other ↦ elim (Bool-cases (eqb c t)) [
      | inl last ↦
          let is = eqb→eq c t last in
          let none_inside = count-range_behind c (left_end c) middle (omega (arith, is, many)) in
          ground (arith, none_inside, last, other)
      | inr inner ↦
          let more = eqb-ne c 1 other in
          let less = eqb-ne c t inner in
          let inside =
            count-range_in c (left_end c) middle (omega (arith, more, low))
              (omega (arith, more, less, low, high, many)) in
          ground (arith, inside, other, inner)
    ]
  ]

  wide-count :
      count (eqb c) (
        1 ∷ (if ltb 2 (left_end c) then 0 ∷ [] else [])
        ++ range (left_end c) middle
        ++ (if ltb (right_end c t) (t - 1) then 0 ∷ [] else [])
        ++ t ∷ [])
      ≡ 1
  wide-count =
      let gap = if ltb 2 (left_end c) then 0 ∷ [] else [] in
      let gap' = if ltb (right_end c t) (t - 1) then 0 ∷ [] else [] in
      let one = count-append (eqb c) (gap ++ range (left_end c) middle ++ gap') (t ∷ []) in
      let two = count-append (eqb c) (gap ++ range (left_end c) middle) gap' in
      let three = count-append (eqb c) gap (range (left_end c) middle) in
      omega (
        arith,
        one,
        two,
        three,
        gap-count (ltb 2 (left_end c)),
        gap-count (ltb (right_end c t) (t - 1)),
        ends-count,
      )

  gap-small : (b : Bool) → All (λ m. m ≤ t) (if b then 0 ∷ [] else [])
  gap-small true = (omega arith, tt)
  gap-small false = tt

  wide-small :
      All
        (λ m. m ≤ t)
        (1 ∷ (if ltb 2 (left_end c) then 0 ∷ [] else [])
          ++ range (left_end c) middle
          ++ (if ltb (right_end c t) (t - 1) then 0 ∷ [] else [])
          ++ t ∷ [])
  wide-small = (
    omega (arith, many),
    All-append _ _ (t ∷ [])
        (All-append _ _ (if ltb (right_end c t) (t - 1) then 0 ∷ [] else [])
          (All-append _ (if ltb 2 (left_end c) then 0 ∷ [] else []) (range (left_end c) middle)
            (gap-small _) (All-range t (left_end c) middle (omega (arith, low, high, many))))
          (gap-small _))
        (omega arith, tt),
  )

-- The marks of a page that is there hold its number exactly once, and no number above the last page.
pub build_pagination-marks :
    (c t : ℕ)
    → 1 ≤ c
    → c ≤ t
    → (count (eqb c) (build_pagination c t) ≡ 1) × All (λ m. m ≤ t) (build_pagination c t)
unfolding build_pagination
build_pagination-marks c t low high = elim (Bool-cases (leb t 7)) [
  | inl few ↦ rw few (count-range_in c 1 t low (omega (arith, high)), All-range t 1 t (omega arith))
  | inr many ↦
      rw many (wide-count c t low high (leb-gt t 7 many), wide-small c t low high (leb-gt t 7 many))
]
