-- ===== src/Prelude/Sorting.antt =====
-- A stable sort by an order that a Boolean test decides, as `sort_by_key`, `sort` and `ORDER BY` do
-- it, and what it keeps.
use Prim.Native.Char.{code}
use Prim.Native.Nat.{ℕ, ◌+◌}
use Prim.Native.String.{String}
use mathlib.Core.Path.{◌≡◌, refl, ap, sym, ◌∙◌}
use mathlib.Core.Bool.{Bool, true, false}
use mathlib.Core.List.{List, [], ◌∷◌}
use mathlib.Core.Logic.{◌⊎◌, inl, inr}
use native.Mathlib.Omega.{arith}
use mikan_judge.Prelude.Tests.{ltb, eqb, if◌then◌else◌, Bool-cases}
use mikan_judge.Prelude.Lists.{All}

-- The order of texts by their code points, which is the order of their UTF-8 bytes.
unfoldable pub text_leb : String → String → Bool
text_leb String.[] t = true
text_leb (String.◌∷◌ c s) String.[] = false
text_leb (String.◌∷◌ c s) (String.◌∷◌ d t) =
    let rest = text_leb s t in
    if ltb (code c) (code d) then true else if eqb (code c) (code d) then rest else false

true_ne_false : ¬ (true ≡ false)
true_ne_false e = cc

module _ {ℓ} {A : Type ℓ} where
  abbrev pub count : (A → Bool) → List A → ℕ
  count p [] = 0
  count p (x ∷ xs) = (if p x then 1 else 0) + count p xs

  module _ (le : A → A → Bool) where
    -- Behind every entry that is not greater comes an entry that is inserted from the front.
    unfoldable pub insert_by : A → List A → List A
    insert_by x [] = x ∷ []
    insert_by x (y ∷ ys) = let rest = insert_by x ys in if le x y then x ∷ y ∷ ys else y ∷ rest

    unfoldable pub sort_by : List A → List A
    unfolding insert_by
    sort_by [] = []
    sort_by (x ∷ xs) = insert_by x (sort_by xs)

    -- Each entry is in order with all behind it.
    abbrev pub IsSorted : List A → Type 0
    IsSorted [] = Unit
    IsSorted (x ∷ xs) = All (λ y. le x y ≡ true) xs × IsSorted xs

  module _ (le : A → A → Bool) (p : A → Bool) where
    insert_by-count : (x : A) (xs : List A) → count p (insert_by le x xs) ≡ count p (x ∷ xs)
    unfolding insert_by
    insert_by-count x [] = refl
    insert_by-count x (y ∷ ys) = elim (Bool-cases (le x y)) [
      | inl below ↦ rw below refl
      | inr above ↦ rw above (omega (arith, insert_by-count x ys))
    ]

    pub count-sort_by : (xs : List A) → count p (sort_by le xs) ≡ count p xs
    unfolding sort_by
    count-sort_by [] = refl
    count-sort_by (x ∷ xs) = insert_by-count x (sort_by le xs) ∙ omega (arith, count-sort_by xs)

  module _ {κ} (P : A → Type κ) (le : A → A → Bool) where
    pub All-insert_by : (x : A) (xs : List A) → P x → All P xs → All P (insert_by le x xs)
    unfolding insert_by
    All-insert_by x [] h hs = (h, tt)
    All-insert_by x (y ∷ ys) h hs = elim (Bool-cases (le x y)) [
      | inl below ↦ rw below (h, hs)
      | inr above ↦ rw above (hs.0, All-insert_by x ys h hs.1)
    ]

    pub All-sort_by : (xs : List A) → All P xs → All P (sort_by le xs)
    unfolding sort_by
    All-sort_by [] hs = tt
    All-sort_by (x ∷ xs) hs = All-insert_by x (sort_by le xs) hs.0 (All-sort_by xs hs.1)

  All-map {κ} : {P Q : A → Type κ} → ((x : A) → P x → Q x) → (xs : List A) → All P xs → All Q xs
  All-map f [] h = tt
  All-map f (x ∷ xs) h = (f x h.0, All-map f xs h.1)

  module _ (le : A → A → Bool) (total : (x y : A) → le x y ≡ false → le y x ≡ true)
      (trans : (x y z : A) → le x y ≡ true → le y z ≡ true → le x z ≡ true) where
    insert_by-IsSorted : (x : A) (xs : List A) → IsSorted le xs → IsSorted le (insert_by le x xs)
    unfolding insert_by
    insert_by-IsSorted x [] s = (tt, tt)
    insert_by-IsSorted x (y ∷ ys) s = elim (Bool-cases (le x y)) [
      | inl below ↦ rw below ((below, All-map (λ z h. trans x y z below h) ys s.0), s)
      | inr above ↦ rw above (
        All-insert_by (λ z. le y z ≡ true) le x ys (total x y above) s.0,
        insert_by-IsSorted x ys s.1,
      )
    ]

    pub sort_by-IsSorted : (xs : List A) → IsSorted le (sort_by le xs)
    unfolding sort_by
    sort_by-IsSorted [] = tt
    sort_by-IsSorted (x ∷ xs) = insert_by-IsSorted x (sort_by le xs) (sort_by-IsSorted xs)

  -- No two entries are equal for the order.
  module _ (le : A → A → Bool) where
    abbrev pub Apart : A → A → Type 0
    Apart x y = ((le x y ≡ true) × (le y x ≡ false)) ⊎ ((le x y ≡ false) × (le y x ≡ true))

    abbrev pub AllApart : List A → Type 0
    AllApart [] = Unit
    AllApart (x ∷ xs) = All (Apart x) xs × AllApart xs

    module _ (trans : (x y z : A) → le x y ≡ true → le y z ≡ true → le x z ≡ true) where
      insert_by_swap :
          (x y : A)
          → Apart x y
          → (xs : List A) → insert_by le x (insert_by le y xs) ≡ insert_by le y (insert_by le x xs)
      unfolding insert_by
      insert_by_swap x y (inl (a, b)) [] = rw (a, b) refl
      insert_by_swap x y (inr (a, b)) [] = rw (a, b) refl
      insert_by_swap x y d (z ∷ xs) = elim (Bool-cases (le y z)) [
        | inl yz ↦ elim (Bool-cases (le x z)) [
          | inl xz ↦ elim d [
            | inl (a, b) ↦ rw (yz, xz, a, b, yz) refl
            | inr (a, b) ↦ rw (yz, xz, a, b) refl
          ]
          | inr xz ↦ elim d [
            | inl (a, b) ↦ absurd (true_ne_false (sym (trans x y z a yz) ∙ xz))
            | inr (a, b) ↦ rw (yz, xz, a, yz) refl
          ]
        ]
        | inr yz ↦ elim (Bool-cases (le x z)) [
          | inl xz ↦ elim d [
            | inl (a, b) ↦ rw (yz, xz, b, yz) refl
            | inr (a, b) ↦ absurd (true_ne_false (sym (trans y x z b xz) ∙ yz))
          ]
          | inr xz ↦ rw (yz, xz, yz) (ap (λ l. z ∷ l) (insert_by_swap x y d xs))
        ]
      ]

      sort_by-insert_by :
          (other : A → A → Bool) (x : A) (xs : List A)
          → All (Apart x) xs
          → sort_by le (insert_by other x xs) ≡ insert_by le x (sort_by le xs)
      unfolding insert_by sort_by
      sort_by-insert_by other x [] h = refl
      sort_by-insert_by other x (y ∷ ys) h = elim (Bool-cases (other x y)) [
        | inl below ↦ rw below refl
        | inr above ↦ rw above (
            ap (insert_by le y) (sort_by-insert_by other x ys h.1)
            ∙ sym (insert_by_swap x y h.0 (sort_by le ys)))
      ]

      -- A list with no two equal entries is sorted to one list, in whatever order it is given.
      pub sort_by-sort_by :
          (other : A → A → Bool) (xs : List A)
          → AllApart xs
          → sort_by le (sort_by other xs) ≡ sort_by le xs
      unfolding sort_by
      sort_by-sort_by other [] h = refl
      sort_by-sort_by other (x ∷ xs) h =
          sort_by-insert_by other x (sort_by other xs) (All-sort_by (Apart x) other xs h.0)
          ∙ ap (insert_by le x) (sort_by-sort_by other xs h.1)
