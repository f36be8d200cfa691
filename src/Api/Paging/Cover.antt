-- ===== src/Api/Paging/Cover.antt =====
-- The pages of a list (src/api/handlers.rs): together they are the list.
use mikan_judge.Prelude.{
  ℕ, zero, suc, ◌+◌, ◌-◌, ◌*◌, ◌≤◌, ◌≡◌, refl, sym, ap, ◌∙◌, Option, none, some, List, [], ◌∷◌,
  ◌++◌, take, drop, length, arith,
}
use mikan_judge.Prelude.Int.{ℤ, pos, negsuc}
use mikan_judge.Api.Paging.{total_pages, page_of, page_rows}

suc_add : (a b : ℕ) → suc a + b ≡ suc (a + b)
suc_add a b = omega arith

pred_suc : (k : ℕ) → suc k - 1 ≡ k
pred_suc k = omega arith

times_suc : (k : ℕ) → k * 20 + 20 ≡ suc k * 20
times_suc k = omega arith

module _ {ℓ} {A : Type ℓ} where
  take_nil : (n : ℕ) → take {A = A} n [] ≡ []
  take_nil zero = refl
  take_nil (suc n) = refl

  take-add : (a b : ℕ) (xs : List A) → take (a + b) xs ≡ take a xs ++ take b (drop a xs)
  take-add zero b xs = ap (λ n. take n xs) (omega arith)
  take-add (suc a) b [] = take_nil (suc a + b) ∙ sym (take_nil b)
  take-add (suc a) b (x ∷ xs) =
      ap (λ n. take n (x ∷ xs)) (suc_add a b) ∙ ap (λ ys. x ∷ ys) (take-add a b xs)

  take_all : (n : ℕ) (xs : List A) → length xs ≤ n → take n xs ≡ xs
  take_all zero [] h = refl
  take_all zero (x ∷ xs) h = absurd (omega arith)
  take_all (suc n) [] h = refl
  take_all (suc n) (x ∷ xs) h = ap (λ ys. x ∷ ys) (take_all n xs (omega arith))

  -- The pages 1 to k, one behind the other.
  abbrev pub first_pages : ℕ → List A → List A
  first_pages zero rows = []
  first_pages (suc k) rows = first_pages k rows ++ page_rows (suc k) rows

  first_pages-take : (k : ℕ) (rows : List A) → first_pages k rows ≡ take (k * 20) rows
  unfolding page_rows
  first_pages-take zero rows = refl
  first_pages-take (suc k) rows =
      rw (first_pages-take k rows, pred_suc k)
        (sym (take-add (k * 20) 20 rows) ∙ ap (λ n. take n rows) (times_suc k))

enough : (n : ℕ) → n ≤ total_pages n * 20
unfolding total_pages
enough n = omega arith

some_page : (n : ℕ) → 1 ≤ total_pages n
unfolding total_pages
some_page n = omega arith

in_range :
    (query : Option ℤ) (pages : ℕ)
    → 1 ≤ pages
    → (1 ≤ page_of query pages) × (page_of query pages ≤ pages)
unfolding page_of
in_range none pages h = omega arith
in_range (some (pos n)) pages h = omega arith
in_range (some (negsuc n)) pages h = omega arith

-- Whatever page a request names, the page that it gets is one of the pages of the list, and these
-- pages one behind the other are the whole list, each row once and in order.
pub page_rows-cover :
    {A : Type 0} (query : Option ℤ) (rows : List A)
    → (1 ≤ page_of query (total_pages (length rows)))
      × (page_of query (total_pages (length rows)) ≤ total_pages (length rows))
      × (first_pages (total_pages (length rows)) rows ≡ rows)
page_rows-cover query rows =
    let (low, high) = in_range query (total_pages (length rows)) (some_page (length rows)) in
    (
      low,
      high,
      first_pages-take (total_pages (length rows)) rows
          ∙ take_all (total_pages (length rows) * 20) rows (enough (length rows)),
    )
