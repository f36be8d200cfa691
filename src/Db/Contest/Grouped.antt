-- ===== src/Db/Contest/Grouped.antt =====
-- The three lists that `list_grouped` of src/db/contest.rs makes.
use mikan_judge.Prelude.{
  ℕ, suc, ◌+◌, ◌≡◌, refl, Bool, true, false, List, [], ◌∷◌, arith, All, count, IsSorted, get_elem?,
  some, ap, count-sort_by, All-sort_by, sort_by-IsSorted,
}
use mathlib.Core.Path.{subst}
use mikan_judge.Types.Contest.{DateTime, Contest, ContestStatus, status}
use mikan_judge.Db.Contest.{ContestLists, push_by, grouped_from, soonest_first, grouped}

-- The contest stands at some place of the list, and at the reading of the clock that belongs to
-- this place it has the status; the list's first place has the reading `k`.
abbrev pub HadFrom : (ℕ → DateTime) → ℕ → List Contest → ContestStatus → Contest → Type 0
HadFrom now k cs s c = (i : ℕ) × (get_elem? cs i ≡ some c) × (status c (now (k + i)) ≡ s)

abbrev pub Had : (ℕ → DateTime) → List Contest → ContestStatus → Contest → Type 0
Had now cs s c = (i : ℕ) × (get_elem? cs i ≡ some c) × (status c (now i) ≡ s)

abbrev pub AllHad : (ContestStatus → Contest → Type 0) → ContestLists → Type 0
AllHad P lists =
    All (P ContestStatus.ongoing) lists.ongoing
    × All (P ContestStatus.upcoming) lists.upcoming
    × All (P ContestStatus.past) lists.past

-- Each contest stands in the lists as often as in the list that was asked.
abbrev pub Whole : List Contest → ContestLists → Type 0
Whole cs lists =
    (p : Contest → Bool)
    → count p lists.ongoing + count p lists.upcoming + count p lists.past ≡ count p cs

pub record Splits (now : ℕ → DateTime) (cs : List Contest) (lists : ContestLists) : Type 0 where
  pub whole : Whole cs lists
  pub had : AllHad (Had now cs) lists

All-imp :
    {P Q : Contest → Type 0}
    → ((c : Contest) → P c → Q c)
    → (cs : List Contest) → All P cs
    → All Q cs
All-imp f [] h = tt
All-imp f (c ∷ cs) h = (f c h.0, All-imp f cs h.1)

AllHad-imp :
    {P Q : ContestStatus → Contest → Type 0}
    → ((s : ContestStatus) (c : Contest) → P s c → Q s c)
    → (lists : ContestLists) → AllHad P lists
    → AllHad Q lists
AllHad-imp f lists (h, k, l) = (
  All-imp (f ContestStatus.ongoing) lists.ongoing h,
  All-imp (f ContestStatus.upcoming) lists.upcoming k,
  All-imp (f ContestStatus.past) lists.past l,
)

push_by-Whole :
    (c : Contest) (cs : List Contest) (lists : ContestLists) (s : ContestStatus)
    → Whole cs lists
    → Whole (c ∷ cs) (push_by s c lists)
unfolding push_by
push_by-Whole c cs lists ContestStatus.ongoing h p = omega (arith, h p)
push_by-Whole c cs lists ContestStatus.upcoming h p = omega (arith, h p)
push_by-Whole c cs lists ContestStatus.past h p = omega (arith, h p)

push_by-AllHad :
    (P : ContestStatus → Contest → Type 0) (c : Contest) (lists : ContestLists) (s : ContestStatus)
    → P s c
    → AllHad P lists
    → AllHad P (push_by s c lists)
unfolding push_by
push_by-AllHad P c lists ContestStatus.ongoing e (h, k, l) = ((e, h), k, l)
push_by-AllHad P c lists ContestStatus.upcoming e (h, k, l) = (h, (e, k), l)
push_by-AllHad P c lists ContestStatus.past e (h, k, l) = (h, k, (e, l))

module _ (now : ℕ → DateTime) where
  next_place :
      (k : ℕ) (c : Contest) (cs : List Contest) (s : ContestStatus) (d : Contest)
      → HadFrom now (suc k) cs s d
      → HadFrom now k (c ∷ cs) s d
  next_place k c cs s d (i, at, had) =
      (suc i, at, subst (λ j. status d (now j) ≡ s) (omega arith) had)

  first_place :
      (cs : List Contest) (s : ContestStatus) (d : Contest) → HadFrom now 0 cs s d → Had now cs s d
  first_place cs s d (i, at, had) = (i, at, subst (λ j. status d (now j) ≡ s) (omega arith) had)

  grouped_from-Whole : (k : ℕ) (cs : List Contest) → Whole cs (grouped_from now k cs)
  unfolding grouped_from
  grouped_from-Whole k [] = λ p. refl
  grouped_from-Whole k (c ∷ cs) =
      push_by-Whole c cs (grouped_from now (suc k) cs) (status c (now k))
        (grouped_from-Whole (suc k) cs)

  grouped_from-AllHad :
      (k : ℕ) (cs : List Contest) → AllHad (HadFrom now k cs) (grouped_from now k cs)
  unfolding grouped_from
  grouped_from-AllHad k [] = (tt, tt, tt)
  grouped_from-AllHad k (c ∷ cs) =
      let lists = grouped_from now (suc k) cs in
      push_by-AllHad (HadFrom now k (c ∷ cs)) c lists (status c (now k))
        (0, refl, ap (λ j. status c (now j)) (omega arith))
        (AllHad-imp (next_place k c cs) lists (grouped_from-AllHad (suc k) cs))

soonest_first-total : (c d : Contest) → soonest_first c d ≡ false → soonest_first d c ≡ true
soonest_first-total c d h = ground arith

soonest_first_trans :
    (c d e : Contest)
    → soonest_first c d ≡ true
    → soonest_first d e ≡ true
    → soonest_first c e ≡ true
soonest_first_trans c d e h k = ground arith

-- The three lists together hold each contest as often as the list that was asked, and each one
-- stands in the list of the status that it had at the reading of the clock for its place in the list
-- that was asked; the upcoming contests stand in the order of their starts.
pub grouped-Splits :
    (now : ℕ → DateTime) (cs : List Contest)
    → Splits now cs (grouped now cs) × IsSorted soonest_first (grouped now cs).upcoming
unfolding grouped
grouped-Splits now cs =
    let whole = grouped_from-Whole now 0 cs in
    let (ongoing, upcoming, past) =
      AllHad-imp (first_place now cs) (grouped_from now 0 cs) (grouped_from-AllHad now 0 cs) in
    (
      record {
        whole = λ p.
            omega (arith, whole p, count-sort_by soonest_first p (grouped_from now 0 cs).upcoming);
        had = (ongoing, All-sort_by _ soonest_first _ upcoming, past);
      },
      sort_by-IsSorted soonest_first soonest_first-total soonest_first_trans _,
    )
