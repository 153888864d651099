-- ===== src/Task/Retention/Sorting.antt =====
-- The list of candidates that `reclaim_capacity_for_admission` sorts: times of ids, before and
-- after sorting and cutting.
use ida_mcp_rs.Base.{
  ℕ, zero, suc, ◌≤◌, String, ◌≡◌, refl, ◌≢◌, ◌∙◌, inl, inr, Option, none, some, List, [], ◌∷◌,
  arith, All, take, length, true, Bool-cases, str_eq, eq_iff, if◌then◌else◌,
}
use ida_mcp_rs.Task.Retention.{before, insert_sorted, sort_unstable}

-- The time that a list gives for an id.
abbrev pub time_of : String → List (ℕ × String) → Option ℕ
time_of id [] = none
time_of id ((t, i) ∷ xs) = if str_eq i id then some t else time_of id xs

abbrev pub HasDistinctIds : List (ℕ × String) → Type 0
HasDistinctIds [] = Unit
HasDistinctIds ((t, i) ∷ xs) = (time_of i xs ≡ none) × HasDistinctIds xs

abbrev pub IsSorted : List (ℕ × String) → Type 0
IsSorted [] = Unit
IsSorted ((t, i) ∷ xs) = All (λ (y : ℕ × String). t ≤ y.0) xs × IsSorted xs

All-mono :
    (t u : ℕ) (xs : List (ℕ × String))
    → t ≤ u
    → All (λ (y : ℕ × String). u ≤ y.0) xs
    → All (λ (y : ℕ × String). t ≤ y.0) xs
All-mono t u [] h a = tt
All-mono t u ((v, j) ∷ xs) h a = (omega arith, All-mono t u xs h a.1)

pub insert_sorted-All {ℓ} :
    (P : ℕ × String → Type ℓ) (x : ℕ × String) (xs : List (ℕ × String))
    → P x
    → All P xs
    → All P (insert_sorted x xs)
unfolding insert_sorted
insert_sorted-All P x [] h a = (h, tt)
insert_sorted-All P x (y ∷ ys) h a = ground (arith, insert_sorted-All P x ys h a.1)

pub sort_unstable-All {ℓ} :
    (P : ℕ × String → Type ℓ) (xs : List (ℕ × String)) → All P xs → All P (sort_unstable xs)
unfolding sort_unstable
sort_unstable-All P [] a = tt
sort_unstable-All P (x ∷ xs) a =
    insert_sorted-All P x (sort_unstable xs) a.0 (sort_unstable-All P xs a.1)

before-le : (t u : ℕ) (i j : String) → before (t, i) (u, j) ≡ true → t ≤ u
before-le t u i j h = ground arith

before-ge : (t u : ℕ) (i j : String) → before (t, i) (u, j) ≢ true → u ≤ t
before-ge t u i j h = ground arith

insert_sorted-IsSorted :
    (x : ℕ × String) (xs : List (ℕ × String)) → IsSorted xs → IsSorted (insert_sorted x xs)
unfolding insert_sorted
insert_sorted-IsSorted (t, i) [] s = (tt, tt)
insert_sorted-IsSorted (t, i) ((u, j) ∷ ys) s = elim (Bool-cases (before (t, i) (u, j))) [
  | inl first ↦
      rw first ((before-le t u i j first, All-mono t u ys (before-le t u i j first) s.0), s)
  | inr later ↦ rw later (
    insert_sorted-All (λ (y : ℕ × String). u ≤ y.0) (t, i) ys (before-ge t u i j (λ e. cc)) s.0,
    insert_sorted-IsSorted (t, i) ys s.1,
  )
]

pub sort_unstable-IsSorted : (xs : List (ℕ × String)) → IsSorted (sort_unstable xs)
unfolding sort_unstable
sort_unstable-IsSorted [] = tt
sort_unstable-IsSorted (x ∷ xs) =
    insert_sorted-IsSorted x (sort_unstable xs) (sort_unstable-IsSorted xs)

time_of-insert_sorted :
    (id : String) (t : ℕ) (i : String) (xs : List (ℕ × String))
    → time_of i xs ≡ none
    → time_of id (insert_sorted (t, i) xs) ≡ (if str_eq i id then some t else time_of id xs)
unfolding insert_sorted
time_of-insert_sorted id t i [] h = refl
time_of-insert_sorted id t i ((u, j) ∷ ys) h =
    ground (arith, eq_iff i id, eq_iff j id, eq_iff j i, time_of-insert_sorted id t i ys)

insert_sorted-HasDistinctIds :
    (t : ℕ) (i : String) (xs : List (ℕ × String))
    → time_of i xs ≡ none
    → HasDistinctIds xs
    → HasDistinctIds (insert_sorted (t, i) xs)
unfolding insert_sorted
insert_sorted-HasDistinctIds t i [] h d = (refl, tt)
insert_sorted-HasDistinctIds t i ((u, j) ∷ ys) h d = ground (
  arith,
  eq_iff i j,
  eq_iff j i,
  insert_sorted-HasDistinctIds t i ys,
  time_of-insert_sorted j t i ys,
)

sort_unstable_both :
    (xs : List (ℕ × String))
    → HasDistinctIds xs
    → HasDistinctIds (sort_unstable xs)
      × ((id : String) → time_of id (sort_unstable xs) ≡ time_of id xs)
unfolding sort_unstable
sort_unstable_both [] d = (tt, λ id. refl)
sort_unstable_both ((t, i) ∷ xs) d =
    let ih = sort_unstable_both xs d.1 in
    let fresh : time_of i (sort_unstable xs) ≡ none = ih.1 i ∙ d.0 in
    (
      insert_sorted-HasDistinctIds t i (sort_unstable xs) fresh ih.0,
      λ id. rw (time_of-insert_sorted id t i (sort_unstable xs) fresh, ih.1 id),
    )

pub sort_unstable-HasDistinctIds :
    (xs : List (ℕ × String)) → HasDistinctIds xs → HasDistinctIds (sort_unstable xs)
sort_unstable-HasDistinctIds xs d = (sort_unstable_both xs d).0

pub time_of-sort_unstable :
    (id : String) (xs : List (ℕ × String))
    → HasDistinctIds xs
    → time_of id (sort_unstable xs) ≡ time_of id xs
time_of-sort_unstable id xs d = (sort_unstable_both xs d).1 id

length-insert_sorted :
    (x : ℕ × String) (xs : List (ℕ × String)) → length (insert_sorted x xs) ≡ suc (length xs)
unfolding insert_sorted
length-insert_sorted x [] = refl
length-insert_sorted x (y ∷ ys) = ground (arith, length-insert_sorted x ys)

pub length-sort_unstable : (xs : List (ℕ × String)) → length (sort_unstable xs) ≡ length xs
unfolding sort_unstable
length-sort_unstable [] = refl
length-sort_unstable (x ∷ xs) =
    omega (arith, length-insert_sorted x (sort_unstable xs), length-sort_unstable xs)

pub time_of-take :
    (id : String) (n t : ℕ) (xs : List (ℕ × String))
    → time_of id (take n xs) ≡ some t
    → time_of id xs ≡ some t
time_of-take id zero t xs h = cc
time_of-take id (suc n) t [] h = cc
time_of-take id (suc n) t ((u, j) ∷ xs) h = ground (arith, time_of-take id n t xs)

take-absent :
    (id : String) (n : ℕ) (xs : List (ℕ × String))
    → time_of id xs ≡ none
    → time_of id (take n xs) ≡ none
take-absent id zero xs h = refl
take-absent id (suc n) [] h = refl
take-absent id (suc n) ((u, j) ∷ xs) h = ground (arith, take-absent id n xs)

pub take-HasDistinctIds :
    (n : ℕ) (xs : List (ℕ × String)) → HasDistinctIds xs → HasDistinctIds (take n xs)
take-HasDistinctIds zero xs d = tt
take-HasDistinctIds (suc n) [] d = tt
take-HasDistinctIds (suc n) ((u, j) ∷ xs) d = (take-absent j n xs d.0, take-HasDistinctIds n xs d.1)

pub take-All {ℓ} :
    (P : ℕ × String → Type ℓ) (n : ℕ) (xs : List (ℕ × String)) → All P xs → All P (take n xs)
take-All P zero xs a = tt
take-All P (suc n) [] a = tt
take-All P (suc n) (x ∷ xs) a = (a.0, take-All P n xs a.1)

time_of-All :
    (u t : ℕ) (id : String) (xs : List (ℕ × String))
    → All (λ (y : ℕ × String). u ≤ y.0) xs
    → time_of id xs ≡ some t
    → u ≤ t
time_of-All u t id [] a h = ground arith
time_of-All u t id ((v, j) ∷ xs) a h = ground (arith, time_of-All u t id xs a.1)

-- In a sorted list, what a cut keeps is not older than what it takes.
pub take_oldest :
    (n t u : ℕ) (id other : String) (xs : List (ℕ × String))
    → IsSorted xs
    → time_of id (take n xs) ≡ some t
    → time_of other (take n xs) ≡ none
    → time_of other xs ≡ some u
    → t ≤ u
take_oldest zero t u id other xs s h g k = ground arith
take_oldest (suc n) t u id other [] s h g k = ground arith
take_oldest (suc n) t u id other ((v, j) ∷ xs) s h g k =
    ground (arith, time_of-All v u other xs s.0, take_oldest n t u id other xs s.1)
