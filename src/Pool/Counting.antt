-- ===== src/Pool/Counting.antt =====
-- Counting live slots of the pool under changes of the heap and of the lists of ids.
use ida_mcp_rs.Base.{
  ℕ, suc, ◌+◌, ◌≤◌, ◌<◌, ◌≡◌, refl, ◌⊎◌, Bool, true, false, List, [], ◌∷◌, ◌++◌, arith, All, length,
  count, retain, ◌==◌,
}
use ida_mcp_rs.Pool.Data.{
  Heap, PooledChild, is_dead, is_idle, is_live, set_cell, contains, insert, without,
}
use ida_mcp_rs.Pool.Lease.{scan, found, none_idle}

-- A write that revives nothing adds no live slot.
pub count-set_cell_le :
    (heap : Heap) (i : ℕ) (c : PooledChild) (xs : List ℕ)
    → (is_dead c.state ≡ true) ⊎ (is_dead (heap i).state ≡ false)
    → count (is_live (set_cell i c heap)) xs ≤ count (is_live heap) xs
count-set_cell_le heap i c [] h = omega arith
count-set_cell_le heap i c (x ∷ xs) h = ground (arith, count-set_cell_le heap i c xs h)

pub count-set_cell_absent :
    (heap : Heap) (i : ℕ) (c : PooledChild) (xs : List ℕ)
    → contains i xs ≡ false
    → count (is_live (set_cell i c heap)) xs ≡ count (is_live heap) xs
count-set_cell_absent heap i c [] h = refl
count-set_cell_absent heap i c (x ∷ xs) h = ground (arith, count-set_cell_absent heap i c xs)

pub count-retain_le : (p q : ℕ → Bool) (xs : List ℕ) → count p (retain q xs) ≤ count p xs
count-retain_le p q [] = omega arith
count-retain_le p q (x ∷ xs) = ground (arith, count-retain_le p q xs)

pub count-snoc_le : (p : ℕ → Bool) (xs : List ℕ) (x : ℕ) → count p (xs ++ x ∷ []) ≤ suc (count p xs)
count-snoc_le p [] x = ground arith
count-snoc_le p (y ∷ xs) x = ground (arith, count-snoc_le p xs x)

pub length-without_le : (i : ℕ) (xs : List ℕ) → length (without i xs) ≤ length xs
length-without_le i [] = omega arith
length-without_le i (x ∷ xs) = ground (arith, length-without_le i xs)

pub length-without_present :
    (i : ℕ) (xs : List ℕ) → contains i xs ≡ true → length (without i xs) + 1 ≤ length xs
length-without_present i [] h = ground arith
length-without_present i (x ∷ xs) h =
    ground (arith, length-without_present i xs, length-without_le i xs)

pub length-insert_le : (i : ℕ) (xs : List ℕ) → length (insert i xs) ≤ suc (length xs)
length-insert_le i xs = ground arith

pub contains-without_self : (i : ℕ) (xs : List ℕ) → contains i (without i xs) ≡ false
contains-without_self i [] = refl
contains-without_self i (x ∷ xs) = ground (arith, contains-without_self i xs)

pub contains-retain :
    (i : ℕ) (q : ℕ → Bool) (xs : List ℕ) → contains i xs ≡ false → contains i (retain q xs) ≡ false
contains-retain i q [] h = refl
contains-retain i q (x ∷ xs) h = ground (arith, contains-retain i q xs)

pub contains-snoc :
    (i j : ℕ) (xs : List ℕ)
    → contains i xs ≡ false
    → (i == j) ≡ false
    → contains i (xs ++ j ∷ []) ≡ false
contains-snoc i j [] h g = ground arith
contains-snoc i j (x ∷ xs) h g = ground (arith, contains-snoc i j xs)

pub contains-above : (n : ℕ) (xs : List ℕ) → All (λ j. j < n) xs → contains n xs ≡ false
contains-above n [] a = refl
contains-above n (x ∷ xs) a = ground (arith, contains-above n xs a.1)

pub All-suc : (n : ℕ) (xs : List ℕ) → All (λ j. j < n) xs → All (λ j. j < n + 1) xs
All-suc n [] a = tt
All-suc n (x ∷ xs) a = (omega arith, All-suc n xs a.1)

pub All-retain_below :
    (n : ℕ) (q : ℕ → Bool) (xs : List ℕ) → All (λ j. j < n) xs → All (λ j. j < n) (retain q xs)
All-retain_below n q [] a = tt
All-retain_below n q (x ∷ xs) a = ground (arith, All-retain_below n q xs a.1)

pub All-snoc :
    (n x : ℕ) (xs : List ℕ) → All (λ j. j < n) xs → x < n → All (λ j. j < n) (xs ++ x ∷ [])
All-snoc n x [] a h = (h, tt)
All-snoc n x (y ∷ xs) a h = (a.0, All-snoc n x xs a.1 h)

pub below_of_contains : (n i : ℕ) (xs : List ℕ) → All (λ j. j < n) xs → contains i xs ≡ true → i < n
below_of_contains n i [] a h = ground arith
below_of_contains n i (x ∷ xs) a h = ground (arith, below_of_contains n i xs a.1)

-- The scan of `lease_inner` counts the live slots, unless it meets an idle one.
pub scan-none_idle :
    (heap : Heap) (active n : ℕ) (dead_ids ids xs : List ℕ)
    → scan heap active dead_ids xs ≡ none_idle n ids
    → n ≡ active + count (is_live heap) xs
unfolding scan
scan-none_idle heap active n dead_ids ids [] h = ground arith
scan-none_idle heap active n dead_ids ids (x ∷ xs) h = ground (
  arith,
  scan-none_idle heap active n (x ∷ dead_ids) ids xs,
  scan-none_idle heap (active + 1) n dead_ids ids xs,
)

pub scan-found :
    (heap : Heap) (active i : ℕ) (dead_ids xs : List ℕ)
    → scan heap active dead_ids xs ≡ found i
    → (is_idle (heap i).state ≡ true) × (contains i xs ≡ true)
unfolding scan
scan-found heap active i dead_ids [] h = ground arith
scan-found heap active i dead_ids (x ∷ xs) h =
    ground (
      arith,
      scan-found heap active i (x ∷ dead_ids) xs,
      scan-found heap (active + 1) i dead_ids xs,
    )

-- No id stands twice.
abbrev pub IsDistinct : List ℕ → Type 0
IsDistinct [] = Unit
IsDistinct (x ∷ xs) = (contains x xs ≡ false) × IsDistinct xs

pub retain-IsDistinct : (q : ℕ → Bool) (xs : List ℕ) → IsDistinct xs → IsDistinct (retain q xs)
retain-IsDistinct q [] d = tt
retain-IsDistinct q (x ∷ xs) d =
    ground (arith, retain-IsDistinct q xs d.1, contains-retain x q xs d.0)

pub snoc-IsDistinct :
    (i : ℕ) (xs : List ℕ) → IsDistinct xs → contains i xs ≡ false → IsDistinct (xs ++ i ∷ [])
snoc-IsDistinct i [] d h = (refl, tt)
snoc-IsDistinct i (x ∷ xs) d h =
    (contains-snoc x i xs d.0 (ground arith), snoc-IsDistinct i xs d.1 (ground arith))

-- One death takes one live slot away, at most.
pub count-set_dead_ge :
    (heap : Heap) (i : ℕ) (c : PooledChild) (xs : List ℕ)
    → IsDistinct xs
    → count (is_live heap) xs ≤ count (is_live (set_cell i c heap)) xs + 1
count-set_dead_ge heap i c [] d = omega arith
count-set_dead_ge heap i c (x ∷ xs) d =
    ground (arith, count-set_dead_ge heap i c xs d.1, count-set_cell_absent heap i c xs)

-- To forget a dead slot changes no count.
pub count-without_dead :
    (heap : Heap) (i : ℕ) (xs : List ℕ)
    → is_live heap i ≡ false
    → count (is_live heap) (without i xs) ≡ count (is_live heap) xs
count-without_dead heap i [] h = refl
count-without_dead heap i (x ∷ xs) h = ground (arith, count-without_dead heap i xs h)

-- The scan finds an idle slot where there is one.
pub scan-idle :
    (heap : Heap) (active i n : ℕ) (dead_ids ids xs : List ℕ)
    → scan heap active dead_ids xs ≡ none_idle n ids
    → contains i xs ≡ true
    → is_idle (heap i).state ≡ false
unfolding scan
scan-idle heap active i n dead_ids ids [] h c = ground arith
scan-idle heap active i n dead_ids ids (x ∷ xs) h c = ground (
  arith,
  scan-idle heap active i n (x ∷ dead_ids) ids xs,
  scan-idle heap (active + 1) i n dead_ids ids xs,
)

-- It lists dead slots only.
pub scan-dead :
    (heap : Heap) (active i n : ℕ) (dead_ids ids xs : List ℕ)
    → scan heap active dead_ids xs ≡ none_idle n ids
    → is_dead (heap i).state ≡ false
    → contains i dead_ids ≡ false
    → contains i ids ≡ false
unfolding scan
scan-dead heap active i n dead_ids ids [] h l c = ground arith
scan-dead heap active i n dead_ids ids (x ∷ xs) h l c = ground (
  arith,
  scan-dead heap active i n (x ∷ dead_ids) ids xs,
  scan-dead heap (active + 1) i n dead_ids ids xs,
)

pub contains-retain_kept :
    (i : ℕ) (q : ℕ → Bool) (xs : List ℕ)
    → contains i xs ≡ true
    → q i ≡ true
    → contains i (retain q xs) ≡ true
contains-retain_kept i q [] h k = ground arith
contains-retain_kept i q (x ∷ xs) h k = ground (arith, contains-retain_kept i q xs)

pub contains-snoc_old :
    (i j : ℕ) (xs : List ℕ) → contains i xs ≡ true → contains i (xs ++ j ∷ []) ≡ true
contains-snoc_old i j [] h = ground arith
contains-snoc_old i j (x ∷ xs) h = ground (arith, contains-snoc_old i j xs)
