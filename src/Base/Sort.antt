-- ===== src/Base/Sort.antt =====
-- The stable sort by a numeric key, and what it keeps.
use Prim.Native.Nat.{ℕ, suc, ◌≤◌, ◌<◌}
use mathlib.Core.Path.{◌≡◌, refl, sym, subst}
use mathlib.Core.Logic.{◌≢◌}
use mathlib.Core.Bool.{Bool, true, false}
use mathlib.Core.List.{List, [], ◌∷◌, Memᴰ}
use native.Mathlib.Omega.{arith}
use ai_receptionist.Base.Tests.{if◌then◌else◌, leb}
use ai_receptionist.Base.Lists.{All, length}

module _ {ℓ} {A : Type ℓ} (key : A → ℕ) where
  unfoldable pub insert_by : A → List A → List A
  insert_by x [] = x ∷ []
  insert_by x (y ∷ ys) = if leb (key x) (key y) then x ∷ y ∷ ys else y ∷ insert_by x ys

  -- `[...xs].sort((a, b) => key(a) - key(b))`
  unfoldable pub sort_by : List A → List A
  sort_by [] = []
  sort_by (x ∷ xs) = insert_by x (sort_by xs)

  -- Each item's key is at most those of the later ones.
  abbrev pub IsSorted : List A → Type ℓ
  IsSorted [] = Unit
  IsSorted (x ∷ xs) = All (λ y. key x ≤ key y) xs × IsSorted xs

  module _ {κ} (P : A → Type κ) where
    pub All-insert_by : (x : A) (xs : List A) → P x → All P xs → All P (insert_by x xs)
    unfolding insert_by
    All-insert_by x [] p h = (p, tt)
    All-insert_by x (y ∷ ys) p (q, h) =
        elim (leb (key x) (key y)) as (λ b. All P (if b then x ∷ y ∷ ys else y ∷ insert_by x ys)) [
          | true ↦ (p, (q, h))
          | false ↦ (q, All-insert_by x ys p h)
        ]

    pub All-sort_by : (xs : List A) → All P xs → All P (sort_by xs)
    unfolding sort_by
    All-sort_by [] h = tt
    All-sort_by (x ∷ xs) (p, h) = All-insert_by x (sort_by xs) p (All-sort_by xs h)

  All-le : (m n : ℕ) (xs : List A) → m ≤ n → All (λ y. n ≤ key y) xs → All (λ y. m ≤ key y) xs
  All-le m n [] le h = tt
  All-le m n (x ∷ xs) le (p, h) = (omega arith, All-le m n xs le h)

  insert_by-IsSorted : (x : A) (xs : List A) → IsSorted xs → IsSorted (insert_by x xs)
  unfolding insert_by
  insert_by-IsSorted x [] h = (tt, tt)
  insert_by-IsSorted x (y ∷ ys) (low, h) =
      by_order (leb (key x) (key y)) refl (insert_by-IsSorted x ys h)
    where
      by_order :
          (b : Bool)
          → leb (key x) (key y) ≡ b
          → IsSorted (insert_by x ys)
          → IsSorted (if b then x ∷ y ∷ ys else y ∷ insert_by x ys)
      by_order true e later =
          ((ground arith, All-le (key x) (key y) ys (ground arith) low), (low, h))
      by_order false e later = (All-insert_by (λ z. key y ≤ key z) x ys (ground arith) low, later)

  pub sort_by-IsSorted : (xs : List A) → IsSorted (sort_by xs)
  unfolding sort_by
  sort_by-IsSorted [] = tt
  sort_by-IsSorted (x ∷ xs) = insert_by-IsSorted x (sort_by xs) (sort_by-IsSorted xs)

  Memᴰ-insert_by-here : (x : A) (xs : List A) → Memᴰ x (insert_by x xs)
  unfolding insert_by
  Memᴰ-insert_by-here x [] = Memᴰ.head refl
  Memᴰ-insert_by-here x (y ∷ ys) =
      elim (leb (key x) (key y)) as (λ b. Memᴰ x (if b then x ∷ y ∷ ys else y ∷ insert_by x ys)) [
        | true ↦ Memᴰ.head refl
        | false ↦ Memᴰ.tail (Memᴰ-insert_by-here x ys)
      ]

  Memᴰ-insert_by-later : (x z : A) (xs : List A) → Memᴰ z xs → Memᴰ z (insert_by x xs)
  unfolding insert_by
  Memᴰ-insert_by-later x z [] m = elim m [ ]
  Memᴰ-insert_by-later x z (y ∷ ys) m =
      by_order (leb (key x) (key y)) m (Memᴰ-insert_by-later x z ys)
    where
      by_order :
          (b : Bool)
          → Memᴰ z (y ∷ ys)
          → (Memᴰ z ys → Memᴰ z (insert_by x ys))
          → Memᴰ z (if b then x ∷ y ∷ ys else y ∷ insert_by x ys)
      by_order true k later = Memᴰ.tail k
      by_order false (Memᴰ.head e) later = Memᴰ.head e
      by_order false (Memᴰ.tail k) later = Memᴰ.tail (later k)

  pub Memᴰ-sort_by : (z : A) (xs : List A) → Memᴰ z xs → Memᴰ z (sort_by xs)
  unfolding sort_by
  Memᴰ-sort_by z [] m = elim m [ ]
  Memᴰ-sort_by z (x ∷ xs) (Memᴰ.head e) =
      subst (λ y. Memᴰ y (insert_by x (sort_by xs))) (sym e) (Memᴰ-insert_by-here x (sort_by xs))
  Memᴰ-sort_by z (x ∷ xs) (Memᴰ.tail m) =
      Memᴰ-insert_by-later x z (sort_by xs) (Memᴰ-sort_by z xs m)

  -- No two items share their key.
  abbrev pub IsDistinctBy : List A → Type ℓ
  IsDistinctBy [] = Unit
  IsDistinctBy (x ∷ xs) = All (λ y. key x ≢ key y) xs × IsDistinctBy xs

  -- Each item's key is below those of the later ones.
  abbrev pub IsAscending : List A → Type ℓ
  IsAscending [] = Unit
  IsAscending (x ∷ xs) = All (λ y. key x < key y) xs × IsAscending xs

  insert_by-IsDistinctBy :
      (x : A) (xs : List A)
      → All (λ y. key x ≢ key y) xs
      → IsDistinctBy xs
      → IsDistinctBy (insert_by x xs)
  unfolding insert_by
  insert_by-IsDistinctBy x [] away h = (tt, tt)
  insert_by-IsDistinctBy x (y ∷ ys) (away, more) (apart, h) =
      elim (leb (key x) (key y))
        as (λ b. IsDistinctBy (if b then x ∷ y ∷ ys else y ∷ insert_by x ys)) [
          | true ↦ ((away, more), (apart, h))
          | false ↦ (
            All-insert_by (λ z. key y ≢ key z) x ys (λ e. away (sym e)) apart,
            insert_by-IsDistinctBy x ys more h,
          )
        ]

  sort_by-IsDistinctBy : (xs : List A) → IsDistinctBy xs → IsDistinctBy (sort_by xs)
  unfolding sort_by
  sort_by-IsDistinctBy [] h = tt
  sort_by-IsDistinctBy (x ∷ xs) (away, h) =
      insert_by-IsDistinctBy x (sort_by xs) (All-sort_by (λ y. key x ≢ key y) xs away)
        (sort_by-IsDistinctBy xs h)

  All-lt :
      (x : A) (xs : List A)
      → All (λ y. key x ≤ key y) xs
      → All (λ y. key x ≢ key y) xs
      → All (λ y. key x < key y) xs
  All-lt x [] low away = tt
  All-lt x (y ∷ ys) (le, low) (ne, away) = (omega arith, All-lt x ys low away)

  IsSorted-IsAscending : (xs : List A) → IsSorted xs → IsDistinctBy xs → IsAscending xs
  IsSorted-IsAscending [] sorted h = tt
  IsSorted-IsAscending (x ∷ xs) (low, sorted) (away, h) =
      (All-lt x xs low away, IsSorted-IsAscending xs sorted h)

  pub sort_by-IsAscending : (xs : List A) → IsDistinctBy xs → IsAscending (sort_by xs)
  sort_by-IsAscending xs h =
      IsSorted-IsAscending (sort_by xs) (sort_by-IsSorted xs) (sort_by-IsDistinctBy xs h)

  length-insert_by : (x : A) (xs : List A) → length (insert_by x xs) ≡ suc (length xs)
  unfolding insert_by
  length-insert_by x [] = refl
  length-insert_by x (y ∷ ys) = ground (arith, length-insert_by x ys)

  pub length-sort_by : (xs : List A) → length (sort_by xs) ≡ length xs
  unfolding sort_by
  length-sort_by [] = refl
  length-sort_by (x ∷ xs) = omega (arith, length-insert_by x (sort_by xs), length-sort_by xs)
