-- ===== src/Base/Lists.antt =====
-- Lists measured by native numbers, Boolean searches, and predicates on every item.
use Prim.Native.Nat.{ℕ, zero, suc, ◌+◌, ◌≤◌}
use Prim.Native.String.{String}
use mathlib.Core.Path.{◌≡◌, refl, sym, subst}
use mathlib.Core.Logic.{inl, inr}
use mathlib.Core.Bool.{Bool, true, false, ◌&&◌, ◌||◌}
use mathlib.Core.Option.{Option, none, some}
use mathlib.Core.List.{List, [], ◌∷◌, ◌++◌, Memᴰ}
use native.Mathlib.Omega.{arith}
use ai_receptionist.Base.Tests.{if◌then◌else◌, ◌=ˢ◌, Bool-cases}

module _ {ℓ} {A : Type ℓ} where
  abbrev pub length : List A → ℕ
  length [] = 0
  length (x ∷ xs) = suc (length xs)

  abbrev pub get_elem? : List A → ℕ → Option A
  get_elem? [] i = none
  get_elem? (x ∷ xs) zero = some x
  get_elem? (x ∷ xs) (suc i) = get_elem? xs i

  abbrev pub take : ℕ → List A → List A
  take zero xs = []
  take (suc n) [] = []
  take (suc n) (x ∷ xs) = x ∷ take n xs

  abbrev pub drop : ℕ → List A → List A
  drop zero xs = xs
  drop (suc n) [] = []
  drop (suc n) (x ∷ xs) = drop n xs

  abbrev pub all : (A → Bool) → List A → Bool
  all p [] = true
  all p (x ∷ xs) = p x && all p xs

  abbrev pub any : (A → Bool) → List A → Bool
  any p [] = false
  any p (x ∷ xs) = p x || any p xs

  -- `xs.filter(p)`
  abbrev pub keep : (A → Bool) → List A → List A
  keep p [] = []
  keep p (x ∷ xs) = if p x then x ∷ keep p xs else keep p xs

  -- `xs.find(p)`
  abbrev pub find : (A → Bool) → List A → Option A
  find p [] = none
  find p (x ∷ xs) = if p x then some x else find p xs

  -- how many items pass the test
  abbrev pub tally : (A → Bool) → List A → ℕ
  tally p [] = 0
  tally p (x ∷ xs) = if p x then suc (tally p xs) else tally p xs

  pub length-append : (xs ys : List A) → length (xs ++ ys) ≡ length xs + length ys
  length-append [] ys = omega arith
  length-append (x ∷ xs) ys = omega (arith, length-append xs ys)

  pub append-eq-nil : (xs ys : List A) → xs ++ ys ≡ [] → (xs ≡ []) × (ys ≡ [])
  append-eq-nil [] ys h = (refl, h)
  append-eq-nil (x ∷ xs) ys h = cc

  pub tally-append : (p : A → Bool) (xs ys : List A) → tally p (xs ++ ys) ≡ tally p xs + tally p ys
  tally-append p [] ys = omega arith
  tally-append p (x ∷ xs) ys = ground (arith, tally-append p xs ys)

  pub tally-le-length : (p : A → Bool) (xs : List A) → tally p xs ≤ length xs
  tally-le-length p [] = omega arith
  tally-le-length p (x ∷ xs) = ground (arith, tally-le-length p xs)

  pub length-keep : (p : A → Bool) (xs : List A) → length (keep p xs) ≡ tally p xs
  length-keep p [] = refl
  length-keep p (x ∷ xs) = ground (arith, length-keep p xs)

-- `xs.includes(x)` on texts
abbrev pub includes : List String → String → Bool
includes [] x = false
includes (y ∷ ys) x = y =ˢ x || includes ys x

module _ {ℓ κ} {A : Type ℓ} (P : A → Type κ) where
  abbrev pub All : List A → Type κ
  All [] = Unit
  All (x ∷ xs) = P x × All xs

  pub All-append : (xs ys : List A) → All xs → All ys → All (xs ++ ys)
  All-append [] ys h k = k
  All-append (x ∷ xs) ys (p, h) k = (p, All-append xs ys h k)

  pub All-keep : (p : A → Bool) (xs : List A) → All xs → All (keep p xs)
  All-keep p [] h = tt
  All-keep p (x ∷ xs) (h, hs) = elim (p x) as (λ b. All (if b then x ∷ keep p xs else keep p xs)) [
    | true ↦ (h, All-keep p xs hs)
    | false ↦ All-keep p xs hs
  ]

  pub find-All : (p : A → Bool) (xs : List A) {x : A} → All xs → find p xs ≡ some x → P x
  find-All p [] h e = cc
  find-All p (y ∷ xs) {x} (h, hs) e = elim (Bool-cases (p y)) [
    | inl here ↦ subst P (ground arith) h
    | inr there ↦ find-All p xs hs (ground arith)
  ]

module _ {ℓ κ} {A : Type ℓ} (P : A → Type κ) where
  pub All-Memᴰ : (xs : List A) (x : A) → All P xs → Memᴰ x xs → P x
  All-Memᴰ [] x h m = elim m [ ]
  All-Memᴰ (y ∷ ys) x (p, h) (Memᴰ.head e) = subst P (sym e) p
  All-Memᴰ (y ∷ ys) x (p, h) (Memᴰ.tail m) = All-Memᴰ ys x h m

  pub Memᴰ-All : (xs : List A) → ((x : A) → Memᴰ x xs → P x) → All P xs
  Memᴰ-All [] f = tt
  Memᴰ-All (y ∷ ys) f = (f y (Memᴰ.head refl), Memᴰ-All ys (λ x m. f x (Memᴰ.tail m)))

module _ {ℓ κ} {A : Type ℓ} {P : A → Type κ} where
  pub All-map {μ} : {Q : A → Type μ} (f : (x : A) → P x → Q x) (xs : List A) → All P xs → All Q xs
  All-map f [] h = tt
  All-map f (x ∷ xs) (p, h) = (f x p, All-map f xs h)

module _ {ℓ} {A : Type ℓ} (p : A → Bool) where
  pub All-kept : (xs : List A) → All (λ x. p x ≡ true) (keep p xs)
  All-kept [] = tt
  All-kept (x ∷ xs) = by_test (p x) refl (All-kept xs)
    where
      by_test :
          (b : Bool)
          → p x ≡ b
          → All (λ y. p y ≡ true) (keep p xs)
          → All (λ y. p y ≡ true) (if b then x ∷ keep p xs else keep p xs)
      by_test true e later = (e, later)
      by_test false e later = later

  pub any-Memᴰ : (xs : List A) → any p xs ≡ true → (x : A) × Memᴰ x xs × (p x ≡ true)
  any-Memᴰ [] e = cc
  any-Memᴰ (y ∷ ys) e = elim (Bool-cases (p y)) [
    | inl here ↦ (y, Memᴰ.head refl, here)
    | inr other ↦ let (x, i, h) = any-Memᴰ ys (ground arith) in (x, Memᴰ.tail i, h)
  ]

  pub Memᴰ-keep : (x : A) (xs : List A) → p x ≡ true → Memᴰ x xs → Memᴰ x (keep p xs)
  Memᴰ-keep x [] e m = elim m [ ]
  Memᴰ-keep x (y ∷ ys) e (Memᴰ.head s) = rw (← s, e) (Memᴰ.head refl)
  Memᴰ-keep x (y ∷ ys) e (Memᴰ.tail m) = by_test (p y) (Memᴰ-keep x ys e m)
    where
      by_test : (b : Bool) → Memᴰ x (keep p ys) → Memᴰ x (if b then y ∷ keep p ys else keep p ys)
      by_test true k = Memᴰ.tail k
      by_test false k = k

  pub keep-Memᴰ : (x : A) (xs : List A) → Memᴰ x (keep p xs) → Memᴰ x xs
  keep-Memᴰ x [] m = elim m [ ]
  keep-Memᴰ x (y ∷ ys) m = by_test (p y) m (keep-Memᴰ x ys)
    where
      by_test :
          (b : Bool)
          → Memᴰ x (if b then y ∷ keep p ys else keep p ys)
          → (Memᴰ x (keep p ys) → Memᴰ x ys)
          → Memᴰ x (y ∷ ys)
      by_test true (Memᴰ.head s) later = Memᴰ.head s
      by_test true (Memᴰ.tail k) later = Memᴰ.tail (later k)
      by_test false k later = Memᴰ.tail (later k)
