-- ===== src/Platform/RateLimit/Times.antt =====
-- Lists of times in order, which of them a window still counts, and the sweep of idle buckets.
use ai_receptionist.Base.{
  ℕ, ◌+◌, ◌≤◌, ◌≡◌, ◌≢◌, ◌∙◌, sym, refl, ◌⊎◌, inl, inr, String, Bool, true, false, List, [], ◌∷◌,
  ◌++◌, none, some, arith, eq_iff, keep, tally, All, All-append, All-keep, Dict, lookup,
  lookup-delete, or_else, if◌then◌else◌, Option-cases, ap,
}
use ai_receptionist.Platform.RateLimit.{
  Limiter, last?, is_idle, drop_idle, sweep, is_recent, stamps,
}

-- Increasing times, none after `clock`.
abbrev pub Ordered : ℕ → List ℕ → Type 0
Ordered clock [] = Unit
Ordered clock (t ∷ ts) = (t ≤ clock) × All (λ u. t ≤ u) ts × Ordered clock ts

pub Ordered-later : {a b : ℕ} (ts : List ℕ) → a ≤ b → Ordered a ts → Ordered b ts
Ordered-later [] h o = tt
Ordered-later (t ∷ ts) h (le, first, o) = (omega arith, first, Ordered-later ts h o)

pub Ordered-keep : (c : ℕ) (p : ℕ → Bool) (ts : List ℕ) → Ordered c ts → Ordered c (keep p ts)
Ordered-keep c p [] o = tt
Ordered-keep c p (t ∷ ts) (le, first, o) =
    elim (p t) as (λ b. Ordered c (if b then t ∷ keep p ts else keep p ts)) [
      | true ↦ (le, All-keep (λ u. t ≤ u) p ts first, Ordered-keep c p ts o)
      | false ↦ Ordered-keep c p ts o
    ]

pub Ordered-push : (c : ℕ) (ts : List ℕ) → Ordered c ts → Ordered c (ts ++ c ∷ [])
Ordered-push c [] o = (omega arith, tt, tt)
Ordered-push c (t ∷ ts) (le, first, o) =
    (le, All-append (λ u. t ≤ u) ts (c ∷ []) first (le, tt), Ordered-push c ts o)

pub le-last : (t l : ℕ) (ts : List ℕ) → All (λ u. t ≤ u) ts → last? ts ≡ some l → t ≤ l
le-last t l [] h e = ground arith
le-last t l (u ∷ []) h e = ground arith
le-last t l (u ∷ v ∷ ts) (_, h) e = le-last t l (v ∷ ts) h e

module _ (w : ℕ) where
  -- How many of the times still count at `x`.
  abbrev pub recent_at : ℕ → List ℕ → ℕ
  recent_at x ts = tally (is_recent w x) ts

  pub none_recent : (x l : ℕ) (ts : List ℕ) → All (λ t. t ≤ l) ts → l + w ≤ x → recent_at x ts ≡ 0
  none_recent x l [] h le = refl
  none_recent x l (t ∷ ts) (first, h) le = ground (arith, none_recent x l ts h le)

  pub All-le-last : (c l : ℕ) (ts : List ℕ) → Ordered c ts → last? ts ≡ some l → All (λ t. t ≤ l) ts
  All-le-last c l [] o e = tt
  All-le-last c l (t ∷ []) o e = ground arith
  All-le-last c l (t ∷ u ∷ ts) (_, first, o) e =
      (le-last t l (u ∷ ts) first e, All-le-last c l (u ∷ ts) o e)

  pub last_there : (t : ℕ) (ts : List ℕ) → last? (t ∷ ts) ≢ none
  last_there t [] e = cc
  last_there t (u ∷ ts) e = last_there u ts e

  pub no_times : (x : ℕ) (ts : List ℕ) → last? ts ≡ none → recent_at x ts ≡ 0
  no_times x [] e = refl
  no_times x (t ∷ ts) e = absurd (last_there t ts e)

  pub idle_none_recent :
      (c now x : ℕ) (ts : List ℕ)
      → Ordered c ts
      → now ≤ x
      → is_idle w now ts ≡ true
      → recent_at x ts ≡ 0
  unfolding is_idle
  idle_none_recent c now x ts o le h = elim (Option-cases (last? ts)) [
    | inl empty ↦ no_times x ts empty
    | inr (l, e) ↦ none_recent x l ts (All-le-last c l ts o e) (ground arith)
  ]

  -- What the filter drops does not count later either.
  pub keep_recent :
      (now x : ℕ) (ts : List ℕ) → now ≤ x → recent_at x (keep (is_recent w now) ts) ≡ recent_at x ts
  keep_recent now x [] le = refl
  keep_recent now x (t ∷ ts) le = ground (arith, keep_recent now x ts le)

  pub lookup-drop_idle :
      (now : ℕ) (key : String) (m : Dict (List ℕ))
      → or_else (lookup key (drop_idle w now m)) []
        ≡ (if is_idle w now (or_else (lookup key m) []) then [] else or_else (lookup key m) [])
  unfolding lookup drop_idle
  lookup-drop_idle now key [] = ground arith
  lookup-drop_idle now key ((j, ts) ∷ m) =
      ground
        (arith, eq_iff j key, lookup-delete j key (drop_idle w now m), lookup-drop_idle now key m)

  pub stamps-sweep :
      (now : ℕ) (key : String) (s : Limiter)
      → (stamps key (sweep w now s) ≡ stamps key s)
        ⊎ ((stamps key (sweep w now s) ≡ []) × (is_idle w now (stamps key s) ≡ true))
  unfolding sweep
  stamps-sweep now key s = ground (arith, lookup-drop_idle now key s.buckets)

  -- The sweep keeps what still counts, of every caller.
  pub recent-sweep :
      (c now x : ℕ) (key : String) (s : Limiter)
      → Ordered c (stamps key s)
      → now ≤ x
      → recent_at x (stamps key (sweep w now s)) ≡ recent_at x (stamps key s)
  recent-sweep c now x key s o le = elim (stamps-sweep now key s) [
    | inl same ↦ ap (recent_at x) same
    | inr (gone, idle) ↦
        ap (recent_at x) gone ∙ sym (idle_none_recent c now x (stamps key s) o le idle)
  ]

  pub Ordered-sweep :
      (c now : ℕ) (key : String) (s : Limiter)
      → Ordered c (stamps key s)
      → Ordered c (stamps key (sweep w now s))
  Ordered-sweep c now key s o = elim (stamps-sweep now key s) [
    | inl same ↦ rw same o
    | inr (gone, idle) ↦ rw gone tt
  ]
