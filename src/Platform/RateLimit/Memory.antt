-- ===== src/Platform/RateLimit/Memory.antt =====
-- What the limiter's bucket of one caller remembers of the admitted requests.
use ai_receptionist.Base.{
  ℕ, ◌≤◌, ◌<◌, ◌≡◌, ◌∙◌, sym, ◌&&◌, tally-le-length, inl, inr, String, true, false, List, [], ◌∷◌,
  ◌++◌, arith, eq_iff, eq_refl, subst, ltb, leb, keep, length, tally-append, lookup-insert,
  if◌then◌else◌, ◌=ˢ◌, Bool-cases, ap,
}
use ai_receptionist.Platform.RateLimit.{Limiter, sweep, is_recent, admit, stamps, check}
use ai_receptionist.Platform.RateLimit.Times.{
  Ordered, Ordered-later, Ordered-keep, Ordered-push, recent_at, keep_recent, recent-sweep,
  Ordered-sweep,
}

module _ (limit w : ℕ) where
  -- The times that `check` filters.
  abbrev pub current : String → ℕ → Limiter → List ℕ
  current key now s = keep (is_recent w now) (stamps key (sweep w now s))

  pub stamps-check :
      (key other : String) (now : ℕ) (s : Limiter)
      → stamps other (check limit w key now s).0 ≡ (
          if key =ˢ other
          then if leb limit (length (current key now s))
            then current key now s
            else current key now s ++ now ∷ []
          else stamps other (sweep w now s))
  unfolding check admit
  stamps-check key other now s = ground (
    arith,
    lookup-insert key other (current key now s) (sweep w now s).buckets,
    lookup-insert key other (current key now s ++ now ∷ []) (sweep w now s).buckets,
  )

  pub allowed-check :
      (key : String) (now : ℕ) (s : Limiter)
      → (check limit w key now s).1.allowed ≡ ltb (length (current key now s)) limit
  unfolding check admit
  allowed-check key now s = ground arith

  -- What the limiter remembers of one caller, whose admitted requests `history` lists.
  pub record Remembers (key : String) (clock : ℕ) (s : Limiter) (history : List ℕ) : Type 0 where
    pub ordered : Ordered clock (stamps key s)
    pub same : (x : ℕ) → clock ≤ x → recent_at w x (stamps key s) ≡ recent_at w x history
    pub capped : (x : ℕ) → clock ≤ x → recent_at w x (stamps key s) ≤ limit

  abbrev pub after : String → String → ℕ → Limiter → List ℕ → List ℕ
  after key k now s history =
      if k =ˢ key && (check limit w k now s).1.allowed then history ++ now ∷ [] else history

  module _ (key : String) (clock now : ℕ) (s : Limiter) (history : List ℕ) (le : clock ≤ now)
      (r : Remembers key clock s history) where
    pub swept : Remembers key now (sweep w now s) history
    swept = record {
      ordered = Ordered-sweep w now now key s (Ordered-later (stamps key s) le r.ordered);
      same = λ x h. recent-sweep w clock now x key s r.ordered h ∙ r.same x (omega arith);
      capped = λ x h.
          omega (arith, recent-sweep w clock now x key s r.ordered h, r.capped x (omega arith));
    }

    pub recent-current :
        (x : ℕ) → now ≤ x → recent_at w x (current key now s) ≡ recent_at w x history
    recent-current x h = keep_recent w now x (stamps key (sweep w now s)) h ∙ swept.same x h

    pub Ordered-current : Ordered now (current key now s)
    Ordered-current = Ordered-keep now (is_recent w now) (stamps key (sweep w now s)) swept.ordered

    pub refused_Remembers :
        (t : Limiter) → stamps key t ≡ current key now s → Remembers key now t history
    refused_Remembers t e = record {
      ordered = rw e Ordered-current;
      same = λ x h. rw e (recent-current x h);
      capped = λ x h.
          omega (arith, ap (recent_at w x) e, recent-current x h, swept.same x h, swept.capped x h);
    }

    pub admitted_Remembers :
        (t : Limiter)
        → stamps key t ≡ current key now s ++ now ∷ []
        → length (current key now s) < limit
        → Remembers key now t (history ++ now ∷ [])
    admitted_Remembers t e room = record {
      ordered = rw e (Ordered-push now (current key now s) Ordered-current);
      same = λ x h. rw e (
          omega (
            arith,
            tally-append (is_recent w x) (current key now s) (now ∷ []),
            tally-append (is_recent w x) history (now ∷ []),
            recent-current x h,
          ));
      capped = λ x h. rw e (
          omega (
            arith,
            tally-append (is_recent w x) (current key now s) (now ∷ []),
            tally-le-length (is_recent w x) (current key now s),
            tally-le-length (is_recent w x) (now ∷ []),
          ));
    }

    pub other_Remembers :
        (t : Limiter) → stamps key t ≡ stamps key (sweep w now s) → Remembers key now t history
    other_Remembers t e = record {
      ordered = rw e swept.ordered;
      same = λ x h. rw e (swept.same x h);
      capped = λ x h. rw e (swept.capped x h);
    }

  pub self_Remembers :
      (key : String) (clock now : ℕ) (s : Limiter) (history : List ℕ)
      → clock ≤ now
      → Remembers key clock s history
      → Remembers key now (check limit w key now s).0 (after key key now s history)
  self_Remembers key clock now s history le r =
      elim (Bool-cases (leb limit (length (current key now s)))) [
        | inl full ↦
            let shut : (check limit w key now s).1.allowed ≡ false =
              ground (arith, allowed-check key now s) in
            rw (eq_refl key, shut)
              (refused_Remembers key clock now s history le r _
                (stamps-check key key now s ∙ (rw (eq_refl key, full))))
        | inr room ↦
            let open_ : (check limit w key now s).1.allowed ≡ true =
              ground (arith, allowed-check key now s) in
            rw (eq_refl key, open_)
              (admitted_Remembers key clock now s history le r _
                (stamps-check key key now s ∙ (rw (eq_refl key, room))) (ground arith))
      ]

  pub Remembers-check :
      (key k : String) (clock now : ℕ) (s : Limiter) (history : List ℕ)
      → clock ≤ now
      → Remembers key clock s history
      → Remembers key now (check limit w k now s).0 (after key k now s history)
  Remembers-check key k clock now s history le r = elim (Bool-cases (k =ˢ key)) [
    | inl same ↦
        subst (λ j. Remembers key now (check limit w j now s).0 (after key j now s history))
          (sym ((eq_iff k key).0 same)) (self_Remembers key clock now s history le r)
    | inr other ↦
        rw other
          (other_Remembers key clock now s history le r _ (rw other at (stamps-check k key now s)))
  ]
