-- ===== src/Platform/RateLimit/Window.antt =====
-- The limiter never admits more than its limit within any window, and lets a refused caller in again
-- at the time that it announced.
use ai_receptionist.Base.{
  ℕ, ◌≤◌, ◌<◌, ◌≡◌, ◌∙◌, sym, ◌&&◌, tally-le-length, refl, inl, inr, String, true, false, List, [],
  ◌∷◌, ◌++◌, some, arith, eq_refl, subst, append-nil, append_assoc, ltb, keep, tally, All, length,
  length-keep, lookup, lookup-insert, ◌=ˢ◌, Bool-cases, ap,
}
use ai_receptionist.Platform.RateLimit.{
  Limiter, create_memory_rate_limiter, first_plus, sweep, is_recent, admit, stamps, check,
}
use ai_receptionist.Platform.RateLimit.Times.{Ordered-later, recent_at, recent-sweep}
use ai_receptionist.Platform.RateLimit.Memory.{
  current, after, Remembers, Remembers-check, allowed-check, self_Remembers, recent-current,
}

module _ (limit w : ℕ) where
  -- A run of requests, each a caller and the time of the call.
  abbrev Requests : Type 0
  Requests = List (String × ℕ)

  -- The clock does not go back, from `start` to `end`.
  abbrev InOrder : ℕ → Requests → ℕ → Type 0
  InOrder start [] end = start ≤ end
  InOrder start ((k, now) ∷ rest) end = (start ≤ now) × InOrder now rest end

  unfoldable pub serve : Limiter → Requests → Limiter
  serve s [] = s
  serve s ((k, now) ∷ rest) = serve (check limit w k now s).0 rest

  -- The times of the requests of `key` that were admitted.
  unfoldable pub admitted : String → Limiter → Requests → List ℕ
  admitted key s [] = []
  admitted key s ((k, now) ∷ rest) =
      after limit w key k now s [] ++ admitted key (check limit w k now s).0 rest

  after-append :
      (key k : String) (now : ℕ) (s : Limiter) (history : List ℕ)
      → after limit w key k now s history ≡ history ++ after limit w key k now s []
  after-append key k now s history =
      elim (Bool-cases (k =ˢ key && (check limit w k now s).1.allowed)) [
        | inl yes_ ↦ rw yes_
        | inr no_ ↦ rw no_ (sym (append-nil history))
      ]

  Remembers-serve :
      (key : String) (clock end : ℕ) (s : Limiter) (reqs : Requests) (history : List ℕ)
      → InOrder clock reqs end
      → Remembers limit w key clock s history
      → Remembers limit w key end (serve s reqs) (history ++ admitted key s reqs)
  unfolding serve admitted
  Remembers-serve key clock end s [] history le r = record {
    ordered = Ordered-later (stamps key s) le r.ordered;
    same = λ x h. rw append-nil (r.same x (omega arith));
    capped = λ x h. r.capped x (omega arith);
  }
  Remembers-serve key clock end s ((k, now) ∷ rest) history (le, o) r =
      let later =
        Remembers-serve key now end (check limit w k now s).0 rest
          (after limit w key k now s history) o
          (Remembers-check limit w key k clock now s history le r) in
      subst (λ h. Remembers limit w key end (serve (check limit w k now s).0 rest) h)
        (ap (λ h. h ++ admitted key (check limit w k now s).0 rest)
            (after-append key k now s history)
          ∙ append_assoc history (after limit w key k now s []) _)
        later

  Remembers-create :
      (key : String) (start : ℕ) → Remembers limit w key start (create_memory_rate_limiter start) []
  unfolding create_memory_rate_limiter
  Remembers-create key start = record {
    ordered = unfold lookup in tt;
    same = λ x h. unfold lookup in refl;
    capped = λ x h. unfold lookup in omega arith;
  }

  length-current :
      (key : String) (now : ℕ) (s : Limiter) (history : List ℕ)
      → Remembers limit w key now s history
      → length (current limit w key now s) ≡ recent_at w now history
  length-current key now s history r =
      length-keep (is_recent w now) (stamps key (sweep w now s))
      ∙ recent-sweep w now now now key s r.ordered (omega arith)
      ∙ r.same now (omega arith)

  Remembers-run :
      (key : String) (start now : ℕ) (reqs : Requests)
      → InOrder start reqs now
      → Remembers limit w key now
          (serve (create_memory_rate_limiter start) reqs)
          (admitted key (create_memory_rate_limiter start) reqs)
  Remembers-run key start now reqs o =
      Remembers-serve key start now (create_memory_rate_limiter start) reqs [] o
        (Remembers-create key start)

  -- After any requests, by any callers, with a clock that does not go back, a request is admitted
  -- exactly if fewer than `limit` requests of the same caller were admitted in the last window.
  pub check-allowed-eq :
      (key : String) (start now : ℕ) (reqs : Requests)
      → InOrder start reqs now
      → (check limit w key now (serve (create_memory_rate_limiter start) reqs)).1.allowed
        ≡ ltb (tally (is_recent w now) (admitted key (create_memory_rate_limiter start) reqs)) limit
  check-allowed-eq key start now reqs o =
      allowed-check limit w key now (serve (create_memory_rate_limiter start) reqs)
      ∙ ap (λ n. ltb n limit) (length-current key now _ _ (Remembers-run key start now reqs o))

  -- So in no window are more than `limit` requests of one caller admitted.
  pub admitted-le-limit :
      (key : String) (start end : ℕ) (reqs : Requests)
      → InOrder start reqs end
      → tally (is_recent w end) (admitted key (create_memory_rate_limiter start) reqs) ≤ limit
  admitted-le-limit key start end reqs o =
      let r = Remembers-run key start end reqs o in
      omega (arith, r.same end (omega arith), r.capped end (omega arith))

  first_expired :
      (ts : List ℕ) (r u : ℕ) → first_plus ts w ≡ some r → r ≤ u → recent_at w u ts < length ts
  first_expired [] r u e h = cc
  first_expired (t ∷ ts) r u e h = ground (arith, tally-le-length (is_recent w u) ts)

  first_later :
      (now r : ℕ) (ts : List ℕ) → first_plus (keep (is_recent w now) ts) w ≡ some r → now ≤ r
  first_later now r [] e = cc
  first_later now r (t ∷ ts) e = ground (arith, first_later now r ts)

  refused_result :
      (key : String) (now r : ℕ) (s : Limiter)
      → (check limit w key now s).1.allowed ≡ false
      → (check limit w key now s).1.reset_at ≡ some r
      → (first_plus (current limit w key now s) w ≡ some r)
        × (stamps key (check limit w key now s).0 ≡ current limit w key now s)
  unfolding check admit
  refused_result key now r s h e = ground (
    arith,
    lookup-insert key key (current limit w key now s) (sweep w now s).buckets,
    eq_refl key,
  )

  none_admitted :
      (key : String) (s : Limiter) (reqs : Requests)
      → All (λ q. (q.0 =ˢ key) ≡ false) reqs
      → admitted key s reqs ≡ []
  unfolding admitted
  none_admitted key s [] h = refl
  none_admitted key s ((k, now) ∷ rest) (h, hs) =
      rw h (none_admitted key (check limit w k now s).0 rest hs)

  -- The refused bucket is full, and its first time has left the window at `u`.
  room_after_reset :
      (key : String) (now r u : ℕ) (s : Limiter) (history : List ℕ)
      → Remembers limit w key now s history
      → (check limit w key now s).1.allowed ≡ false
      → (check limit w key now s).1.reset_at ≡ some r
      → r ≤ u
      → recent_at w u history < limit
  room_after_reset key now r u s history m h e le =
      let (first, kept) = refused_result key now r s h e in
      omega (
        arith,
        first_later now r (stamps key (sweep w now s)) first,
        first_expired (current limit w key now s) r u first le,
        length-current key now s history m,
        m.same now (omega arith),
        m.capped now (omega arith),
        recent-current limit w key now now s history (omega arith) m u
            (omega (arith, first_later now r (stamps key (sweep w now s)) first)),
      )

  -- A refused request names the time `r` of its reset. Whatever other callers do meanwhile, the next
  -- request of the same caller is admitted at any time from `r` on.
  pub check_after_reset :
      (key : String) (start now r u : ℕ) (reqs others : Requests)
      → InOrder start reqs now
      → (check limit w key now (serve (create_memory_rate_limiter start) reqs)).1.allowed ≡ false
      → (check limit w key now (serve (create_memory_rate_limiter start) reqs)).1.reset_at ≡ some r
      → All (λ q. (q.0 =ˢ key) ≡ false) others
      → InOrder now others u
      → r ≤ u
      → (check limit w key u (
          serve
            (check limit w key now (serve (create_memory_rate_limiter start) reqs)).0
            others)).1.allowed
        ≡ true
  check_after_reset key start now r u reqs others o h e apart o' le =
      let s = serve (create_memory_rate_limiter start) reqs in
      let m = Remembers-run key start now reqs o in
      let history = admitted key (create_memory_rate_limiter start) reqs in
      let refused =
        rw (eq_refl key, h) at (self_Remembers limit w key now now s history (omega arith) m) in
      let m' = Remembers-serve key now u (check limit w key now s).0 others history o' refused in
      ground (
        arith,
        allowed-check limit w key u (serve (check limit w key now s).0 others),
        length-current key u (serve (check limit w key now s).0 others) _ m',
        none_admitted key (check limit w key now s).0 others apart,
        append-nil history,
        room_after_reset key now r u s history m h e le,
      )
