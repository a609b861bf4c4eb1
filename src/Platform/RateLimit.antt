-- ===== src/Platform/RateLimit.antt =====
-- packages/platform/rate-limit.ts: the sliding-window limiter. The clock is an argument of each
-- call. `t > now - windowMs` is written `now < t + window_ms`, which is the same over the integers.
pub mod Times
pub mod Memory
pub mod Window
use ai_receptionist.Base.{
  ℕ, suc, ◌+◌, ◌-◌, String, Bool, true, false, List, [], ◌∷◌, ◌++◌, Option, none, some, ltb, leb,
  keep, length, Dict, lookup, insert, delete, or_else, if◌then◌else◌,
}

pub record RateLimitResult : Type 0 where
  pub allowed : Bool
  pub remaining : ℕ
  -- `none` is the NaN of an empty list's first item, at limit 0
  pub reset_at : Option ℕ

-- What the closure of `createMemoryRateLimiter` keeps between calls.
pub record Limiter : Type 0 where
  pub buckets : Dict (List ℕ)
  pub last_sweep : ℕ

-- `createMemoryRateLimiter`, called at the time `now`.
unfoldable pub create_memory_rate_limiter : ℕ → Limiter
create_memory_rate_limiter now = record { buckets = []; last_sweep = now }

abbrev pub last? : List ℕ → Option ℕ
last? [] = none
last? (t ∷ []) = some t
last? (t ∷ u ∷ ts) = last? (u ∷ ts)

-- `timestamps[0] + windowMs`
abbrev pub first_plus : List ℕ → ℕ → Option ℕ
first_plus [] w = none
first_plus (t ∷ ts) w = some (t + w)

module _ (window_ms : ℕ) where
  unfoldable pub is_idle : ℕ → List ℕ → Bool
  is_idle now ts = elim (last? ts) [ none ↦ true | some t ↦ ltb (t + window_ms) now ]

  -- the loop of `sweep`
  unfoldable pub drop_idle : ℕ → Dict (List ℕ) → Dict (List ℕ)
  unfolding is_idle
  drop_idle now [] = []
  drop_idle now ((key, ts) ∷ m) =
      let rest = drop_idle now m in if is_idle now ts then delete key rest else (key, ts) ∷ rest

  unfoldable pub sweep : ℕ → Limiter → Limiter
  unfolding drop_idle
  sweep now s =
      if ltb now (s.last_sweep + window_ms)
      then s
      else record { buckets = drop_idle now s.buckets; last_sweep = now }

  abbrev pub is_recent : ℕ → ℕ → Bool
  is_recent now t = ltb now (t + window_ms)

abbrev pub stamps : String → Limiter → List ℕ
stamps key s = or_else (lookup key s.buckets) []

module _ (limit window_ms : ℕ) where
  -- `check` after the sweep, with the bucket's timestamps filtered
  unfoldable pub admit : String → ℕ → List ℕ → Limiter → Limiter × RateLimitResult
  admit key now recent s =
      if leb limit (length recent)
      then (
        record s { buckets = insert key recent s.buckets },
        record { allowed = false; remaining = 0; reset_at = first_plus recent window_ms },
      )
      else (
        record s { buckets = insert key (recent ++ now ∷ []) s.buckets },
        record {
          allowed = true;
          remaining = limit - suc (length recent);
          reset_at = some (now + window_ms);
        },
      )

  unfoldable pub check : String → ℕ → Limiter → Limiter × RateLimitResult
  unfolding sweep admit
  check key now s =
      let swept = sweep window_ms now s in
      admit key now (keep (is_recent window_ms now) (stamps key swept)) swept
