-- ===== src/Providers/Router.antt =====
-- packages/providers/llm/fallback-router.ts: `complete` over its ordered candidates. The clock is passed on:
-- what a candidate answers, and how long it takes, depends on its index, the time and its timeout. Of the
-- route events, without the first, latencies and usage; the request is not aborted.
pub mod Order
use ai_receptionist.Base.{
  ℕ, zero, suc, ◌+◌, ◌-◌, ◌*◌, ◌/◌, ◌^◌, max, min, leb, ltb, length, String, Bool, true, false,
  ◌||◌, ◌&&◌, not, List, [], ◌∷◌, ◌++◌, Option, none, some, is_some, or_else, Dict, lookup, insert,
  if◌then◌else◌, ◌==◌,
}

pub record ModelCandidate : Type 0 where
  pub provider : String
  pub model : String

pub data FailureCategory : Type 0 where
  timeout : FailureCategory
  connection : FailureCategory
  provider_5xx : FailureCategory
  rate_limit : FailureCategory
  provider_unavailable : FailureCategory
  model_unavailable : FailureCategory
  billing_limit : FailureCategory
  non_retryable : FailureCategory

-- An error, with the `retryAfterMs` of its details.
pub record ProviderFailure : Type 0 where
  pub category : FailureCategory
  pub retry_after_ms : ℕ

pub record Cooldown : Type 0 where
  pub until : ℕ
  pub error : ProviderFailure
  pub strikes : ℕ

pub data ProviderAnswer : Type 0 where
  answered : ProviderAnswer
  refused : ProviderFailure → ProviderAnswer

-- By the index of the candidate.
pub data RouteEvent : Type 0 where
  -- with the time
  started : ℕ → ℕ → RouteEvent
  completed : ℕ → RouteEvent
  failed : ℕ → FailureCategory → RouteEvent
  fallback : ℕ → RouteEvent
  skipped : ℕ → RouteEvent
  exhausted : RouteEvent

-- How the routing ends: the candidate that answered, or the error that is thrown.
pub data RouteResult : Type 0 where
  routed : ℕ → RouteResult
  thrown : ProviderFailure → RouteResult

pub record RouterState : Type 0 where
  pub cooldowns : Dict Cooldown
  pub now : ℕ

abbrev pub is_retryable : FailureCategory → Bool
is_retryable non_retryable = false
is_retryable _ = true

abbrev pub is_limit : FailureCategory → Bool
is_limit rate_limit = true
is_limit billing_limit = true
is_limit _ = false

abbrev pub billing_delay : FailureCategory → ℕ
billing_delay billing_limit = 300000
billing_delay _ = 0

abbrev pub strikes_of : Option Cooldown → ℕ
strikes_of none = 0
strikes_of (some c) = c.strikes

-- The delay before a provider that met a limit is asked again; `strikes` counts from 1.
unfoldable pub cooldown_delay : ProviderFailure → ℕ → ℕ
cooldown_delay error strikes =
    max (billing_delay error.category)
      (max error.retry_after_ms (min 60000 (1000 * 2 ^ min (strikes - 1) 6)))

unfoldable pub record_failure : String → ProviderFailure → RouterState → RouterState
record_failure provider error s =
    let strikes = strikes_of (lookup provider s.cooldowns) + 1 in
    if is_limit error.category
    then record s {
      cooldowns =
          insert provider
            (record {
              until = s.now + cooldown_delay error strikes;
              error = error;
              strikes = strikes;
            })
            s.cooldowns;
    }
    else s

abbrev pub deadline_exceeded : ProviderFailure
deadline_exceeded = record { category = timeout; retry_after_ms = 0 }

-- What `waitForProvider` decides; `ready` with the time until which it slept.
pub data Wait : Type 0 where
  late : Wait
  ready : ℕ → Wait
  unavailable : ProviderFailure → Wait

unfoldable pub wait_cooldown : ℕ → ℕ → ℕ → Cooldown → Wait
wait_cooldown max_wait_ms deadline now c =
    let wait_ms = c.until - now in
    if wait_ms == 0
    then ready now
    else if ltb max_wait_ms wait_ms || leb deadline (now + wait_ms)
    then unavailable c.error
    else ready (now + wait_ms)

abbrev pub wait_for : ℕ → ℕ → ℕ → Option Cooldown → Wait
wait_for max_wait_ms deadline now none = ready now
wait_for max_wait_ms deadline now (some c) = wait_cooldown max_wait_ms deadline now c

unfoldable pub wait_for_provider : ℕ → ℕ → String → RouterState → Wait
wait_for_provider max_wait_ms deadline provider s =
    if leb deadline s.now
    then late
    else wait_for max_wait_ms deadline s.now (lookup provider s.cooldowns)

pub record Routed : Type 0 where
  pub events : List RouteEvent
  pub result : RouteResult
  pub state : RouterState

abbrev pub after_events : List RouteEvent → Routed → Routed
after_events events r = record r { events = events ++ r.events }

abbrev pub fallback_to : ℕ → List ModelCandidate → List RouteEvent
fallback_to index [] = []
fallback_to index (_ ∷ _) = fallback index ∷ []

module _ (ask : ℕ → ℕ → ℕ → ProviderAnswer × ℕ) (max_wait_ms deadline candidate_count : ℕ) where
  -- `candidateOptions`
  unfoldable pub timeout_for : ℕ → ℕ → ℕ
  timeout_for index now = max 1 (max 1 (deadline - now) / (candidate_count - index))

  -- An answer after the deadline is a failure.
  abbrev pub in_time : ProviderAnswer → ℕ → ProviderAnswer
  in_time answered now = if leb deadline now then refused deadline_exceeded else answered
  in_time (refused error) now = refused error

  -- After the answer of a candidate; `next` is the rest of the loop.
  abbrev pub handle_answer :
      ℕ
      → ModelCandidate
      → List RouteEvent
      → (ProviderFailure → RouterState → Routed)
      → RouterState
      → ProviderAnswer
      → Routed
  handle_answer index candidate fallbacks next s answered = record {
    events = completed index ∷ [];
    result = routed index;
    state = s;
  }
  handle_answer index candidate fallbacks next s (refused error) =
      let cooled = record_failure candidate.provider error s in
      if is_retryable error.category
      then after_events (failed index error.category ∷ fallbacks) (next error cooled)
      else record {
        events = failed index error.category ∷ [];
        result = thrown error;
        state = cooled;
      }

  -- The request to a candidate that may be asked from `now` on.
  unfoldable pub ask_candidate :
      ℕ
      → ModelCandidate
      → List RouteEvent
      → (ProviderFailure → RouterState → Routed)
      → RouterState
      → ℕ
      → Routed
  ask_candidate index candidate fallbacks next s now =
      let (answer, elapsed) = ask index now (timeout_for index now) in
      after_events (started index now ∷ []) (
        handle_answer index candidate fallbacks next (record s { now = now + elapsed })
          (in_time answer (now + elapsed)))

  abbrev pub try_candidate :
      ℕ
      → ModelCandidate
      → List RouteEvent
      → (ProviderFailure → RouterState → Routed)
      → RouterState
      → Wait
      → Routed
  try_candidate index candidate fallbacks next s late = record {
    events = [];
    result = thrown deadline_exceeded;
    state = s;
  }
  try_candidate index candidate fallbacks next s (unavailable error) =
      after_events (skipped index ∷ []) (next error s)
  try_candidate index candidate fallbacks next s (ready now) =
      ask_candidate index candidate fallbacks next s now

  -- The loop over the candidates from `index` on.
  unfoldable pub complete_from : List ModelCandidate → ℕ → ProviderFailure → RouterState → Routed
  complete_from [] index last_error s = record {
    events = exhausted ∷ [];
    result = thrown last_error;
    state = s;
  }
  complete_from (candidate ∷ candidates) index last_error s =
      try_candidate index candidate (fallback_to (index + 1) candidates)
        (complete_from candidates (index + 1)) s
        (wait_for_provider max_wait_ms deadline candidate.provider s)

-- `complete` within `timeout_ms`. The router has a candidate, so the first error thrown is a real one.
unfoldable pub complete :
    (ℕ → ℕ → ℕ → ProviderAnswer × ℕ) → ℕ → ℕ → List ModelCandidate → RouterState → Routed
complete ask max_wait_ms timeout_ms candidates s =
    complete_from ask max_wait_ms (s.now + timeout_ms) (length candidates) candidates 0
      deadline_exceeded s
