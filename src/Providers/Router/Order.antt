-- ===== src/Providers/Router/Order.antt =====
-- The order of the requests, and when the routing stops.
use ai_receptionist.Base.{
  ℕ, ◌≤◌, ◌<◌, ◌≡◌, ◌⊎◌, true, false, List, [], ◌∷◌, Option, none, some, All, IsAscending, all,
}
use ai_receptionist.Providers.Router.{
  FailureCategory, Cooldown, RouteEvent, started, failed, RouteResult, routed, thrown, is_retryable,
  Routed,
}

-- The candidates that were asked, in order.
abbrev pub asked : List RouteEvent → List ℕ
asked [] = []
asked (started i t ∷ events) = i ∷ asked events
asked (_ ∷ events) = asked events

abbrev pub failures : List RouteEvent → List FailureCategory
failures [] = []
failures (failed i category ∷ events) = category ∷ failures events
failures (_ ∷ events) = failures events

-- A request starts before the deadline.
abbrev pub IsEarly : ℕ → RouteEvent → Type 0
IsEarly deadline (started i t) = t < deadline
IsEarly deadline _ = Unit

-- Only failures that another candidate may mend were passed over.
abbrev pub IsEnded : RouteResult → List FailureCategory → Type 0
IsEnded (routed i) categories = all is_retryable categories ≡ true
IsEnded (thrown error) categories =
    (all is_retryable categories ≡ true) ⊎ (is_retryable error.category ≡ false)

abbrev IsRouteFrom : ℕ → ℕ → ℕ → Routed → Type 0
IsRouteFrom deadline index count r =
    All (IsEarly deadline) r.events
    × All (λ i. (index ≤ i) × (i < count)) (asked r.events)
    × IsAscending (λ i. i) (asked r.events)
    × IsEnded r.result (failures r.events)

-- A cooldown is over at a time.
abbrev pub IsOver : Option Cooldown → ℕ → Type 0
IsOver none t = Unit
IsOver (some c) t = c.until ≤ t
