-- ===== src/Examples/Providers.antt =====
-- Properties of the routing between models at concrete input.
use ai_receptionist.Base.{ℕ, ◌==◌, List, [], ◌∷◌, if◌then◌else◌}
use ai_receptionist.Providers.Router.{
  ModelCandidate, rate_limit, ProviderFailure, ProviderAnswer, answered, refused, RouterState,
  Routed, complete,
}

abbrev candidates : List ModelCandidate
candidates =
    record { provider = "groq"; model = "large" }
    ∷ record { provider = "local"; model = "small" }
    ∷ []

abbrev limited : ProviderFailure
limited = record { category = rate_limit; retry_after_ms = 4000 }

-- The first candidate is at its limit, the second answers.
abbrev ask : ℕ → ℕ → ℕ → ProviderAnswer × ℕ
ask index now timeout_ms = if index == 0 then (refused limited, 20) else (answered, 300)

abbrev start : RouterState
start = record { cooldowns = []; now = 100 }

abbrev answer : Routed
answer = complete ask 2000 60000 candidates start

abbrev cooling : RouterState
cooling = record {
  cooldowns = ("groq", record { until = 900; error = limited; strikes = 1 }) ∷ [];
  now = 100;
}
