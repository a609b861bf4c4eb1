-- ===== src/Examples/Platform.antt =====
-- Properties of the rate limiter at concrete input: two requests in a thousand milliseconds.
use ai_receptionist.Base.{ℕ, ◌≤◌, tally, List, [], ◌∷◌, String, arith}
use ai_receptionist.Platform.RateLimit.{Limiter, create_memory_rate_limiter, is_recent}
use ai_receptionist.Platform.RateLimit.Window.{serve, admitted, admitted-le-limit}

abbrev requests : List (String × ℕ)
requests = ("a", 0) ∷ ("b", 100) ∷ ("a", 200) ∷ ("a", 300) ∷ []

abbrev from_others : List (String × ℕ)
from_others = ("b", 600) ∷ []

abbrev fresh_limiter : Limiter
fresh_limiter = create_memory_rate_limiter 0

abbrev used_limiter : Limiter
used_limiter = serve 2 1000 fresh_limiter requests

admitted-le-limit_example :
    tally (is_recent 1000 500) (admitted 2 1000 "a" fresh_limiter requests) ≤ 2
admitted-le-limit_example =
    admitted-le-limit 2 1000 "a" 0 500 requests
      (omega arith, (omega arith, (omega arith, (omega arith, omega arith))))
