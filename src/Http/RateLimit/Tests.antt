-- ===== src/Http/RateLimit/Tests.antt =====
-- The token bucket of core/http/rate_limit.py on concrete inputs: two requests a second, a burst of 2.
use bapp_connectors.Base.{List, [], arith, refl, ℕ, ◌*◌, ◌+◌, ◌-◌, ◌∷◌, ◌≡◌, ◌≤◌}
use bapp_connectors.Http.RateLimit.{RateLimiter, refill, round, token}
use bapp_connectors.Http.RateLimit.Grants.{IsBounded, after_rounds, grants-IsBounded}

abbrev limiter : RateLimiter
limiter = record { rate = 2000; burst = 2; tokens = 2000000; last_refill = 100 }

abbrev spent : RateLimiter
spent = record { rate = 2000; burst = 2; tokens = 0; last_refill = 100 }

abbrev times : List ℕ
times = 100 ∷ 110 ∷ 120 ∷ 620 ∷ []

three_of_four : (after_rounds times limiter).0 ≡ 3
unfolding after_rounds round refill
three_of_four = refl

grants-IsBounded_example :
    let (granted, end) = after_rounds times limiter in
    (granted * token ≤ 2 * token + (end.last_refill - 100) * 2000) × IsBounded end
grants-IsBounded_example =
    grants-IsBounded times limiter (omega arith)
      (omega arith, (omega arith, (omega arith, (omega arith, tt))))

-- A clock that stands still but for the sleeps, which last half a second.
abbrev read : ℕ → ℕ × ℕ
read w = (w, w)

abbrev half_second : ℕ → ℕ → ℕ → ℕ
half_second n d w = w + 500
