-- ===== src/Http/RateLimit/Grants.antt =====
-- How many requests the token bucket of core/http/rate_limit.py grants.
use mathlib.Core.Path.{subst}
use native.Mathlib.Nat.{add-mul}
use bapp_connectors.Base.{
  Bool, List, [], ap, arith, false, if◌then◌else◌, refl, sym, true, ℕ, ◌*◌, ◌+◌, ◌-◌, ◌∷◌, ◌≡◌, ◌≤◌,
}
use bapp_connectors.Http.RateLimit.{RateLimiter, refill, round, take_token, token}

-- the limiter after rounds at some times, and the number of tokens granted
unfoldable pub after_rounds : List ℕ → RateLimiter → ℕ × RateLimiter
unfolding round
after_rounds [] l = (0, l)
after_rounds (now ∷ times) l =
    let (granted, l') = round now l in
    let (more, end) = after_rounds times l' in if granted then (more + 1, end) else (more, end)

-- The clock never goes back.
abbrev pub Rising : ℕ → List ℕ → Type 0
Rising last [] = Unit
Rising last (now ∷ times) = (last ≤ now) × Rising now times

abbrev pub IsBounded : RateLimiter → Type 0
IsBounded l = l.tokens ≤ l.burst * token

module _ (now : ℕ) (l : RateLimiter) where
  -- One round: the rate and the burst stay, and what it grants and leaves is paid by what was there
  -- and what has come in since.
  round_lem :
      IsBounded l
      → let (granted, l') = round now l in
        IsBounded l'
        × (l'.rate ≡ l.rate)
        × (l'.burst ≡ l.burst)
        × (l'.last_refill ≡ now)
        × ((if granted then token else 0) + l'.tokens ≤ l.tokens + (now - l.last_refill) * l.rate)
  unfolding round refill take_token
  round_lem h = ground arith

elapsed_split : (a b c r : ℕ) → a ≤ b → b ≤ c → (b - a) * r + (c - b) * r ≡ (c - a) * r
elapsed_split a b c r h k = rw⁻¹ (add-mul (b - a) (c - b) r) (ap (λ n. n * r) (omega arith))

-- What rounds at some times keep and what they are paid by.
abbrev Paid : RateLimiter → ℕ × RateLimiter → Type 0
Paid l (granted, end) =
    IsBounded end
    × (l.last_refill ≤ end.last_refill)
    × (end.rate ≡ l.rate)
    × (end.burst ≡ l.burst)
    × (granted * token + end.tokens ≤ l.tokens + (end.last_refill - l.last_refill) * l.rate)

after_round :
    (now : ℕ) (times : List ℕ) (l : RateLimiter)
    → after_rounds (now ∷ times) l ≡ (
        let (granted, l') = round now l in
        let (more, end) = after_rounds times l' in if granted then (more + 1, end) else (more, end))
unfolding after_rounds
after_round now times l = refl

Paid-step :
    (l : RateLimiter) (granted : Bool) (l' : RateLimiter) (more : ℕ) (end : RateLimiter)
    → l.last_refill ≤ l'.last_refill
    → l'.rate ≡ l.rate
    → l'.burst ≡ l.burst
    → (if granted then token else 0) + l'.tokens
      ≤ l.tokens + (l'.last_refill - l.last_refill) * l.rate
    → Paid l' (more, end)
    → Paid l (if granted then (more + 1, end) else (more, end))
Paid-step l granted l' more end rises rate burst pays
      (bounded, later, same_rate, same_burst, paid) =
    by_grant granted pays (
      subst (λ r. more * token + end.tokens ≤ l'.tokens + (end.last_refill - l'.last_refill) * r)
        rate paid)
  where
    by_grant :
        (b : Bool)
        → (if b then token else 0) + l'.tokens
          ≤ l.tokens + (l'.last_refill - l.last_refill) * l.rate
        → more * token + end.tokens ≤ l'.tokens + (end.last_refill - l'.last_refill) * l.rate
        → Paid l (if b then (more + 1, end) else (more, end))
    by_grant true pays later_paid = (
      bounded,
      omega arith,
      omega arith,
      omega arith,
      omega (arith, elapsed_split l.last_refill l'.last_refill end.last_refill l.rate rises later),
    )
    by_grant false pays later_paid = (
      bounded,
      omega arith,
      omega arith,
      omega arith,
      omega (arith, elapsed_split l.last_refill l'.last_refill end.last_refill l.rate rises later),
    )

rounds-Paid :
    (times : List ℕ) (l : RateLimiter)
    → IsBounded l
    → Rising l.last_refill times
    → Paid l (after_rounds times l)
unfolding after_rounds
rounds-Paid [] l h rising = (h, omega arith, refl, refl, omega arith)
rounds-Paid (now ∷ times) l h rising =
    let (granted, l') = round now l in
    let (h', rate, burst, last, pays) = round_lem now l h in
    let (more, end) = after_rounds times l' in
    rw (after_round now times l) (
      Paid-step l granted l' more end (omega arith) rate burst
        (subst
          (λ t.
            (if granted then token else 0) + l'.tokens ≤ l.tokens + (t - l.last_refill) * l.rate)
          (sym last) pays)
        (rounds-Paid times l' h' (subst (λ t. Rising t times) (sym last) rising.1)))

-- Whatever threads ask and whenever they do, in the order in which they get the lock: from a limiter
-- within its burst, the tokens granted cost no more than the burst and what the rate brings in over
-- the time that passes, and the limiter stays within its burst.
pub grants-IsBounded :
    (times : List ℕ) (l : RateLimiter)
    → IsBounded l
    → Rising l.last_refill times
    → let (granted, end) = after_rounds times l in
      (granted * token ≤ l.burst * token + (end.last_refill - l.last_refill) * l.rate)
      × IsBounded end
grants-IsBounded times l h rising =
    let (bounded, _, _, _, paid) = rounds-Paid times l h rising in (omega arith, bounded)
