-- ===== src/Pricing/RoundTrip.antt =====
-- What is left of a price after it has been converted and converted back.
use bapp_connectors.Base.{
  ap, arith, refl, suc, zero, ℕ, ◌*◌, ◌+◌, ◌/◌, ◌<◌, ◌∙◌, ◌≡◌, ◌≤◌, string_key,
}
use bapp_connectors.Pricing.{Amount, quantize, to_gross, to_net}

abbrev pub cents : ℕ → Amount
cents n = record { units = n; scale = 100 }

-- the nearest cent, and a tie goes up
quantize_nearest :
    (num den : ℕ)
    → 0 < den
    → let q = (2 * (100 * num) + den) / (2 * den) in
      (2 * (q * den) ≤ 2 * (100 * num) + den) × (2 * (100 * num) + den < 2 * (q * den) + 2 * den)
quantize_nearest num den h = grind arith

quantize_unique :
    (q num den : ℕ)
    → 0 < den
    → 2 * (q * den) ≤ 2 * (100 * num) + den
    → 2 * (100 * num) + den < 2 * (q * den) + 2 * den
    → quantize num den ≡ cents q
unfolding quantize
quantize_unique q num den h lo hi = ap cents (grind arith)

mul_100 : (q t : ℕ) → q * (100 * t) ≡ 100 * (q * t)
mul_100 q t = grind arith

-- cents that are as near as a half
mul_near : (g n t : ℕ) → 0 < t → 2 * (g * t) ≤ 2 * (n * t) + t → g ≤ n
mul_near g n t h k = grind arith

mul_below : (m n t : ℕ) → m * t < n * t + t → m ≤ n
mul_below m n t k = grind arith

mul_mono : (g n t : ℕ) → g ≤ n → g * t ≤ n * t
mul_mono g n t k = grind arith

-- at a rate of nothing the gross price is exact, at any other there is room
under_half :
    (g n t u : ℕ)
    → 0 < t
    → 2 * (g * t) ≤ 2 * (n * (t + u)) + t
    → 2 * (g * t) < 2 * (n * (t + u)) + (t + u)
under_half g n t zero h k = omega (arith, h, mul_mono g n t (mul_near g n t h (omega (arith, k))))
under_half g n t (suc u) h k = omega (arith, k)

-- the cents of a gross price, times the scale of the rate
module _ (rate : Amount) (h : 0 < rate.scale) where
  to_gross_nearest :
      (n : ℕ)
      → let g = (to_gross (cents n) rate).units in
        let total = n * (rate.scale + rate.units) in
        (2 * (g * rate.scale) ≤ 2 * total + rate.scale)
        × (2 * total < 2 * (g * rate.scale) + rate.scale)
  unfolding to_gross quantize
  to_gross_nearest n =
      let total = n * (rate.scale + rate.units) in
      let near = quantize_nearest total (100 * rate.scale) (omega (arith, h)) in
      let g = (2 * (100 * total) + 100 * rate.scale) / (2 * (100 * rate.scale)) in
      omega (arith, near, mul_100 g rate.scale)

  to_net_nearest :
      (g : ℕ)
      → let n = (to_net (cents g) rate).units in
        let gross = n * (rate.scale + rate.units) in
        let whole = rate.scale + rate.units in
        (2 * gross ≤ 2 * (g * rate.scale) + whole) × (2 * (g * rate.scale) < 2 * gross + whole)
  unfolding to_net quantize
  to_net_nearest g =
      let whole = rate.scale + rate.units in
      let near = quantize_nearest (g * rate.scale) (100 * whole) (omega (arith, h)) in
      let n = (2 * (100 * (g * rate.scale)) + 100 * whole) / (2 * (100 * whole)) in
      omega (arith, near, mul_100 n whole)

  to_gross-cents : (n : ℕ) → to_gross (cents n) rate ≡ cents (to_gross (cents n) rate).units
  unfolding to_gross quantize
  to_gross-cents n = refl

  to_net-cents : (n : ℕ) → to_net (cents n) rate ≡ cents (to_net (cents n) rate).units
  unfolding to_net quantize
  to_net-cents n = refl

  -- the gross cents of a net price are nearer to it than to the next one
  net_again : (n : ℕ) → (to_net (cents (to_gross (cents n) rate).units) rate).units ≡ n
  net_again n =
      let g = (to_gross (cents n) rate).units in
      let m = (to_net (cents g) rate).units in
      let whole = rate.scale + rate.units in
      let there = to_gross_nearest n in
      let back = to_net_nearest g in
      omega (
        arith,
        mul_below m n whole (
            omega (
              arith,
              back,
              under_half (to_gross (cents n) rate).units n rate.scale rate.units h there.0,
            )),
        mul_below n m whole (omega (arith, there, back)),
      )

  -- A net price in whole cents that is converted to a gross price and back is the same price again,
  -- at every rate that is not negative (a fraction over a positive scale). A gross price in whole cents that is converted to a net price
  -- and back comes out off by at most one cent and half the rate of one.
  pub to_net-to_gross :
      (n : ℕ)
      → let g = to_gross (to_net (cents n) rate) rate in
        (to_net (to_gross (cents n) rate) rate ≡ cents n)
        × (g.scale ≡ 100)
        × (2 * (g.units * rate.scale) ≤ 2 * (n * rate.scale) + (2 * rate.scale + rate.units))
        × (2 * (n * rate.scale) ≤ 2 * (g.units * rate.scale) + (2 * rate.scale + rate.units))
  to_net-to_gross n =
      let m = (to_net (cents n) rate).units in
      let there = to_net_nearest n in
      let back = to_gross_nearest m in
      rw (to_gross-cents n, to_net-cents n)
        (
          to_net-cents (to_gross (cents n) rate).units ∙ ap cents (net_again n),
          ap (λ a. a.scale) (to_gross-cents m),
          omega (arith, there, back),
          omega (arith, there, back),
        )
