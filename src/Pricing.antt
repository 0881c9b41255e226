-- ===== src/Pricing.antt =====
-- core/pricing/__init__.py: conversion between net prices and prices with VAT. A price is not negative;
-- Decimal is exact here, as it is in the code for numbers of up to 28 digits.
pub mod RoundTrip
pub mod CustomerKey
pub mod Tests
use bapp_connectors.Base.{ℕ, ◌*◌, ◌+◌, ◌/◌, string_key}

-- the number units / scale
pub record Amount : Type 0 where
  pub units : ℕ
  pub scale : ℕ

-- `quantize(Decimal("0.01"), rounding=ROUND_HALF_UP)`, of num / den
unfoldable pub quantize : ℕ → ℕ → Amount
quantize num den = record { units = (2 * (100 * num) + den) / (2 * den); scale = 100 }

-- price * (1 + rate)
unfoldable pub to_gross : Amount → Amount → Amount
to_gross price rate = quantize (price.units * (rate.scale + rate.units)) (price.scale * rate.scale)

-- price / (1 + rate)
unfoldable pub to_net : Amount → Amount → Amount
to_net price rate = quantize (price.units * rate.scale) (price.scale * (rate.scale + rate.units))
