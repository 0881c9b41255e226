-- ===== src/Providers/Feed/Kept.antt =====
-- The products that the filter of a feed keeps.
use bapp_connectors.Base.{
  All, Bool, List, String, [], false, none, true, ◌==◌, ◌||◌, ◌∷◌, ◌≡◌, ◌⊎◌, string_key,
}
use bapp_connectors.Providers.Feed.{FeedProduct, FeedVariant, has_stock, has_text, strip}

module _ {ℓ} {P : Type ℓ} where
  -- A variant that is active has a stock above 0.
  abbrev pub SoldBy : List (FeedVariant P) → Type 0
  SoldBy [] = ⊥
  SoldBy (v ∷ variants) = ((v.active ≡ true) × (has_stock v.stock ≡ true)) ⊎ SoldBy variants

  -- The product's stock is not known or above 0, or one of its variants can be sold.
  abbrev pub InStock : FeedProduct P → Type 0
  InStock product =
      (product.stock ≡ none) ⊎ (has_stock product.stock ≡ true) ⊎ SoldBy product.variants

  -- No category of the product is among the given ones.
  abbrev pub Outside : List String → FeedProduct P → Type 0
  Outside excluded product = All (λ id. has_text (strip id) excluded ≡ false) product.category_ids

  abbrev pub StockAsked : Bool → FeedProduct P → Type 0
  StockAsked true product = InStock product
  StockAsked false product = Unit

  -- Exactly the products that satisfy a predicate, in their order.
  abbrev pub Selects :
      (FeedProduct P → Type 0) → List (FeedProduct P) → List (FeedProduct P) → Type ℓ
  Selects Wanted [] result = result ≡ []
  Selects Wanted (product ∷ products) result =
      (Wanted product
        × ((rest : List (FeedProduct P)) × (result ≡ product ∷ rest)
            × Selects Wanted products rest))
      ⊎ (¬ Wanted product × Selects Wanted products result)

  abbrev pub Wanted : Bool → List String → FeedProduct P → Type 0
  Wanted flag excluded product = StockAsked flag product × Outside excluded product

-- The texts that ask for products in stock alone.
abbrev pub asks_stock : String → Bool
asks_stock flag = flag == "true" || flag == "1" || flag == "yes"
