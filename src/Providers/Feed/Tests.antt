-- ===== src/Providers/Feed/Tests.antt =====
-- A feed of one product that is sold out but for a variant.
use bapp_connectors.Providers.Feed.{
  FeedProduct, FeedVariant, Texts, filter_products, has_excluded_category, is_in_stock,
  resolve_availability, text_setting,
}
use bapp_connectors.Webhooks.Signatures.{lstrip, rstrip, split_comma}
use bapp_connectors.Base.{[], none, refl, some, str, true, ℕ, ◌∷◌, ◌≡◌, string_key}
use bapp_connectors.Base.Int.{pos}

abbrev red : FeedVariant ℕ
red = record {
  variant_id = "red";
  sku = "";
  barcode = "";
  name = "";
  price = none;
  stock = some (pos 3);
  image_url = "";
  active = true;
}

abbrev shirt : FeedProduct ℕ
shirt = record {
  product_id = "7";
  sku = "S";
  barcode = "";
  name = "Shirt";
  price = some 50;
  stock = some (pos 0);
  active = true;
  photos = [];
  category_ids = "12" ∷ [];
  variants = red ∷ [];
}

abbrev toy : Texts ℕ
toy = record { lower = λ s. s; upper = λ s. s; json_list = λ s. none; two_places = λ n. str n }

kept_test : filter_products toy "true" (text_setting "3, 4") (shirt ∷ []) ≡ shirt ∷ []
unfolding filter_products is_in_stock has_excluded_category lstrip rstrip split_comma
kept_test = refl

excluded_test : filter_products toy "no" (text_setting "3, 12") (shirt ∷ []) ≡ []
unfolding filter_products is_in_stock has_excluded_category lstrip rstrip split_comma
excluded_test = refl

-- The filter keeps the product for its variant, and its availability says that it is sold out.
kept_unavailable : resolve_availability shirt "in stock" ≡ "out of stock"
unfolding resolve_availability
kept_unavailable = refl
