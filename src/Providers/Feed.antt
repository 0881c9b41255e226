-- ===== src/Providers/Feed.antt =====
-- providers/feed/_utils.py: what product feeds are made of. `str.lower`, the reading of a JSON list and
-- the formatting of a price are fields of `Texts`; prices are of type `P`, stocks are whole numbers.
pub mod Kept
pub mod Tests
use Prim.Native.Char.{code}
use bapp_connectors.Base.{
  Bool, List, Option, String, [], false, if◌then◌else◌, is_empty, ltb, nat_eq, none, not, or_else,
  some, true, truthy, ◌&&◌, ◌<>◌, ◌==◌, ◌||◌, ◌∷◌, string_key,
}
use bapp_connectors.Base.Int.{negsuc, pos, ℤ}
use bapp_connectors.Webhooks.Signatures.{lstrip, rstrip, split_comma}

pub record Texts {ℓ} (P : Type ℓ) : Type ℓ where
  pub lower : String → String
  pub upper : String → String
  -- none where the text is no JSON, and no list where it is another value
  pub json_list : String → Option (Option (List String))
  pub two_places : P → String

pub record FeedVariant {ℓ} (P : Type ℓ) : Type ℓ where
  pub variant_id : String
  pub sku : String
  pub barcode : String
  pub name : String
  pub price : Option P
  pub stock : Option ℤ
  pub image_url : String
  pub active : Bool

pub record FeedProduct {ℓ} (P : Type ℓ) : Type ℓ where
  pub product_id : String
  pub sku : String
  pub barcode : String
  pub name : String
  pub price : Option P
  pub stock : Option ℤ
  pub active : Bool
  pub photos : List String
  pub category_ids : List String
  pub variants : List (FeedVariant P)

pub record FeedItem {ℓ} (P : Type ℓ) : Type ℓ where
  pub variant : Option (FeedVariant P)
  pub item_id : String
  pub sku : String
  pub barcode : String
  pub name : String
  pub price : Option P
  pub stock : Option ℤ
  pub image_url : String

abbrev pub strip : String → String
strip s = rstrip (lstrip s)

abbrev pub is_positive : ℤ → Bool
is_positive (pos n) = ltb 0 n
is_positive (negsuc n) = false

-- `stock is not None and stock > 0`
abbrev pub has_stock : Option ℤ → Bool
has_stock none = false
has_stock (some n) = is_positive n

abbrev pub is_unknown : Option ℤ → Bool
is_unknown none = true
is_unknown (some _) = false

-- `a if a is not None else b`
abbrev or_parent {ℓ} : {A : Type ℓ} → Option A → Option A → Option A
or_parent none b = b
or_parent (some a) b = some a

abbrev first_or_empty : List String → String
first_or_empty [] = ""
first_or_empty (s ∷ _) = s

abbrev has_text : String → List String → Bool
has_text s [] = false
has_text s (t ∷ texts) = s == t || has_text s texts

pub has_excluded_category : List String → List String → Bool
has_excluded_category [] excluded = false
has_excluded_category (id ∷ ids) excluded =
    has_text (strip id) excluded || has_excluded_category ids excluded

module _ {ℓ} {P : Type ℓ} where
  pub resolve_availability : FeedProduct P → String → String
  resolve_availability product default =
      if not product.active
      then "out of stock"
      else if not (is_unknown product.stock) && not (has_stock product.stock)
      then "out of stock"
      else default

  variant_item : FeedProduct P → FeedVariant P → FeedItem P
  variant_item product v = record {
    variant = some v;
    item_id = product.product_id <> "-" <> v.variant_id;
    sku = or_else v.sku product.sku;
    barcode = or_else v.barcode product.barcode;
    name = or_else v.name product.name;
    price = or_parent v.price product.price;
    stock = or_parent v.stock product.stock;
    image_url = or_else v.image_url (first_or_empty product.photos);
  }

  pub variant_items : FeedProduct P → List (FeedVariant P) → List (FeedItem P)
  unfolding variant_item
  variant_items product [] = []
  variant_items product (v ∷ variants) =
      let rest = variant_items product variants in
      if v.active then variant_item product v ∷ rest else rest

  abbrev parent_item : FeedProduct P → FeedItem P
  parent_item product = record {
    variant = none;
    item_id = product.product_id;
    sku = product.sku;
    barcode = product.barcode;
    name = product.name;
    price = product.price;
    stock = product.stock;
    image_url = first_or_empty product.photos;
  }

  unfoldable pub expand_variants : FeedProduct P → Bool → List (FeedItem P)
  unfolding variant_items
  expand_variants product include_variants =
      if include_variants && not (is_empty product.variants)
      then variant_items product product.variants
      else parent_item product ∷ []

  -- the loop over the variants
  pub any_in_stock : List (FeedVariant P) → Bool
  any_in_stock [] = false
  any_in_stock (v ∷ variants) = (v.active && has_stock v.stock) || any_in_stock variants

  unfoldable pub is_in_stock : FeedProduct P → Bool
  unfolding any_in_stock
  is_in_stock product =
      has_stock product.stock || any_in_stock product.variants || is_unknown product.stock

  pub in_stock_only : List (FeedProduct P) → List (FeedProduct P)
  unfolding is_in_stock
  in_stock_only [] = []
  in_stock_only (product ∷ products) =
      let rest = in_stock_only products in if is_in_stock product then product ∷ rest else rest

  pub without_categories : List String → List (FeedProduct P) → List (FeedProduct P)
  unfolding has_excluded_category
  without_categories excluded [] = []
  without_categories excluded (product ∷ products) =
      let rest = without_categories excluded products in
      if has_excluded_category product.category_ids excluded then rest else product ∷ rest

-- What the setting categories_exclude holds.
pub data Excluded : Type 0 where
  list_setting : List String → Excluded
  text_setting : String → Excluded
  other_setting : Excluded

abbrev starts_with_bracket : String → Bool
starts_with_bracket String.[] = false
starts_with_bracket (String.◌∷◌ c s) = nat_eq (code c) b'['

pub stripped : List String → List String
unfolding lstrip rstrip
stripped [] = []
stripped (s ∷ pieces) = strip s ∷ stripped pieces

-- the pieces that are not empty once stripped
stripped_pieces : List String → List String
unfolding lstrip rstrip
stripped_pieces [] = []
stripped_pieces (s ∷ pieces) =
    let rest = stripped_pieces pieces in if truthy (strip s) then strip s ∷ rest else rest

abbrev all_pieces : String × List String → List String
all_pieces (first, more) = first ∷ more

module _ {ℓ} {P : Type ℓ} (t : Texts P) where
  json_or_pieces : String → Option (Option (List String)) → List String
  unfolding stripped_pieces
  json_or_pieces raw (some (some items)) = items
  json_or_pieces raw (some none) = []
  json_or_pieces raw none = stripped_pieces (all_pieces (split_comma raw))

  -- `_parse_list`
  pub parse_list : Excluded → List String
  unfolding json_or_pieces
  parse_list (list_setting items) = items
  parse_list other_setting = []
  parse_list (text_setting raw) =
      let s = strip raw in json_or_pieces s (if starts_with_bracket s then t.json_list s else none)

  -- `filter_products`, with the text of the setting only_in_stock
  unfoldable pub filter_products : String → Excluded → List (FeedProduct P) → List (FeedProduct P)
  unfolding in_stock_only without_categories parse_list stripped
  filter_products only_in_stock exclude products =
      let flag = t.lower only_in_stock in
      let kept =
        if flag == "true" || flag == "1" || flag == "yes"
        then in_stock_only products
        else products in
      without_categories (stripped (parse_list exclude)) kept

  unfoldable pub format_price : Option P → String → String
  format_price none currency = ""
  format_price (some price) currency = t.two_places price <> " " <> t.upper currency
