-- ===== src/Commerce/Orders.antt =====
-- `_build_order` of services/commerce_event_service.py, and the count of a customer's purchases of
-- services/order_history_service.py.
use neutail.Base.Text.{codes}
use neutail.Base.{
  ◌>>◌, ◌>>=◌, ◌||◌, ◌/◌, ltb, ◌-◌, ◌&&◌, leb, String, ℕ, ◌+◌, Bool, none, some, List, [], ◌∷◌,
  if◌then◌else◌, or_default, ◌==◌, nat_eq, string_eq, pair_eq, Outcome, ok, require, or_raise,
}
use neutail.Base.Real.{Real, zero_real}
use neutail.Base.Table.{get}
use neutail.Base.Text.{codes, codes_eq}
use neutail.Commerce.Schema.{Order, OrderItem, Shop, Purchase, PurchaseItem}
use neutail.Commerce.Segments.{ClassificationError}

-- The exceptions, and that of the segment classifier.
pub data Error : Type 0 where
  idempotency_conflict already_processing customer_not_found product_not_found bad_json : Error
  unclassified : ClassificationError → Error

-- `func.upper`, which SQLite applies to ASCII letters only
unfoldable pub upper : List ℕ → List ℕ
upper [] = []
upper (c ∷ s) = (if leb b'a' c && leb c b'z' then c - 32 else c) ∷ upper s

module _ {F : Type 0} ⦃r : Real F⦄ where
  -- One order line, priced from the catalogue.
  priced : Purchase → Shop F → PurchaseItem → Outcome Error (OrderItem F)
  priced event db line = do
    product ← or_raise (get line.sku db.products) product_not_found
    require product.active product_not_found
    let unit_price = or_default zero_real product.current_price_gbp
    ok (record {
      order_item_id = line.order_item_id;
      sku = line.sku;
      quantity = line.quantity;
      unit_price_gbp = unit_price;
      size = line.size;
      color = elim line.color [
        | none ↦ product.color
        | some c ↦ if c == "" then product.color else some c
      ];
      line_total_gbp = r.round (r.mul unit_price (r.of_nat line.quantity)) 2;
    })

  -- The loop over the lines, with the running total.
  build_items : Purchase → Shop F → List PurchaseItem → F → Outcome Error (List (OrderItem F) × F)
  unfolding priced
  build_items event db [] total = ok ([], total)
  build_items event db (line ∷ rest) total = do
    item ← priced event db line
    (items, sum) ← build_items event db rest (r.add total item.line_total_gbp)
    ok (item ∷ items, sum)

  unfoldable pub build_order : Purchase → Shop F → Outcome Error (Order F)
  unfolding build_items
  build_order event db = do
    (items, sum) ← build_items event db event.items zero_real
    let total = r.round sum 2
    ok (record {
      customer_id = event.customer_id;
      order_datetime = event.occurred_at;
      channel = event.channel;
      subtotal_gbp = total;
      shipping_gbp = zero_real;
      total_gbp = total;
      payment_type = "DEMO";
      status = event.status;
      source_event_id = event.event_id;
      items = items;
    })

  -- The rows of the query of `count_completed_purchases`. SQLite writes the order's moment to the second,
  -- the program writes the bounds to the microsecond, and the texts are compared, so that in one second
  -- the order comes first.
  unfoldable pub counts : String → ℕ → ℕ → Order F → Bool
  unfolding upper
  counts customer_id cutoff as_of o =
      o.customer_id == customer_id
      && ltb (cutoff / 1_000_000) (o.order_datetime / 1_000_000)
      && leb (o.order_datetime / 1_000_000) (as_of / 1_000_000)
      && (upper (codes o.status) == codes "COMPLETED"
          || upper (codes o.status) == codes "DELIVERED")

  -- `count_completed_purchases`
  unfoldable pub count_orders : String → ℕ → ℕ → List (Order F) → ℕ
  unfolding counts
  count_orders customer_id cutoff as_of [] = 0
  count_orders customer_id cutoff as_of (o ∷ rest) =
      (if counts customer_id cutoff as_of o then 1 else 0)
      + count_orders customer_id cutoff as_of rest
