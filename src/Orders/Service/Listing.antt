-- ===== src/Orders/Service/Listing.antt =====
-- listOrders of orders.service.ts: a page of orders with their items, and the walk over all of them.
use smart_table.Prelude.{
  ℕ, suc, ◌≡◌, refl, ap, Bool, true, false, ◌&&◌, Option, none, some, List, [], ◌∷◌, map, ◌==◌,
  ==_self, if◌then◌else◌, arith, select, length, All, All-map, Bool-cases, inl, inr, ◌∙◌,
}
use smart_table.Domain.{
  EmployeeRole, OrderStatus, OrderChannel, order_status_eq, includes, Result, ok, err,
}
use smart_table.Database.{OrderRow, OrderItemRow, Db}
use smart_table.Effects.{OrderView}
use smart_table.Rollups.{is_dine_in}
use smart_table.Orders.Service.Views.{to_dto}
use smart_table.Paging.{CursorPosition, Codec, Page, list_page, map_result}
use smart_table.Paging.Order.{AreApart}
use smart_table.Paging.Walk.{walk, listing, walk-listing}
use smart_table.Paging.Views.{walk-views_all}

pub record ListOrdersQuery : Type 0 where
  pub status : Option OrderStatus
  pub table_id : Option ℕ
  pub channel : Option OrderChannel
  pub limit : Option ℕ

abbrev pub position_of : OrderRow → CursorPosition
position_of row = record { created_at = row.created_at; id = row.id }

abbrev same_channel : OrderChannel → OrderChannel → Bool
same_channel a b = if is_dine_in a then is_dine_in b else if is_dine_in b then false else true

abbrev pub has_status : Option OrderStatus → OrderRow → Bool
has_status none row = true
has_status (some status) row = order_status_eq row.status status

abbrev pub is_at_table : Option ℕ → OrderRow → Bool
is_at_table none row = true
is_at_table (some table_id) row = row.table_id == table_id

abbrev pub has_channel : Option OrderChannel → OrderRow → Bool
has_channel none row = true
has_channel (some channel) row = same_channel row.channel channel

abbrev pub is_listed_order : ListOrdersQuery → OrderRow → Bool
is_listed_order q row =
    has_status q.status row && (is_at_table q.table_id row && has_channel q.channel row)

unfoldable pub find_items_for_orders : List ℕ → Db → List OrderItemRow
find_items_for_orders order_ids db = select (λ i. includes ◌==◌ order_ids i.order_id) db.order_items

-- The order with those of the items that are its own.
abbrev pub order_view : List OrderItemRow → EmployeeRole → OrderRow → OrderView
order_view items viewer row = to_dto row (select (λ i. i.order_id == row.id) items) viewer

abbrev pub show_orders :
    {Text : Type 0} → Db → EmployeeRole → Page OrderRow Text → Page OrderView Text
show_orders db viewer page =
    let items = find_items_for_orders (map (λ (row : OrderRow). row.id) page.data_rows) db in
    record {
      data_rows = map (order_view items viewer) page.data_rows;
      next_cursor = page.next_cursor;
    }

abbrev pub show_result :
    {Text : Type 0} → Db → EmployeeRole → Result (Page OrderRow Text) → Result (Page OrderView Text)
show_result db viewer (err e) = err e
show_result db viewer (ok page) = ok (show_orders db viewer page)

unfoldable pub list_orders :
    {Text : Type 0}
    → Codec Text
    → ListOrdersQuery
    → Option Text
    → EmployeeRole
    → Db
    → Result (Page OrderView Text)
list_orders codec q cursor viewer db =
    show_result db viewer (list_page position_of codec (is_listed_order q) q.limit cursor db.orders)

-- The items of an order are the same among those of the page as among all.
select-page_items :
    (ids : List ℕ) (id : ℕ) (items : List OrderItemRow)
    → includes ◌==◌ ids id ≡ true
    → select
        (λ (i : OrderItemRow). i.order_id == id)
        (select (λ (i : OrderItemRow). includes ◌==◌ ids i.order_id) items)
      ≡ select (λ (i : OrderItemRow). i.order_id == id) items
unfolding select
select-page_items ids id [] h = refl
select-page_items ids id (i ∷ items) h = elim (Bool-cases (includes ◌==◌ ids i.order_id)) [
  | inl e ↦ rw (e, select-page_items ids id items h) refl
  | inr e ↦ elim (Bool-cases (i.order_id == id)) [
    | inl k ↦
        let same : i.order_id ≡ id = ground arith in
        let member : includes ◌==◌ ids i.order_id ≡ true = ap (includes ◌==◌ ids) same ∙ h in
        absurd (ground arith)
    | inr k ↦ rw (e, k) (select-page_items ids id items h)
  ]
]

includes-cons :
    (x : ℕ) (ids : List ℕ) (rows : List OrderRow)
    → All (λ (r : OrderRow). includes ◌==◌ ids r.id ≡ true) rows
    → All (λ (r : OrderRow). includes ◌==◌ (x ∷ ids) r.id ≡ true) rows
includes-cons x ids rows h = All-map _ _ rows (λ r e. ground (arith, e)) h

All-includes :
    (rows : List OrderRow)
    → All (λ (r : OrderRow). includes ◌==◌ (map (λ (row : OrderRow). row.id) rows) r.id ≡ true) rows
All-includes [] = tt
All-includes (r ∷ rows) = (
  rw (==_self r.id) refl,
  includes-cons r.id (map (λ (row : OrderRow). row.id) rows) rows (All-includes rows),
)

map-page_items :
    (db : Db) (viewer : EmployeeRole) (ids : List ℕ) (rows : List OrderRow)
    → All (λ (r : OrderRow). includes ◌==◌ ids r.id ≡ true) rows
    → map (order_view (find_items_for_orders ids db) viewer) rows
      ≡ map (order_view db.order_items viewer) rows
unfolding find_items_for_orders
map-page_items db viewer ids [] h = refl
map-page_items db viewer ids (r ∷ rows) h =
    rw (select-page_items ids r.id db.order_items h.0, map-page_items db viewer ids rows h.1) refl

show_result-views :
    {Text : Type 0} (db : Db) (viewer : EmployeeRole) (r : Result (Page OrderRow Text))
    → show_result db viewer r ≡ map_result (order_view db.order_items viewer) r
show_result-views db viewer (err e) = refl
show_result-views db viewer (ok page) =
    rw (map-page_items db viewer _ page.data_rows (All-includes page.data_rows)) refl

-- A client that follows the cursors of listOrders from page to page, with any filter and any limit,
-- comes to the end: it sees the orders that pass the filter, newest first and each once, with all
-- their items and as its role sees them. This holds where the cursors can be read again and the
-- orders have different ids.
pub list_orders-walk :
    {Text : Type 0} (codec : Codec Text) (q : ListOrdersQuery) (viewer : EmployeeRole) (db : Db)
    → ((p : CursorPosition) → codec.decode (codec.encode p) ≡ some p)
    → AreApart position_of db.orders
    → walk
        (λ (cursor : Option Text). list_orders codec q cursor viewer db)
        (suc (length (listing position_of (is_listed_order q) db.orders)))
        none
      ≡ some (
          map
            (order_view db.order_items viewer)
            (listing position_of (is_listed_order q) db.orders))
unfolding list_orders
list_orders-walk codec q viewer db roundtrip apart =
    walk-views_all (order_view db.order_items viewer) _ _ _ _
      (λ text. show_result-views db viewer _)
      (walk-listing position_of codec (is_listed_order q) q.limit db.orders roundtrip apart)
