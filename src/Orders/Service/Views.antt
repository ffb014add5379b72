-- ===== src/Orders/Service/Views.antt =====
-- The order as its viewers see it, and the reads of orders.service.ts.
use smart_table.Prelude.{ℕ, List, map, if◌then◌else◌}
use smart_table.Domain.{EmployeeRole, kitchen, OrderStatus, role_eq, entity_not_found}
use smart_table.Database.{OrderRow, OrderItemRow}
use smart_table.Effects.{
  OrderItemDto, KitchenOrderItemDto, OrderView, order_dto, kitchen_order_dto, Action, ◌>>=◌, pure,
  query, required,
}
use smart_table.Orders.Repository.{find_order_by_id, find_items_for_order}

-- The acting employee.
pub record OrderActor : Type 0 where
  pub id : ℕ
  pub role : EmployeeRole

abbrev pub item_dto : OrderItemRow → OrderItemDto
item_dto item = record {
  id = item.id;
  product_id = item.product_id;
  name = item.name_snapshot;
  category = item.category_snapshot;
  unit_price_minor = item.unit_price_minor_snapshot;
  quantity = item.quantity;
  notes = item.notes;
}

abbrev pub kitchen_item_dto : OrderItemRow → KitchenOrderItemDto
kitchen_item_dto item = record {
  id = item.id;
  product_id = item.product_id;
  name = item.name_snapshot;
  category = item.category_snapshot;
  quantity = item.quantity;
  notes = item.notes;
}

unfoldable pub to_dto : OrderRow → List OrderItemRow → EmployeeRole → OrderView
to_dto order items viewer =
    if role_eq viewer kitchen
    then kitchen_order_dto order (map kitchen_item_dto items)
    else order_dto order (map item_dto items)

unfoldable pub build_dto : OrderRow → EmployeeRole → Action OrderView
build_dto order viewer = do
  items ← query (find_items_for_order order.id)
  pure (to_dto order items viewer)

unfoldable pub get_order : ℕ → EmployeeRole → Action OrderView
get_order id viewer = do
  order ← required (← query (find_order_by_id id)) (entity_not_found "order" id)
  build_dto order viewer

pub record PublicOrderStatusDto : Type 0 where
  pub id : ℕ
  pub status : OrderStatus

unfoldable pub get_public_order_status : ℕ → Action PublicOrderStatusDto
get_public_order_status id = do
  order ← required (← query (find_order_by_id id)) (entity_not_found "order" id)
  pure (record { id = order.id; status = order.status })
