-- ===== src/Orders/Repository/Reads.antt =====
-- The reads of orders.repository.ts, each of which is one statement.
use smart_table.Prelude.{ℕ, Option, List, ◌==◌, select, first}
use smart_table.Database.{TableRow, OrderRow, OrderItemRow, Db}

unfoldable pub find_table_by_id : ℕ → Db → Option TableRow
find_table_by_id id db = first (λ t. t.id == id) db.tables

unfoldable pub find_table_by_qr_token : ℕ → Db → Option TableRow
find_table_by_qr_token qr_token db = first (λ t. t.qr_token == qr_token) db.tables

unfoldable pub find_order_by_id : ℕ → Db → Option OrderRow
find_order_by_id id db = first (λ o. o.id == id) db.orders

unfoldable pub find_items_for_order : ℕ → Db → List OrderItemRow
find_items_for_order order_id db = select (λ i. i.order_id == order_id) db.order_items
