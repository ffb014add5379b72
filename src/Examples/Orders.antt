-- ===== src/Examples/Orders.antt =====
-- The theorems on the orders, on the restaurant of `Examples`.
use smart_table.Prelude.{
  ◌≡◌, ◌⊎◌, inl, refl, Bool, none, some, List, [], ◌∷◌, true, false, first, count, select, update,
}
use smart_table.Domain.{
  ok, err, pending, accepted, cancelled, kitchen, needs_cleaning, invalid_order_transition,
}
use smart_table.Database.{
  has_employee, has_no_or_employee, OrderRow, OrderItemRow, Db, insert_unique, transaction,
}
use smart_table.Effects.{◌>>=◌}
use smart_table.Orders.Machine.{accept, serve, cancel, transition_rules, transition_fields}
use smart_table.Orders.Repository.{
  created, create_order_transaction, new_order, resolve_group, open_new_group, derive_is_addon,
  insert_items, occupy_table, place_order, unique, find_product_row, find_category,
  find_table_by_id, new_group, find_order_by_id, transition_status_transaction, set_status,
  table_not_orderable, CreateOrderInput,
}
use smart_table.Orders.Service.{Executed, execute_transition, transition_input, to_dto}
use smart_table.Orders.Service.Lifecycle.{
  IsMove, IsAllowed, execute_transition_sound, execute_transition_complete,
}
use smart_table.Orders.Service.Creation.{
  Placed, create_order-Placed, create_order-refused, to_dto-kitchen,
}
use smart_table.Examples.{noon, cafe, open_house, pending_order, item_of, boss, coffee_order}

pending_found : find_order_by_id 32 cafe ≡ some pending_order
unfolding find_order_by_id first
pending_found = refl

abbrev accepted_order : OrderRow
accepted_order = record pending_order {
  status = accepted;
  accepted_by_employee_id = some 7;
  updated_at = 100;
}

boss_accepts :
    (execute_transition noon 32 accept boss none open_house).0
    ≡ ok (record { order = accepted_order; from_status = pending })
unfolding execute_transition transition_input transition_rules transition_fields ◌>>=◌
    find_order_by_id first transition_status_transaction set_status transaction
boss_accepts = refl

execute_transition_sound_example :
    IsMove accept pending accepted × IsAllowed accept boss.role pending
execute_transition_sound_example =
    execute_transition_sound noon 32 accept boss none open_house
      (record { order = accepted_order; from_status = pending }) boss_accepts

execute_transition_complete_example :
    (done : Executed) × ((execute_transition noon 32 cancel boss (some "mistake") open_house).0
      ≡ ok done)
    × (done.from_status ≡ pending)
    × (done.order.status ≡ cancelled)
execute_transition_complete_example =
    execute_transition_complete noon 32 cancel boss (some "mistake") open_house pending_order
      cancelled pending_found ((λ e. cc), (λ e. cc), (λ e. cc), refl)
      ((λ e. cc), (λ e. cc), inl (λ e. cc)) refl

serve_refused :
    (execute_transition noon 32 serve boss none open_house).0
    ≡ err (invalid_order_transition 32 pending "serve")
unfolding execute_transition transition_rules ◌>>=◌ find_order_by_id first
serve_refused = refl

abbrev placed : OrderRow
placed = new_order noon coffee_order (new_group noon 4) false

abbrev placed_items : List OrderItemRow
placed_items = record (item_of 1002 1001) { id = 1002 } ∷ []

abbrev after_order : Db
after_order = (transaction (create_order_transaction noon coffee_order) cafe).1

order_created :
    create_order_transaction noon coffee_order cafe
    ≡ some (created placed placed_items true true, after_order)
unfolding create_order_transaction unique select find_product_row find_category first
    find_table_by_id resolve_group open_new_group insert_unique place_order derive_is_addon count
    insert_items occupy_table update transaction has_employee has_no_or_employee
order_created = refl

create_order-Placed_example : Placed coffee_order cafe after_order placed placed_items
create_order-Placed_example =
    create_order-Placed noon coffee_order cafe after_order placed placed_items true true
      order_created

abbrev at_dirty_table : CreateOrderInput
at_dirty_table = record coffee_order { table_id = 3 }

order_refused :
    create_order_transaction noon at_dirty_table cafe
    ≡ some (table_not_orderable needs_cleaning, cafe)
unfolding create_order_transaction unique select find_product_row find_category first
    find_table_by_id
order_refused = refl

create_order-refused_example :
    ((o : OrderRow) × (items : List OrderItemRow) × (m : Bool) × (f : Bool) × (table_not_orderable
          needs_cleaning
        ≡ created o items m f))
    ⊎ (cafe ≡ cafe)
create_order-refused_example =
    create_order-refused noon at_dirty_table cafe cafe (table_not_orderable needs_cleaning)
      order_refused

to_dto-kitchen_example :
    to_dto pending_order (item_of 42 32 ∷ []) kitchen
    ≡ to_dto pending_order (record (item_of 42 32) { unit_price_minor_snapshot = 1 } ∷ []) kitchen
to_dto-kitchen_example =
    to_dto-kitchen pending_order (record (item_of 42 32) { unit_price_minor_snapshot = 1 } ∷ [])
      (λ i. 250)
