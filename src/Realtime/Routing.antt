-- ===== src/Realtime/Routing.antt =====
-- apps/api/src/common/realtime/staff-event-router.ts, and the rooms that handleConnection of
-- staff-realtime.gateway.ts joins a socket to.
use smart_table.Prelude.{
  ℕ, ◌≤◌, ◌≡◌, refl, Bool, true, false, ◌||◌, Option, none, some, List, [], ◌∷◌, ◌++◌, map, ◌==◌,
  arith, select, length, ap,
}
use smart_table.Domain.{EmployeeRole, owner, manager, cashier, waiter, kitchen, role_eq}
use smart_table.Effects.{
  OrderItemDto, KitchenOrderItemDto, OrderView, order_dto, kitchen_order_dto, DomainEvent,
  order_created, order_accepted, order_status_changed, table_status_changed,
  product_availability_changed, invitation_accepted, notification_created, backup_failed,
  restaurant_profile_changed,
}

pub data Room : Type 0 where
  role_room : EmployeeRole → Room
  employee_room : ℕ → Room
  owner_room restaurant_broadcast_room : Room

-- The payload is carried as the event that a socket sees.
pub record RoutedEmission : Type 0 where
  pub rooms : List Room
  pub payload : DomainEvent

abbrev pub strip_item : OrderItemDto → KitchenOrderItemDto
strip_item item = record {
  id = item.id;
  product_id = item.product_id;
  name = item.name;
  category = item.category;
  quantity = item.quantity;
  notes = item.notes;
}

unfoldable pub to_kitchen_order_payload : OrderView → OrderView
to_kitchen_order_payload (order_dto order items) = kitchen_order_dto order (map strip_item items)
to_kitchen_order_payload (kitchen_order_dto order items) = kitchen_order_dto order items

abbrev pub role_target : Option EmployeeRole → List Room
role_target none = []
role_target (some role) = role_room role ∷ []

abbrev pub employee_target : Option ℕ → List Room
employee_target none = []
employee_target (some id) = employee_room id ∷ []

abbrev pub to_rooms : List Room → DomainEvent → List RoutedEmission
to_rooms [] payload = []
to_rooms (room ∷ rooms) payload = record { rooms = room ∷ rooms; payload = payload } ∷ []

unfoldable pub route_staff_event : DomainEvent → List RoutedEmission
route_staff_event (order_created view) =
    record {
      rooms = role_room kitchen ∷ [];
      payload = order_created (to_kitchen_order_payload view);
    }
    ∷ record { rooms = role_room waiter ∷ []; payload = order_created view }
    ∷ []
route_staff_event (order_accepted view) =
    record {
      rooms = role_room kitchen ∷ [];
      payload = order_accepted (to_kitchen_order_payload view);
    }
    ∷ record { rooms = role_room waiter ∷ owner_room ∷ []; payload = order_accepted view }
    ∷ []
route_staff_event (order_status_changed id f t) =
    record {
      rooms = role_room kitchen ∷ role_room waiter ∷ role_room cashier ∷ owner_room ∷ [];
      payload = order_status_changed id f t;
    }
    ∷ []
route_staff_event (table_status_changed id f t) =
    record {
      rooms = role_room waiter ∷ role_room cashier ∷ owner_room ∷ [];
      payload = table_status_changed id f t;
    }
    ∷ []
route_staff_event (product_availability_changed id b) =
    record { rooms = restaurant_broadcast_room ∷ []; payload = product_availability_changed id b }
    ∷ []
route_staff_event (restaurant_profile_changed p) =
    record { rooms = restaurant_broadcast_room ∷ []; payload = restaurant_profile_changed p } ∷ []
route_staff_event (invitation_accepted i e) =
    record { rooms = owner_room ∷ []; payload = invitation_accepted i e } ∷ []
route_staff_event (notification_created row) =
    to_rooms (role_target row.recipient_role ++ employee_target row.recipient_employee_id)
      (notification_created row)
route_staff_event (backup_failed id) = []

abbrev pub is_owner_room_role : EmployeeRole → Bool
is_owner_room_role role = role_eq role owner || role_eq role manager

-- A socket of an employee is in the room of its role, in its own, in the broadcast room, and, for
-- two of the roles, in the owner room.
abbrev pub is_joined : EmployeeRole → ℕ → Room → Bool
is_joined role id (role_room r) = role_eq r role
is_joined role id (employee_room e) = e == id
is_joined role id owner_room = is_owner_room_role role
is_joined role id restaurant_broadcast_room = true

abbrev pub is_any_joined : EmployeeRole → ℕ → List Room → Bool
is_any_joined role id [] = false
is_any_joined role id (room ∷ rooms) = is_joined role id room || is_any_joined role id rooms

abbrev pub payloads : List RoutedEmission → List DomainEvent
payloads = map (λ e. e.payload)

-- What a socket receives of an event: one copy of an emission to any of its rooms.
unfoldable pub received : EmployeeRole → ℕ → DomainEvent → List DomainEvent
received role id event =
    payloads (select (λ e. is_any_joined role id e.rooms) (route_staff_event event))

-- The event with other prices of the items of its order.
abbrev pub reprice_item : (OrderItemDto → ℕ) → OrderItemDto → OrderItemDto
reprice_item price item = record item { unit_price_minor = price item }

abbrev pub reprice_view : (OrderItemDto → ℕ) → OrderView → OrderView
reprice_view price (order_dto order items) = order_dto order (map (reprice_item price) items)
reprice_view price (kitchen_order_dto order items) = kitchen_order_dto order items

abbrev pub reprice_event : (OrderItemDto → ℕ) → DomainEvent → DomainEvent
reprice_event price (order_created view) = order_created (reprice_view price view)
reprice_event price (order_accepted view) = order_accepted (reprice_view price view)
reprice_event price event = event

map-strip_item :
    (price : OrderItemDto → ℕ) (items : List OrderItemDto)
    → map strip_item (map (reprice_item price) items) ≡ map strip_item items
map-strip_item price [] = refl
map-strip_item price (item ∷ items) = ap (◌∷◌ (strip_item item)) (map-strip_item price items)

to_kitchen-reprice :
    (price : OrderItemDto → ℕ) (view : OrderView)
    → to_kitchen_order_payload (reprice_view price view) ≡ to_kitchen_order_payload view
unfolding to_kitchen_order_payload
to_kitchen-reprice price (order_dto order items) =
    ap (kitchen_order_dto order) (map-strip_item price items)
to_kitchen-reprice price (kitchen_order_dto order items) = refl

-- No price reaches a socket of the kitchen: whatever the prices of the items in an event are
-- changed to, the socket receives the same.
pub received_kitchen :
    (id : ℕ) (price : OrderItemDto → ℕ) (event : DomainEvent)
    → received kitchen id (reprice_event price event) ≡ received kitchen id event
unfolding received route_staff_event select
received_kitchen id price (order_created view) =
    ap (λ v. order_created v ∷ []) (to_kitchen-reprice price view)
received_kitchen id price (order_accepted view) =
    ap (λ v. order_accepted v ∷ []) (to_kitchen-reprice price view)
received_kitchen id price (order_status_changed i f t) = refl
received_kitchen id price (table_status_changed i f t) = refl
received_kitchen id price (product_availability_changed i b) = refl
received_kitchen id price (invitation_accepted i e) = refl
received_kitchen id price (notification_created row) = refl
received_kitchen id price (backup_failed i) = refl
received_kitchen id price (restaurant_profile_changed p) = refl

select-to_rooms :
    (role : EmployeeRole) (id : ℕ) (rooms : List Room) (payload : DomainEvent)
    → length (payloads (select (λ e. is_any_joined role id e.rooms) (to_rooms rooms payload))) ≤ 1
unfolding select
select-to_rooms role id [] payload = omega arith
select-to_rooms role id (room ∷ rooms) payload = ground arith

-- A socket receives an event once at most, whatever rooms it is in.
pub received_once :
    (role : EmployeeRole) (id : ℕ) (event : DomainEvent) → length (received role id event) ≤ 1
unfolding received route_staff_event select
received_once owner id (order_created view) = omega arith
received_once manager id (order_created view) = omega arith
received_once cashier id (order_created view) = omega arith
received_once waiter id (order_created view) = omega arith
received_once kitchen id (order_created view) = omega arith
received_once owner id (order_accepted view) = omega arith
received_once manager id (order_accepted view) = omega arith
received_once cashier id (order_accepted view) = omega arith
received_once waiter id (order_accepted view) = omega arith
received_once kitchen id (order_accepted view) = omega arith
received_once role id (order_status_changed i f t) = ground arith
received_once role id (table_status_changed i f t) = ground arith
received_once role id (product_availability_changed i b) = ground arith
received_once role id (invitation_accepted i e) = ground arith
received_once role id (notification_created row) = select-to_rooms role id _ _
received_once role id (backup_failed i) = ground arith
received_once role id (restaurant_profile_changed p) = ground arith
