-- ===== src/Examples/Staffing.antt =====
-- The lists, the notifications, the invitations, the menu and the keys of requests, on the restaurant of
-- `Examples`.
use smart_table.Prelude.{
  ℕ, suc, ◌+◌, ◌≤◌, ◌≡◌, ◌↔◌, refl, true, false, Option, none, some, List, [], ◌∷◌, map, first,
  update, length, arith, count,
}
use smart_table.Domain.{
  ok, err, waiter, kitchen, preparing, ready, dine_in, already_accepted, invitation_pending,
}
use smart_table.Database.{
  EmployeeRow, InvitationRow, NotificationRow, note_order_ready, order_payload, Env,
}
use smart_table.Effects.{DomainEvent, World, ◌>>=◌, order_created, order_status_changed}
use smart_table.Paging.{CursorPosition, Codec}
use smart_table.Paging.Walk.{walk, listing}
use smart_table.Orders.Service.{OrderActor, to_dto}
use smart_table.Orders.Service.Listing.{
  ListOrdersQuery, list_orders, list_orders-walk, position_of, is_listed_order, order_view,
}
use smart_table.Notifications.{
  Board, on_event, mark_read, find_notification, set_read, is_recipient, is_for_recipient,
  list_for_employee, notification_position,
}
use smart_table.Notifications.Delivery.{Delivers, on_event-Delivers}
use smart_table.Notifications.Scope.{IsShownTo, list_for_employee-walk, mark_read-again}
use smart_table.Realtime.Routing.{received, reprice_event, received_kitchen}
use smart_table.Invitations.{
  InvitationSettings, AcceptForm, accept, accept_check, accept_commit, validate_token_for_use,
  refuse_token, token_problem, find_by_token_hash, find_invitation, find_employee_identity,
  accept_transaction,
}
use smart_table.Invitations.Pending.{OnePending}
use smart_table.Invitations.Pending.Requests.{
  InvitationRequest, invite, accept_with, reissue_by, perform_all, perform_all-OnePending,
}
use smart_table.Invitations.SingleUse.{accept_again}
use smart_table.Invitations.Race.{overlapping_accepts}
use smart_table.Employees.{CreateEmployeeRequest, create_employee, new_employee, employee_dto}
use smart_table.Employees.Hiring.{create_employee-accepts}
use smart_table.Menu.{remove_product, UpdateProductRequest}
use smart_table.Menu.Changes.{remove_product-bills}
use smart_table.Billing.Payment.{order_lines, totals_of}
use smart_table.Idempotency.{
  System, Reaches, stays, moves, goes_well, goes_wrong, arrived, inserting, executing, storing,
  waiting, advance,
}
use smart_table.Idempotency.Once.{arrivals, Reaches-once}
use smart_table.Examples.{noon, cafe, open_house, served_order, item_of}

-- A cursor that is the position itself.
abbrev plain : Codec CursorPosition
plain = record { encode = λ p. p; decode = λ p. some p }

abbrev one_each : ListOrdersQuery
one_each = record { status = none; table_id = none; channel = some dine_in; limit = some 1 }

list_orders-walk_example :
    walk
      (λ (cursor : Option CursorPosition). list_orders plain one_each cursor waiter cafe)
      (suc (length (listing position_of (is_listed_order one_each) cafe.orders)))
      none
    ≡ some (
        map
          (order_view cafe.order_items waiter)
          (listing position_of (is_listed_order one_each) cafe.orders))
list_orders-walk_example =
    list_orders-walk plain one_each waiter cafe (λ p. refl) ((refl, tt), (tt, tt))

abbrev for_waiters : NotificationRow
for_waiters = record {
  id = 81;
  recipient_role = some waiter;
  recipient_employee_id = none;
  kind = note_order_ready;
  payload = order_payload 31 1;
  read_at = none;
  created_at = 50;
}

abbrev for_nour : NotificationRow
for_nour = record for_waiters { id = 82; recipient_role = none; recipient_employee_id = some 8 }

abbrev for_cooks : NotificationRow
for_cooks = record for_waiters { id = 83; recipient_role = some kitchen }

abbrev nour : OrderActor
nour = record { id = 8; role = waiter }

abbrev posted : List NotificationRow
posted = for_waiters ∷ for_nour ∷ for_cooks ∷ []

list_for_employee-walk_example :
    (walk
        (λ (cursor : Option CursorPosition).
          list_for_employee plain (some true) (some 1) cursor nour posted)
        (suc (length (listing notification_position (is_for_recipient nour true) posted)))
        none
      ≡ some (listing notification_position (is_for_recipient nour true) posted))
    × ((row : NotificationRow) → (is_for_recipient nour true row ≡ true) ↔ IsShownTo nour true row)
list_for_employee-walk_example =
    list_for_employee-walk plain (some true) (some 1) nour posted (λ p. refl)
      ((refl, (refl, tt)), ((refl, tt), (tt, tt)))

abbrev board : Board
board = record { notifications = posted; announced = [] }

on_event-Delivers_example :
    Delivers board (on_event noon cafe (order_status_changed 31 preparing ready) board)
on_event-Delivers_example =
    on_event-Delivers noon cafe (order_status_changed 31 preparing ready) board

abbrev seen : NotificationRow
seen = record for_nour { read_at = some 100 }

mark_read-again_example :
    (true ≡ true)
    × (is_recipient nour seen ≡ true)
    × (mark_read (record noon { now = 200 }) 82 nour (for_waiters ∷ seen ∷ for_cooks ∷ [])
        ≡ (ok seen, for_waiters ∷ seen ∷ for_cooks ∷ []))
unfolding mark_read find_notification set_read first update
mark_read-again_example =
    mark_read-again noon (record noon { now = 200 }) 82 nour posted
      (for_waiters ∷ seen ∷ for_cooks ∷ []) seen refl

abbrev placed_order : DomainEvent
placed_order = order_created (to_dto served_order (item_of 41 31 ∷ []) waiter)

received_kitchen_example :
    received kitchen 6 (reprice_event (λ item. 0) placed_order) ≡ received kitchen 6 placed_order
received_kitchen_example = received_kitchen 6 (λ item. 0) placed_order

abbrev settings : InvitationSettings
settings = record { expiry_days = 7; hash_token = λ t. 10 + t }

abbrev new_form : AcceptForm
new_form = record {
  password_hash = 75;
  pin_hash = 76;
  device_label = "phone";
  device_token_hash = 77;
}

abbrev hiring : List (Env × InvitationRequest)
hiring =
    (noon, invite 6 (some 7) "email")
    ∷ (record noon { uuid = λ k. 2000 + k; random_token = λ k. 600 + k }, reissue_by 1000 7)
    ∷ (noon, accept_with 600 new_form)
    ∷ []

perform_all-OnePending_example : OnePending (perform_all settings hiring open_house).db
unfolding count
perform_all-OnePending_example =
    perform_all-OnePending settings hiring open_house (record { one = λ e. omega arith })

abbrev invited : InvitationRow
invited = record {
  id = 91;
  employee_id = 6;
  token_hash = 510;
  channel = "email";
  status = invitation_pending;
  expires_at = 5000;
  accepted_at = none;
  created_at = 10;
}

abbrev karim : EmployeeRow
karim = record {
  id = 6;
  name = "Karim";
  role = kitchen;
  email = none;
  password_hash = none;
  pin_hash = none;
  is_active = true;
  last_login_at = none;
  created_at = 1;
}

abbrev waiting_house : World
waiting_house = record open_house { db = record cafe { invitations = invited ∷ [] } }

accept_again_example :
    (id : ℕ) × (accept noon settings 500 new_form
        (accept noon settings 500 new_form waiting_house).1
      ≡ (err (already_accepted id), (accept noon settings 500 new_form waiting_house).1))
unfolding accept accept_check accept_commit validate_token_for_use token_problem refuse_token
    find_by_token_hash find_employee_identity first ◌>>=◌ accept_transaction
accept_again_example =
    accept_again noon noon settings 500 new_form new_form waiting_house karim refl

abbrev new_waiter : CreateEmployeeRequest
new_waiter = record { name = "Lina"; role = waiter; email = none }

create_employee-accepts_example :
    let (result, w') = create_employee noon settings new_waiter 7 open_house in
    (result
      ≡ ok (
        employee_dto (new_employee noon new_waiter) (some invitation_pending),
        record { id = 1000; token = 500; expires_at = 604_800_100 },
      ))
    × ((accept (record noon { now = 5_000 }) settings 500 new_form w').0
        ≡ ok (new_employee noon new_waiter))
unfolding find_by_token_hash find_invitation find_employee_identity first
create_employee-accepts_example =
    create_employee-accepts noon settings new_waiter 7 open_house refl refl (omega arith)
      (record noon { now = 5_000 }) new_form refl (omega arith)

overlapping_accepts_example :
    (accept_check noon settings 500 waiting_house ≡ (ok (invited, karim), waiting_house))
    × (accept_check noon settings 500 waiting_house ≡ (ok (invited, karim), waiting_house))
    × ((accept_commit noon new_form invited karim waiting_house).0 ≡ ok karim)
    × ((accept_commit noon new_form invited karim
          (accept_commit noon new_form invited karim waiting_house).1).0
        ≡ ok karim)
    × (length
          (accept_commit noon new_form invited karim
            (accept_commit noon new_form invited karim waiting_house).1).1.db.refresh_tokens
        ≡ length waiting_house.db.refresh_tokens + 2)
unfolding find_by_token_hash find_employee_identity first token_problem
overlapping_accepts_example =
    overlapping_accepts settings 500 waiting_house invited karim refl refl noon noon new_form
      new_form refl refl

remove_product-bills_example :
    map totals_of
      (order_lines 1_000 (served_order ∷ []) (remove_product 61 open_house).1.db.order_items)
    ≡ map totals_of (order_lines 1_000 (served_order ∷ []) open_house.db.order_items)
remove_product-bills_example = remove_product-bills 61 1_000 (served_order ∷ []) open_house

abbrev dearer : UpdateProductRequest
dearer = record {
  category_id = none;
  name_ar = none;
  name_fr = none;
  price_minor = some 300;
  is_available = some false;
  sort_order = none;
}

-- Two requests with the same body: both look before either inserts, and the first one's operation is done.
abbrev raced : System
raced = record {
  slot = some (record { id = 1; request_hash = 5; response = none });
  requests = storing 1 44 ∷ waiting 5 0 ∷ [];
  performed = 1;
}

two_arrive : Reaches (arrivals (5 ∷ 5 ∷ [])) raced
unfolding advance
two_arrive = moves goes_wrong 1 [] (arrived 5 ∷ []) (arrived 5) none 0 refl (
    moves goes_wrong 2 (inserting 5 ∷ []) [] (arrived 5) none 0 refl (
      moves goes_wrong 1 [] (inserting 5 ∷ []) (inserting 5) none 0 refl (
        moves goes_wrong 2 (executing 1 ∷ []) [] (inserting 5) _ 0 refl
          (moves (goes_well 44) 3 [] (waiting 5 0 ∷ []) (executing 1) _ 0 refl stays))))

Reaches-once_example : raced.performed ≤ 1
Reaches-once_example = Reaches-once (5 ∷ 5 ∷ []) raced two_arrive
