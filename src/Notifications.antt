-- ===== src/Notifications.antt =====
-- apps/api/src/modules/notifications: which event tells whom, the listing of one's own
-- notifications, and marking one as read. The listener catches what a handler throws, so that the
-- one who emitted the event never sees it.
pub mod Delivery
pub mod Scope
use smart_table.Prelude.{
  ℕ, Bool, true, false, ◌&&◌, ◌||◌, not, Option, none, some, List, [], ◌∷◌, ◌++◌, ◌==◌,
  if◌then◌else◌, first, update, is_some, or_else,
}
use smart_table.Domain.{
  EmployeeRole, owner, manager, waiter, kitchen, role_eq, ready, order_status_eq, entity_not_found,
  insufficient_permission, internal_error, Result, ok, err,
}
use smart_table.Database.{
  NotificationType, note_order_created, note_order_ready, note_invitation_accepted,
  note_backup_failed, NotificationPayload, order_payload, invitation_payload, backup_payload,
  NotificationRow, Db, Env, insert_unique,
}
use smart_table.Effects.{
  OrderView, order_dto, kitchen_order_dto, DomainEvent, order_created, order_status_changed,
  invitation_accepted, backup_failed,
}
use smart_table.Orders.Repository.{find_order_by_id}
use smart_table.Orders.Service.{OrderActor}
use smart_table.Paging.{CursorPosition, Codec, Page, list_page}

pub record CreateNotificationInput : Type 0 where
  pub recipient_role : Option EmployeeRole
  pub recipient_employee_id : Option ℕ
  pub kind : NotificationType
  pub payload : NotificationPayload

-- The table, and what has been emitted as `notification.created`.
pub record Board : Type 0 where
  pub notifications : List NotificationRow
  pub announced : List NotificationRow

abbrev pub new_notification : Env → ℕ → CreateNotificationInput → NotificationRow
new_notification env n input = record {
  id = env.uuid n;
  recipient_role = input.recipient_role;
  recipient_employee_id = input.recipient_employee_id;
  kind = input.kind;
  payload = input.payload;
  read_at = none;
  created_at = env.now;
}

-- Stores the row and then emits it; the row's id is the n-th of the request.
unfoldable pub create_and_emit :
    Env → ℕ → CreateNotificationInput → Board → Result (Unit {0}) × Board
create_and_emit env n input board =
    let row = new_notification env n input in
    elim (insert_unique (λ r. r.id) row board.notifications) [
      | none ↦ (err internal_error, board)
      | some rows ↦
          (ok tt, record { notifications = rows; announced = board.announced ++ row ∷ [] })
    ]

-- To everyone of a role.
abbrev pub to_role : EmployeeRole → NotificationType → NotificationPayload → CreateNotificationInput
to_role role kind payload = record {
  recipient_role = some role;
  recipient_employee_id = none;
  kind = kind;
  payload = payload;
}

abbrev pub view_payload : OrderView → NotificationPayload
view_payload (order_dto order items) = order_payload order.id order.table_id
view_payload (kitchen_order_dto order items) = order_payload order.id order.table_id

unfoldable pub notify_order_created : Env → OrderView → Board → Result (Unit {0}) × Board
notify_order_created env view =
    create_and_emit env 0 (to_role kitchen note_order_created (view_payload view))

unfoldable pub notify_order_ready : Env → Db → ℕ → Board → Result (Unit {0}) × Board
notify_order_ready env db order_id board = elim (find_order_by_id order_id db) [
  | none ↦ (err (entity_not_found "order" order_id), board)
  | some order ↦
      create_and_emit env 0
        (to_role waiter note_order_ready (order_payload order.id order.table_id)) board
]

abbrev pub then_notify :
    Result (Unit {0}) × Board → (Board → Result (Unit {0}) × Board) → Result (Unit {0}) × Board
then_notify (err e, board) next = (err e, board)
then_notify (ok t, board) next = next board

-- The `for` over the two roles.
unfoldable pub notify_invitation_accepted : Env → ℕ → ℕ → Board → Result (Unit {0}) × Board
notify_invitation_accepted env invitation_id employee_id board =
    let payload = invitation_payload invitation_id employee_id in
    then_notify (create_and_emit env 0 (to_role owner note_invitation_accepted payload) board)
      (create_and_emit env 1 (to_role manager note_invitation_accepted payload))

unfoldable pub notify_backup_failed : Env → ℕ → Board → Result (Unit {0}) × Board
notify_backup_failed env backup_history_id =
    create_and_emit env 0 (to_role owner note_backup_failed (backup_payload backup_history_id))

unfoldable pub notify : Env → Db → DomainEvent → Board → Result (Unit {0}) × Board
notify env db (order_created view) board = notify_order_created env view board
notify env db (order_status_changed order_id from_status to_status) board =
    if order_status_eq to_status ready
    then notify_order_ready env db order_id board
    else (ok tt, board)
notify env db (invitation_accepted invitation_id employee_id) board =
    notify_invitation_accepted env invitation_id employee_id board
notify env db (backup_failed backup_history_id) board =
    notify_backup_failed env backup_history_id board
notify env db _ board = (ok tt, board)

-- A handler behind `isolated`: what it threw is logged and gone.
unfoldable pub on_event : Env → Db → DomainEvent → Board → Board
on_event env db event board = (notify env db event board).1

abbrev pub notification_position : NotificationRow → CursorPosition
notification_position row = record { created_at = row.created_at; id = row.id }

abbrev pub is_role : Option EmployeeRole → EmployeeRole → Bool
is_role none role = false
is_role (some r) role = role_eq r role

abbrev pub is_employee : Option ℕ → ℕ → Bool
is_employee none id = false
is_employee (some e) id = e == id

abbrev pub is_recipient : OrderActor → NotificationRow → Bool
is_recipient actor row =
    is_role row.recipient_role actor.role || is_employee row.recipient_employee_id actor.id

-- The condition of listForRecipient.
abbrev pub is_for_recipient : OrderActor → Bool → NotificationRow → Bool
is_for_recipient actor unread_only row =
    is_recipient actor row && (if unread_only then not (is_some row.read_at) else true)

unfoldable pub list_for_employee :
    {Text : Type 0}
    → Codec Text
    → Option Bool
    → Option ℕ
    → Option Text
    → OrderActor
    → List NotificationRow
    → Result (Page NotificationRow Text)
list_for_employee codec unread_only limit cursor actor rows =
    list_page notification_position codec (is_for_recipient actor (or_else unread_only false)) limit
      cursor rows

unfoldable pub find_notification : ℕ → List NotificationRow → Option NotificationRow
find_notification id rows = first (λ r. r.id == id) rows

-- update … set read_at where id = … and read_at is null
unfoldable pub set_read : ℕ → ℕ → List NotificationRow → List NotificationRow
set_read id read_at =
    update (λ r. r.id == id && not (is_some r.read_at)) (λ r. record r { read_at = some read_at })

abbrev pub marked : ℕ → List NotificationRow → Result NotificationRow × List NotificationRow
marked id rows = elim (find_notification id rows) [
  | none ↦ (err internal_error, rows)
  | some row ↦ (ok row, rows)
]

unfoldable pub mark_read :
    Env → ℕ → OrderActor → List NotificationRow → Result NotificationRow × List NotificationRow
mark_read env id actor rows = elim (find_notification id rows) [
  | none ↦ (err (entity_not_found "notification" id), rows)
  | some row ↦
      if not (is_recipient actor row)
      then (err (insufficient_permission "notifications.read"), rows)
      else marked id (if is_some row.read_at then rows else set_read id env.now rows)
]
