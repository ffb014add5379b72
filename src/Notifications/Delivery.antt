-- ===== src/Notifications/Delivery.antt =====
-- What the events leave in the table and on the bus.
use mathlib.Core.List.{append_assoc, append-nil}
use smart_table.Prelude.{
  ℕ, ◌≡◌, refl, sym, ◌∙◌, ap, Bool, true, false, Option, none, some, List, [], ◌∷◌, ◌++◌, arith,
  if◌then◌else◌, All, All-append, Option-cases, inl, inr,
}
use smart_table.Domain.{
  EmployeeRole, owner, manager, waiter, kitchen, role_eq, pending, accepted, preparing, ready,
  served, paid, completed, cancelled, Result, ok, err,
}
use smart_table.Database.{
  NotificationType, note_order_created, note_order_ready, note_invitation_accepted,
  note_bill_requested, note_backup_failed, NotificationRow, Db, Env, insert_unique,
}
use smart_table.Effects.{
  DomainEvent, order_created, order_accepted, order_status_changed, table_status_changed,
  product_availability_changed, invitation_accepted, notification_created, backup_failed,
  restaurant_profile_changed,
}
use smart_table.Orders.Repository.{find_order_by_id}
use smart_table.Notifications.{
  CreateNotificationInput, Board, new_notification, create_and_emit, then_notify,
  notify_order_created, notify_order_ready, notify_invitation_accepted, notify_backup_failed,
  notify, on_event,
}

-- The roles that a type of notification goes to.
abbrev pub recipients : NotificationType → EmployeeRole → Bool
recipients note_order_created role = role_eq role kitchen
recipients note_order_ready role = role_eq role waiter
recipients note_invitation_accepted role = if role_eq role owner then true else role_eq role manager
recipients note_bill_requested role = false
recipients note_backup_failed role = role_eq role owner

abbrev addressed : NotificationType → Option EmployeeRole → Bool
addressed kind none = false
addressed kind (some role) = recipients kind role

pub record IsAddressed (row : NotificationRow) : Type 0 where
  pub by_role : addressed row.kind row.recipient_role ≡ true
  pub to_nobody : row.recipient_employee_id ≡ none
  pub unread : row.read_at ≡ none

-- From one board to the next: the same new rows are stored and announced, each at the end.
pub record Delivers (board board' : Board) : Type 0 where
  pub delivered : List NotificationRow
  pub stored : board'.notifications ≡ board.notifications ++ delivered
  pub announced : board'.announced ≡ board.announced ++ delivered
  pub to_recipients : All IsAddressed delivered

Delivers-refl : (board : Board) → Delivers board board
Delivers-refl board = record {
  delivered = [];
  stored = sym (append-nil board.notifications);
  announced = sym (append-nil board.announced);
  to_recipients = tt;
}

Delivers-trans : (a b c : Board) → Delivers a b → Delivers b c → Delivers a c
Delivers-trans a b c d e = record {
  delivered = d.delivered ++ e.delivered;
  stored =
      e.stored
      ∙ ap (λ xs. xs ++ e.delivered) d.stored
      ∙ append_assoc a.notifications d.delivered e.delivered;
  announced =
      e.announced
      ∙ ap (λ xs. xs ++ e.delivered) d.announced
      ∙ append_assoc a.announced d.delivered e.delivered;
  to_recipients = All-append IsAddressed d.delivered e.delivered d.to_recipients e.to_recipients;
}

create_and_emit-Delivers :
    (env : Env) (n : ℕ) (input : CreateNotificationInput) (board : Board)
    → addressed input.kind input.recipient_role ≡ true
    → input.recipient_employee_id ≡ none
    → Delivers board (create_and_emit env n input board).1
unfolding create_and_emit
create_and_emit-Delivers env n input board h k =
    let row = new_notification env n input in
    elim (Option-cases (insert_unique (λ (r : NotificationRow). r.id) row board.notifications)) [
      | inl e ↦ rw (e, create_and_emit) (Delivers-refl board)
      | inr (rows, e) ↦
          let grown : rows ≡ board.notifications ++ row ∷ [] =
            unfold insert_unique in ground arith in
          rw (e, create_and_emit)
            (record {
              delivered = row ∷ [];
              stored = grown;
              announced = refl;
              to_recipients = (record { by_role = h; to_nobody = k; unread = refl }, tt);
            })
    ]

then_notify-Delivers :
    (a : Board) (r : Result (Unit {0}) × Board) (next : Board → Result (Unit {0}) × Board)
    → Delivers a r.1
    → ((b : Board) → Delivers b (next b).1)
    → Delivers a (then_notify r next).1
then_notify-Delivers a (err e, b) next d h = d
then_notify-Delivers a (ok t, b) next d h = Delivers-trans a b (next b).1 d (h b)

notify_order_ready-Delivers :
    (env : Env) (db : Db) (order_id : ℕ) (board : Board)
    → Delivers board (notify_order_ready env db order_id board).1
unfolding notify_order_ready
notify_order_ready-Delivers env db order_id board =
    elim (Option-cases (find_order_by_id order_id db)) [
      | inl k ↦ rw (k, notify_order_ready) (Delivers-refl board)
      | inr (order, k) ↦
          rw (k, notify_order_ready) (create_and_emit-Delivers env 0 _ board refl refl)
    ]

-- Whatever the event, and whether its handler throws or not, the rows that are new in the table are
-- those that are announced, in the same order. Each goes to one role, which is one that its type is
-- meant for, to no single employee, and is not read yet. Older rows stay as they are.
pub on_event-Delivers :
    (env : Env) (db : Db) (event : DomainEvent) (board : Board)
    → Delivers board (on_event env db event board)
unfolding on_event notify notify_order_created notify_invitation_accepted notify_backup_failed
on_event-Delivers env db (order_created view) board =
    create_and_emit-Delivers env 0 _ board refl refl
on_event-Delivers env db (order_status_changed order_id f ready) board =
    notify_order_ready-Delivers env db order_id board
on_event-Delivers env db (order_status_changed order_id f pending) board = Delivers-refl board
on_event-Delivers env db (order_status_changed order_id f accepted) board = Delivers-refl board
on_event-Delivers env db (order_status_changed order_id f preparing) board = Delivers-refl board
on_event-Delivers env db (order_status_changed order_id f served) board = Delivers-refl board
on_event-Delivers env db (order_status_changed order_id f paid) board = Delivers-refl board
on_event-Delivers env db (order_status_changed order_id f completed) board = Delivers-refl board
on_event-Delivers env db (order_status_changed order_id f cancelled) board = Delivers-refl board
on_event-Delivers env db (invitation_accepted i e) board =
    then_notify-Delivers board _ _ (create_and_emit-Delivers env 0 _ board refl refl)
      (λ b. create_and_emit-Delivers env 1 _ b refl refl)
on_event-Delivers env db (backup_failed b) board = create_and_emit-Delivers env 0 _ board refl refl
on_event-Delivers env db (order_accepted view) board = Delivers-refl board
on_event-Delivers env db (table_status_changed id f t) board = Delivers-refl board
on_event-Delivers env db (product_availability_changed id b) board = Delivers-refl board
on_event-Delivers env db (notification_created row) board = Delivers-refl board
on_event-Delivers env db (restaurant_profile_changed p) board = Delivers-refl board
