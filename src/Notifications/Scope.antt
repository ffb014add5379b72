-- ===== src/Notifications/Scope.antt =====
-- Who sees a notification, and what marking one as read does.
use smart_table.Prelude.{
  not, ==_self, ◌⊎◌, ◌↔◌, ℕ, suc, ◌≡◌, refl, sym, ◌∙◌, ap, Bool, true, false, Option, none, some,
  List, [], ◌∷◌, arith, if◌then◌else◌, first, update, is_some, length, Option-cases, Bool-cases,
  inl, inr, or_else,
}
use smart_table.Domain.{EmployeeRole, owner, manager, cashier, waiter, kitchen, role_eq, ok}
use smart_table.Database.{NotificationRow, Env}
use smart_table.Orders.Service.{OrderActor}
use smart_table.Paging.{CursorPosition, Codec}
use smart_table.Paging.Order.{AreApart}
use smart_table.Paging.Walk.{walk, listing, walk-listing}
use smart_table.Notifications.{
  notification_position, is_recipient, is_role, is_employee, is_for_recipient, list_for_employee,
  find_notification, set_read, marked, mark_read,
}

-- The notification is to the role of the employee or to the employee, and is unread where only such
-- ones are asked for.
pub record IsShownTo (actor : OrderActor) (unread_only : Bool) (row : NotificationRow)
    : Type 0 where
  pub to_actor :
      (row.recipient_role ≡ some actor.role) ⊎ (row.recipient_employee_id ≡ some actor.id)
  pub still_unread : unread_only ≡ true → row.read_at ≡ none

role_eq_same : (r s : EmployeeRole) → role_eq r s ≡ true → r ≡ s
role_eq_same owner s e = ground (arith, e)
role_eq_same manager s e = ground (arith, e)
role_eq_same cashier s e = ground (arith, e)
role_eq_same waiter s e = ground (arith, e)
role_eq_same kitchen s e = ground (arith, e)

is_role-some : (o : Option EmployeeRole) (r : EmployeeRole) → is_role o r ≡ true → o ≡ some r
is_role-some none r e = cc
is_role-some (some s) r e = ap some (role_eq_same s r e)

is_employee-some : (o : Option ℕ) (id : ℕ) → is_employee o id ≡ true → o ≡ some id
is_employee-some none id e = cc
is_employee-some (some k) id e = ground (arith, e)

unread_lem :
    (unread_only : Bool) (read_at : Option ℕ)
    → (unread_only ≡ true → read_at ≡ none)
    → (if unread_only then not (is_some read_at) else true) ≡ true
unread_lem false read_at u = refl
unread_lem true read_at u = rw (u refl) refl

role_eq_self : (r : EmployeeRole) → role_eq r r ≡ true
role_eq_self owner = refl
role_eq_self manager = refl
role_eq_self cashier = refl
role_eq_self waiter = refl
role_eq_self kitchen = refl

shown_to :
    (actor : OrderActor) (unread_only : Bool) (row : NotificationRow)
    → is_for_recipient actor unread_only row ≡ true
    → IsShownTo actor unread_only row
shown_to actor unread_only row h = record {
  to_actor = elim (Bool-cases (is_role row.recipient_role actor.role)) [
    | inl r ↦ inl (is_role-some row.recipient_role actor.role r)
    | inr r ↦ inr (is_employee-some row.recipient_employee_id actor.id (ground (arith, h, r)))
  ];
  still_unread = λ u. ground (arith, u, h);
}

shown :
    (actor : OrderActor) (unread_only : Bool) (row : NotificationRow)
    → IsShownTo actor unread_only row
    → is_for_recipient actor unread_only row ≡ true
shown actor unread_only row s =
    let unread = unread_lem unread_only row.read_at s.still_unread in
    let mine : is_recipient actor row ≡ true = elim s.to_actor [
      | inl e ↦ rw (e, role_eq_self actor.role) refl
      | inr e ↦ elim (Bool-cases (is_role row.recipient_role actor.role)) [
        | inl r ↦ rw r refl
        | inr r ↦ rw (r, e, ==_self actor.id) refl
      ]
    ] in
    rw (mine, unread) refl

-- An employee who follows the cursors of the list of notifications from page to page comes to the
-- end: the employee sees the notifications that pass the filter, newest first and each once; and
-- those that pass are the ones to their role or to themselves, only the unread ones of these where
-- that is asked for. This holds where the cursors can be read again and the notifications have
-- different ids.
pub list_for_employee-walk :
    {Text : Type 0} (codec : Codec Text) (unread_only : Option Bool) (limit : Option ℕ)
    (actor : OrderActor) (rows : List NotificationRow)
    → ((p : CursorPosition) → codec.decode (codec.encode p) ≡ some p)
    → AreApart notification_position rows
    → (walk
          (λ (cursor : Option Text). list_for_employee codec unread_only limit cursor actor rows)
          (suc (
            length (
              listing notification_position
                (is_for_recipient actor (or_else unread_only false))
                rows)))
          none
        ≡ some (
            listing notification_position
              (is_for_recipient actor (or_else unread_only false))
              rows))
      × ((row : NotificationRow)
          → (is_for_recipient actor (or_else unread_only false) row ≡ true)
            ↔ IsShownTo actor (or_else unread_only false) row)
unfolding list_for_employee
list_for_employee-walk codec unread_only limit actor rows roundtrip apart = (
  walk-listing notification_position codec _ limit rows roundtrip apart,
  λ row. (shown_to actor _ row, shown actor _ row),
)

first-set_read :
    (id now : ℕ) (rows : List NotificationRow) (row : NotificationRow)
    → find_notification id rows ≡ some row
    → is_some row.read_at ≡ false
    → find_notification id (set_read id now rows) ≡ some (record row { read_at = some now })
unfolding find_notification set_read first update
first-set_read id now [] row h e = absurd (ground arith)
first-set_read id now (r ∷ rows) row h e = ground (arith, first-set_read id now rows row)

marked-found :
    (id : ℕ) (rows : List NotificationRow) (row : NotificationRow)
    → find_notification id rows ≡ some row
    → marked id rows ≡ (ok row, rows)
marked-found id rows row f = rw (f, marked) refl

mark_read-own :
    (env : Env) (id : ℕ) (actor : OrderActor) (rows : List NotificationRow) (row : NotificationRow)
    → find_notification id rows ≡ some row
    → is_recipient actor row ≡ true
    → mark_read env id actor rows
      ≡ marked id (if is_some row.read_at then rows else set_read id env.now rows)
unfolding mark_read
mark_read-own env id actor rows row f own = rw (f, mark_read, own) refl

mark_read-read :
    (env : Env) (id : ℕ) (actor : OrderActor) (rows : List NotificationRow) (row : NotificationRow)
    → find_notification id rows ≡ some row
    → is_recipient actor row ≡ true
    → is_some row.read_at ≡ true
    → mark_read env id actor rows ≡ (ok row, rows)
mark_read-read env id actor rows row f own read =
    mark_read-own env id actor rows row f own
    ∙ ap (λ b. marked id (if b then rows else set_read id env.now rows)) read
    ∙ marked-found id rows row f

mark_read-unread :
    (env : Env) (id : ℕ) (actor : OrderActor) (rows : List NotificationRow) (row : NotificationRow)
    → find_notification id rows ≡ some row
    → is_recipient actor row ≡ true
    → is_some row.read_at ≡ false
    → mark_read env id actor rows
      ≡ (ok (record row { read_at = some env.now }), set_read id env.now rows)
mark_read-unread env id actor rows row f own read =
    mark_read-own env id actor rows row f own
    ∙ ap (λ b. marked id (if b then rows else set_read id env.now rows)) read
    ∙ marked-found id (set_read id env.now rows) _ (first-set_read id env.now rows row f read)

mark_read-found :
    (env : Env) (id : ℕ) (actor : OrderActor) (rows after : List NotificationRow)
    (shown : NotificationRow)
    → mark_read env id actor rows ≡ (ok shown, after)
    → (row : NotificationRow) × (find_notification id rows ≡ some row)
      × (is_recipient actor row ≡ true)
unfolding mark_read
mark_read-found env id actor rows after shown h = elim (Option-cases (find_notification id rows)) [
  | inl e ↦ absurd (ground arith)
  | inr (row, e) ↦ elim (Bool-cases (is_recipient actor row)) [
    | inl own ↦ (row, e, own)
    | inr other ↦ absurd (ground arith)
  ]
]

-- When marking a notification as read succeeds, the answer has a time of reading, and the caller is
-- its recipient. Marking it again, at any later time, gives the same answer, with the time of the
-- first reading, and changes nothing.
pub mark_read-again :
    (env later : Env) (id : ℕ) (actor : OrderActor) (rows after : List NotificationRow)
    (shown : NotificationRow)
    → mark_read env id actor rows ≡ (ok shown, after)
    → (is_some shown.read_at ≡ true)
      × (is_recipient actor shown ≡ true)
      × (mark_read later id actor after ≡ (ok shown, after))
mark_read-again env later id actor rows after shown h =
    let (row, f, own) = mark_read-found env id actor rows after shown h in
    elim (Bool-cases (is_some row.read_at)) [
      | inl read ↦
          let e : (row ≡ shown) × (rows ≡ after) =
            ground (arith, mark_read-read env id actor rows row f own read) in
          let same : mark_read later id actor rows ≡ (ok row, rows) =
            mark_read-read later id actor rows row f own read in
          (rw (sym e.0) read, rw (sym e.0) own, rw (e.0, e.1) at same)
      | inr unread ↦
          let d = record row { read_at = some env.now } in
          let e : (d ≡ shown) × (set_read id env.now rows ≡ after) =
            ground (arith, mark_read-unread env id actor rows row f own unread) in
          let same : mark_read later id actor (set_read id env.now rows)
              ≡ (ok d, set_read id env.now rows) =
            mark_read-read later id actor (set_read id env.now rows) d
              (first-set_read id env.now rows row f unread) own refl in
          (rw (sym e.0) refl, rw (sym e.0) own, rw (e.0, e.1) at same)
    ]
