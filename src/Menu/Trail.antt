-- ===== src/Menu/Trail.antt =====
-- What updating a product leaves in the audit trail and on the event bus.
use smart_table.Prelude.{
  same_flag, ℕ, Bool, Option, none, some, List, [], ◌∷◌, ◌++◌, ◌==◌, if◌then◌else◌, update,
}
use smart_table.Database.{Product, Env}
use smart_table.Effects.{World, AuditEntry, DomainEvent, product_availability_changed}
use smart_table.Menu.{UpdateProductRequest, change_product, price_entry}

-- An entry if there is a new price and it is another one.
abbrev pub price_entries : ℕ → ℕ → ℕ → Option ℕ → List AuditEntry
price_entries actor id old_price none = []
price_entries actor id old_price (some new_price) =
    if new_price == old_price then [] else price_entry actor id old_price new_price ∷ []

-- An event if there is a new availability and it is the other one.
abbrev pub availability_events : ℕ → Bool → Option Bool → List DomainEvent
availability_events id before none = []
availability_events id before (some after) =
    if same_flag after before then [] else product_availability_changed id after ∷ []

-- The world after an update that goes through: the row, the entry and the event.
abbrev pub after_update :
    (env : Env) (id : ℕ) (changes : UpdateProductRequest) (image : Option ℕ) (actor : ℕ)
    (existing : Product) (category_id : Option (Option ℕ)) (w : World)
    → World
after_update env id changes image actor existing category_id w = record {
  db = record w.db {
    products =
        update (λ (p : Product). p.id == id) (change_product env changes category_id image)
          w.db.products;
  };
  audit_log = w.audit_log ++ price_entries actor id existing.price_minor changes.price_minor;
  emitted = w.emitted ++ availability_events id existing.is_available changes.is_available;
}
