-- ===== src/Effects/Keeps.antt =====
-- Properties of the tables that actions keep, one rule for each way to build an action.
use smart_table.Prelude.{◌≡◌, refl, Bool, Option, none, some}
use smart_table.Domain.{DomainException, Result, ok, err}
use smart_table.Database.{Db, Tx, transaction}
use smart_table.Effects.{
  AuditEntry, DomainEvent, World, Action, continue, pure, throw, throw_if, query, required,
  run_transaction, append, emit, ◌>>=◌,
}

-- `m` keeps `P`, whether it returns or throws.
pub record Keeps {ℓ} {A : Type ℓ} (P : Db → Type 0) (m : Action A) : Type 0 where
  pub at : (w : World) → P w.db → P (m w).1.db

-- Every transaction of `body` that commits keeps `P`.
pub record TxKeeps {A : Type 0} (P : Db → Type 0) (body : Tx A) : Type 0 where
  pub commits : (db : Db) {a : A} {db' : Db} → body db ≡ some (a, db') → P db → P db'

module _ {P : Db → Type 0} where
  pub Keeps-pure {ℓ} : {A : Type ℓ} (a : A) → Keeps P (pure a)
  unfolding pure
  Keeps-pure a = record { at = λ w h. h }

  pub Keeps-throw {ℓ} : {A : Type ℓ} (e : DomainException) → Keeps P (throw {A = A} e)
  unfolding throw
  Keeps-throw e = record { at = λ w h. h }

  pub Keeps-throw_if : (b : Bool) (e : DomainException) → Keeps P (throw_if b e)
  unfolding throw_if
  Keeps-throw_if b e = record { at = λ w h. h }

  pub Keeps-query {ℓ} : {A : Type ℓ} (f : Db → A) → Keeps P (query f)
  unfolding query
  Keeps-query f = record { at = λ w h. h }

  pub Keeps-required {ℓ} :
      {A : Type ℓ} (o : Option A) (e : DomainException) → Keeps P (required o e)
  unfolding required
  Keeps-required o e = record { at = λ w h. h }

  pub Keeps-append : (entry : AuditEntry) → Keeps P (append entry)
  unfolding append
  Keeps-append entry = record { at = λ w h. h }

  pub Keeps-emit : (event : DomainEvent) → Keeps P (emit event)
  unfolding emit
  Keeps-emit event = record { at = λ w h. h }

  pub Keeps-run_transaction :
      {A : Type 0} (body : Tx A) → TxKeeps P body → Keeps P (run_transaction body)
  unfolding run_transaction
  Keeps-run_transaction {A} body k = record { at = λ w h. go w (body w.db) refl h }
    where
      go :
          (w : World) (o : Option (A × Db))
          → body w.db ≡ o
          → P w.db
          → P (run_transaction body w).1.db
      go w none e h = rw (e, transaction) h
      go w (some (a, db')) e h = rw (e, transaction) (k.commits w.db e h)

  pub Keeps-bind {ℓ κ} :
      {A : Type ℓ} {B : Type κ} (m : Action A) (f : A → Action B)
      → Keeps P m
      → ((a : A) → Keeps P (f a))
      → Keeps P (m >>= f)
  unfolding ◌>>=◌
  Keeps-bind {A = A} m f km kf = record { at = λ w h. let (r, w') = m w in go r w' (km.at w h) }
    where
      go : (r : Result A) (w' : World) → P w'.db → P (continue r f w').1.db
      go (ok a) w' h = (kf a).at w' h
      go (err e) w' h = h

pub ruleset keeps_rules = (
  Keeps-pure, Keeps-throw, Keeps-throw_if, Keeps-query, Keeps-required, Keeps-append, Keeps-emit,
  Keeps-run_transaction, Keeps-bind,
)

-- `m` leads from `P` to `Q`, whether it returns or throws.
pub record Leads {ℓ} {A : Type ℓ} (P Q : Db → Type 0) (m : Action A) : Type 0 where
  pub at : (w : World) → P w.db → Q (m w).1.db

module _ {P Q : Db → Type 0} where
  pub Leads-run_transaction :
      {A : Type 0} (body : Tx A)
      → ((db : Db) (a : A) (db' : Db) → body db ≡ some (a, db') → P db → Q db')
      → ((db : Db) → P db → Q db)
      → Leads P Q (run_transaction body)
  unfolding run_transaction
  Leads-run_transaction {A} body commits thrown = record { at = λ w h. go w (body w.db) refl h }
    where
      go :
          (w : World) (o : Option (A × Db))
          → body w.db ≡ o
          → P w.db
          → Q (run_transaction body w).1.db
      go w none e h = rw (e, transaction) (thrown w.db h)
      go w (some (a, db')) e h = rw (e, transaction) (commits w.db a db' e h)

  pub Leads-bind {ℓ κ} :
      {R : Db → Type 0} {A : Type ℓ} {B : Type κ} (m : Action A) (f : A → Action B)
      → Leads P Q m
      → ((a : A) → Leads Q R (f a))
      → ((db : Db) → Q db → R db)
      → Leads P R (m >>= f)
  unfolding ◌>>=◌
  Leads-bind {R = R} {A = A} m f first_step then_step weaker = record {
    at = λ w h. let (r, w') = m w in go r w' (first_step.at w h);
  }
    where
      go : (r : Result A) (w' : World) → Q w'.db → R (continue r f w').1.db
      go (ok a) w' h = (then_step a).at w' h
      go (err e) w' h = weaker w'.db h
