-- ===== src/Visits/Floor.antt =====
-- The other writes to the floor: new tables, changes of tables, and the cleaning.
use mathlib.Core.Path.{subst}
use native.Mathlib.Decide.{ℕ_discrete}
use smart_table.Prelude.{
  ℕ, zero, suc, ◌≡◌, ◌⊎◌, refl, ◌∙◌, Bool, String, Option, none, some, List, [], ◌∷◌, ◌++◌, arith,
  first, update, Bool-cases, Option-cases, inl, inr,
}
use smart_table.Domain.{TableStatus, available, occupied, needs_cleaning, table_status_eq}
use smart_table.Database.{TableRow, Db, Env, insert_unique}
use smart_table.Effects.{World, ◌>>=◌}
use smart_table.Effects.Keeps.{Keeps, TxKeeps}
use smart_table.Orders.Repository.{find_table_by_id, TransitionInput, transition_status_transaction}
use smart_table.Tables.{
  Write, written, qr_collision, refused, TableChanges, no_changes, has_id, change_table,
  insert_table, update_table_row, with_retries, update_tx, mark_cleaned, new_table, create_table_tx,
  regenerate_tx,
}
use smart_table.Visits.Rows.{status_of, IsSeated, VisitsAgree, status_of-update_ne}

-- The floor is made of two tables; a write that leaves them alone leaves the floor alone.
pub VisitsAgree-same :
    (db db' : Db)
    → db'.tables ≡ db.tables
    → db'.table_bill_groups ≡ db.table_bill_groups
    → VisitsAgree db
    → VisitsAgree db'
VisitsAgree-same db db' e f v t = rw (e, f) (v t)

pub transition-VisitsAgree :
    (env : Env) (input : TransitionInput)
    → TxKeeps VisitsAgree (transition_status_transaction env input)
unfolding transition_status_transaction
transition-VisitsAgree env input = record {
  commits = λ db {a} {db'} h v. VisitsAgree-same db db' (ground arith) (ground arith) v;
}

-- An update that keeps ids and statuses keeps the status of every table.
pub status_of-update :
    (t : ℕ) (p : TableRow → Bool) (f : TableRow → TableRow) (tables : List TableRow)
    → ((r : TableRow) → ((f r).id ≡ r.id) × ((f r).status ≡ r.status))
    → status_of t (update p f tables) ≡ status_of t tables
unfolding first update
status_of-update t p f [] keep = refl
status_of-update t p f (r ∷ rows) keep =
    ground (arith, (keep r).0, (keep r).1, status_of-update t p f rows keep)

status_of-append :
    (t : ℕ) (tables : List TableRow) (row : TableRow) (s : TableStatus)
    → status_of t tables ≡ some s
    → status_of t (tables ++ row ∷ []) ≡ some s
unfolding first
status_of-append t [] row s h = cc
status_of-append t (r ∷ rows) row s h = ground (arith, status_of-append t rows row s)

-- A new table is added behind the others.
insert_table-VisitsAgree :
    (row : TableRow) (db db' : Db) {a : TableRow}
    → insert_table row db ≡ written (a, db')
    → VisitsAgree db
    → VisitsAgree db'
unfolding insert_table insert_unique
insert_table-VisitsAgree row db db' h v t =
    let eg : db'.table_bill_groups ≡ db.table_bill_groups = ground arith in
    let et : db'.tables ≡ db.tables ++ row ∷ [] = ground arith in
    rw (eg, et)
      ((v t).0, λ some_open. status_of-append t db.tables row occupied ((v t).1 some_open))

-- A change that does not name a status keeps the floor.
update_row-VisitsAgree :
    (env : Env) (id : ℕ) (changes : TableChanges) (db db' : Db) {a : Option TableRow}
    → changes.status ≡ none
    → update_table_row env id changes db ≡ written (a, db')
    → VisitsAgree db
    → VisitsAgree db'
unfolding update_table_row
update_row-VisitsAgree env id changes db db' calm h v t =
    elim (Option-cases (find_table_by_id id db)) [
      | inl e ↦ let same : db ≡ db' = ground arith in subst VisitsAgree same v t
      | inr (row, e) ↦
          let eg : db'.table_bill_groups ≡ db.table_bill_groups = ground arith in
          let et : db'.tables ≡ update (has_id id) (change_table env changes) db.tables =
            ground arith in
          let kept =
            status_of-update t (has_id id) (change_table env changes) db.tables
              (λ r. unfold change_table in (refl, rw calm)) in
          rw (eg, et) ((v t).0, λ some_open. kept ∙ (v t).1 some_open)
    ]

-- Retrying keeps what every attempt keeps.
pub TxKeeps-with_retries :
    {P : Db → Type 0} {A : Type 0} (n k : ℕ) (attempt : ℕ → Db → Write (A × Db))
    → ((j : ℕ) (db : Db) (a : A) (db' : Db) → attempt j db ≡ written (a, db') → P db → P db')
    → TxKeeps P (with_retries n k attempt)
TxKeeps-with_retries {P} {A} n k attempt keep = record {
  commits = λ db {a} {db'} h v. go n k db a db' h v;
}
  where
    step :
        (m j : ℕ) (o : Write (A × Db)) (db : Db) (a : A) (db' : Db)
        → attempt j db ≡ o
        → ((a : A) (db' : Db) → with_retries m (suc j) attempt db ≡ some (a, db') → P db → P db')
        → with_retries (suc m) j attempt db ≡ some (a, db')
        → P db
        → P db'
    step m j (written (b, db'')) db a db' e next h v =
        let same : db'' ≡ db' = unfold with_retries in ground arith in
        subst P same (keep j db b db'' e v)
    step m j qr_collision db a db' e next h v = next a db' (unfold with_retries in ground arith) v
    step m j refused db a db' e next h v = absurd (unfold with_retries in ground arith)

    go :
        (m j : ℕ) (db : Db) (a : A) (db' : Db)
        → with_retries m j attempt db ≡ some (a, db')
        → P db
        → P db'
    go zero j db a db' h v = absurd (unfold with_retries in ground arith)
    go (suc m) j db a db' h v = step m j (attempt j db) db a db' refl (go m (suc j) db) h v

pub create_table-VisitsAgree :
    (env : Env) (hall_id : ℕ) (label : String)
    → TxKeeps VisitsAgree (create_table_tx env hall_id label)
unfolding create_table_tx
create_table-VisitsAgree env hall_id label =
    TxKeeps-with_retries 3 0 _
      (λ j db a db' h v. insert_table-VisitsAgree (new_table env hall_id label j) db db' h v)

pub regenerate-VisitsAgree : (env : Env) (id : ℕ) → TxKeeps VisitsAgree (regenerate_tx env id)
unfolding regenerate_tx
regenerate-VisitsAgree env id = TxKeeps-with_retries 3 0 _ (λ j db a db' h v.
    update_row-VisitsAgree env id (record no_changes { qr_token = some (env.random_token j) }) db
      db' refl h v)

pub update_tx-VisitsAgree :
    (env : Env) (id : ℕ) (changes : TableChanges)
    → changes.status ≡ none
    → TxKeeps VisitsAgree (update_tx env id changes)
unfolding update_tx
update_tx-VisitsAgree env id changes calm = record {
  commits = λ db {a} {db'} h v.
      update_row-VisitsAgree env id changes db db' {a = a} calm (ground arith) v;
}

-- Cleaning: the table of a visit is occupied, so a table that waits for cleaning has no visit.
cleaned-IsSeated :
    (env : Env) (id : ℕ) (row : TableRow) (db db' : Db) (t : ℕ)
    → find_table_by_id id db ≡ some row
    → row.status ≡ needs_cleaning
    → db'.table_bill_groups ≡ db.table_bill_groups
    → db'.tables
      ≡ update
          (has_id id)
          (change_table env (record no_changes { status = some available }))
          db.tables
    → IsSeated id db
    → IsSeated t db
    → IsSeated t db'
unfolding find_table_by_id
cleaned-IsSeated env id row db db' t f n eg et vi v = elim (ℕ_discrete t id) [
  | yes p ↦ rw (eg, p) (vi.0, λ some_open. absurd (let o = vi.1 some_open in ground arith))
  | no p ↦
      rw (eg, et)
        (
          v.0,
          λ some_open.
              status_of-update_ne t id (has_id id)
                (change_table env (record no_changes { status = some available })) db.tables p
                (λ r. unfold change_table in refl) (λ r e. ground arith)
              ∙ v.1 some_open,
        )
]

-- Either nothing is written, or a table that waits for cleaning becomes available.
mark_cleaned_cases :
    (env : Env) (id : ℕ) (w : World)
    → ((mark_cleaned env id w).1.db ≡ w.db)
      ⊎ ((row : TableRow) × (find_table_by_id id w.db ≡ some row)
          × (row.status ≡ needs_cleaning)
          × ((mark_cleaned env id w).1.db.table_bill_groups ≡ w.db.table_bill_groups)
          × ((mark_cleaned env id w).1.db.tables
              ≡ update
                  (has_id id)
                  (change_table env (record no_changes { status = some available }))
                  w.db.tables))
unfolding mark_cleaned update_tx update_table_row ◌>>=◌
mark_cleaned_cases env id w = elim (Option-cases (find_table_by_id id w.db)) [
  | inl e ↦ inl (ground arith)
  | inr (row, e) ↦ elim (Bool-cases (table_status_eq row.status needs_cleaning)) [
    | inl n ↦ inr (row, e, ground arith, ground arith, ground arith)
    | inr n ↦ inl (ground arith)
  ]
]

-- Run in one piece, `mark_cleaned` keeps the floor consistent.
pub mark_cleaned-VisitsAgree : (env : Env) (id : ℕ) → Keeps VisitsAgree (mark_cleaned env id)
mark_cleaned-VisitsAgree env id = record {
  at = λ w v t. elim (mark_cleaned_cases env id w) [
    | inl same ↦ rw same (v t)
    | inr (row, f, n, eg, et) ↦
        cleaned-IsSeated env id row w.db (mark_cleaned env id w).1.db t f n eg et (v id) (v t)
  ];
}
