-- ===== src/Tables/Tokens.antt =====
-- The QR tokens: no two tables share one, and a collision is tried again with another token.
use smart_table.Prelude.{
  ℕ, zero, suc, ◌+◌, ◌≤◌, ◌<◌, ◌≡◌, ◌≢◌, refl, String, none, some, [], ◌∷◌, ◌++◌, ◌==◌, arith,
  first, Option-cases, inl, inr,
}
use smart_table.Domain.{available}
use smart_table.Database.{TableRow, Db, Env, insert_unique}
use smart_table.Orders.Repository.{find_table_by_id}
use smart_table.Tables.{
  Write, written, qr_collision, refused, new_table, insert_table, no_changes, change_table,
  holds_token, update_table_row, with_retries, create_table_tx, regenerate_tx,
}

-- An attempt that was made.
with_retries-written :
    {A : Type 0} (n k : ℕ) (attempt : ℕ → Db → Write (A × Db)) (db : Db) (a : A) (db' : Db)
    → with_retries n k attempt db ≡ some (a, db')
    → (j : ℕ) × (k ≤ j) × (j < k + n) × (attempt j db ≡ written (a, db'))
with_retries-written {A} zero k attempt db a db' h = absurd (unfold with_retries in ground arith)
with_retries-written {A} (suc n) k attempt db a db' h =
    go (attempt k db) refl (with_retries-written n (suc k) attempt db a db')
  where
    go :
        (o : Write (A × Db))
        → attempt k db ≡ o
        → (with_retries n (suc k) attempt db ≡ some (a, db')
            → (j : ℕ) × (suc k ≤ j) × (j < suc k + n) × (attempt j db ≡ written (a, db')))
        → (j : ℕ) × (k ≤ j) × (j < k + suc n) × (attempt j db ≡ written (a, db'))
    go (written (b, db'')) e next =
        (k, omega arith, omega arith, unfold with_retries in ground arith)
    go refused e next = absurd (unfold with_retries in ground arith)
    go qr_collision e next =
        let (j, lo, hi, f) = next (unfold with_retries in ground arith) in
        (j, omega arith, omega arith, f)

-- If no attempt is refused, one attempt that would be written is enough.
with_retries-succeeds :
    {A : Type 0} (n k j : ℕ) (attempt : ℕ → Db → Write (A × Db)) (db : Db) (x : A × Db)
    → ((i : ℕ) → attempt i db ≢ refused)
    → k ≤ j
    → j < k + n
    → attempt j db ≡ written x
    → (y : A × Db) × (with_retries n k attempt db ≡ some y)
with_retries-succeeds {A} zero k j attempt db x calm lo hi e = absurd (omega arith)
with_retries-succeeds {A} (suc n) k j attempt db x calm lo hi e =
    go (attempt k db) refl
      (λ next. with_retries-succeeds n (suc k) j attempt db x calm next (omega arith) e)
  where
    go :
        (o : Write (A × Db))
        → attempt k db ≡ o
        → (suc k ≤ j → (y : A × Db) × (with_retries n (suc k) attempt db ≡ some y))
        → (y : A × Db) × (with_retries (suc n) k attempt db ≡ some y)
    go (written y) f next = (y, unfold with_retries in ground arith)
    go refused f next = absurd (calm k f)
    go qr_collision f next =
        let later : k ≢ j =
          λ (same : k ≡ j). let g : attempt j db ≡ qr_collision = rw (← same) f in cc in
        let (y, g) = next (omega (arith, lo, later)) in (y, unfold with_retries in ground arith)

-- No table holds the token.
abbrev pub IsFreeToken : ℕ → Db → Type 0
IsFreeToken token db = first (λ (t : TableRow). t.qr_token == token) db.tables ≡ none

-- A table that is created is available, behind the other tables, and has one of the first three
-- random tokens, one that no other table holds.
pub create_table-token :
    (env : Env) (hall_id : ℕ) (label : String) (db db' : Db) (row : TableRow)
    → create_table_tx env hall_id label db ≡ some (row, db')
    → (db'.tables ≡ db.tables ++ row ∷ [])
      × (row.status ≡ available)
      × IsFreeToken row.qr_token db
      × ((j : ℕ) × (j < 3) × (row.qr_token ≡ env.random_token j))
unfolding create_table_tx
create_table-token env hall_id label db db' row h =
    let (j, lo, hi, e) =
      with_retries-written 3 0 (λ k. insert_table (new_table env hall_id label k)) db row db' h in
    unfold insert_table insert_unique in
    (ground arith, ground arith, ground arith, (j, hi, ground arith))

-- A table is created whenever its id is new and one of the first three random tokens is free: at
-- most two collisions are survived.
pub create_table-succeeds :
    (env : Env) (hall_id : ℕ) (label : String) (db : Db) (j : ℕ)
    → find_table_by_id (env.uuid 0) db ≡ none
    → j < 3
    → IsFreeToken (env.random_token j) db
    → (y : TableRow × Db) × (create_table_tx env hall_id label db ≡ some y)
unfolding create_table_tx find_table_by_id
create_table-succeeds env hall_id label db j new hi free =
    with_retries-succeeds 3 0 j (λ k. insert_table (new_table env hall_id label k)) db
      (
        new_table env hall_id label j,
        record db { tables = db.tables ++ new_table env hall_id label j ∷ [] },
      )
      (λ i. unfold insert_table insert_unique in ground arith) (omega arith) (omega arith)
      (unfold insert_table insert_unique in ground arith)

-- After a regeneration the table has one of the first three random tokens, one that no other table
-- holds; it keeps its id, its status and its place.
pub regenerate-token :
    (env : Env) (id : ℕ) (db db' : Db) (row : TableRow)
    → regenerate_tx env id db ≡ some (some row, db')
    → (old : TableRow) × (find_table_by_id id db ≡ some old)
      × (row.id ≡ old.id)
      × (row.status ≡ old.status)
      × (first (holds_token id row.qr_token) db.tables ≡ none)
      × ((j : ℕ) × (j < 3) × (row.qr_token ≡ env.random_token j))
unfolding regenerate_tx
regenerate-token env id db db' row h =
    let attempt = λ (k : ℕ).
      update_table_row env id (record no_changes { qr_token = some (env.random_token k) }) in
    let (j, lo, hi, e) = with_retries-written 3 0 attempt db (some row) db' h in
    elim (Option-cases (find_table_by_id id db)) [
      | inl f ↦ absurd (unfold update_table_row in ground arith)
      | inr (old, f) ↦
          unfold update_table_row change_table in
          (old, f, ground arith, ground arith, ground arith, (j, hi, ground arith))
    ]
