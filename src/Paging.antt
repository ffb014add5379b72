-- ===== src/Paging.antt =====
-- The keyset pagination that listOrders (apps/api/src/modules/orders/orders.service.ts), the audit
-- list (apps/api/src/modules/audit/audit.service.ts) and listForEmployee
-- (apps/api/src/modules/notifications/notifications.service.ts) share word for word, with the query
-- that their repositories put together: newest first, from a cursor on.
pub mod Order
pub mod Pieces
pub mod Walk
pub mod Views
use smart_table.Prelude.{
  ℕ, ◌+◌, min, max, Bool, true, ◌&&◌, ◌||◌, Option, none, some, List, [], ◌∷◌, map, ltb, leb, ◌==◌,
  if◌then◌else◌, select, order_by, length, take, or_else,
}
use smart_table.Domain.{validation_failed, Result, ok, err}

-- The place of a row in the order: its `created_at` and its `id`. The ids are UUID v7 texts, which
-- SQLite compares as texts; here they are numbers in that order.
pub record CursorPosition : Type 0 where
  pub created_at : ℕ
  pub id : ℕ

-- `or(lt(createdAt, c.createdAt), and(eq(createdAt, c.createdAt), lt(id, c.id)))`
abbrev pub is_older : CursorPosition → CursorPosition → Bool
is_older c p = ltb p.created_at c.created_at || (p.created_at == c.created_at && ltb p.id c.id)

abbrev pub after_cursor : Option CursorPosition → CursorPosition → Bool
after_cursor none p = true
after_cursor (some c) p = is_older c p

-- `order by created_at desc, id desc`
abbrev pub newest_first : CursorPosition → CursorPosition → Bool
newest_first a b = ltb b.created_at a.created_at || (a.created_at == b.created_at && leb b.id a.id)

-- The text of a cursor, which JSON and base64url make from a position and read again.
pub record Codec (Text : Type 0) : Type 0 where
  pub encode : CursorPosition → Text
  pub decode : Text → Option CursorPosition

pub record Page (R Text : Type 0) : Type 0 where
  pub data_rows : List R
  pub next_cursor : Option Text

abbrev pub default_page_limit : ℕ
default_page_limit = 50

abbrev pub max_page_limit : ℕ
max_page_limit = 100

unfoldable pub page_limit : Option ℕ → ℕ
page_limit limit = min (max (or_else limit default_page_limit) 1) max_page_limit

module _ {Text : Type 0} where
  unfoldable pub decode_cursor : Codec Text → Option Text → Result (Option CursorPosition)
  decode_cursor codec none = ok none
  decode_cursor codec (some text) = elim (codec.decode text) [
    | none ↦ err (validation_failed "Malformed pagination cursor.")
    | some c ↦ ok (some c)
  ]

-- pageRows[pageRows.length - 1]
abbrev pub last {ℓ} : {R : Type ℓ} → List R → Option R
last [] = none
last (x ∷ []) = some x
last (x ∷ y ∷ rest) = last (y ∷ rest)

module _ {R Text : Type 0} (position : R → CursorPosition) (codec : Codec Text) where
  -- select … where … and the cursor's condition, order by …, limit …
  unfoldable pub find_page : (R → Bool) → Option CursorPosition → ℕ → List R → List R
  find_page matches cursor limit rows = take limit (
      order_by (λ a b. newest_first (position a) (position b))
        (select (λ r. matches r && after_cursor cursor (position r)) rows))

  abbrev pub cursor_of : Option R → Option Text
  cursor_of none = none
  cursor_of (some r) = some (codec.encode (position r))

  -- One row more than the page has tells whether there is another page.
  abbrev pub page_of : ℕ → List R → Page R Text
  page_of limit rows =
      let page_rows = take limit rows in
      record {
        data_rows = page_rows;
        next_cursor = if ltb limit (length rows) then cursor_of (last page_rows) else none;
      }

  abbrev pub page_from :
      (R → Bool) → ℕ → List R → Result (Option CursorPosition) → Result (Page R Text)
  page_from matches limit rows (err e) = err e
  page_from matches limit rows (ok cursor) =
      ok (page_of limit (find_page matches cursor (limit + 1) rows))

  unfoldable pub list_page : (R → Bool) → Option ℕ → Option Text → List R → Result (Page R Text)
  list_page matches limit cursor rows =
      page_from matches (page_limit limit) rows (decode_cursor codec cursor)

-- A page of other rows, one for each.
abbrev pub map_page : {A B Text : Type 0} → (A → B) → Page A Text → Page B Text
map_page f page = record { data_rows = map f page.data_rows; next_cursor = page.next_cursor }

abbrev pub map_result : {A B Text : Type 0} → (A → B) → Result (Page A Text) → Result (Page B Text)
map_result f (err e) = err e
map_result f (ok page) = ok (map_page f page)
