-- ===== src/Paging/Walk.antt =====
-- A client that follows the cursors from page to page.
use mathlib.Core.Path.{subst}
use mathlib.Core.List.{append_assoc}
use smart_table.Prelude.{
  ℕ, zero, suc, ◌+◌, ◌≤◌, ◌<◌, ◌≡◌, refl, sym, ◌∙◌, ap, Bool, true, false, Option, none, some, List,
  [], ◌∷◌, ◌++◌, arith, ltb, select, order_by, length, take, drop, take-append-drop, Bool-cases,
  inl, inr,
}
use smart_table.Domain.{Result, ok, err}
use smart_table.Paging.{
  CursorPosition, is_older, after_cursor, Codec, Page, page_limit, decode_cursor, last, find_page,
  page_of, list_page,
}
use smart_table.Paging.Pieces.{
  take-take, ltb-length-take, take_all, length-drop, select-and, select-true, page-splits,
}
use smart_table.Paging.Order.{
  newest, AreApart, IsDescending, order-IsDescending, select-AreApart, order-select, select-after,
}

abbrev pub then_rest : {R : Type 0} → List R → Option (List R) → Option (List R)
then_rest rows none = none
then_rest rows (some rest) = some (rows ++ rest)

-- What a client does with a page: it goes on if there is a cursor.
abbrev pub follow_next :
    {R Text : Type 0} → List R → Option Text → (Text → Option (List R)) → Option (List R)
follow_next rows none onward = some rows
follow_next rows (some text) onward = then_rest rows (onward text)

abbrev pub follow :
    {R Text : Type 0} → Result (Page R Text) → (Text → Option (List R)) → Option (List R)
follow (err e) onward = none
follow (ok page) onward = follow_next page.data_rows page.next_cursor onward

-- All rows that the pages show, from a cursor on; `none` if there is an error, or a page more than
-- the fuel allows.
unfoldable pub walk :
    {R Text : Type 0} → (Option Text → Result (Page R Text)) → ℕ → Option Text → Option (List R)
walk fetch zero cursor = none
walk fetch (suc fuel) cursor = follow (fetch cursor) (λ text. walk fetch fuel (some text))

-- A page has at least one row's room and at most a hundred's, whatever limit is asked for.
page_limit-bounds : (limit : Option ℕ) → (1 ≤ page_limit limit) × (page_limit limit ≤ 100)
unfolding page_limit
page_limit-bounds none = (omega arith, omega arith)
page_limit-bounds (some l) = (ground arith, ground arith)

module _ {R Text : Type 0} (fetch : Option Text → Result (Page R Text)) where
  walk_end :
      (fuel : ℕ) (cursor : Option Text) (rows : List R)
      → fetch cursor ≡ ok (record { data_rows = rows; next_cursor = none })
      → walk fetch (suc fuel) cursor ≡ some rows
  unfolding walk
  walk_end fuel cursor rows h = rw h refl

  walk_on :
      (fuel : ℕ) (cursor : Option Text) (text : Text) (rows rest : List R)
      → fetch cursor ≡ ok (record { data_rows = rows; next_cursor = some text })
      → walk fetch fuel (some text) ≡ some rest
      → walk fetch (suc fuel) cursor ≡ some (rows ++ rest)
  unfolding walk
  walk_on fuel cursor text rows rest h onward = rw (h, onward) refl

module _ {R Text : Type 0} (position : R → CursorPosition) (codec : Codec Text) where
  decode_cursor-encode :
      (p : CursorPosition)
      → codec.decode (codec.encode p) ≡ some p
      → decode_cursor codec (some (codec.encode p)) ≡ ok (some p)
  unfolding decode_cursor
  decode_cursor-encode p e = rw (e, decode_cursor) refl

  page_of-last :
      (l : ℕ) (rest : List R)
      → length rest ≤ l
      → page_of position codec l (take (l + 1) rest)
        ≡ record { data_rows = rest; next_cursor = none }
  page_of-last l rest h =
      let fits : ltb l (length rest) ≡ false = ground arith in
      rw
        (
          take-take l (l + 1) rest (omega arith),
          ltb-length-take l (l + 1) rest (omega arith),
          fits,
          take_all l rest h,
        )
        refl

  page_of-more :
      (l : ℕ) (rest : List R) (x : R)
      → l < length rest
      → last (take l rest) ≡ some x
      → page_of position codec l (take (l + 1) rest)
        ≡ record { data_rows = take l rest; next_cursor = some (codec.encode (position x)) }
  page_of-more l rest x h e =
      let more : ltb l (length rest) ≡ true = ground arith in
      rw
        (
          take-take l (l + 1) rest (omega arith),
          ltb-length-take l (l + 1) rest (omega arith),
          more,
          e,
        )
        refl

-- All the rows that match, newest first.
abbrev pub listing : {R : Type 0} → (R → CursorPosition) → (R → Bool) → List R → List R
listing position matches rows = order_by (newest position) (select matches rows)

module _ {R Text : Type 0} (position : R → CursorPosition) (codec : Codec Text) (matches : R → Bool)
    (limit : Option ℕ) (rows : List R)
    (roundtrip : (p : CursorPosition) → codec.decode (codec.encode p) ≡ some p)
    (apart : AreApart position rows) where
  abbrev all_rows : List R
  all_rows = listing position matches rows

  listing-IsDescending : IsDescending position all_rows
  listing-IsDescending =
      order-IsDescending position (select matches rows)
        (select-AreApart position matches rows apart)

  find_page-listing :
      (cursor : Option CursorPosition) (n : ℕ)
      → find_page position codec matches cursor n rows
        ≡ take n (select (λ r. after_cursor cursor (position r)) all_rows)
  unfolding find_page
  find_page-listing cursor n = ap (take n) (
      ap (order_by (newest position))
        (select-and matches (λ r. after_cursor cursor (position r)) rows)
      ∙ order-select position (λ r. after_cursor cursor (position r)) (select matches rows)
          (select-AreApart position matches rows apart))

  -- A page from a cursor after which `rest` follows.
  list_page-rest :
      (text : Option Text) (cursor : Option CursorPosition) (rest : List R)
      → decode_cursor codec text ≡ ok cursor
      → select (λ r. after_cursor cursor (position r)) all_rows ≡ rest
      → list_page position codec matches limit text rows
        ≡ ok (page_of position codec (page_limit limit) (take (page_limit limit + 1) rest))
  unfolding list_page
  list_page-rest text cursor rest d e =
      rw (d, find_page-listing cursor (page_limit limit + 1), e) refl

  -- the pages that a client asks for
  abbrev pub fetch_page : Option Text → Result (Page R Text)
  fetch_page text = list_page position codec matches limit text rows

  -- The step from a page whose last row is `x`.
  next_page :
      (fuel : ℕ) (text : Option Text) (cursor : Option CursorPosition) (before front rest : List R)
      (x : R)
      → decode_cursor codec text ≡ ok cursor
      → select (λ r. after_cursor cursor (position r)) all_rows ≡ rest
      → all_rows ≡ before ++ rest
      → page_limit limit < length rest
      → last (take (page_limit limit) rest) ≡ some x
      → rest ≡ front ++ (x ∷ drop (page_limit limit) rest)
      → (select (λ r. after_cursor (some (position x)) (position r)) all_rows
            ≡ drop (page_limit limit) rest
          → all_rows ≡ ((before ++ front) ++ x ∷ []) ++ drop (page_limit limit) rest
          → walk fetch_page fuel (some (codec.encode (position x)))
            ≡ some (drop (page_limit limit) rest))
      → walk fetch_page (suc fuel) text ≡ some rest
  next_page fuel text cursor before front rest x d e s longer found cut onward =
      let l = page_limit limit in
      let split : all_rows ≡ (before ++ front) ++ (x ∷ drop l rest) =
        s
        ∙ ap (λ (ys : List R). before ++ ys) cut
        ∙ sym (append_assoc before front (x ∷ drop l rest)) in
      let falls : IsDescending position ((before ++ front) ++ (x ∷ drop l rest)) =
        subst (λ (xs : List R). IsDescending position xs) split listing-IsDescending in
      let next : select (λ r. is_older (position x) (position r)) all_rows ≡ drop l rest =
        ap (select (λ r. is_older (position x) (position r))) split
        ∙ select-after position (before ++ front) x (drop l rest) falls in
      walk_on fetch_page fuel text (codec.encode (position x)) (take l rest) (drop l rest)
        (list_page-rest text cursor rest d e
          ∙ ap ok (page_of-more position codec l rest x longer found))
        (onward next (split ∙ sym (append_assoc (before ++ front) (x ∷ []) (drop l rest))))
      ∙ ap some (take-append-drop l rest)

  walk-rest :
      (fuel : ℕ) (text : Option Text) (cursor : Option CursorPosition) (before rest : List R)
      → decode_cursor codec text ≡ ok cursor
      → select (λ r. after_cursor cursor (position r)) all_rows ≡ rest
      → all_rows ≡ before ++ rest
      → length rest < fuel
      → walk fetch_page fuel text ≡ some rest
  walk-rest zero text cursor before rest d e s h = absurd (omega arith)
  walk-rest (suc fuel) text cursor before rest d e s h =
      elim (Bool-cases (ltb (page_limit limit) (length rest))) [
        | inr fits ↦ walk_end fetch_page fuel text rest (
            list_page-rest text cursor rest d e
            ∙ ap ok (page_of-last position codec (page_limit limit) rest (ground arith)))
        | inl more ↦
            let l = page_limit limit in
            let longer : l < length rest = ground arith in
            let (front, x, found, cut) = page-splits l rest (page_limit-bounds limit).0 longer in
            next_page fuel text cursor before front rest x d e s longer found cut (λ next split.
              walk-rest fuel (some (codec.encode (position x))) (some (position x))
                ((before ++ front) ++ x ∷ []) (drop l rest)
                (decode_cursor-encode position codec (position x) (roundtrip (position x))) next
                split (omega (arith, (page_limit-bounds limit).0, length-drop l rest longer)))
      ]

  -- A client that starts without a cursor and asks with the cursor of each page for the next one,
  -- with the same filter and any limit, comes to the end: it sees the rows that match, newest first,
  -- each once, in one page more than there are rows at most. This holds where the cursors can be read
  -- again and the rows have different ids.
  pub walk-listing :
      walk fetch_page (suc (length (listing position matches rows))) none
      ≡ some (listing position matches rows)
  unfolding decode_cursor
  walk-listing =
      walk-rest (suc (length all_rows)) none none [] all_rows refl (select-true all_rows) refl
        (omega arith)
