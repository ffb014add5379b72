-- ===== src/Paging/Order.antt =====
-- The order of the pages: a descending list, and what a cursor leaves of it.
use smart_table.Prelude.{
  ◌≡◌, refl, Bool, true, false, List, [], ◌∷◌, ◌++◌, arith, ◌==◌, select, insert_by, order_by, All,
  All-map, Bool-cases, inl, inr, sym,
}
use smart_table.Paging.{CursorPosition, is_older, newest_first}

is_older_trans :
    (a b c : CursorPosition) → is_older a b ≡ true → is_older b c ≡ true → is_older a c ≡ true
is_older_trans a b c h k = ground arith

is_older_asym : (a b : CursorPosition) → is_older a b ≡ true → is_older b a ≡ false
is_older_asym a b h = ground arith

is_older_irrefl : (a : CursorPosition) → is_older a a ≡ false
is_older_irrefl a = ground arith

module _ {R : Type 0} (position : R → CursorPosition) where
  abbrev pub newest : R → R → Bool
  newest a b = newest_first (position a) (position b)

  -- the rows have ids of their own
  abbrev pub IsApart : R → R → Type 0
  IsApart r s = ((position r).id == (position s).id) ≡ false

  abbrev pub AreApart : List R → Type 0
  AreApart [] = Unit
  AreApart (r ∷ rows) = All (IsApart r) rows × AreApart rows

  abbrev pub IsOlder : R → R → Type 0
  IsOlder r s = is_older (position r) (position s) ≡ true

  -- each row is older than those before it
  abbrev pub IsDescending : List R → Type 0
  IsDescending [] = Unit
  IsDescending (r ∷ rows) = All (IsOlder r) rows × IsDescending rows

  insert-All :
      (P : R → Type 0) (r : R) (rows : List R) → P r → All P rows → All P (insert_by newest r rows)
  unfolding insert_by
  insert-All P r [] p all = (p, tt)
  insert-All P r (s ∷ rows) p all = elim (Bool-cases (newest r s)) [
    | inl e ↦ rw e (p, all)
    | inr e ↦ rw e (all.0, insert-All P r rows p all.1)
  ]

  order-All : (P : R → Type 0) (rows : List R) → All P rows → All P (order_by newest rows)
  unfolding order_by
  order-All P [] all = tt
  order-All P (r ∷ rows) all = insert-All P r (order_by newest rows) all.0 (order-All P rows all.1)

  insert-IsDescending :
      (r : R) (rows : List R)
      → All (IsApart r) rows
      → IsDescending rows
      → IsDescending (insert_by newest r rows)
  unfolding insert_by
  insert-IsDescending r [] apart d = (tt, tt)
  insert-IsDescending r (s ∷ rows) apart d = elim (Bool-cases (newest r s)) [
    | inl e ↦
        let older : IsOlder r s = ground (arith, apart.0) in
        rw e (
          (
            older,
            All-map _ _ rows (λ t h. is_older_trans (position r) (position s) (position t) older h)
                d.0,
          ),
          d,
        )
    | inr e ↦
        let older : IsOlder s r = ground (arith, apart.0) in
        rw e (insert-All _ r rows older d.0, insert-IsDescending r rows apart.1 d.1)
  ]

  pub order-IsDescending : (rows : List R) → AreApart rows → IsDescending (order_by newest rows)
  unfolding order_by
  order-IsDescending [] apart = tt
  order-IsDescending (r ∷ rows) apart =
      insert-IsDescending r (order_by newest rows) (order-All _ rows apart.0)
        (order-IsDescending rows apart.1)

  insert-front :
      (r : R) (rows : List R)
      → All (λ s. newest r s ≡ true) rows
      → insert_by newest r rows ≡ r ∷ rows
  unfolding insert_by
  insert-front r [] all = refl
  insert-front r (s ∷ rows) all = rw all.0 refl

  select-All : (P : R → Type 0) (p : R → Bool) (rows : List R) → All P rows → All P (select p rows)
  unfolding select
  select-All P p [] all = tt
  select-All P p (r ∷ rows) all = elim (Bool-cases (p r)) [
    | inl e ↦ rw e (all.0, select-All P p rows all.1)
    | inr e ↦ rw e (select-All P p rows all.1)
  ]

  pub select-AreApart : (p : R → Bool) (rows : List R) → AreApart rows → AreApart (select p rows)
  unfolding select
  select-AreApart p [] apart = tt
  select-AreApart p (r ∷ rows) apart = elim (Bool-cases (p r)) [
    | inl e ↦ rw e (select-All _ p rows apart.0, select-AreApart p rows apart.1)
    | inr e ↦ rw e (select-AreApart p rows apart.1)
  ]

  select-insert_out :
      (p : R → Bool) (r : R) (rows : List R)
      → p r ≡ false
      → select p (insert_by newest r rows) ≡ select p rows
  unfolding select insert_by
  select-insert_out p r [] out = rw out refl
  select-insert_out p r (s ∷ rows) out = ground (arith, select-insert_out p r rows out)

  select-insert_in :
      (p : R → Bool) (r : R) (rows : List R)
      → p r ≡ true
      → IsDescending rows
      → select p (insert_by newest r rows) ≡ insert_by newest r (select p rows)
  unfolding select insert_by
  select-insert_in p r [] within d = rw within refl
  select-insert_in p r (s ∷ rows) within d = elim (Bool-cases (newest r s)) [
    | inr e ↦ ground (arith, select-insert_in p r rows within d.1)
    | inl e ↦ elim (Bool-cases (p s)) [
      | inl k ↦ rw (e, within, k, insert_by, e) refl
      | inr k ↦
          let front =
            insert-front r (select p rows)
              (select-All _ p rows (All-map _ _ rows (λ t h. ground (arith, h, e)) d.0)) in
          ground (arith, front)
    ]
  ]

  -- Sorting commutes with a condition.
  pub order-select :
      (p : R → Bool) (rows : List R)
      → AreApart rows
      → order_by newest (select p rows) ≡ select p (order_by newest rows)
  unfolding select order_by
  order-select p [] apart = refl
  order-select p (r ∷ rows) apart = elim (Bool-cases (p r)) [
    | inl e ↦
        rw (e, order_by, order-select p rows apart.1)
          (sym (select-insert_in p r (order_by newest rows) e (order-IsDescending rows apart.1)))
    | inr e ↦
        rw (e, order-select p rows apart.1) (sym (select-insert_out p r (order_by newest rows) e))
  ]

  select_passing :
      (p : R → Bool) (rows : List R) → All (λ r. p r ≡ true) rows → select p rows ≡ rows
  unfolding select
  select_passing p [] all = refl
  select_passing p (r ∷ rows) all = rw (all.0, select_passing p rows all.1) refl

  All-middle : (P : R → Type 0) (xs : List R) (x : R) (ys : List R) → All P (xs ++ x ∷ ys) → P x
  All-middle P [] x ys all = all.0
  All-middle P (z ∷ xs) x ys all = All-middle P xs x ys all.1

  -- Of a descending list, the rows after the cursor of one of them are those that follow it.
  pub select-after :
      (xs : List R) (x : R) (ys : List R)
      → IsDescending (xs ++ x ∷ ys)
      → select (λ r. is_older (position x) (position r)) (xs ++ x ∷ ys) ≡ ys
  unfolding select
  select-after [] x ys d =
      rw
        (
          is_older_irrefl (position x),
          select_passing (λ r. is_older (position x) (position r)) ys d.0,
        )
        refl
  select-after (z ∷ xs) x ys d =
      let older = All-middle (IsOlder z) xs x ys d.0 in
      rw (is_older_asym (position z) (position x) older) (select-after xs x ys d.1)
