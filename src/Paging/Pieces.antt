-- ===== src/Paging/Pieces.antt =====
-- Beginnings and ends of lists: what a page takes, and what it leaves.
use mathlib.Core.List.{append_assoc}
use smart_table.Prelude.{
  ℕ, zero, suc, ◌+◌, ◌≤◌, ◌<◌, ◌≡◌, refl, sym, ◌∙◌, ap, Bool, true, ◌&&◌, some, List, [], ◌∷◌, ◌++◌,
  arith, ltb, select, length, take, drop, take-append-drop,
}
use smart_table.Paging.{last}

module _ {R : Type 0} where
  pub length-take : (n : ℕ) (xs : List R) → length (take n xs) ≤ n
  length-take zero xs = omega arith
  length-take (suc n) [] = omega arith
  length-take (suc n) (x ∷ xs) = omega (arith, length-take n xs)

  pub take-take : (n m : ℕ) (xs : List R) → n ≤ m → take n (take m xs) ≡ take n xs
  take-take zero m xs h = refl
  take-take (suc n) zero xs h = absurd (omega arith)
  take-take (suc n) (suc m) [] h = refl
  take-take (suc n) (suc m) (x ∷ xs) h = ap (◌∷◌ x) (take-take n m xs (omega arith))

  pub ltb-length-take :
      (n m : ℕ) (xs : List R) → n < m → ltb n (length (take m xs)) ≡ ltb n (length xs)
  ltb-length-take n zero xs h = absurd (omega arith)
  ltb-length-take n (suc m) [] h = refl
  ltb-length-take zero (suc m) (x ∷ xs) h = ground arith
  ltb-length-take (suc n) (suc m) (x ∷ xs) h = ground (arith, ltb-length-take n m xs)

  pub length-drop : (n : ℕ) (xs : List R) → n < length xs → length (drop n xs) + n ≡ length xs
  length-drop zero xs h = omega arith
  length-drop (suc n) [] h = absurd (omega arith)
  length-drop (suc n) (x ∷ xs) h = omega (arith, length-drop n xs (omega arith))

  pub take_all : (n : ℕ) (xs : List R) → length xs ≤ n → take n xs ≡ xs
  take_all zero [] h = refl
  take_all zero (x ∷ xs) h = absurd (omega arith)
  take_all (suc n) [] h = refl
  take_all (suc n) (x ∷ xs) h = ap (◌∷◌ x) (take_all n xs (omega arith))

  -- The last of a list that has something.
  pub last-take :
      (n : ℕ) (xs : List R)
      → n < length xs
      → (front : List R) × (x : R) × (last (take (suc n) xs) ≡ some x)
        × (take (suc n) xs ≡ front ++ x ∷ [])
  last-take zero [] h = absurd (omega arith)
  last-take zero (x ∷ xs) h = ([], x, refl, refl)
  last-take (suc n) [] h = absurd (omega arith)
  last-take (suc n) (x ∷ []) h = absurd (omega arith)
  last-take (suc n) (x ∷ y ∷ xs) h =
      let (front, z, l, e) = last-take n (y ∷ xs) (omega arith) in (x ∷ front, z, l, ap (◌∷◌ x) e)

  pub select-and :
      (p q : R → Bool) (rows : List R) → select (λ r. p r && q r) rows ≡ select q (select p rows)
  unfolding select
  select-and p q [] = refl
  select-and p q (r ∷ rows) = ground (arith, select-and p q rows)

  pub select-true : (rows : List R) → select (λ r. true) rows ≡ rows
  unfolding select
  select-true [] = refl
  select-true (r ∷ rows) = rw (select-true rows) refl

-- A full page ends with a row, behind which the other rows come.
pub page-splits :
    {R : Type 0} (l : ℕ) (rest : List R)
    → 1 ≤ l
    → l < length rest
    → (front : List R) × (x : R) × (last (take l rest) ≡ some x)
      × (rest ≡ front ++ (x ∷ drop l rest))
page-splits zero rest h k = absurd (omega arith)
page-splits (suc n) rest h k =
    let (front, x, found, ends) = last-take n rest (omega arith) in
    (
      front,
      x,
      found,
      sym (take-append-drop (suc n) rest)
          ∙ ap (λ ys. ys ++ drop (suc n) rest) ends
          ∙ append_assoc front (x ∷ []) (drop (suc n) rest),
    )
