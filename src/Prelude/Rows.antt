-- ===== src/Prelude/Rows.antt =====
-- The statements that the repositories make of a table: a table is the list of its rows.
use smart_table.Prelude.Tests.{if◌then◌else◌, Bool-cases}
use smart_table.Prelude.Lists.{sum_of}
use Prim.Native.Nat.{ℕ, suc, ◌+◌, ◌≤◌, ◌<◌}
use mathlib.Core.Path.{◌≡◌, refl}
use mathlib.Core.Logic.{inl, inr}
use mathlib.Core.Bool.{Bool, true, false, ◌&&◌}
use mathlib.Core.Option.{Option, none, some}
use mathlib.Core.List.{List, [], ◌∷◌, ◌++◌}
use native.Mathlib.Omega.{arith}

module _ {ℓ} {R : Type ℓ} where
  -- select … where p
  unfoldable pub select : (R → Bool) → List R → List R
  select p [] = []
  select p (r ∷ rs) = if p r then r ∷ select p rs else select p rs

  -- the first row of select … where p
  unfoldable pub first : (R → Bool) → List R → Option R
  first p [] = none
  first p (r ∷ rs) = if p r then some r else first p rs

  -- update … set f where p
  unfoldable pub update : (R → Bool) → (R → R) → List R → List R
  update p f [] = []
  update p f (r ∷ rs) = if p r then f r ∷ update p f rs else r ∷ update p f rs

  -- select count(*) … where p
  unfoldable pub count : (R → Bool) → List R → ℕ
  count p [] = 0
  count p (r ∷ rs) = if p r then suc (count p rs) else count p rs

  -- insert … on conflict do update: the key that `p` tests is unique, so one row at most fits.
  unfoldable pub upsert : (R → Bool) → (R → R) → R → List R → List R
  upsert p f new [] = new ∷ []
  upsert p f new (r ∷ rs) = if p r then f r ∷ rs else r ∷ upsert p f new rs

  -- order by: a stable sort under a test for "at most"
  unfoldable pub insert_by : (R → R → Bool) → R → List R → List R
  insert_by le r [] = r ∷ []
  insert_by le r (s ∷ rs) = if le r s then r ∷ s ∷ rs else s ∷ insert_by le r rs

  unfoldable pub order_by : (R → R → Bool) → List R → List R
  unfolding insert_by
  order_by le [] = []
  order_by le (r ∷ rs) = insert_by le r (order_by le rs)

  pub count-append :
      (p : R → Bool) (rs : List R) (r : R)
      → count p (rs ++ r ∷ []) ≡ (if p r then suc (count p rs) else count p rs)
  unfolding count
  count-append p [] r = refl
  count-append p (x ∷ rs) r = ground (arith, count-append p rs r)

  -- A row that an update leaves out of `q`, or that was in `q` before, keeps the count from growing.
  pub count-update-le :
      (q p : R → Bool) (f : R → R) (rs : List R)
      → ((r : R) → q (f r) ≡ true → q r ≡ true)
      → count q (update p f rs) ≤ count q rs
  unfolding count update
  count-update-le q p f [] h = omega arith
  count-update-le q p f (r ∷ rs) h = ground (arith, h r, count-update-le q p f rs h)

  pub first-eq_none-count : (p : R → Bool) (rs : List R) → first p rs ≡ none → count p rs ≡ 0
  unfolding first count
  first-eq_none-count p [] h = refl
  first-eq_none-count p (r ∷ rs) h = ground (arith, first-eq_none-count p rs)

  pub first-holds : (p : R → Bool) (rs : List R) (r : R) → first p rs ≡ some r → p r ≡ true
  unfolding first
  first-holds p [] r h = cc
  first-holds p (x ∷ rs) r h = ground (arith, first-holds p rs r)

  pub first-append :
      (p : R → Bool) (rs : List R) (r s : R) → first p rs ≡ some s → first p (rs ++ r ∷ []) ≡ some s
  unfolding first
  first-append p [] r s h = cc
  first-append p (x ∷ rs) r s h = ground (arith, first-append p rs r s)

  -- An upsert whose new row and whose change both add `x` to a measure adds `x` to its sum.
  pub sum_of-upsert :
      (g : R → ℕ) (p : R → Bool) (f : R → R) (new : R) (x : ℕ) (rs : List R)
      → g new ≡ x
      → ((r : R) → g (f r) ≡ g r + x)
      → sum_of g (upsert p f new rs) ≡ sum_of g rs + x
  unfolding upsert
  sum_of-upsert g p f new x [] hn hf = omega arith
  sum_of-upsert g p f new x (r ∷ rs) hn hf =
      ground (arith, hf r, sum_of-upsert g p f new x rs hn hf)

  -- The same where the change adds `x` to the rows that fit.
  pub sum_of-upsert_at :
      (g : R → ℕ) (p : R → Bool) (f : R → R) (new : R) (x : ℕ) (rs : List R)
      → g new ≡ x
      → ((r : R) → p r ≡ true → g (f r) ≡ g r + x)
      → sum_of g (upsert p f new rs) ≡ sum_of g rs + x
  unfolding upsert
  sum_of-upsert_at g p f new x [] hn hf = omega arith
  sum_of-upsert_at g p f new x (r ∷ rs) hn hf =
      ground (arith, hf r, sum_of-upsert_at g p f new x rs hn hf)

  -- One that adds nothing keeps the sum.
  pub sum_of-upsert_keep :
      (g : R → ℕ) (p : R → Bool) (f : R → R) (new : R) (rs : List R)
      → g new ≡ 0
      → ((r : R) → g (f r) ≡ g r)
      → sum_of g (upsert p f new rs) ≡ sum_of g rs
  unfolding upsert
  sum_of-upsert_keep g p f new [] hn hf = omega arith
  sum_of-upsert_keep g p f new (r ∷ rs) hn hf =
      ground (arith, hf r, sum_of-upsert_keep g p f new rs hn hf)

  pub sum_of-update :
      (g : R → ℕ) (p : R → Bool) (f : R → R) (rs : List R)
      → ((r : R) → g (f r) ≡ g r)
      → sum_of g (update p f rs) ≡ sum_of g rs
  unfolding update
  sum_of-update g p f [] hf = refl
  sum_of-update g p f (r ∷ rs) hf = ground (arith, hf r, sum_of-update g p f rs hf)

  pub count-select :
      (p q : R → Bool) (rs : List R) → count p (select q rs) ≡ count (λ r. q r && p r) rs
  unfolding count select
  count-select p q [] = refl
  count-select p q (r ∷ rs) = ground (arith, count-select p q rs)

  pub count_mono :
      (p q : R → Bool) (rs : List R) → ((r : R) → p r ≡ true → q r ≡ true) → count p rs ≤ count q rs
  unfolding count
  count_mono p q [] h = omega arith
  count_mono p q (r ∷ rs) h = ground (arith, h r, count_mono p q rs h)

  count-insert_by :
      (p : R → Bool) (le : R → R → Bool) (r : R) (rs : List R)
      → count p (insert_by le r rs) ≡ count p (r ∷ rs)
  unfolding count insert_by
  count-insert_by p le r [] = refl
  count-insert_by p le r (s ∷ rs) = ground (arith, count-insert_by p le r rs)

  pub count-order_by :
      (p : R → Bool) (le : R → R → Bool) (rs : List R) → count p (order_by le rs) ≡ count p rs
  unfolding count order_by
  count-order_by p le [] = refl
  count-order_by p le (r ∷ rs) =
      ground (arith, count-insert_by p le r (order_by le rs), count-order_by p le rs)

  pub first-count : (p : R → Bool) (rs : List R) → 0 < count p rs → (r : R) × (first p rs ≡ some r)
  unfolding count first
  first-count p [] h = absurd (omega arith)
  first-count p (r ∷ rs) h = elim (Bool-cases (p r)) [
    | inl e ↦ (r, rw e refl)
    | inr e ↦ let (s, f) = first-count p rs (ground arith) in (s, ground arith)
  ]

  -- An update of rows in `p` that moves them to `q`.
  pub count-update-moves :
      (p q : R → Bool) (f : R → R) (rs : List R)
      → ((r : R) → p r ≡ true → q (f r) ≡ true)
      → count p rs ≤ count q (update p f rs)
  unfolding count update
  count-update-moves p q f [] h = omega arith
  count-update-moves p q f (r ∷ rs) h = ground (arith, h r, count-update-moves p q f rs h)

  -- One that touches no row in `q`.
  pub count-update-apart :
      (p q : R → Bool) (f : R → R) (rs : List R)
      → ((r : R) → p r ≡ true → q r ≡ true → ⊥)
      → count q rs ≤ count q (update p f rs)
  unfolding count update
  count-update-apart p q f [] h = omega arith
  count-update-apart p q f (r ∷ rs) h = ground (arith, h r, count-update-apart p q f rs h)

  pub first-append-none :
      (p : R → Bool) (rs : List R) (r : R)
      → first p rs ≡ none
      → p r ≡ false
      → first p (rs ++ r ∷ []) ≡ none
  unfolding first
  first-append-none p [] r h e = ground arith
  first-append-none p (x ∷ rs) r h e = ground (arith, first-append-none p rs r)

  pub first-update-none :
      (p q : R → Bool) (f : R → R) (rs : List R)
      → first q rs ≡ none
      → ((r : R) → q (f r) ≡ q r)
      → first q (update p f rs) ≡ none
  unfolding first update
  first-update-none p q f [] h e = refl
  first-update-none p q f (r ∷ rs) h e = ground (arith, e r, first-update-none p q f rs)

  -- An update counts no new row where the changed rows are not counted and the others are not new.
  pub count-update-into :
      (q q' p : R → Bool) (f : R → R) (rs : List R)
      → ((r : R) → p r ≡ true → q' (f r) ≡ false)
      → ((r : R) → p r ≡ false → q' r ≡ true → q r ≡ true)
      → count q' (update p f rs) ≤ count q rs
  unfolding count update
  count-update-into q q' p f [] h k = omega arith
  count-update-into q q' p f (r ∷ rs) h k =
      ground (arith, h r, k r, count-update-into q q' p f rs h k)

  -- The first row of a condition that an update keeps is still the first, changed or not.
  pub first-update_keep :
      (q p : R → Bool) (f : R → R) (rs : List R) (r : R)
      → ((s : R) → q (f s) ≡ q s)
      → first q rs ≡ some r
      → first q (update p f rs) ≡ some (if p r then f r else r)
  unfolding first update
  first-update_keep q p f [] r k h = cc
  first-update_keep q p f (s ∷ rs) r k h = ground (arith, k s, first-update_keep q p f rs r k)
