-- ===== src/Paging/Views.antt =====
-- Pages whose rows are shown as something else.
use mathlib.Core.Option
use smart_table.Prelude.{
  ℕ, zero, suc, ◌≡◌, refl, sym, ◌∙◌, ap, Option, none, some, List, [], ◌∷◌, ◌++◌, map, Option-cases,
  inl, inr,
}
use smart_table.Domain.{Result, ok, err}
use smart_table.Paging.{Page, map_result}
use smart_table.Paging.Walk.{walk, follow, follow_next}

map-append_views :
    {A B : Type 0} (f : A → B) (xs ys : List A) → map f (xs ++ ys) ≡ map f xs ++ map f ys
map-append_views f [] ys = refl
map-append_views f (x ∷ xs) ys = ap (◌∷◌ (f x)) (map-append_views f xs ys)

module _ {A B Text : Type 0} (f : A → B) where
  follow_next-views :
      (rows : List A) (next : Option Text) (onward : Text → Option (List A))
      (shown : Text → Option (List B))
      → ((t : Text) → shown t ≡ Option.map (map f) (onward t))
      → follow_next (map f rows) next shown ≡ Option.map (map f) (follow_next rows next onward)
  follow_next-views rows none onward shown same = refl
  follow_next-views rows (some t) onward shown same = elim (Option-cases (onward t)) [
    | inl e ↦ rw (same t, e) refl
    | inr (rest, e) ↦ rw (same t, e) (ap some (sym (map-append_views f rows rest)))
  ]

  follow-views :
      (r : Result (Page A Text)) (onward : Text → Option (List A)) (shown : Text → Option (List B))
      → ((t : Text) → shown t ≡ Option.map (map f) (onward t))
      → follow (map_result f r) shown ≡ Option.map (map f) (follow r onward)
  follow-views (err e) onward shown same = refl
  follow-views (ok page) onward shown same =
      follow_next-views page.data_rows page.next_cursor onward shown same

  -- Pages shown by `f` are walked as the pages are.
  walk-views :
      (fetch : Option Text → Result (Page A Text)) (views : Option Text → Result (Page B Text))
      (fuel : ℕ) (cursor : Option Text)
      → ((text : Option Text) → views text ≡ map_result f (fetch text))
      → walk views fuel cursor ≡ Option.map (map f) (walk fetch fuel cursor)
  unfolding walk
  walk-views fetch views zero cursor same = refl
  walk-views fetch views (suc fuel) cursor same =
      ap (λ r. follow r (λ text. walk views fuel (some text))) (same cursor)
      ∙ follow-views (fetch cursor) (λ text. walk fetch fuel (some text))
          (λ text. walk views fuel (some text))
          (λ text. walk-views fetch views fuel (some text) same)

  pub walk-views_all :
      (fetch : Option Text → Result (Page A Text)) (views : Option Text → Result (Page B Text))
      (fuel : ℕ) (rows : List A)
      → ((text : Option Text) → views text ≡ map_result f (fetch text))
      → walk fetch fuel none ≡ some rows
      → walk views fuel none ≡ some (map f rows)
  walk-views_all fetch views fuel rows same h =
      walk-views fetch views fuel none same ∙ ap (Option.map (map f)) h
