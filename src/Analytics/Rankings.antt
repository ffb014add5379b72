-- ===== src/Analytics/Rankings.antt =====
-- The ranking of products and categories, and the list of the top products.
use smart_table.Prelude.{
  ℕ, suc, zero, ◌≤◌, ◌≡◌, Bool, List, [], ◌∷◌, ◌++◌, map, arith, insert_by, order_by, length, take,
  drop, take-append-drop, All, All-map, Bool-cases, inl, inr, count, count-order_by,
}
use smart_table.Domain.{ok}
use smart_table.Database.{Db, Env}
use smart_table.Analytics.Repository.{Runtime}
use smart_table.Analytics.Range.{AnalyticsQuery, ResolvedRange, resolve_range}
use smart_table.Analytics.Derived.{Ranked, of_product, ranks_before, ranking}
use smart_table.Analytics.Facts.{aggregate}
use smart_table.Analytics.Service.{get_top_products, top_products_limit}

abbrev SoldAtMost : ℕ → Ranked → Type 0
SoldAtMost n b = b.quantity ≤ n

-- Nothing that follows an entry sold more than it.
abbrev pub IsFalling : List Ranked → Type 0
IsFalling [] = Unit
IsFalling (a ∷ rest) = All (SoldAtMost a.quantity) rest × IsFalling rest

insert_by-SoldAtMost :
    (rt : Runtime) (n : ℕ) (a : Ranked) (rest : List Ranked)
    → a.quantity ≤ n
    → All (SoldAtMost n) rest
    → All (SoldAtMost n) (insert_by (ranks_before rt) a rest)
unfolding insert_by
insert_by-SoldAtMost rt n a [] h all = (h, tt)
insert_by-SoldAtMost rt n a (b ∷ rest) h all = elim (Bool-cases (ranks_before rt a b)) [
  | inl e ↦ rw e (h, all)
  | inr e ↦ rw e (all.0, insert_by-SoldAtMost rt n a rest h all.1)
]

insert_by-IsFalling :
    (rt : Runtime) (a : Ranked) (rest : List Ranked)
    → IsFalling rest
    → IsFalling (insert_by (ranks_before rt) a rest)
unfolding insert_by
insert_by-IsFalling rt a [] f = (tt, tt)
insert_by-IsFalling rt a (b ∷ rest) f = elim (Bool-cases (ranks_before rt a b)) [
  | inl e ↦
      let le : b.quantity ≤ a.quantity = ground arith in
      rw e ((le, All-map _ _ rest (λ c h. omega (arith, h, le)) f.0), f)
  | inr e ↦
      let le : a.quantity ≤ b.quantity = ground arith in
      rw e (insert_by-SoldAtMost rt b.quantity a rest le f.0, insert_by-IsFalling rt a rest f.1)
]

pub ranking-IsFalling : (rt : Runtime) (entries : List Ranked) → IsFalling (ranking rt entries)
unfolding ranking order_by
ranking-IsFalling rt [] = tt
ranking-IsFalling rt (a ∷ entries) =
    insert_by-IsFalling rt a (ranking rt entries) (ranking-IsFalling rt entries)

length-take : (n : ℕ) (xs : List Ranked) → length (take n xs) ≤ n
length-take zero xs = omega arith
length-take (suc n) [] = omega arith
length-take (suc n) (x ∷ xs) = omega (arith, length-take n xs)

All-take : (n : ℕ) (P : Ranked → Type 0) (xs : List Ranked) → All P xs → All P (take n xs)
All-take zero P xs h = tt
All-take (suc n) P [] h = tt
All-take (suc n) P (x ∷ xs) h = (h.0, All-take n P xs h.1)

All-drop : (n : ℕ) (P : Ranked → Type 0) (xs : List Ranked) → All P xs → All P (drop n xs)
All-drop zero P xs h = h
All-drop (suc n) P [] h = tt
All-drop (suc n) P (x ∷ xs) h = All-drop n P xs h.1

take-IsFalling : (n : ℕ) (xs : List Ranked) → IsFalling xs → IsFalling (take n xs)
take-IsFalling zero xs f = tt
take-IsFalling (suc n) [] f = tt
take-IsFalling (suc n) (x ∷ xs) f = (All-take n _ xs f.0, take-IsFalling n xs f.1)

-- Nothing beyond the first `n` sold more than one of them.
take-covers :
    (n : ℕ) (xs : List Ranked)
    → IsFalling xs
    → All (λ (a : Ranked). All (SoldAtMost a.quantity) (drop n xs)) (take n xs)
take-covers zero xs f = tt
take-covers (suc n) [] f = tt
take-covers (suc n) (x ∷ xs) f = (All-drop n _ xs f.0, take-covers n xs f.1)

-- The products that a report lists, and those that it leaves out.
pub record AreTop (listed entries : List Ranked) : Type 0 where
  pub left_out : List Ranked
  pub few : length listed ≤ top_products_limit
  pub falling : IsFalling listed
  pub covered : All (λ (a : Ranked). All (SoldAtMost a.quantity) left_out) listed
  pub same : (p : Ranked → Bool) → count p (listed ++ left_out) ≡ count p entries

-- The answer of getTopProducts has ten products at most, none sold more often than the one before
-- it. Together with the products left out, none of which sold more than one that is listed, they are
-- the products of the aggregates: of any kind there are equally many.
pub get_top_products-AreTop :
    (env : Env) (rt : Runtime) (q : AnalyticsQuery) (db : Db) (range : ResolvedRange)
    (listed : List Ranked)
    → resolve_range rt q ≡ ok range
    → get_top_products env rt q db ≡ ok listed
    → AreTop listed (map of_product (aggregate env rt q range db).product_agg)
unfolding get_top_products
get_top_products-AreTop env rt q db range listed r h =
    let entries = map of_product (aggregate env rt q range db).product_agg in
    let ranked = ranking rt entries in
    let e : take top_products_limit ranked ≡ listed = ground arith in
    let f = ranking-IsFalling rt entries in
    let top : AreTop (take top_products_limit ranked) entries = record {
      left_out = drop top_products_limit ranked;
      few = length-take top_products_limit ranked;
      falling = take-IsFalling top_products_limit ranked f;
      covered = take-covers top_products_limit ranked f;
      same = λ p.
          rw (take-append-drop top_products_limit ranked)
            (unfold ranking in count-order_by p (ranks_before rt) entries);
    } in
    rw e at top
