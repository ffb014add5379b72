-- ===== src/Examples/Floor.antt =====
-- The theorems on the floor, on the restaurant of `Examples`.
use smart_table.Prelude.{
  ◌<◌, ◌≡◌, ◌≢◌, refl, arith, none, some, count, first, update, ◌+◌, ◌*◌, [], ◌∷◌, ◌++◌,
}
use smart_table.Domain.{needs_cleaning, cash}
use smart_table.Database.{TableRow, Env, Db, insert_unique}
use smart_table.Orders.Repository.{find_table_by_id}
use smart_table.Billing.Payment.{RecordedPayment, recorded, record_payment_transaction}
use smart_table.Tables.{
  new_table, create_table_tx, regenerate_tx, with_retries, insert_table, update_table_row,
  change_table, write_cleaned,
}
use smart_table.Tables.Tokens.{IsFreeToken}
use smart_table.Visits.Rows.{open_count, VisitsAgree}
use smart_table.Visits.Race.{stale_mark_cleaned, stale_mark_cleaned-unpayable}
use smart_table.System.{run}
use smart_table.System.Safety.{run-VisitsAgree}
use smart_table.Examples.{
  noon, cafe, open_house, busy_hour, table_at, dirty_table, free_table, pay_first, visit,
}

pub cafe-VisitsAgree : VisitsAgree cafe
unfolding count first
cafe-VisitsAgree t = ground arith

run-VisitsAgree_example : VisitsAgree (run busy_hour open_house).db
run-VisitsAgree_example = run-VisitsAgree busy_hour open_house cafe-VisitsAgree

dirty_found : find_table_by_id 3 cafe ≡ some dirty_table
unfolding find_table_by_id first
dirty_found = refl

-- A table more.
abbrev extended : Db
extended = record cafe { tables = cafe.tables ++ new_table noon 1 "T5" 0 ∷ [] }

table_created : create_table_tx noon 1 "T5" cafe ≡ some (new_table noon 1 "T5" 0, extended)
unfolding create_table_tx with_retries insert_table insert_unique first
table_created = refl

-- The generator gives the token of the first table out once more before a new one.
abbrev unlucky : Env
unlucky = record noon { random_token = λ k. 11 + k * 7 }

new_id : find_table_by_id (unlucky.uuid 0) cafe ≡ none
unfolding find_table_by_id first
new_id = refl

second_free : IsFreeToken (unlucky.random_token 1) cafe
unfolding first
second_free = refl

abbrev renewed : TableRow
renewed = record (table_at 1 500) { updated_at = 100 }

regenerated :
    regenerate_tx noon 1 cafe
    ≡ some (
      some renewed,
      record cafe { tables = renewed ∷ table_at 2 12 ∷ dirty_table ∷ free_table ∷ [] },
    )
unfolding regenerate_tx with_retries update_table_row find_table_by_id change_table first update
regenerated = refl

one_visit : 0 < open_count 1 cafe.table_bill_groups
unfolding count
one_visit = omega arith

-- The check saw the table when it was waiting for cleaning; a visit has begun since.
stale_mark_cleaned_example :
    ¬ VisitsAgree
      (write_cleaned noon 1 (record (table_at 1 11) { status = needs_cleaning }) open_house).1.db
stale_mark_cleaned_example =
    stale_mark_cleaned noon 1 (record (table_at 1 11) { status = needs_cleaning }) open_house
      one_visit

-- A receipt for the visit at the first table.
abbrev receipt : RecordedPayment
receipt = record {
  payment = record {
    id = 1000;
    table_bill_group_id = 21;
    amount_minor = 550;
    method = cash;
    collected_by_employee_id = 9;
    shift_id = none;
    created_at = 100;
  };
  group = visit 21 1;
  table_id = 1;
  tax_basis_points = 1_000;
  per_order = [];
  bill_totals = record { subtotal_minor = 500; tax_minor = 50; total_minor = 550 };
  shift_id = none;
}

stale_mark_cleaned-unpayable_example :
    record_payment_transaction noon pay_first
      (write_cleaned noon 1 (record (table_at 1 11) { status = needs_cleaning }) open_house).1.db
    ≢ some (recorded receipt, cafe)
stale_mark_cleaned-unpayable_example =
    stale_mark_cleaned-unpayable noon noon 1 (record (table_at 1 11) { status = needs_cleaning })
      open_house pay_first receipt cafe refl
