-- ===== src/System/Safety.antt =====
-- The system as a whole: what holds after any sequence of requests.
use smart_table.Prelude.{List, arith}
use smart_table.Database.{Env}
use smart_table.Effects.{World}
use smart_table.Billing.Payment.Money.{IsReconciled, record_payment-IsReconciled}
use smart_table.Tables.{
  create_hall, create_table_tx, regenerate_tx, update_tx, mark_cleaned, new_table,
}
use smart_table.Visits.Rows.{VisitsAgree}
use smart_table.Visits.Create.{create_order-VisitsAgree}
use smart_table.Visits.Payment.{record_payment-VisitsAgree}
use smart_table.Visits.Floor.{
  VisitsAgree-same, transition-VisitsAgree, create_table-VisitsAgree, regenerate-VisitsAgree,
  update_tx-VisitsAgree, mark_cleaned-VisitsAgree, TxKeeps-with_retries,
}
use smart_table.System.{Request, run}
use smart_table.System.Interface.{KeepsWrites, run_keeps}
use smart_table.System.Frames.{
  IsReconciled-same, create_order-IsReconciled, transition-IsReconciled, open_shift-frame,
  close_shift-frame, create_hall-frame, insert_table-SameMoney, update_row-SameMoney,
  mark_cleaned-SameMoney,
}

visits_kept : KeepsWrites VisitsAgree
visits_kept = record {
  create_order =
      λ env input. record { commits = λ db h v. create_order-VisitsAgree env input db h v };
  transition = transition-VisitsAgree;
  payment = λ env input. record { commits = λ db h v. record_payment-VisitsAgree env input db h v };
  open_shift = λ env employee opening. record {
    commits = λ db {a} {db'} h v.
        let (_, et, eg) = open_shift-frame env employee opening db db' {r = a} h in
        VisitsAgree-same db db' et eg v;
  };
  close_shift = λ env id closing. record {
    commits = λ db {a} {db'} h v.
        let (_, et, eg) = close_shift-frame env id closing db db' {r = a} h in
        VisitsAgree-same db db' et eg v;
  };
  create_hall = λ env name sort. record {
    at = λ w v.
        let (_, et, eg) = create_hall-frame env name sort w in
        VisitsAgree-same w.db (create_hall env name sort w).1.db et eg v;
  };
  create_table = create_table-VisitsAgree;
  regenerate = regenerate-VisitsAgree;
  update_table = update_tx-VisitsAgree;
  mark_cleaned = mark_cleaned-VisitsAgree;
}

books_kept : KeepsWrites IsReconciled
books_kept = record {
  create_order = create_order-IsReconciled;
  transition = transition-IsReconciled;
  payment =
      λ env input. record { commits = λ db h v. record_payment-IsReconciled env input db h v };
  open_shift = λ env employee opening. record {
    commits = λ db {a} {db'} h v.
        IsReconciled-same db db' (open_shift-frame env employee opening db db' {r = a} h).0 v;
  };
  close_shift = λ env id closing. record {
    commits = λ db {a} {db'} h v.
        IsReconciled-same db db' (close_shift-frame env id closing db db' {r = a} h).0 v;
  };
  create_hall = λ env name sort. record {
    at = λ w v.
        IsReconciled-same w.db (create_hall env name sort w).1.db
          (create_hall-frame env name sort w).0 v;
  };
  create_table = λ env hall label.
      unfold create_table_tx in
      TxKeeps-with_retries 3 0 _ (λ j db a db' h v.
        IsReconciled-same db db' (insert_table-SameMoney (new_table env hall label j) db db' h) v);
  regenerate = λ env id.
      unfold regenerate_tx in
      TxKeeps-with_retries 3 0 _
        (λ j db a db' h v. IsReconciled-same db db' (update_row-SameMoney env id _ db db' h) v);
  update_table = λ env id c calm. record {
    commits = λ db {a} {db'} h v.
        IsReconciled-same db db'
          (update_row-SameMoney env id c db db' {a = a} (unfold update_tx in ground arith)) v;
  };
  mark_cleaned = λ env id. record {
    at = λ w v.
        IsReconciled-same w.db (mark_cleaned env id w).1.db (mark_cleaned-SameMoney env id w) v;
  };
}

-- Any sequence of requests, each run in one piece and each either succeeding or throwing, keeps
-- the floor consistent: a table has one open bill group at most, and while it has one it is
-- occupied.
pub run-VisitsAgree :
    (rs : List (Env × Request)) (w : World) → VisitsAgree w.db → VisitsAgree (run rs w).db
run-VisitsAgree = run_keeps visits_kept

-- Any sequence of requests, each run in one piece and each either succeeding or throwing, keeps
-- the books: the sum of all payments is the revenue of all days, the revenue of all hours, and
-- the revenue of the two channels together.
pub run-IsReconciled :
    (rs : List (Env × Request)) (w : World) → IsReconciled w.db → IsReconciled (run rs w).db
run-IsReconciled = run_keeps books_kept
