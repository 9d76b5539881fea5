-- ===== src/Tests/Database.antt =====
-- Queues of a database that is opened again, and two queues of one database.
use cocodb.Base.{ℕ, ◌≢◌, refl, false, List, [], ◌∷◌, arith}
use cocodb.Base.Text.{codes}
use cocodb.Engine.Int64.{pos, at_most}
use cocodb.Engine.Dedup.{find}
use cocodb.Engine.Bytes.{put_uint}
use cocodb.Engine.Message.{encode, header, sized}
use cocodb.Engine.Message.RoundTrip.{Fits}
use cocodb.Engine.Heap.Chosen.{chosen_heap}
use cocodb.Engine.Queue.{filled_in}
use cocodb.Engine.Database.{Tree, DbEvent, opens, operates, queue, reopen, db_run, new_db}
use cocodb.Engine.Database.Reopened.{IsEmptied, queue-IsEmptied}
use cocodb.Engine.Database.Shared.{HasAlone, IsStored, as_queued, both_opened, queue-HasAlone}
use cocodb.Engine.Queue.Routed.{with_defaults, new_core, new_queue_engine, enqueues, on_main}
use cocodb.Tests.Queue.{task}

abbrev no_pages : ℕ → Tree
no_pages p = []

abbrev used : List (DbEvent chosen_heap no_pages)
used =
    opens (pos 1) (codes "mail")
    ∷ (operates (codes "mail") (on_main (enqueues (pos 9) (pos 10) task)) ∷ [])

queue-IsEmptied_example : IsEmptied chosen_heap no_pages (
    find
      (codes "mail")
      (queue chosen_heap no_pages (pos 30) (codes "mail") (
        reopen chosen_heap no_pages
          (db_run chosen_heap no_pages (new_db chosen_heap no_pages false) used))).queues)
queue-IsEmptied_example = queue-IsEmptied chosen_heap no_pages false used (pos 30) (codes "mail")

names_differ : codes "mail" ≢ codes "bills"
names_differ e = cc

queued_task-Fits :
    Fits
      (as_queued chosen_heap no_pages (codes "mail") (codes "bills") (pos 1) (pos 10) (pos 20) task)
unfolding filled_in new_queue_engine new_core with_defaults at_most
queued_task-Fits = record {
  id_short = omega arith;
  queue_short = omega arith;
  dedup_short = omega arith;
  payload_short = omega arith;
  retries_small = omega arith;
  max_small = omega arith;
  visible_int64 = omega arith;
  created_int64 = omega arith;
  expire_int64 = omega arith;
}

queued_task-IsStored :
    IsStored chosen_heap no_pages
      (as_queued chosen_heap no_pages (codes "mail") (codes "bills") (pos 1) (pos 10) (pos 20) task)
unfolding filled_in new_queue_engine new_core with_defaults at_most encode header sized put_uint
queued_task-IsStored = (omega arith, omega arith)

queue-HasAlone_example :
    let db =
      both_opened chosen_heap no_pages
        (codes "mail")
        (codes "bills")
        (pos 1)
        (pos 10)
        (pos 20)
        task in
    let m =
      as_queued chosen_heap no_pages
        (codes "mail")
        (codes "bills")
        (pos 1)
        (pos 10)
        (pos 20)
        task in
    HasAlone chosen_heap no_pages m (find (codes "mail") db.queues)
    × HasAlone chosen_heap no_pages m (find (codes "bills") db.queues)
queue-HasAlone_example =
    queue-HasAlone chosen_heap no_pages (codes "mail") (codes "bills") (pos 1) (pos 10) (pos 20)
      task names_differ refl queued_task-Fits queued_task-IsStored
