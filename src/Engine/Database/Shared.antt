-- ===== src/Engine/Database/Shared.antt =====
-- Two new queues of one database.
use cocodb.Base.{
  ℕ, ◌≤◌, length, ◌≡◌, ◌≢◌, refl, sym, subst, arith, ap, ◌∙◌, true, false, Option, none, some, List,
  [], ◌∷◌,
}
use cocodb.Base.Text.{text_eq, text_eq_refl, text_eq_of_ne}
use mathlib.Core.List.{Perm}
use cocodb.Engine.Bytes.{Bytes}
use cocodb.Engine.Int64.{ℤ}
use cocodb.Engine.Dedup.{find, put}
use cocodb.Engine.Dedup.Maps.{find-remove_other}
use cocodb.Engine.Message.{Message, encode}
use cocodb.Engine.Message.RoundTrip.{Fits, decode_message-encode}
use cocodb.Engine.Heap.{PriorityHeap}
use cocodb.Engine.Queue.{insert, filled_in, enqueue, enqueue_open}
use cocodb.Engine.Queue.Routed.{
  QueueEngine, new_queue_engine, new_core, Event, on_main, enqueues, apply, step,
}
use cocodb.Engine.Database.{
  Tree, Root, default_config, Db, catalogued, opened, restored, restore_from_tree, queue, operate,
  tree_of, same_root, set_tree, or_tree, replay, write_to, tree_insert, try_insert, max_key_size,
  max_value_size, new_db,
}

module _ (h : PriorityHeap) (pages : ℕ → Tree) where
  open h use {empty, push, items, items_empty, items_push}

  -- The heap of an open queue has this message alone.
  abbrev pub HasAlone : Message → Option (Root × QueueEngine h) → Type 0
  HasAlone m none = ⊥
  HasAlone m (some (r, e)) = Perm (m ∷ []) (items e.main.ready)

  pushed-Perm : (m : Message) → Perm (m ∷ []) (items (push m empty))
  pushed-Perm m =
      subst (λ (ms : List Message). Perm (m ∷ ms) (items (push m empty))) items_empty
        (items_push m empty)

  operate_found :
      (name : Bytes) (x : Event h) (db : Db h pages) (e : QueueEngine h)
      → find name db.queues ≡ some (none, e)
      → operate h pages name x db ≡ (
          let w = step h (record e { main = record e.main { writes = [] } }) x in
          record db {
            trees =
                set_tree none (replay (or_tree (tree_of none db.trees) []) w.main.writes) db.trees;
            queues = put name (none, w) db.queues;
          })
  unfolding operate
  operate_found name x db e f = rw (operate, f) refl

  queue_absent :
      (now : ℤ) (name : Bytes) (db : Db h pages)
      → find name db.queues ≡ none
      → find name db.catalog ≡ none
      → queue h pages now name db
        ≡ opened h pages now name none (or_tree (tree_of none db.trees) []) db
  unfolding queue
  queue_absent now name db f c = rw (queue, f, c) refl

  -- The tree takes the message.
  abbrev pub IsStored : Message → Type 0
  IsStored m = (length m.id ≤ max_key_size) × (length (encode m) ≤ max_value_size)

  try_insert-stored :
      (m : Message) → IsStored m → try_insert m.id (encode m) [] ≡ (m.id, encode m) ∷ []
  unfolding try_insert tree_insert
  try_insert-stored m s = ground arith

  module _ (a b : Bytes) (t now u : ℤ) (m : Message) where
    -- The message as the first queue has it.
    abbrev pub as_queued : Message
    as_queued = filled_in h now (new_queue_engine h a default_config true).main m

    -- The database after the first queue was opened and got the message, and the second was opened.
    abbrev pub first_opened : Db h pages
    first_opened = queue h pages t a (new_db h pages false)

    abbrev pub message_enqueued : Db h pages
    message_enqueued = operate h pages a (on_main (enqueues now now m)) first_opened

    abbrev pub both_opened : Db h pages
    both_opened = queue h pages u b message_enqueued

    first_find : find a first_opened.queues ≡ some (none, new_queue_engine h a default_config true)
    unfolding queue opened find restore_from_tree new_queue_engine new_core tree_of
    first_find = rw (text_eq_refl a) refl

    -- The first queue with its message.
    abbrev with_message : QueueEngine h
    with_message =
        (step h (new_queue_engine h a default_config true) (on_main (enqueues now now m)))

    module _ (d : m.dedup_id ≡ []) (stored : IsStored as_queued) where
      heap_with_message : with_message.main.ready ≡ push as_queued empty
      unfolding step apply enqueue enqueue_open new_queue_engine new_core
      heap_with_message = rw d refl

      writes_with_message : with_message.main.writes ≡ insert as_queued.id (encode as_queued) ∷ []
      unfolding step apply enqueue enqueue_open new_queue_engine new_core
      writes_with_message = rw d refl

      enqueued_is : message_enqueued ≡ record first_opened {
        trees =
            set_tree none
              (replay (or_tree (tree_of none first_opened.trees) []) with_message.main.writes)
              first_opened.trees;
        queues = put a (none, with_message) first_opened.queues;
      }
      unfolding new_queue_engine new_core
      enqueued_is = operate_found a (on_main (enqueues now now m)) first_opened _ first_find

      enqueued_find : find a message_enqueued.queues ≡ some (none, with_message)
      unfolding find
      enqueued_find = rw (enqueued_is, text_eq_refl a) refl

      enqueued_tree :
          tree_of none message_enqueued.trees ≡ some ((as_queued.id, encode as_queued) ∷ [])
      unfolding tree_of same_root replay write_to queue opened find
      enqueued_tree = rw (enqueued_is, writes_with_message, try_insert-stored as_queued stored) refl

      module _ (n : text_eq b a ≡ false) (o : text_eq a b ≡ false) where
        second_absent : find b message_enqueued.queues ≡ none
        unfolding find queue opened
        second_absent = rw (enqueued_is, n, text_eq_refl a) refl

        second_rootless : find b message_enqueued.catalog ≡ none
        unfolding find queue opened catalogued
        second_rootless = rw (enqueued_is, n) refl

        both_is :
            both_opened
            ≡ opened h pages u b none ((as_queued.id, encode as_queued) ∷ []) message_enqueued
        both_is =
            queue_absent u b message_enqueued second_absent second_rootless
            ∙ ap (λ (o : Option Tree). opened h pages u b none (or_tree o []) message_enqueued)
                enqueued_tree

        first_has : HasAlone as_queued (find a both_opened.queues)
        unfolding opened find
        first_has =
            rw
              (
                both_is,
                o,
                find-remove_other a b message_enqueued.queues o,
                enqueued_find,
                heap_with_message,
              )
              (pushed-Perm as_queued)

        second_has : Fits as_queued → HasAlone as_queued (find b both_opened.queues)
        unfolding opened find restore_from_tree restored filled_in new_queue_engine new_core
        second_has f =
            rw (both_is, text_eq_refl b, decode_message-encode as_queued f) (pushed-Perm as_queued)

  -- Let a queue of a new database get a message that fits the format, has no ID of its own for
  -- duplicates, and is stored with an ID of at most 2048 bytes in at most 4096 bytes; and let then a second queue with another name be opened. Both have that message, since
  -- both keep their messages in the tree without a root.
  pub queue-HasAlone :
      (a b : Bytes) (t now u : ℤ) (m : Message)
      → a ≢ b
      → m.dedup_id ≡ []
      → Fits (as_queued a b t now u m)
      → IsStored (as_queued a b t now u m)
      → HasAlone (as_queued a b t now u m) (find a (both_opened a b t now u m).queues)
        × HasAlone (as_queued a b t now u m) (find b (both_opened a b t now u m).queues)
  queue-HasAlone a b t now u m n d f s =
      let apart = text_eq_of_ne a b n in
      let apart' = text_eq_of_ne b a (λ e. n (sym e)) in
      (first_has a b t now u m d s apart' apart, second_has a b t now u m d s apart' apart f)
