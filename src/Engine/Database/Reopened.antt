-- ===== src/Engine/Database/Reopened.antt =====
-- What a queue has after the database was closed and opened again.
use cocodb.Base.{
  ℕ, ◌≡◌, refl, sym, subst, Bool, Option, none, some, List, [], ◌∷◌, if◌then◌else◌, if_holds,
  option_holds, All,
}
use cocodb.Base.Text.{text_eq_refl}
use cocodb.Engine.Bytes.{Bytes}
use cocodb.Engine.Int64.{ℤ}
use cocodb.Engine.Dedup.{find, put}
use cocodb.Engine.Dedup.Maps.{find-All}
use cocodb.Engine.Heap.{PriorityHeap}
use cocodb.Engine.Queue.Kept.{All-filter}
use cocodb.Engine.Queue.Routed.{QueueEngine, new_queue_engine, new_core, Event}
use cocodb.Engine.Database.{
  Tree, Root, or_root, or_tree, tree_of, new_tree, Db, catalogued, opened, restore_from_tree, queue,
  operate, reopen, DbEvent, opens, operates, reopens, db_step, db_run, new_db,
}

module _ (h : PriorityHeap) (pages : ℕ → Tree) where
  open h use {items, items_empty}

  abbrev Rootless : Db h pages → Type 0
  Rootless db = All (λ e. e.1 ≡ none) db.catalog

  catalogued-Rootless :
      (name : Bytes) (db : Db h pages)
      → Rootless db
      → All (λ e. e.1 ≡ none) (catalogued h pages name db)
  unfolding catalogued
  catalogued-Rootless name db c =
      option_holds (All (λ e. e.1 ≡ none)) (find name db.catalog)
        (if db.read_only then db.catalog else put name none db.catalog) (λ r. db.catalog)
        (λ n.
          if_holds (All (λ e. e.1 ≡ none)) db.read_only _ _ (λ x. c)
            (λ x. (refl, All-filter _ _ db.catalog c)))
        (λ r e. c)

  queue-Rootless :
      (now : ℤ) (name : Bytes) (db : Db h pages)
      → Rootless db
      → Rootless (queue h pages now name db)
  unfolding queue opened
  queue-Rootless now name db c =
      option_holds Rootless (find name db.queues) _ (λ q. db) (λ n. catalogued-Rootless name db c)
        (λ q e. c)

  operate-Rootless :
      (name : Bytes) (x : Event h) (db : Db h pages)
      → Rootless db
      → Rootless (operate h pages name x db)
  unfolding operate
  operate-Rootless name x db c = option_holds Rootless (find name db.queues) _ _ (λ n. c) (λ q e. c)

  run-Rootless :
      (xs : List (DbEvent h pages)) (db : Db h pages)
      → Rootless db
      → Rootless (db_run h pages db xs)
  unfolding db_step reopen
  run-Rootless [] db c = c
  run-Rootless (opens now name ∷ xs) db c = run-Rootless xs _ (queue-Rootless now name db c)
  run-Rootless (operates name x ∷ xs) db c = run-Rootless xs _ (operate-Rootless name x db c)
  run-Rootless (reopens ∷ xs) db c = run-Rootless xs _ c

  root_of_name :
      (name : Bytes) (db : Db h pages) → Rootless db → or_root (find name db.catalog) ≡ none
  root_of_name name db c =
      option_cases_root (find name db.catalog)
        (λ r e. find-All (λ x. x ≡ none) name db.catalog r c e)
    where
      option_cases_root :
          (o : Option Root) → ((r : Root) → o ≡ some r → r ≡ none) → or_root o ≡ none
      option_cases_root none f = refl
      option_cases_root (some r) f = f r refl

  -- The engine of a queue that has been opened, with its heap.
  abbrev pub IsEmptied : Option (Root × QueueEngine h) → Type 0
  IsEmptied none = ⊥
  IsEmptied (some (r, e)) = items e.main.ready ≡ []

  none-IsEmptied :
      (now : ℤ) (name : Bytes) (db : Db h pages)
      → IsEmptied (find name (opened h pages now name none [] db).queues)
  unfolding opened find restore_from_tree new_queue_engine new_core
  none-IsEmptied now name db = rw (text_eq_refl name) items_empty

  opened-IsEmptied :
      (now : ℤ) (name : Bytes) (root : Root) (db : Db h pages)
      → root ≡ none
      → IsEmptied (
          find name
            (opened h pages now name root
              (or_tree (tree_of root []) (new_tree h pages root))
              db).queues)
  unfolding tree_of
  opened-IsEmptied now name root db e =
      subst
        (λ (r : Root). IsEmptied (
          find name
            (opened h pages now name r (or_tree (tree_of r []) (new_tree h pages r)) db).queues))
        (sym e) (none-IsEmptied now name db)

  -- After any session with a new database in which queues are opened and used, a queue that is opened
  -- once the database has been closed and opened again has no message: the root of its tree is never
  -- written to the catalog.
  pub queue-IsEmptied :
      (ro : Bool) (xs : List (DbEvent h pages)) (now : ℤ) (name : Bytes)
      → IsEmptied (
          find name
            (queue h pages now name
              (reopen h pages (db_run h pages (new_db h pages ro) xs))).queues)
  unfolding queue reopen find
  queue-IsEmptied ro xs now name =
      let db = db_run h pages (new_db h pages ro) xs in
      opened-IsEmptied now name (or_root (find name db.catalog)) (reopen h pages db)
        (root_of_name name db (run-Rootless xs (new_db h pages ro) tt))
