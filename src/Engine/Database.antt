-- ===== src/Engine/Database.antt =====
-- db.go: how the database opens a queue over a tree of its catalog; and the restart of a queue from
-- its tree (restoreFromTree in internal/queue/queue.go). A tree is the map that its pages keep.
pub mod Reopened
pub mod Shared
use cocodb.Base.{
  ℕ, Bool, true, false, not, ◌&&◌, ◌||◌, Option, none, some, List, [], ◌∷◌, if◌then◌else◌, ltb,
  ◌==◌, filter, length,
}
use cocodb.Base.Text.{text_eq}
use cocodb.Base.Result.{Result, ok, err}
use cocodb.Engine.Bytes.{Bytes}
use cocodb.Engine.Int64.{ℤ, pos}
use cocodb.Engine.Dedup.{Entry, find, put}
use cocodb.Engine.Message.{Message, decode_message, state_ready, state_invisible}
use cocodb.Engine.Heap.{PriorityHeap}
use cocodb.Engine.Queue.{Config, Core, Write, insert, delete}
use cocodb.Engine.Queue.Routed.{QueueEngine, new_queue_engine, Event, step}

-- `bytes.Compare(a, b) < 0`.
unfoldable pub before : Bytes → Bytes → Bool
before a [] = false
before [] (d ∷ b) = true
before (c ∷ a) (d ∷ b) = let rest = before a b in ltb c d || (c == d && rest)

-- In the order of the keys.
abbrev pub Tree : Type 0
Tree = List (Entry Bytes)

unfoldable pub tree_insert : Bytes → Bytes → Tree → Tree
tree_insert k v [] = (k, v) ∷ []
tree_insert k v ((l, w) ∷ t) =
    let rest = tree_insert k v t in
    if text_eq k l then (k, v) ∷ t else if before k l then (k, v) ∷ ((l, w) ∷ t) else (l, w) ∷ rest

-- `Insert` refuses a key or a value that is too large; the queue drops the error.
abbrev pub max_key_size : ℕ
max_key_size = 2048

abbrev pub max_value_size : ℕ
max_value_size = 4096

unfoldable pub try_insert : Bytes → Bytes → Tree → Tree
try_insert k v t =
    if ltb max_key_size (length k) || ltb max_value_size (length v) then t else tree_insert k v t

unfoldable pub write_to : Tree → Write → Tree
unfolding try_insert
write_to t (insert k v) = try_insert k v t
write_to t (delete k) = filter (λ e. not (text_eq k e.0)) t

unfoldable pub replay : Tree → List Write → Tree
replay t [] = t
replay t (w ∷ ws) = replay (write_to t w) ws

-- A page's number; none is InvalidPageID.
abbrev pub Root : Type 0
Root = Option ℕ

unfoldable pub same_root : Root → Root → Bool
same_root none none = true
same_root none (some q) = false
same_root (some p) none = false
same_root (some p) (some q) = p == q

unfoldable pub tree_of : Root → List (Root × Tree) → Option Tree
tree_of r [] = none
tree_of r ((s, t) ∷ ts) = let rest = tree_of r ts in if same_root r s then some t else rest

abbrev pub set_tree : Root → Tree → List (Root × Tree) → List (Root × Tree)
set_tree r t ts = (r, t) ∷ filter (λ e. not (same_root r e.0)) ts

abbrev pub default_config : Config
default_config = record {
  default_visibility_timeout = pos 30000000000;
  default_max_retries = 5;
  dedup_window = pos 600000000000;
  enable_dlq = true;
}

abbrev pub or_tree : Option Tree → Tree → Tree
or_tree none t = t
or_tree (some t) u = t

abbrev pub or_root : Option Root → Root
or_root none = none
or_root (some r) = r

-- `pages` has what the pages below a root hold when the database is opened.
module _ (h : PriorityHeap) (pages : ℕ → Tree) where
  open h use {push}

  unfoldable pub restored : ℤ → Message → Message
  restored now m =
      if m.state == state_invisible then record m { state = state_ready; visible_at = now } else m

  restore_one : ℤ → Result Message → Core h → Core h
  restore_one now (ok m) q = record q { ready = push (restored now m) q.ready }
  restore_one now (err e) q = q

  unfoldable pub restore_from_tree : ℤ → Tree → Core h → Core h
  unfolding restore_one
  restore_from_tree now [] q = q
  restore_from_tree now ((k, v) ∷ t) q =
      restore_from_tree now t (restore_one now (decode_message v) q)

  -- `catalog` has the roots of the queues. An open queue keeps the tree in `trees` under its root.
  pub record Db : Type 0 where
    pub read_only : Bool
    pub catalog : List (Entry Root)
    pub trees : List (Root × Tree)
    pub queues : List (Entry (Root × QueueEngine h))

  abbrev pub new_tree : Root → Tree
  new_tree none = []
  new_tree (some p) = pages p

  unfoldable pub catalogued : Bytes → Db → List (Entry Root)
  catalogued name db = elim (find name db.catalog) [
    | none ↦ if db.read_only then db.catalog else put name none db.catalog
    | some r ↦ db.catalog
  ]

  unfoldable pub opened : ℤ → Bytes → Root → Tree → Db → Db
  opened now name root tree db =
      let e = new_queue_engine h name default_config true in
      record {
        read_only = db.read_only;
        catalog = catalogued name db;
        trees = set_tree root tree db.trees;
        queues = put name (root, record e { main = restore_from_tree now tree e.main }) db.queues;
      }

  -- `db.Queue(name)`.
  unfoldable pub queue : ℤ → Bytes → Db → Db
  queue now name db = elim (find name db.queues) [
    | some q ↦ db
    | none ↦
        let root = or_root (find name db.catalog) in
        opened now name root (or_tree (tree_of root db.trees) (new_tree root)) db
  ]

  -- An event of one open queue, whose writes go to its tree.
  unfoldable pub operate : Bytes → Event h → Db → Db
  operate name x db = elim (find name db.queues) [
    | none ↦ db
    | some q ↦
        let e = q.1 in
        let w = step h (record e { main = record e.main { writes = [] } }) x in
        record db {
          trees = set_tree q.0 (replay (or_tree (tree_of q.0 db.trees) []) w.main.writes) db.trees;
          queues = put name (q.0, w) db.queues;
        }
  ]

  -- The database is closed and opened again.
  unfoldable pub reopen : Db → Db
  reopen db = record db { trees = []; queues = [] }

  pub data DbEvent : Type 0 where
    opens : ℤ → Bytes → DbEvent
    operates : Bytes → Event h → DbEvent
    reopens : DbEvent

  unfoldable pub db_step : Db → DbEvent → Db
  db_step db (opens now name) = queue now name db
  db_step db (operates name x) = operate name x db
  db_step db reopens = reopen db

  abbrev pub db_run : Db → List DbEvent → Db
  db_run db [] = db
  db_run db (x ∷ xs) = db_run (db_step db x) xs

  abbrev pub new_db : Bool → Db
  new_db ro = record { read_only = ro; catalog = []; trees = []; queues = [] }
