-- ===== src/Studio/Api/Documents.antt =====
-- The members of `api` in studio/frontend/src/api.ts for documents, search, tools, queues and topics.
use cocodb.Base.{ℕ, Bool, Option, none, some, List, [], ◌∷◌, ◌++◌}
use cocodb.Base.Text.{Text, codes}
use cocodb.Studio.Uri.{encode_uri_component}
use cocodb.Studio.Json.{
  Number, nat, Json, boolean, number, string, array, object, Items, nil, item, end, field, optional,
}
use cocodb.Studio.Api.{HttpRequest}
use cocodb.Studio.Api.Endpoints.{plain, post_json, post_nothing, delete}

pub record Filter : Type 0 where
  pub name : Text
  pub op : Text
  pub value : Json

pub record Order : Type 0 where
  pub name : Text
  pub desc : Bool

-- What the views give of a query; they never set the offset.
pub record DocumentQuery : Type 0 where
  pub filters : Option (List Filter)
  pub order_by : Option Order
  pub limit : Number
  pub explain : Option Bool

filter_json : Filter → Json
filter_json f = object (
    field (codes "field") (string f.name)
      (field (codes "op") (string f.op) (field (codes "value") f.value end)))

filter_items : List Filter → Items
unfolding filter_json
filter_items [] = nil
filter_items (f ∷ fs) = item (filter_json f) (filter_items fs)

filters? : Option (List Filter) → Option Json
unfolding filter_items
filters? none = none
filters? (some fs) = some (array (filter_items fs))

order? : Option Order → Option Json
order? none = none
order? (some o) =
    some
      (object (field (codes "field") (string o.name) (field (codes "desc") (boolean o.desc) end)))

explain? : Option Bool → Option Json
explain? none = none
explain? (some b) = some (boolean b)

doc_path : Text → Text → Text
doc_path collection rest = codes "/doc/" ++ (encode_uri_component collection ++ (codes "/" ++ rest))

unfoldable pub query_documents : Text → DocumentQuery → HttpRequest
unfolding doc_path filters? order? explain? post_json
query_documents collection q = post_json (doc_path collection (codes "query")) (
    object (
      optional (codes "filters") (filters? q.filters) (
        optional (codes "order_by") (order? q.order_by) (
          field (codes "limit") (number q.limit)
            (optional (codes "explain") (explain? q.explain) end)))))

unfoldable pub get_document : Text → Text → HttpRequest
unfolding doc_path plain
get_document collection id =
    plain (doc_path collection (codes "get?id=" ++ encode_uri_component id))

unfoldable pub insert_document : Text → Json → HttpRequest
unfolding doc_path post_json
insert_document collection doc = post_json (doc_path collection (codes "insert")) doc

unfoldable pub update_document : Text → Text → Json → HttpRequest
unfolding doc_path post_json
update_document collection id doc =
    post_json (doc_path collection (codes "update?id=" ++ encode_uri_component id)) doc

unfoldable pub delete_document : Text → Text → HttpRequest
unfolding doc_path delete
delete_document collection id =
    delete (doc_path collection (codes "delete?id=" ++ encode_uri_component id))

pub search_vectors : Text → Text → Items → ℕ → Text → HttpRequest
search_vectors collection name vector k metric = post_json (codes "/vector/search") (
    object (
      field (codes "collection") (string collection) (
        field (codes "field") (string name) (
          field (codes "vector") (array vector)
            (field (codes "k") (number (nat k)) (field (codes "metric") (string metric) end))))))

pub search_full_text : Text → Text → Text → ℕ → HttpRequest
search_full_text collection name query k = post_json (codes "/text/search") (
    object (
      field (codes "collection") (string collection) (
        field (codes "field") (string name)
          (field (codes "query") (string query) (field (codes "k") (number (nat k)) end)))))

pub check_integrity : HttpRequest
check_integrity = plain (codes "/integrity/check")

pub checkpoint_wal : HttpRequest
checkpoint_wal = post_nothing (codes "/maintenance/checkpoint")

-- The view gives no file name.
pub trigger_backup : HttpRequest
trigger_backup = post_json (codes "/maintenance/backup") (object end)

pub list_queues : HttpRequest
list_queues = plain (codes "/queue/list")

unfoldable pub get_queue_stats : Text → HttpRequest
unfolding plain
get_queue_stats name = plain (codes "/queue/stats?name=" ++ encode_uri_component name)

text? : Option Text → Option Json
text? none = none
text? (some t) = some (string t)

unfoldable pub enqueue_task : Text → Text → Option Text → Number → Number → HttpRequest
unfolding text? post_json
enqueue_task queue payload dedup_id priority delay_ms = post_json (codes "/queue/enqueue") (
    object (
      field (codes "queue") (string queue) (
        field (codes "payload") (string payload) (
          optional (codes "dedup_id") (text? dedup_id) (
            field (codes "priority") (number priority)
              (field (codes "delay_ms") (number delay_ms) end))))))

unfoldable pub dequeue_task : Text → Bool → HttpRequest
unfolding post_json
dequeue_task queue auto_ack = post_json (codes "/queue/dequeue") (
    object (field (codes "queue") (string queue) (field (codes "auto_ack") (boolean auto_ack) end)))

unfoldable pub publish_pub_sub : Text → Text → Option Text → HttpRequest
unfolding text? post_json
publish_pub_sub topic payload dedup_id = post_json (codes "/pubsub/publish") (
    object (
      field (codes "topic") (string topic) (
        field (codes "payload") (string payload)
          (optional (codes "dedup_id") (text? dedup_id) end))))

pub get_pub_sub_history : HttpRequest
get_pub_sub_history = plain (codes "/pubsub/history")
