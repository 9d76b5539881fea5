-- ===== src/Engine/Message.antt =====
-- internal/queue/message.go: a message of a queue, and the bytes in which it is stored.
pub mod RoundTrip
pub mod Truncated
use cocodb.Base.{
  ℕ, ◌+◌, Bool, true, not, ◌&&◌, List, [], ◌∷◌, ◌++◌, if◌then◌else◌, ltb, ◌==◌, length, take, drop,
}
use cocodb.Base.Text.{Text, codes}
use cocodb.Base.Result.{Result, ok, err}
use cocodb.Engine.Bytes.{Bytes, put_uint, get_uint}
use cocodb.Engine.Int64.{ℤ, to_uint64, of_uint64}

-- The values of `MessageState`, a byte.
abbrev pub state_ready : ℕ
state_ready = 0

abbrev pub state_invisible : ℕ
state_invisible = 1

abbrev pub state_completed : ℕ
state_completed = 2

abbrev pub state_dead_letter : ℕ
state_dead_letter = 3

-- Strings are their bytes. A count below 0 stands as 0, for which `Enqueue` has the default as well. The callbacks are left out: they call the queue that has the message.
pub record Message : Type 0 where
  pub id : Bytes
  pub queue : Bytes
  pub payload : Bytes
  pub priority : ℕ
  pub dedup_id : Bytes
  pub retry_count : ℕ
  pub max_retries : ℕ
  pub state : ℕ
  pub visible_at : ℤ
  pub created_at : ℤ
  pub expire_at : ℤ

-- Bytes behind their length in `k` bytes.
unfoldable pub sized : ℕ → Bytes → Bytes
sized k bs = put_uint k (length bs) ++ bs

unfoldable pub header : Message → Bytes → Bytes
header m body =
    b'Q'
    ∷ b'M'
    ∷ m.state
    ∷ m.priority
    ∷ (put_uint 4 m.retry_count
        ++ (put_uint 4 m.max_retries
            ++ (put_uint 8 (to_uint64 m.visible_at)
                ++ (put_uint 8 (to_uint64 m.created_at)
                    ++ (put_uint 8 (to_uint64 m.expire_at) ++ body)))))

unfoldable pub encode : Message → Bytes
unfolding header sized
encode m = header m (sized 2 m.id ++ (sized 2 m.queue ++ (sized 2 m.dedup_id ++ sized 4 m.payload)))

-- The next part of the buffer: its length in `k` bytes and as many bytes.
abbrev pub truncated : Text → Text → Text
truncated part what = codes "coco/queue: truncated " ++ (part ++ what)

abbrev pub read_data : Text → ℕ → Bytes → Result (Bytes × Bytes)
read_data part n rest =
    if ltb (length rest) n
    then err (truncated part (codes " data"))
    else ok (take n rest, drop n rest)

unfoldable pub read_sized : ℕ → Text → Bytes → Result (Bytes × Bytes)
read_sized k part rest =
    if ltb (length rest) k
    then err (truncated part (codes " length"))
    else read_data part (get_uint (take k rest)) (drop k rest)

-- A part that cannot be read ends the decoding.
abbrev pub then_read {ℓ} : {A : Type ℓ} → Result A → (A → Result Message) → Result Message
then_read (err e) next = err e
then_read (ok a) next = next a

-- The number in the bytes from `start` to `start + k`.
unfoldable pub field : ℕ → ℕ → Bytes → ℕ
field start k buf = get_uint (take k (drop start buf))

unfoldable pub has_magic : Bytes → Bool
has_magic buf = field 0 1 buf == b'Q' && field 1 1 buf == b'M'

unfoldable pub decode_body : Bytes → Result Message
decode_body buf = then_read (read_sized 2 (codes "ID") (drop 36 buf)) (λ r.
    then_read (read_sized 2 (codes "Queue") (r.1)) (λ s.
      then_read (read_sized 2 (codes "DedupID") (s.1)) (λ t.
        then_read (read_sized 4 (codes "Payload") (t.1)) (λ u. ok (record {
          id = r.0;
          queue = s.0;
          payload = u.0;
          priority = field 3 1 buf;
          dedup_id = t.0;
          retry_count = field 4 4 buf;
          max_retries = field 8 4 buf;
          state = field 2 1 buf;
          visible_at = of_uint64 (field 12 8 buf);
          created_at = of_uint64 (field 20 8 buf);
          expire_at = of_uint64 (field 28 8 buf);
        })))))

unfoldable pub decode_message : Bytes → Result Message
unfolding has_magic decode_body
decode_message buf =
    if ltb (length buf) 36
    then err (codes "coco/queue: buffer too small for message header")
    else if not (has_magic buf)
    then err (codes "coco/queue: invalid message magic")
    else decode_body buf
