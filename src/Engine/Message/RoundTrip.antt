-- ===== src/Engine/Message/RoundTrip.antt =====
-- What `Encode` writes, `DecodeMessage` reads.
use cocodb.Base.{
  ℕ, ◌<◌, ◌≡◌, refl, sym, subst, true, false, [], ◌++◌, ltb, length, length-append, take, drop,
  append-nil, append_assoc, arith,
}
use cocodb.Base.Text.{Text, codes}
use cocodb.Base.Result.{ok}
use cocodb.Engine.Bytes.{
  Bytes, limit, put_uint, get_uint, get_uint-put_uint, length-put_uint, take_prefix, drop_prefix,
}
use cocodb.Engine.Int64.{ℤ, IsInt64, to_uint64, of_uint64, to_uint64-bound, of_uint64-to_uint64}
use cocodb.Engine.Message.{
  Message, sized, header, encode, read_data, read_sized, field, has_magic, decode_body,
  decode_message,
}

-- The sizes that the fields of the format hold.
pub record Fits (m : Message) : Type 0 where
  pub id_short : length m.id < limit 2
  pub queue_short : length m.queue < limit 2
  pub dedup_short : length m.dedup_id < limit 2
  pub payload_short : length m.payload < limit 4
  pub retries_small : m.retry_count < limit 4
  pub max_small : m.max_retries < limit 4
  pub visible_int64 : IsInt64 m.visible_at
  pub created_int64 : IsInt64 m.created_at
  pub expire_int64 : IsInt64 m.expire_at

pub take_put : (k n : ℕ) (rest : Bytes) → take k (put_uint k n ++ rest) ≡ put_uint k n
take_put k n rest =
    subst (λ (l : ℕ). take l (put_uint k n ++ rest) ≡ put_uint k n) (length-put_uint k n)
      (take_prefix (put_uint k n) rest)

pub drop_put : (k n : ℕ) (rest : Bytes) → drop k (put_uint k n ++ rest) ≡ rest
drop_put k n rest =
    subst (λ (l : ℕ). drop l (put_uint k n ++ rest) ≡ rest) (length-put_uint k n)
      (drop_prefix (put_uint k n) rest)

enough : (xs ys : Bytes) → ltb (length (xs ++ ys)) (length xs) ≡ false
enough xs ys = ground (arith, length-append xs ys)

read_data-prefix :
    (part : Text) (bs rest : Bytes) → read_data part (length bs) (bs ++ rest) ≡ ok (bs, rest)
read_data-prefix part bs rest = rw (enough bs rest, take_prefix bs rest, drop_prefix bs rest) refl

pub enough_put : (k n : ℕ) (rest : Bytes) → ltb (length (put_uint k n ++ rest)) k ≡ false
enough_put k n rest = ground (arith, length-append (put_uint k n) rest, length-put_uint k n)

pub read_sized-sized :
    (k : ℕ) (part : Text) (bs rest : Bytes)
    → length bs < limit k
    → read_sized k part (sized k bs ++ rest) ≡ ok (bs, rest)
unfolding read_sized sized
read_sized-sized k part bs rest h =
    rw
      (
        append_assoc (put_uint k (length bs)) bs rest,
        enough_put k (length bs) (bs ++ rest),
        take_put k (length bs) (bs ++ rest),
        drop_put k (length bs) (bs ++ rest),
        get_uint-put_uint k (length bs) h,
      )
      (read_data-prefix part bs rest)

module _ (m : Message) (body : Bytes) where
  field-header :
      (start k : ℕ) (n : ℕ)
      → take k (drop start (header m body)) ≡ put_uint k n
      → n < limit k
      → field start k (header m body) ≡ n
  unfolding field
  field-header start k n e h = rw (e, get_uint-put_uint k n h) refl

  field_int64 :
      (start : ℕ) (x : ℤ)
      → take 8 (drop start (header m body)) ≡ put_uint 8 (to_uint64 x)
      → IsInt64 x
      → of_uint64 (field start 8 (header m body)) ≡ x
  field_int64 start x e h =
      rw (field-header start 8 (to_uint64 x) e (to_uint64-bound x)) (of_uint64-to_uint64 x h)

  -- The numbers of the header are at their places.
  header_fields :
      Fits m
      → (field 4 4 (header m body) ≡ m.retry_count)
        × (field 8 4 (header m body) ≡ m.max_retries)
        × (of_uint64 (field 12 8 (header m body)) ≡ m.visible_at)
        × (of_uint64 (field 20 8 (header m body)) ≡ m.created_at)
        × (of_uint64 (field 28 8 (header m body)) ≡ m.expire_at)
  unfolding header put_uint
  header_fields f = (
    field-header 4 4 m.retry_count refl f.retries_small,
    field-header 8 4 m.max_retries refl f.max_small,
    field_int64 12 m.visible_at refl f.visible_int64,
    field_int64 20 m.created_at refl f.created_int64,
    field_int64 28 m.expire_at refl f.expire_int64,
  )

  pub header_start :
      (field 2 1 (header m body) ≡ m.state)
      × (field 3 1 (header m body) ≡ m.priority)
      × (has_magic (header m body) ≡ true)
      × (drop 36 (header m body) ≡ body)
      × (ltb (length (header m body)) 36 ≡ false)
  unfolding header put_uint field get_uint has_magic
  header_start = (omega arith, omega arith, refl, refl, ground arith)

decode_body-encode : (m : Message) → Fits m → decode_body (encode m) ≡ ok m
unfolding decode_body encode
decode_body-encode m f =
    let body = sized 2 m.id ++ (sized 2 m.queue ++ (sized 2 m.dedup_id ++ sized 4 m.payload)) in
    let (state, priority, magic, dropped, big) = header_start m body in
    let (retries, max, visible, created, expire) = header_fields m body f in
    rw
      (
        dropped,
        state,
        priority,
        retries,
        max,
        visible,
        created,
        expire,
        read_sized-sized 2 (codes "ID") m.id
            (sized 2 m.queue ++ (sized 2 m.dedup_id ++ sized 4 m.payload)) f.id_short,
        read_sized-sized 2 (codes "Queue") m.queue (sized 2 m.dedup_id ++ sized 4 m.payload)
            f.queue_short,
        read_sized-sized 2 (codes "DedupID") m.dedup_id (sized 4 m.payload) f.dedup_short,
        sym (append-nil (sized 4 m.payload)),
        read_sized-sized 4 (codes "Payload") m.payload [] f.payload_short,
      )
      refl

-- A message whose texts and numbers fit the format is read back as it was written.
pub decode_message-encode : (m : Message) → Fits m → decode_message (encode m) ≡ ok m
unfolding decode_message encode
decode_message-encode m f =
    let body = sized 2 m.id ++ (sized 2 m.queue ++ (sized 2 m.dedup_id ++ sized 4 m.payload)) in
    let (state, priority, magic, dropped, big) = header_start m body in
    rw (big, magic) (decode_body-encode m f)
