-- ===== src/Engine/Message/Truncated.antt =====
-- A stored message that is cut short is not read.
use cocodb.Base.{
  ℕ, zero, suc, ◌+◌, ◌-◌, ◌<◌, ◌≤◌, ◌≡◌, refl, ap, true, [], ◌∷◌, ◌++◌, ltb, length, length-append,
  length-take, take, inl, inr, Bool-cases, ltb→lt, if_holds, arith,
}
use cocodb.Base.Text.{Text, codes}
use cocodb.Base.Result.{Result, ok, err}
use cocodb.Engine.Bytes.{Bytes, limit, put_uint, get_uint-put_uint, length-put_uint}
use cocodb.Engine.Message.{
  Message, sized, header, encode, read_sized, then_read, decode_body, decode_message,
}
use cocodb.Engine.Message.RoundTrip.{
  Fits, take_put, drop_put, enough_put, read_sized-sized, header_start,
}

abbrev pub IsErr : {A : Type 0} → Result A → Type 0
IsErr (ok a) = ⊥
IsErr (err e) = Unit

take_beyond : (n j : ℕ) (xs ys : Bytes) → n ≡ length xs + j → take n (xs ++ ys) ≡ xs ++ take j ys
take_beyond n j [] ys e = let same : n ≡ j = omega arith in ap (λ (i : ℕ). take i ys) same
take_beyond zero j (x ∷ xs) ys e = absurd (omega arith)
take_beyond (suc n) j (x ∷ xs) ys e = rw (take_beyond n j xs ys (omega arith)) refl

take_within : (n : ℕ) (xs ys : Bytes) → n ≤ length xs → take n (xs ++ ys) ≡ take n xs
take_within zero xs ys l = refl
take_within (suc n) [] ys l = absurd (omega arith)
take_within (suc n) (x ∷ xs) ys l = rw (take_within n xs ys (omega arith)) refl

length-sized : (k : ℕ) (bs : Bytes) → length (sized k bs) ≡ k + length bs
unfolding sized
length-sized k bs =
    omega (arith, length-append (put_uint k (length bs)) bs, length-put_uint k (length bs))

then_read-IsErr :
    {A : Type 0} (r : Result A) (next : A → Result Message) → IsErr r → IsErr (then_read r next)
then_read-IsErr (ok a) next h = elim h [ ]
then_read-IsErr (err e) next h = tt

module _ (k : ℕ) (part : Text) (bs : Bytes) (fits : length bs < limit k) where
  -- Cut within the length.
  cut_length : (rest : Bytes) → length rest < k → IsErr (read_sized k part rest)
  unfolding read_sized
  cut_length rest l =
      if_holds IsErr (ltb (length rest) k) _ _ (λ t. tt) (λ t. absurd (ground arith))

  -- Cut within the bytes.
  cut_data :
      (cs : Bytes)
      → length cs < length bs
      → IsErr (read_sized k part (put_uint k (length bs) ++ cs))
  unfolding read_sized
  cut_data cs l =
      rw
        (
          enough_put k (length bs) cs,
          take_put k (length bs) cs,
          drop_put k (length bs) cs,
          get_uint-put_uint k (length bs) fits,
        )
        (if_holds IsErr (ltb (length cs) (length bs)) _ _ (λ t. tt) (λ t. absurd (ground arith)))

  cut_sized : (n : ℕ) → n < k + length bs → IsErr (read_sized k part (take n (sized k bs)))
  unfolding sized
  cut_sized n l = elim (Bool-cases (ltb n k)) [
    | inl t ↦
        cut_length (take n (put_uint k (length bs) ++ bs))
          (omega (arith, ltb→lt n k t, length-take n (put_uint k (length bs) ++ bs)))
    | inr t ↦
        let over : k ≤ n = ground arith in
        rw
          (take_beyond n (n - k) (put_uint k (length bs)) bs
            (omega (arith, length-put_uint k (length bs))))
          (cut_data (take (n - k) bs) (omega (arith, length-take (n - k) bs)))
  ]

  -- Cut within or behind this part.
  cut_part :
      (n : ℕ) (rest : Bytes) (next : Bytes × Bytes → Result Message)
      → n < k + length bs + length rest
      → ((j : ℕ) → j < length rest → IsErr (next (bs, take j rest)))
      → IsErr (then_read (read_sized k part (take n (sized k bs ++ rest))) next)
  cut_part n rest next l later = elim (Bool-cases (ltb n (k + length bs))) [
    | inl t ↦
        let within : n ≤ length (sized k bs) =
          omega (arith, ltb→lt n (k + length bs) t, length-sized k bs) in
        rw (take_within n (sized k bs) rest within)
          (then_read-IsErr _ next (cut_sized n (ltb→lt n (k + length bs) t)))
    | inr t ↦
        let over : k + length bs ≤ n = ground arith in
        let j = n - (k + length bs) in
        rw
          (
            take_beyond n j (sized k bs) rest (omega (arith, length-sized k bs)),
            read_sized-sized k part bs (take j rest) fits,
          )
          (later j (omega arith))
  ]

module _ (m : Message) (f : Fits m) where
  abbrev after_dedup : Bytes
  after_dedup = sized 4 m.payload

  abbrev after_queue : Bytes
  after_queue = sized 2 m.dedup_id ++ after_dedup

  abbrev after_id : Bytes
  after_id = sized 2 m.queue ++ after_queue

  abbrev body : Bytes
  body = sized 2 m.id ++ after_id

  length_part :
      (k : ℕ) (bs rest : Bytes) → length (sized k bs ++ rest) ≡ k + length bs + length rest
  length_part k bs rest = omega (arith, length-append (sized k bs) rest, length-sized k bs)

  decode_body-IsErr : (n : ℕ) → n < length body → IsErr (decode_body (header m (take n body)))
  unfolding decode_body
  decode_body-IsErr n l =
      let (state, priority, magic, dropped, big) = header_start m (take n body) in
      rw dropped (
        cut_part 2 (codes "ID") m.id f.id_short n after_id _
          (omega (arith, length_part 2 m.id after_id))
          (λ i li.
            cut_part 2 (codes "Queue") m.queue f.queue_short i after_queue _
              (omega (arith, length_part 2 m.queue after_queue))
              (λ j lj.
                cut_part 2 (codes "DedupID") m.dedup_id f.dedup_short j after_dedup _
                  (omega (arith, length_part 2 m.dedup_id after_dedup))
                  (λ k lk. then_read-IsErr _ _ (
                    cut_sized 4 (codes "Payload") m.payload f.payload_short k
                      (omega (arith, length-sized 4 m.payload)))))))

  take-header :
      (j : ℕ) (rest : Bytes) (n : ℕ) → n ≡ 36 + j → take n (header m rest) ≡ header m (take j rest)
  unfolding header put_uint
  take-header j rest n e = take_beyond n j (header m []) rest e

  length-header : (rest : Bytes) → length (header m rest) ≡ 36 + length rest
  unfolding header put_uint
  length-header rest = omega arith

  -- Of a message that fits the format, no proper prefix of its bytes is read as a message.
  pub decode_message-IsErr :
      (n : ℕ) → n < length (encode m) → IsErr (decode_message (take n (encode m)))
  unfolding decode_message encode put_uint
  decode_message-IsErr n l = elim (Bool-cases (ltb n 36)) [
    | inl t ↦
        let short : ltb (length (take n (header m body))) 36 ≡ true =
          ground (arith, length-take n (header m body)) in
        rw short tt
    | inr t ↦
        let j = n - 36 in
        let shape = take-header j body n (ground arith) in
        let (state, priority, magic, dropped, big) = header_start m (take j body) in
        rw (shape, big, magic) (decode_body-IsErr j (omega (arith, length-header body)))
  ]
