-- ===== src/Network/Batches.antt =====
-- How the client takes a batch apart, Source/ClientLib/Network/Private/Network.cpp, against how the
-- server puts it together.
use amalgam_engine.Prelude.{
  ℕ, zero, suc, ◌+◌, ◌%◌, ◌^◌, ◌≤◌, ◌<◌, ◌≡◌, refl, ap, ◌∙◌, true, false, Option, none, some, List,
  [], ◌∷◌, ◌++◌, length, take, drop, get_or, ltb, ◌==◌, if◌then◌else◌, arith, length-append,
}
use amalgam_engine.Prelude.Int.{ℤ, pos}
use amalgam_engine.Prelude.Map.{Bytes}
use amalgam_engine.Network.{Message, write16, read16}
use amalgam_engine.Network.ServerClient.{to_sint8}
use amalgam_engine.Network.ServerBatch.{Codec, frame, max_batch_size}

-- The loop of `processBatch` over the messages in a buffer. Each round moves the index on, so as
-- many rounds as there are bytes are enough.
unfoldable pub process_messages : ℕ → Bytes → ℕ → ℕ → List Message
unfolding read16
process_messages zero buffer index batch_size = []
process_messages (suc fuel) buffer index batch_size =
    let message_size = read16 (drop (index + 1) buffer) in
    let rest = process_messages fuel buffer (index + (3 + message_size)) batch_size in
    if ltb index batch_size
    then record {
      message_type = get_or (drop index buffer) 0 0;
      payload = take message_size (drop (index + 3) buffer);
    }
      ∷ rest
    else []

-- What `processBatch` hands on: the adjustment and its iteration to `adjustIfNeeded`, and the
-- messages to the message processor.
pub record Batch : Type 0 where
  pub adjustment : ℤ
  pub iteration : ℕ
  pub messages : List Message

-- The part of `processBatch` behind the size field: `bytes` follow the header, and `stale` is what
-- the buffer of the batch holds behind it. If the connection ends before all bytes have come,
-- nothing is handed on. `none`: bytes are written behind the end of `batchRecBuffer`, or the batch does
-- not decompress into `decompressedBatchRecBuffer` (a LOG_FATAL). Both have MAX_BATCH_SIZE bytes.
unfoldable pub read_batch : Codec → ℕ → Bytes → Bytes → Option (List Message)
unfolding process_messages
read_batch codec size_field bytes stale =
    let size = size_field % 2 ^ 15 in
    let received = take size bytes in
    if size == 0
    then some []
    else if ltb max_batch_size (length received)
    then none
    else if ltb (length bytes) size
    then some []
    else if ltb size_field (2 ^ 15)
    then some (process_messages size (received ++ stale) 0 size)
    else elim (codec.decompress max_batch_size received) [
      | none ↦ none
      | some batch ↦
          let whole = length batch % 2 ^ 16 in
          some (process_messages whole (batch ++ stale) 0 whole)
    ]

-- `processBatch`, of the header and the bytes behind it on the wire
unfoldable pub process_batch : Codec → Bytes → Bytes → Option Batch
unfolding read_batch read16 to_sint8
process_batch codec wire stale =
    elim (read_batch codec (read16 (drop 2 wire)) (drop 4 wire) stale) [
      | none ↦ none
      | some messages ↦ some (record {
        adjustment = to_sint8 (pos (get_or wire 0 0));
        iteration = get_or wire 1 0;
        messages = messages;
      })
    ]

unfoldable pub frames : List Message → Bytes
frames [] = []
frames (m ∷ ms) = frame m ++ frames ms

-- Every payload's size fits its field.
abbrev pub AllFit : List Message → Type 0
AllFit [] = Unit
AllFit (m ∷ ms) = (length m.payload < 2 ^ 16) × AllFit ms

pub read16-write16 : (n : ℕ) (rest : Bytes) → n < 2 ^ 16 → read16 (write16 n ++ rest) ≡ n
unfolding read16 write16
read16-write16 n rest small = omega arith

zero_plus : (j : ℕ) → 0 + j ≡ j
zero_plus j = omega arith

module _ {A : Type 0} where
  drop_of_nil : (i j : ℕ) → drop {A = A} i [] ≡ drop j []
  drop_of_nil zero zero = refl
  drop_of_nil zero (suc j) = refl
  drop_of_nil (suc i) zero = refl
  drop_of_nil (suc i) (suc j) = refl

  drop_add : (i j : ℕ) (xs : List A) → drop (i + j) xs ≡ drop j (drop i xs)
  drop_add zero j xs = ap (λ k. drop k xs) (zero_plus j)
  drop_add (suc i) j [] = drop_of_nil (suc i + j) j
  drop_add (suc i) j (x ∷ xs) =
      let e : suc i + j ≡ suc (i + j) = omega arith in ap (λ k. drop k (x ∷ xs)) e ∙ drop_add i j xs

  drop-append : (xs ys : List A) → drop (length xs) (xs ++ ys) ≡ ys
  drop-append [] ys = refl
  drop-append (x ∷ xs) ys = drop-append xs ys

  pub take-append : (xs ys : List A) → take (length xs) (xs ++ ys) ≡ xs
  take-append [] ys = refl
  take-append (x ∷ xs) ys = ap (λ zs. x ∷ zs) (take-append xs ys)

  pub take-length : (xs : List A) → take (length xs) xs ≡ xs
  take-length [] = refl
  take-length (x ∷ xs) = ap (λ zs. x ∷ zs) (take-length xs)

  pub append_assoc : (xs ys zs : List A) → (xs ++ ys) ++ zs ≡ xs ++ (ys ++ zs)
  append_assoc [] ys zs = refl
  append_assoc (x ∷ xs) ys zs = ap (λ ws. x ∷ ws) (append_assoc xs ys zs)

length-frame : (m : Message) → length (frame m) ≡ 3 + length m.payload
unfolding frame write16
length-frame m = omega arith

pub length-frames :
    (m : Message) (ms : List Message)
    → length (frames (m ∷ ms)) ≡ 3 + length m.payload + length (frames ms)
unfolding frames
length-frames m ms =
    length-append (frame m) (frames ms) ∙ ap (λ n. n + length (frames ms)) (length-frame m)

-- The messages of a batch fit their size fields if the batch does.
pub frames-AllFit : (ms : List Message) → length (frames ms) < 2 ^ 16 → AllFit ms
frames-AllFit [] small = tt
frames-AllFit (m ∷ ms) small =
    let size = length-frames m ms in (omega arith, frames-AllFit ms (omega arith))

-- The bytes of a framed message, as the client reads them.
framed :
    (m : Message) (ms : List Message) (stale : Bytes)
    → frames (m ∷ ms) ++ stale
      ≡ m.message_type
        ∷ (write16 (length m.payload % 2 ^ 16) ++ (m.payload ++ (frames ms ++ stale)))
unfolding frames frame write16
framed m ms stale =
    let head : Bytes → Bytes =
      λ rest. m.message_type ∷ (write16 (length m.payload % 2 ^ 16) ++ rest) in
    ap head (append_assoc m.payload (frames ms) stale)

module _ (m : Message) (ms : List Message) (buffer : Bytes) (index : ℕ) (stale : Bytes) where
  abbrev body : Bytes
  body = m.payload ++ (frames ms ++ stale)

  abbrev Starts : Type 0
  Starts = drop index buffer ≡ frames (m ∷ ms) ++ stale

  drop_header : Starts → drop (index + 3) buffer ≡ body
  unfolding write16
  drop_header e = drop_add index 3 buffer ∙ ap (drop 3) (e ∙ framed m ms stale)

  read_size :
      length m.payload < 2 ^ 16 → Starts → read16 (drop (index + 1) buffer) ≡ length m.payload
  unfolding write16
  read_size fit e =
      ap read16 (drop_add index 1 buffer ∙ ap (drop 1) (e ∙ framed m ms stale))
      ∙ (read16-write16 (length m.payload % 2 ^ 16) body (omega arith) ∙ small)
    where
      small : length m.payload % 2 ^ 16 ≡ length m.payload
      small = omega arith

  drop_message : Starts → drop (index + (3 + length m.payload)) buffer ≡ frames ms ++ stale
  drop_message e =
      let split : index + (3 + length m.payload) ≡ index + 3 + length m.payload = omega arith in
      ap (λ k. drop k buffer) split
      ∙ (drop_add (index + 3) (length m.payload) buffer
          ∙ (ap (drop (length m.payload)) (drop_header e)
              ∙ drop-append m.payload (frames ms ++ stale)))

pub process_messages-frames :
    (ms : List Message) (fuel : ℕ) (buffer : Bytes) (index batch_size : ℕ) (stale : Bytes)
    → AllFit ms
    → drop index buffer ≡ frames ms ++ stale
    → index + length (frames ms) ≡ batch_size
    → length (frames ms) ≤ fuel
    → process_messages fuel buffer index batch_size ≡ ms
unfolding process_messages frames
process_messages-frames [] zero buffer index size stale fit e f enough = refl
process_messages-frames (m ∷ ms) zero buffer index size stale fit e f enough =
    absurd (omega (arith, length-frames m ms))
process_messages-frames [] (suc fuel) buffer index size stale fit e f enough =
    let over : ltb index size ≡ false = ground arith in rw over refl
process_messages-frames (m ∷ ms) (suc fuel) buffer index size stale fit e f enough =
    let bytes = length-frames m ms in
    let under : ltb index size ≡ true = ground arith in
    let type_of : get_or (drop index buffer) 0 0 ≡ m.message_type =
      ap (λ b. get_or b 0 0) (e ∙ framed m ms stale) in
    let rest =
      process_messages-frames ms fuel buffer (index + (3 + length m.payload)) size stale fit.1
        (drop_message m ms buffer index stale e) (omega arith) (omega arith) in
    rw
      (
        under,
        type_of,
        read_size m ms buffer index stale fit.0 e,
        drop_header m ms buffer index stale e,
        take-append m.payload (frames ms ++ stale),
        rest,
      )
      refl
