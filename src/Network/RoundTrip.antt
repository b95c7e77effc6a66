-- ===== src/Network/RoundTrip.antt =====
-- The batches that the server sends, as the client reads them: Client.cpp of the server and
-- `processBatch` of the client's Network.cpp.
use amalgam_engine.Prelude.{
  ℕ, ◌+◌, ◌%◌, ◌^◌, ◌≤◌, ◌<◌, ◌≡◌, refl, sym, ap, some, Bool, true, false, ◌&&◌, List, [], ◌∷◌,
  ◌++◌, length, drop, ltb, ◌==◌, arith, inl, inr, Bool-cases,
}
use amalgam_engine.Prelude.Int.{ℤ, pos, ◌-ℤ◌, ltb_ℤ, negsuc}
use amalgam_engine.Prelude.Map.{Bytes}
use amalgam_engine.Network.{Message, write16}
use amalgam_engine.Network.ServerClient.{
  CircularBuffer, Client, get_tick_adjustment, calc_adjustment, to_sint8, min_fresh_diffs,
  is_acceptable, truncated_average, tickdiff_target,
}
use amalgam_engine.Network.Adjustment.{gated}
use amalgam_engine.Network.ServerBatch.{Codec, max_batch_size, wire_bytes, fill_header, to_uint8}
use amalgam_engine.Network.Batches.{
  process_messages, process_batch, frames, AllFit, read16-write16, process_messages-frames,
  read_batch, take-length, length-frames, frames-AllFit,
}

-- A cast to `Sint8` gives what it gives to the number that it gave, cast to `Uint8`.
to_sint8_again : (z : ℤ) → to_sint8 (pos (to_uint8 (to_sint8 z))) ≡ to_sint8 z
unfolding to_sint8
to_sint8_again (pos n) = ground arith
to_sint8_again (negsuc n) = ground arith

gated_sint8 : (a b c d : Bool) (z : ℤ) → gated a b c d (to_sint8 z) ≡ to_sint8 (gated a b c d z)
unfolding to_sint8
gated_sint8 true b c d z = refl
gated_sint8 false true c d z = refl
gated_sint8 false false true d z = refl
gated_sint8 false false false true z = refl
gated_sint8 false false false false z = refl

-- Every adjustment is one that was cast to `Sint8`.
calc_adjustment_sint8 :
    {H : Type 0} (buf : CircularBuffer H) (h : H) (n : ℕ)
    → (z : ℤ) × (calc_adjustment buf h n ≡ to_sint8 z)
unfolding calc_adjustment
calc_adjustment_sint8 buf h n = (
  gated (ltb n min_fresh_diffs) (is_acceptable (buf.at h 0))
      (is_acceptable (truncated_average buf h n))
      (ltb_ℤ (buf.at h 0) tickdiff_target && ltb_ℤ (buf.at h 1) (buf.at h 0))
      (tickdiff_target -ℤ truncated_average buf h n),
  gated_sint8 (ltb n min_fresh_diffs) (is_acceptable (buf.at h 0))
      (is_acceptable (truncated_average buf h n))
      (ltb_ℤ (buf.at h 0) tickdiff_target && ltb_ℤ (buf.at h 1) (buf.at h 0))
      (tickdiff_target -ℤ truncated_average buf h n),
)

module _ {H : Type 0} (buf : CircularBuffer H) where
  pub calc_adjustment_again :
      (h : H) (n : ℕ)
      → to_sint8 (pos (to_uint8 (calc_adjustment buf h n))) ≡ calc_adjustment buf h n
  calc_adjustment_again h n = let (z, e) = calc_adjustment_sint8 buf h n in rw e (to_sint8_again z)

no_frames : (ms : List Message) → length (frames ms) ≡ 0 → ms ≡ []
no_frames [] e = refl
no_frames (m ∷ ms) e = absurd (omega (arith, length-frames m ms))

module _ (codec : Codec) (ms : List Message) (stale : Bytes) where
  all_processed :
      AllFit ms
      → process_messages (length (frames ms)) (frames ms ++ stale) 0 (length (frames ms)) ≡ ms
  all_processed fit =
      process_messages-frames ms (length (frames ms)) (frames ms ++ stale) 0 (length (frames ms))
        stale fit refl (omega arith) (omega arith)

  read_batch_plain :
      AllFit ms
      → length (frames ms) ≤ max_batch_size
      → read_batch codec (length (frames ms)) (frames ms) stale ≡ some ms
  unfolding read_batch
  read_batch_plain fit small = elim (Bool-cases (length (frames ms) == 0)) [
    | inl empty ↦
        let whole : length (frames ms) % 2 ^ 15 ≡ length (frames ms) = omega arith in
        rw (whole, empty) (ap some (sym (no_frames ms (ground arith))))
    | inr some_bytes ↦
        let whole : length (frames ms) % 2 ^ 15 ≡ length (frames ms) = omega arith in
        let here : ltb (length (frames ms)) (length (frames ms)) ≡ false = ground arith in
        let room : ltb max_batch_size (length (frames ms)) ≡ false = ground arith in
        let plain : ltb (length (frames ms)) (2 ^ 15) ≡ true = ground arith in
        rw (whole, some_bytes, take-length (frames ms), room, here, plain)
          (ap some (all_processed fit))
  ]

  read_batch_compressed :
      AllFit ms
      → 0 < length (frames ms)
      → length (frames ms) ≤ max_batch_size
      → length (codec.compress (frames ms)) ≤ max_batch_size
      → read_batch codec
          (length (codec.compress (frames ms)) + 2 ^ 15)
          (codec.compress (frames ms))
          stale
        ≡ some ms
  unfolding read_batch
  read_batch_compressed fit some_bytes sized small =
      let n = length (codec.compress (frames ms)) in
      let more = codec.compress_size (frames ms) some_bytes in
      let field : (n + 2 ^ 15) % 2 ^ 15 ≡ n = omega arith in
      let full : n == 0 ≡ false = ground arith in
      let room : ltb max_batch_size n ≡ false = ground arith in
      let over : ltb (n + 2 ^ 15) (2 ^ 15) ≡ false = ground arith in
      let here : ltb n n ≡ false = ground arith in
      let whole : length (frames ms) % 2 ^ 16 ≡ length (frames ms) = omega arith in
      rw
        (
          field,
          full,
          take-length (codec.compress (frames ms)),
          room,
          here,
          over,
          codec.compress_inverse max_batch_size (frames ms) sized,
          whole,
        )
        (ap some (all_processed fit))

drop-write16 : (f : ℕ) (bytes : Bytes) → drop 2 (write16 f ++ bytes) ≡ bytes
unfolding write16
drop-write16 f bytes = refl

process_batch_wire :
    (codec : Codec) (a i f : ℕ) (bytes stale : Bytes) (ms : List Message)
    → f < 2 ^ 16
    → read_batch codec f bytes stale ≡ some ms
    → process_batch codec (a ∷ i ∷ write16 f ++ bytes) stale
      ≡ some (record { adjustment = to_sint8 (pos a); iteration = i; messages = ms })
unfolding process_batch
process_batch_wire codec a i f bytes stale ms small read =
    let size = read16-write16 f bytes small in
    let behind : drop 4 (a ∷ i ∷ write16 f ++ bytes) ≡ bytes = drop-write16 f bytes in
    rw (process_batch, size, behind, read) refl

module _ {H P : Type 0} (buf : CircularBuffer H) (codec : Codec) where
  -- What the client reads of a batch of framed messages is the adjustment and the iteration that
  -- the server meant, and exactly the messages, compressed or not, whatever its buffer held before:
  -- if the batch and the compressed batch have no more bytes than the client's buffers.
  pub process_batch-wire_bytes :
      (c : Client H P) (ms : List Message) (stale : Bytes)
      → length (frames ms) ≤ max_batch_size
      → length (codec.compress (frames ms)) ≤ max_batch_size
      → process_batch codec (wire_bytes buf codec c (frames ms)) stale
        ≡ some (record {
          adjustment = (get_tick_adjustment buf c).0;
          iteration = (get_tick_adjustment buf c).1;
          messages = ms;
        })
  unfolding wire_bytes fill_header get_tick_adjustment
  process_batch-wire_bytes c ms stale sized small =
      let fit = frames-AllFit ms (omega arith) in
      elim (Bool-cases (ltb 50 (length (frames ms)))) [
        | inl large ↦
            let n = length (codec.compress (frames ms)) in
            let field : n % 2 ^ 15 + 2 ^ 15 ≡ n + 2 ^ 15 = omega arith in
            let read =
              process_batch_wire codec
                (to_uint8 (calc_adjustment buf c.tick_diff_history c.num_fresh_diffs))
                c.latest_adj_iteration (n + 2 ^ 15) (codec.compress (frames ms)) stale ms
                (omega arith)
                (read_batch_compressed codec ms stale fit (ground arith) sized small) in
            rw
              (
                wire_bytes,
                large,
                fill_header,
                get_tick_adjustment,
                field,
                read,
                calc_adjustment_again buf c.tick_diff_history c.num_fresh_diffs,
              )
              refl
        | inr short ↦
            let n = length (frames ms) in
            let few : n < 51 = ground arith in
            let field : n % 2 ^ 16 ≡ n = omega arith in
            let read =
              process_batch_wire codec
                (to_uint8 (calc_adjustment buf c.tick_diff_history c.num_fresh_diffs))
                c.latest_adj_iteration n (frames ms) stale ms (omega arith)
                (read_batch_plain codec ms stale fit sized) in
            rw
              (
                wire_bytes,
                short,
                fill_header,
                get_tick_adjustment,
                field,
                read,
                calc_adjustment_again buf c.tick_diff_history c.num_fresh_diffs,
              )
              refl
      ]
