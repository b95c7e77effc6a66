-- ===== src/Network/ServerClient.antt =====
-- Source/ServerLib/Network/Private/Client.cpp, the server's view of one client, with the constants of
-- Source/EngineSupplementExamples/Server/Config/Public/Config.h. The circular buffer of tick
-- differences is a submodule and a parameter. `float` sums of at most 15 `Sint8` are exact, and
-- their quotient is nearer to its value than that is to the next integer, so the average cut to an
-- `int` is the integer quotient toward 0. A failed AM_ASSERT only logs.
use amalgam_engine.Prelude.{
  ℕ, zero, suc, ◌+◌, ◌-◌, ◌*◌, ◌/◌, ◌%◌, ◌^◌, ◌<◌, ◌≡◌, Bool, ◌&&◌, Option, none, List, ltb, ◌==◌,
  if◌then◌else◌,
}
use amalgam_engine.Prelude.Int.{ℤ, pos, negsuc, pos_part, neg_part, ◌+ℤ◌, ◌-ℤ◌, ltb_ℤ, leb_ℤ}
use amalgam_engine.Prelude.Map.{Bytes}

-- Ticks have 1/30 s: half a second is 15 of them, and the 4 s until a timeout are 120.
abbrev pub tickdiff_history_length : ℕ
tickdiff_history_length = 15

abbrev pub tickdiff_target : ℤ
tickdiff_target = pos 2

abbrev pub tickdiff_max_bound_lower : ℤ
tickdiff_max_bound_lower = negsuc 127

abbrev pub tickdiff_max_bound_upper : ℤ
tickdiff_max_bound_upper = pos 120

abbrev pub min_fresh_diffs : ℕ
min_fresh_diffs = 3

-- The two comparisons with TICKDIFF_ACCEPTABLE_BOUND_LOWER and TICKDIFF_ACCEPTABLE_BOUND_UPPER.
abbrev pub is_acceptable : ℤ → Bool
is_acceptable diff = leb_ℤ (pos 1) diff && leb_ℤ diff (pos 3)

-- `CircularBuffer<Sint8, TICKDIFF_HISTORY_LENGTH>`: position 0 has the element pushed last, and a
-- push moves the others on by one position.
pub record CircularBuffer (H : Type 0) : Type 0 where
  pub push : H → ℤ → H
  pub at : H → ℕ → ℤ
  pub at_pushed : (h : H) (x : ℤ) → at (push h x) 0 ≡ x
  pub at_moved :
      (h : H) (x : ℤ) (i : ℕ) → suc i < tickdiff_history_length → at (push h x) (suc i) ≡ at h i

pub record QueuedMessage : Type 0 where
  pub message : Bytes
  pub tick : ℕ

-- `Client`, less the buffers of a message under way. `P` is the type of peers, and `none` the null
-- pointer.
pub record Client (H P : Type 0) : Type 0 where
  pub peer : Option P
  pub send_queue : List QueuedMessage
  pub latest_sent_sim_tick : ℕ
  pub tick_diff_history : H
  pub num_fresh_diffs : ℕ
  pub latest_adj_iteration : ℕ

-- A cast to `Sint8`.
unfoldable pub to_sint8 : ℤ → ℤ
to_sint8 z =
    let bits = (pos_part z + 255 * neg_part z) % 2 ^ 8 in
    if ltb bits 128 then pos bits else negsuc (255 - bits)

-- A quotient cut toward 0.
unfoldable pub trunc_quotient : ℤ → ℕ → ℤ
trunc_quotient (pos a) n = pos (a / n)
trunc_quotient (negsuc a) n = if suc a / n == 0 then pos 0 else negsuc (suc a / n - 1)

module _ {H : Type 0} (buf : CircularBuffer H) where
  -- The loop that adds up the fresh differences.
  unfoldable pub sum_fresh : H → ℕ → ℤ
  sum_fresh h zero = pos 0
  sum_fresh h (suc i) = sum_fresh h i +ℤ buf.at h i

  -- `truncatedAverage`
  unfoldable pub truncated_average : H → ℕ → ℤ
  unfolding sum_fresh trunc_quotient
  truncated_average h n = trunc_quotient (sum_fresh h n) n

  -- `calcAdjustment`
  unfoldable pub calc_adjustment : H → ℕ → ℤ
  unfolding truncated_average to_sint8
  calc_adjustment h n =
      if ltb n min_fresh_diffs
      then pos 0
      else if is_acceptable (buf.at h 0)
      then pos 0
      else if is_acceptable (truncated_average h n)
      then pos 0
      else if ltb_ℤ (buf.at h 0) tickdiff_target && ltb_ℤ (buf.at h 1) (buf.at h 0)
      then pos 0
      else to_sint8 (tickdiff_target -ℤ truncated_average h n)

module _ {H P : Type 0} (buf : CircularBuffer H) where
  -- `recordTickDiff`
  unfoldable pub record_tick_diff : Client H P → ℤ → Client H P
  record_tick_diff c diff =
      if leb_ℤ tickdiff_max_bound_lower diff && leb_ℤ diff tickdiff_max_bound_upper
      then record c {
        tick_diff_history = buf.push c.tick_diff_history (to_sint8 diff);
        num_fresh_diffs =
            if ltb c.num_fresh_diffs tickdiff_history_length
            then c.num_fresh_diffs + 1
            else c.num_fresh_diffs;
      }
      else record c { peer = none }

  -- `getTickAdjustment`: the adjustment and its iteration.
  unfoldable pub get_tick_adjustment : Client H P → ℤ × ℕ
  unfolding calc_adjustment
  get_tick_adjustment c =
      (calc_adjustment buf c.tick_diff_history c.num_fresh_diffs, c.latest_adj_iteration)

-- The part of `receiveMessage` that processes the adjustment iteration of a header.
unfoldable pub receive_iteration : {H P : Type 0} → Client H P → ℕ → Client H P
receive_iteration c received =
    if received == (c.latest_adj_iteration + 1) % 2 ^ 8
    then record c {
      latest_adj_iteration = (c.latest_adj_iteration + 1) % 2 ^ 8;
      num_fresh_diffs = 0;
    }
    else c
