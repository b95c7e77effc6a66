-- ===== src/EventSorter.antt =====
-- Source/ServerLib/Simulation/Public/EventSorter.h. `currentTick` is a `Uint32`; the upper bound is
-- computed in 64 bits and cut back to 32. A queue is a list, oldest event first.
pub mod Agenda
mod Tests
use amalgam_engine.Prelude.{
  ℕ, ◌+◌, ◌-◌, ◌%◌, ◌^◌, List, [], ◌∷◌, ◌++◌, ltb, if◌then◌else◌, get_or, set, replicate,
}

pub data ValidityResult : Type 0 where
  too_low valid too_high : ValidityResult

abbrev pub buffer_size : ℕ
buffer_size = 10

pub record EventSorter (A : Type 0) : Type 0 where
  pub queue_buffer : List (List A)
  pub current_tick : ℕ

module _ {A : Type 0} where
  unfoldable pub init : EventSorter A
  init = record { queue_buffer = replicate buffer_size []; current_tick = 0 }

  -- `getCurrentQueue`
  unfoldable pub get_current_queue : EventSorter A → List A
  get_current_queue s = get_or s.queue_buffer (s.current_tick % buffer_size) []

  -- A client pops the current queue until it is empty.
  unfoldable pub drain : EventSorter A → EventSorter A
  drain s = record s { queue_buffer = set s.queue_buffer (s.current_tick % buffer_size) [] }

  -- `advance`
  unfoldable pub advance : EventSorter A → EventSorter A
  advance s = record s { current_tick = (s.current_tick + 1) % 2 ^ 32 }

  -- `isTickValid`
  unfoldable pub is_tick_valid : EventSorter A → ℕ → ValidityResult
  is_tick_valid s tick =
      let upper_bound = (s.current_tick + buffer_size - 1) % 2 ^ 32 in
      if ltb tick s.current_tick then too_low else if ltb upper_bound tick then too_high else valid

  -- `queueBuffer[tickNum % BUFFER_SIZE].push(event)`
  unfoldable pub enqueue : EventSorter A → A → ℕ → EventSorter A
  enqueue s event tick =
      let i = tick % buffer_size in
      record s { queue_buffer = set s.queue_buffer i (get_or s.queue_buffer i [] ++ event ∷ []) }

  -- `push`
  unfoldable pub push : EventSorter A → A → ℕ → EventSorter A × ValidityResult
  unfolding is_tick_valid enqueue
  push s event tick = elim (is_tick_valid s tick) [
    | valid ↦ (enqueue s event tick, valid)
    | too_low ↦ (s, too_low)
    | too_high ↦ (s, too_high)
  ]
