-- ===== src/EventSorter/Agenda.antt =====
-- The sorter as an agenda: the events that are waiting for each tick, in the order of their arrival.
use native.Mathlib.Decide.{ℕ_discrete}
use amalgam_engine.Prelude.{
  ℕ, ◌+◌, ◌%◌, ◌^◌, ◌≤◌, ◌<◌, ◌≡◌, ◌≢◌, refl, ap, sym, ◌∙◌, subst, inl, inr, Bool, true, false,
  ◌&&◌, List, [], ◌∷◌, ◌++◌, ltb, leb, ◌==◌, if◌then◌else◌, length, get_or, set, arith, Bool-cases,
  length-set, get_or-set_self, get_or-set_ne,
}
use amalgam_engine.EventSorter.{
  ValidityResult, too_low, valid, too_high, buffer_size, EventSorter, get_current_queue, drain,
  advance, is_tick_valid, enqueue, push,
}

module _ {A : Type 0} where
  -- The ten queues are there, and the next ten ticks are 32-bit numbers.
  pub record IsValid (s : EventSorter A) : Type 0 where
    pub sized : length s.queue_buffer ≡ buffer_size
    pub no_wrap : s.current_tick + buffer_size ≤ 2 ^ 32

  abbrev pub in_window : EventSorter A → ℕ → Bool
  in_window s t = leb s.current_tick t && ltb t (s.current_tick + buffer_size)

  -- The abstract view.
  abbrev pub agenda : EventSorter A → ℕ → List A
  agenda s t = if in_window s t then get_or s.queue_buffer (t % buffer_size) [] else []

  -- A sorter accepts exactly the ticks of its window.
  pub is_tick_valid_iff :
      (s : EventSorter A) (t : ℕ)
      → IsValid s
      → is_tick_valid s t ≡ (
          if ltb t s.current_tick
          then too_low
          else (if ltb t (s.current_tick + buffer_size) then valid else too_high))
  unfolding is_tick_valid
  is_tick_valid_iff s t w = ground arith

  queue-enqueue :
      (s : EventSorter A) (e : A) (t u : ℕ)
      → IsValid s
      → in_window s t ≡ true
      → in_window s u ≡ true
      → get_or (enqueue s e t).queue_buffer (u % buffer_size) [] ≡ (
          if u == t
          then get_or s.queue_buffer (u % buffer_size) [] ++ e ∷ []
          else get_or s.queue_buffer (u % buffer_size) [])
  unfolding enqueue
  queue-enqueue s e t u w a b = elim (ℕ_discrete t u) [
    | yes same ↦
        subst
          (λ n. get_or (enqueue s e t).queue_buffer (n % buffer_size) [] ≡ (
            if n == t
            then get_or s.queue_buffer (n % buffer_size) [] ++ e ∷ []
            else get_or s.queue_buffer (n % buffer_size) []))
          same
          (get_or-set_self s.queue_buffer (t % buffer_size) _ [] (omega (arith, w.sized)) ∙ hit)
    | no ne ↦
        get_or-set_ne s.queue_buffer (t % buffer_size) (u % buffer_size) _ [] (apart ne) ∙ miss ne
  ]
    where
      hit : get_or s.queue_buffer (t % buffer_size) [] ++ e ∷ [] ≡ (
          if t == t
          then get_or s.queue_buffer (t % buffer_size) [] ++ e ∷ []
          else get_or s.queue_buffer (t % buffer_size) [])
      hit = ground arith

      miss :
          t ≢ u
          → get_or s.queue_buffer (u % buffer_size) [] ≡ (
              if u == t
              then get_or s.queue_buffer (u % buffer_size) [] ++ e ∷ []
              else get_or s.queue_buffer (u % buffer_size) [])
      miss ne = ground arith

      bounds :
          (n : ℕ) → in_window s n ≡ true → (s.current_tick ≤ n) × (n < s.current_tick + buffer_size)
      bounds n h = ground arith

      apart : t ≢ u → t % buffer_size ≢ u % buffer_size
      apart ne = let p = bounds t a in let q = bounds u b in omega arith

  push_accepted :
      (s : EventSorter A) (e : A) (t : ℕ)
      → is_tick_valid s t ≡ valid
      → ◌≡◌ {A = EventSorter A × ValidityResult} (enqueue s e t, valid) (push s e t)
  unfolding push
  push_accepted s e t h = ground arith

  push_rejected :
      (s : EventSorter A) (e : A) (t : ℕ)
      → is_tick_valid s t ≢ valid
      → ◌≡◌ {A = EventSorter A × ValidityResult} (s, is_tick_valid s t) (push s e t)
  unfolding push
  push_rejected s e t h = ground arith

  current_tick-enqueue :
      (s : EventSorter A) (e : A) (t : ℕ) → (enqueue s e t).current_tick ≡ s.current_tick
  unfolding enqueue
  current_tick-enqueue s e t = refl

  -- `push` of a valid sorter puts an event whose tick is in the window at the end of that tick's
  -- agenda and changes no other tick; outside the window it changes nothing. Its result says which.
  pub push_refines :
      (s : EventSorter A) (e : A) (t : ℕ)
      → IsValid s
      → ((push s e t).1 ≡ is_tick_valid s t)
        × ((u : ℕ)
            → agenda (push s e t).0 u
              ≡ (if in_window s t && u == t then agenda s u ++ e ∷ [] else agenda s u))
        × IsValid (push s e t).0
  push_refines s e t w = elim (Bool-cases (in_window s t)) [
    | inl inside ↦ subst Goal (push_accepted s e t (accepts inside)) (
      sym (accepts inside),
      λ u. added inside u,
      record {
        sized = unfold enqueue in (length-set s.queue_buffer (t % buffer_size) _ ∙ w.sized);
        no_wrap = unfold enqueue in w.no_wrap;
      },
    )
    | inr outside ↦
        subst Goal (push_rejected s e t (refused outside)) (refl, λ u. same outside u, w)
  ]
    where
      Goal : EventSorter A × ValidityResult → Type 0
      Goal r =
          (r.1 ≡ is_tick_valid s t)
          × ((u : ℕ)
              → agenda r.0 u
                ≡ (if in_window s t && u == t then agenda s u ++ e ∷ [] else agenda s u))
          × IsValid r.0

      accepts : in_window s t ≡ true → is_tick_valid s t ≡ valid
      accepts h = let l = is_tick_valid_iff s t w in ground arith

      refused : in_window s t ≡ false → is_tick_valid s t ≢ valid
      refused h = let l = is_tick_valid_iff s t w in ground arith

      same :
          in_window s t ≡ false
          → (u : ℕ)
          → agenda s u ≡ (if in_window s t && u == t then agenda s u ++ e ∷ [] else agenda s u)
      same h u = rw h

      added :
          in_window s t ≡ true
          → (u : ℕ)
          → agenda (enqueue s e t) u
            ≡ (if in_window s t && u == t then agenda s u ++ e ∷ [] else agenda s u)
      added h u = elim (Bool-cases (in_window s u)) [
        | inl inside ↦ ground (arith, queue-enqueue s e t u w h inside, current_tick-enqueue s e t)
        | inr outside ↦ ground (arith, current_tick-enqueue s e t)
      ]

  -- Once the current queue is drained, advancing a valid sorter takes the current tick off the agenda
  -- and leaves every other tick, those that come into the window included, as it was.
  pub advance_refines :
      (s : EventSorter A) (u : ℕ)
      → IsValid s
      → s.current_tick + buffer_size < 2 ^ 32
      → agenda (advance (drain s)) u ≡ (if u == s.current_tick then [] else agenda s u)
  unfolding advance drain
  advance_refines s u w room =
      let self =
        get_or-set_self s.queue_buffer (s.current_tick % buffer_size) [] []
          (omega (arith, w.sized)) in
      elim (ℕ_discrete u s.current_tick) [
        | yes now ↦ ground arith
        | no later ↦ elim (ℕ_discrete u (s.current_tick + buffer_size)) [
          | yes fresh ↦
              let slot : u % buffer_size ≡ s.current_tick % buffer_size = omega arith in
              let empty =
                ap (λ n. get_or (set s.queue_buffer (s.current_tick % buffer_size) []) n []) slot
                ∙ self in
              ground arith
          | no old ↦ elim (Bool-cases (in_window s u)) [
            | inl inside ↦
                let kept =
                  get_or-set_ne s.queue_buffer (s.current_tick % buffer_size) (u % buffer_size) []
                    [] (apart later inside) in
                ground arith
            | inr outside ↦ ground arith
          ]
        ]
      ]
    where
      bounds : in_window s u ≡ true → (s.current_tick ≤ u) × (u < s.current_tick + buffer_size)
      bounds h = ground arith

      apart :
          u ≢ s.current_tick → in_window s u ≡ true → s.current_tick % buffer_size ≢ u % buffer_size
      apart ne h = let b = bounds h in omega arith

  -- The queue that a valid sorter hands out is the agenda of the current tick.
  pub get_current_queue_refines :
      (s : EventSorter A) → IsValid s → get_current_queue s ≡ agenda s s.current_tick
  unfolding get_current_queue
  get_current_queue_refines s w = ground arith

  -- In the last nine ticks before the 32-bit counter wraps the upper bound wraps first: the sorter
  -- refuses events for the current tick as too far ahead.
  pub is_tick_valid_wraps :
      (s : EventSorter A)
      → s.current_tick < 2 ^ 32
      → 2 ^ 32 < s.current_tick + buffer_size
      → is_tick_valid s s.current_tick ≡ too_high
  unfolding is_tick_valid
  is_tick_valid_wraps s a b = ground arith
