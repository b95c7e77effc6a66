-- ===== src/Network/Freshness.antt =====
-- What the server hears of a client's ticks, Source/ServerLib/Network/Private/Client.cpp: headers and
-- tick differences, in any order, against the list of the differences that count.
use amalgam_engine.Prelude.{
  ℕ, ◌+◌, ◌%◌, ◌^◌, ◌≡◌, refl, Bool, true, false, ◌&&◌, List, [], ◌∷◌, arith, none, ltb, ◌==◌, take,
  if◌then◌else◌, Bool-cases, inl, inr,
}
use amalgam_engine.Prelude.Int.{ℤ, leb_ℤ}
use amalgam_engine.Network.ServerClient.{
  CircularBuffer, Client, to_sint8, get_tick_adjustment, record_tick_diff, receive_iteration,
  tickdiff_history_length, tickdiff_max_bound_lower, tickdiff_max_bound_upper,
}
use amalgam_engine.Network.Adjustment.{to_sint8_fits}
use amalgam_engine.Network.Window.{
  wanted_adjustment, IsFresh, push-IsFresh, IsFresh-wanted_adjustment, none-IsFresh,
}

-- What a server hears of a client: a header with an iteration, or the tick difference of the message
-- behind it.
pub data Heard : Type 0 where
  header : ℕ → Heard
  tick_diff : ℤ → Heard

-- The differences that count: those since the header that last began an iteration, newest first.
unfoldable pub fresh_diffs : ℕ → List ℤ → List Heard → ℕ × List ℤ
fresh_diffs iteration ds [] = (iteration, ds)
fresh_diffs iteration ds (header i ∷ rest) =
    if i == (iteration + 1) % 2 ^ 8
    then fresh_diffs ((iteration + 1) % 2 ^ 8) [] rest
    else fresh_diffs iteration ds rest
fresh_diffs iteration ds (tick_diff d ∷ rest) =
    if leb_ℤ tickdiff_max_bound_lower d && leb_ℤ d tickdiff_max_bound_upper
    then fresh_diffs iteration (d ∷ ds) rest
    else fresh_diffs iteration ds rest

abbrev is_in_bounds : ℤ → Bool
is_in_bounds d = leb_ℤ tickdiff_max_bound_lower d && leb_ℤ d tickdiff_max_bound_upper

module _ {H P : Type 0} (buf : CircularBuffer H) where
  unfoldable pub hear : Client H P → List Heard → Client H P
  unfolding receive_iteration record_tick_diff
  hear c [] = c
  hear c (header i ∷ rest) = hear (receive_iteration c i) rest
  hear c (tick_diff d ∷ rest) = hear (record_tick_diff buf c d) rest

  pub receive_iteration_next :
      (c : Client H P) (i : ℕ)
      → (i == (c.latest_adj_iteration + 1) % 2 ^ 8) ≡ true
      → receive_iteration c i ≡ record c {
        latest_adj_iteration = (c.latest_adj_iteration + 1) % 2 ^ 8;
        num_fresh_diffs = 0;
      }
  unfolding receive_iteration
  receive_iteration_next c i next = rw next refl

  receive_iteration_other :
      (c : Client H P) (i : ℕ)
      → (i == (c.latest_adj_iteration + 1) % 2 ^ 8) ≡ false
      → receive_iteration c i ≡ c
  unfolding receive_iteration
  receive_iteration_other c i other = rw other refl

  record_tick_diff_near :
      (c : Client H P) (d : ℤ)
      → is_in_bounds d ≡ true
      → record_tick_diff buf c d ≡ record c {
        tick_diff_history = buf.push c.tick_diff_history (to_sint8 d);
        num_fresh_diffs =
            if ltb c.num_fresh_diffs tickdiff_history_length
            then c.num_fresh_diffs + 1
            else c.num_fresh_diffs;
      }
  unfolding record_tick_diff
  record_tick_diff_near c d near = rw near refl

  record_tick_diff_far :
      (c : Client H P) (d : ℤ)
      → is_in_bounds d ≡ false
      → record_tick_diff buf c d ≡ record c { peer = none }
  unfolding record_tick_diff
  record_tick_diff_far c d far = rw far refl

  hear_from :
      (c : Client H P) (ds : List ℤ) (heard : List Heard)
      → IsFresh buf c.tick_diff_history c.num_fresh_diffs ds
      → get_tick_adjustment buf (hear c heard) ≡ (
        wanted_adjustment
            (take tickdiff_history_length (fresh_diffs c.latest_adj_iteration ds heard).1),
        (fresh_diffs c.latest_adj_iteration ds heard).0,
      )
  unfolding get_tick_adjustment hear fresh_diffs
  hear_from c ds [] f = rw (IsFresh-wanted_adjustment buf _ _ ds f) refl
  hear_from c ds (header i ∷ rest) f =
      elim (Bool-cases (i == (c.latest_adj_iteration + 1) % 2 ^ 8)) [
        | inl next ↦
            rw (hear, receive_iteration_next c i next, next)
              (hear_from
                (record c {
                  latest_adj_iteration = (c.latest_adj_iteration + 1) % 2 ^ 8;
                  num_fresh_diffs = 0;
                })
                [] rest (none-IsFresh buf c.tick_diff_history))
        | inr old ↦ rw (hear, receive_iteration_other c i old, old) (hear_from c ds rest f)
      ]
  hear_from c ds (tick_diff d ∷ rest) f =
      elim (Bool-cases (leb_ℤ tickdiff_max_bound_lower d && leb_ℤ d tickdiff_max_bound_upper)) [
        | inl near ↦
            rw (hear, record_tick_diff_near c d near, near)
              (hear_from _ (d ∷ ds) rest
                (push-IsFresh buf _ _ ds d f (to_sint8_fits d (ground arith) (ground arith))))
        | inr far ↦
            rw (hear, record_tick_diff_far c d far, far)
              (hear_from (record c { peer = none }) ds rest f)
      ]

  -- Whatever a server hears of a client with no fresh differences, in whatever order, the adjustment
  -- and the iteration that it sends are those of the newest 15 differences since the header that
  -- began the current iteration.
  pub hear_refines :
      (c : Client H P) (heard : List Heard)
      → c.num_fresh_diffs ≡ 0
      → get_tick_adjustment buf (hear c heard) ≡ (
        wanted_adjustment
            (take tickdiff_history_length (fresh_diffs c.latest_adj_iteration [] heard).1),
        (fresh_diffs c.latest_adj_iteration [] heard).0,
      )
  hear_refines c heard none_yet =
      hear_from c [] heard (rw none_yet (none-IsFresh buf c.tick_diff_history))
