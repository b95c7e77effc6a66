-- ===== src/Network/Tests.antt =====
-- Runs of the network's operations on small inputs, with a list for the circular buffer
-- and a socket whose segments are given.
use amalgam_engine.Prelude.{
  ℕ, zero, suc, ◌≤◌, ◌<◌, ◌≡◌, ◌≢◌, refl, true, false, Option, none, some, List, [], ◌∷◌, sym, ◌∙◌,
  arith, length, take, get_or, length-take, map,
}
use amalgam_engine.Prelude.Int.{ℤ, pos, negsuc, ◌+ℤ◌, ◌-ℤ◌}
use amalgam_engine.Prelude.Map.{Bytes}
use amalgam_engine.Network.Peer.{
  Socket, Peer, Received, receive_bytes_wait, receive_bytes_wait-Received,
}
use amalgam_engine.Network.ServerClient.{
  CircularBuffer, Client, get_tick_adjustment, calc_adjustment, truncated_average, is_acceptable,
  tickdiff_target, min_fresh_diffs, tickdiff_history_length,
}
use amalgam_engine.Network.ClientNetwork.{
  Network, adjust_if_needed, transfers, ticks_needed, idle_at, transfers_all, disconnect,
  disconnect_keeps_adjustment,
}
use amalgam_engine.Network.Adjustment.{IsInRange, calc_adjustment_reaches_target}
use amalgam_engine.Network.Freshness.{header, tick_diff, fresh_diffs, hear, hear_refines}
use amalgam_engine.Network.Window.{wanted_adjustment}

pub get_or-take : (n i : ℕ) (xs : List ℤ) (d : ℤ) → i < n → get_or (take n xs) i d ≡ get_or xs i d
get_or-take zero i xs d lt = absurd (omega arith)
get_or-take (suc n) i [] d lt = refl
get_or-take (suc n) zero (x ∷ xs) d lt = refl
get_or-take (suc n) (suc i) (x ∷ xs) d lt = get_or-take n i xs d (omega arith)

abbrev pub history : CircularBuffer (List ℤ)
history = record {
  push = λ h x. take 15 (x ∷ h);
  at = λ h i. get_or h i (pos 0);
  at_pushed = λ h x. refl;
  at_moved = λ h x i lt. get_or-take 14 i h (pos 0) (omega arith);
}

abbrev receive_segment : List Bytes → ℕ → Option Bytes × List Bytes
receive_segment [] n = (some [], [])
receive_segment (b ∷ bs) n = (some (take n b), bs)

receive_segment_bounded :
    (s : List Bytes) (n : ℕ) (bytes : Bytes)
    → (receive_segment s n).0 ≡ some bytes
    → length bytes ≤ n
receive_segment_bounded [] n bytes e = grind arith
receive_segment_bounded (b ∷ bs) n bytes e = grind (arith, length-take n b)

abbrev segments : Socket (List Bytes)
segments = record {
  receive = receive_segment;
  receive_bounded = receive_segment_bounded;
  send = λ s b. (length b, s);
}

abbrev two_segments : Peer (List Bytes)
two_segments = record { socket = (1 ∷ 2 ∷ []) ∷ (3 ∷ []) ∷ []; is_connected = true }

waited : (receive_bytes_wait segments two_segments 3).1 ≡ some (1 ∷ 2 ∷ 3 ∷ [])
unfolding receive_bytes_wait
waited = refl

hung_up : (receive_bytes_wait segments two_segments 4).1 ≡ none
unfolding receive_bytes_wait
hung_up = refl

receive_bytes_wait-Received_example :
    Received segments 4 (receive_bytes_wait segments two_segments 4)
receive_bytes_wait-Received_example = receive_bytes_wait-Received segments two_segments 4

-- Five ticks late three times: the client is to be four ticks ahead of where it is.
abbrev late : List ℤ
late = negsuc 4 ∷ negsuc 4 ∷ negsuc 4 ∷ []

late_adjustment : calc_adjustment history late 3 ≡ pos 7
unfolding calc_adjustment ◌+ℤ◌ ◌-ℤ◌
late_adjustment = refl

-- 126 ticks late three times: 2 + 126 does not fit, and the adjustment points the wrong way.
too_late_adjustment :
    calc_adjustment history (negsuc 125 ∷ negsuc 125 ∷ negsuc 125 ∷ []) 3 ≡ negsuc 127
unfolding calc_adjustment ◌+ℤ◌ ◌-ℤ◌
too_late_adjustment = refl

abbrev pub new_client : Client (List ℤ) ℕ
new_client = record {
  peer = some 1;
  send_queue = [];
  latest_sent_sim_tick = 0;
  tick_diff_history = [];
  num_fresh_diffs = 0;
  latest_adj_iteration = 0;
}

abbrev pub applying : ℕ → Network
applying k = record {
  tick_adjustment = pos 7;
  adjustment_iteration = k;
  is_applying_tick_adjustment = true;
}

seven_not_zero : pos 7 ≢ pos 0
seven_not_zero e = cc

hear_refines_example :
    get_tick_adjustment history (hear history new_client (header 1 ∷ map tick_diff late)) ≡ (
      wanted_adjustment
          (take tickdiff_history_length (fresh_diffs 0 [] (header 1 ∷ map tick_diff late)).1),
      (fresh_diffs 0 [] (header 1 ∷ map tick_diff late)).0,
    )
hear_refines_example = hear_refines history new_client (header 1 ∷ map tick_diff late) refl

late-IsInRange : IsInRange history late 3
late-IsInRange zero lt = (omega arith, omega arith)
late-IsInRange (suc zero) lt = (omega arith, omega arith)
late-IsInRange (suc (suc zero)) lt = (omega arith, omega arith)
late-IsInRange (suc (suc (suc i))) lt = absurd (omega arith)

calc_adjustment_reaches_target_example :
    (min_fresh_diffs ≤ 3)
    × (is_acceptable (negsuc 4) ≡ false)
    × (is_acceptable (truncated_average history late 3) ≡ false)
    × (calc_adjustment history late 3 +ℤ truncated_average history late 3 ≡ tickdiff_target)
calc_adjustment_reaches_target_example =
    calc_adjustment_reaches_target history late 3 late-IsInRange
      (λ e. seven_not_zero (sym late_adjustment ∙ e))

transfers_all_example : transfers 2 (applying 3) ≡ (idle_at 4, pos 7)
transfers_all_example = transfers_all (applying 3) refl

disconnect_keeps_adjustment_example :
    (m : Network) × (adjust_if_needed (disconnect (applying 3)) (pos 2) 0 ≡ some m)
    × ((transfers (ticks_needed m.tick_adjustment) m).1 ≡ pos 7 +ℤ pos 2)
disconnect_keeps_adjustment_example = disconnect_keeps_adjustment (applying 3) (pos 2) refl
