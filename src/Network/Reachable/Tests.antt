-- ===== src/Network/Reachable/Tests.antt =====
-- Runs of both sides' steps: a round in which the server asks for an adjustment, and 256 such rounds.
use amalgam_engine.Prelude.{
  ℕ, zero, suc, ◌+◌, ◌%◌, ◌^◌, ◌<◌, ◌≡◌, refl, ap, subst, true, false, some, List, [], ◌∷◌, arith,
  take,
}
use amalgam_engine.Prelude.Int.{ℤ, pos, negsuc, ◌+ℤ◌, ◌-ℤ◌}
use amalgam_engine.Network.ServerClient.{
  Client, get_tick_adjustment, to_sint8, receive_iteration, record_tick_diff,
}
use amalgam_engine.Network.ClientNetwork.{
  start, adjust_if_needed, transfer_tick_adjustment, idle_at,
}
use amalgam_engine.Network.Freshness.{receive_iteration_next}
use amalgam_engine.Network.Protocol.{
  Header, System, send_batch, deliver_batch, client_tick, send_message, deliver_message,
  diff_recorded, Reach, connected, later,
}
use amalgam_engine.Network.Agreement.{true_not_false}
use amalgam_engine.Network.Reachable.{
  accepted_adjustment_current, aborts_on_wrap_only, iterations_meet, receive_all,
}
use amalgam_engine.Network.Tests.{history, new_client, applying}

record Run : Type 0 where
  last : System (List ℤ) ℕ
  reach : Reach history last

abbrev begin : Run
begin = record { last = _; reach = connected new_client start refl refl refl }

abbrev receive_diff : Run → Run
receive_diff r = record { last = _; reach = later r.reach (diff_recorded (negsuc 4)) }

abbrev batch : Run → Run
batch r = record { last = _; reach = later r.reach send_batch }

abbrev tick : Run → Run
tick r = record { last = _; reach = later r.reach client_tick }

abbrev message : Run → Run
message r = record { last = _; reach = later r.reach send_message }

-- Three late messages, and a batch that asks for an adjustment.
abbrev asked : Run → Run
asked r = batch (receive_diff (receive_diff (receive_diff r)))

abbrev seven : ℕ → Header
seven i = record { adjustment = pos 7; iteration = i }

accepted_adjustment_current_example :
    (0 ≡ (asked begin).last.server.latest_adj_iteration)
    × ((asked begin).last.client.adjustment_iteration
        ≡ (asked begin).last.server.latest_adj_iteration)
    × ((asked begin).last.client.is_applying_tick_adjustment ≡ false)
unfolding get_tick_adjustment record_tick_diff adjust_if_needed ◌+ℤ◌ ◌-ℤ◌
accepted_adjustment_current_example =
    accepted_adjustment_current history
      (record {
        tick_adjustment = pos 7;
        adjustment_iteration = 0;
        is_applying_tick_adjustment = true;
      })
      (seven 0) [] (asked begin).reach refl refl
      (λ e. true_not_false (ap (λ n. n.is_applying_tick_adjustment) e))

-- Both sides in one iteration, with nothing on its way.
abbrev at_rest : List ℤ → ℕ → System (List ℤ) ℕ
at_rest h k = record {
  server = record new_client { tick_diff_history = h; latest_adj_iteration = k };
  client = idle_at k;
  down = [];
  up = [];
}

abbrev later_history : List ℤ → List ℤ
later_history h = take 15 (negsuc 4 ∷ take 15 (negsuc 4 ∷ take 15 (negsuc 4 ∷ h)))

accepts : (k : ℕ) → adjust_if_needed (idle_at k) (pos 7) k ≡ some (applying k)
unfolding adjust_if_needed ◌+ℤ◌
accepts k = ground arith

abbrev next : ℕ → ℕ
next k = (k + 1) % 2 ^ 8

-- A round: the server asks for an adjustment, the client applies it and tells the server.
abbrev asking : List ℤ → ℕ → Client (List ℤ) ℕ
asking h k = record new_client {
  tick_diff_history = later_history h;
  num_fresh_diffs = 3;
  latest_adj_iteration = k;
}

asking-Reach :
    (h : List ℤ) (k : ℕ)
    → Reach history (at_rest h k)
    → Reach history (record (at_rest h k) { server = asking h k })
unfolding record_tick_diff to_sint8
asking-Reach h k r =
    later (later (later r (diff_recorded (negsuc 4))) (diff_recorded (negsuc 4)))
      (diff_recorded (negsuc 4))

asks_seven : (h : List ℤ) (k : ℕ) → get_tick_adjustment history (asking h k) ≡ (pos 7, k)
unfolding get_tick_adjustment ◌+ℤ◌ ◌-ℤ◌
asks_seven h k = refl

applied-Reach :
    (h : List ℤ) (k : ℕ) (down : List Header)
    → Reach history
        (record { server = asking h k; client = idle_at k; down = seven k ∷ down; up = [] })
    → Reach history
        (record { server = asking h k; client = idle_at (next k); down = down; up = [] })
unfolding transfer_tick_adjustment ◌-ℤ◌
applied-Reach h k down r =
    later (later (later r (deliver_batch refl (accepts k))) client_tick) client_tick

sent-Reach :
    (h : List ℤ) (k : ℕ)
    → Reach history (at_rest h k)
    → Reach history (record (at_rest h k) { server = asking h k; down = seven k ∷ [] })
unfolding get_tick_adjustment ◌+ℤ◌ ◌-ℤ◌
sent-Reach h k r = later (asking-Reach h k r) send_batch

sent_twice-Reach :
    (h : List ℤ) (k : ℕ)
    → Reach history (at_rest h k)
    → Reach history (record (at_rest h k) { server = asking h k; down = seven k ∷ seven k ∷ [] })
unfolding get_tick_adjustment ◌+ℤ◌ ◌-ℤ◌
sent_twice-Reach h k r = later (sent-Reach h k r) send_batch

heard_next :
    (h : List ℤ) (k : ℕ)
    → receive_iteration (asking h k) (next k)
      ≡ record new_client { tick_diff_history = later_history h; latest_adj_iteration = next k }
heard_next h k = receive_iteration_next history (asking h k) (next k) (ground arith)

round-Reach :
    (h : List ℤ) (k : ℕ)
    → Reach history (at_rest h k)
    → Reach history (at_rest (later_history h) (next k))
round-Reach h k r =
    subst
      (λ c. Reach history (record { server = c; client = idle_at (next k); down = []; up = [] }))
      (heard_next h k)
      (later (later (applied-Reach h k [] (sent-Reach h k r)) send_message) (deliver_message refl))

rounds-Reach : (k : ℕ) → k < 2 ^ 8 → (h : List ℤ) × Reach history (at_rest h k)
rounds-Reach zero small = ([], connected new_client start refl refl refl)
rounds-Reach (suc k) small =
    let (h, r) = rounds-Reach k (omega arith) in
    let e : next k ≡ suc k = omega arith in
    (
      later_history h,
      subst (λ j. Reach history (at_rest (later_history h) j)) e (round-Reach h k r),
    )

aborts_on_wrap_only_example : ((seven 255).iteration ≡ 255) × ((idle_at 0).adjustment_iteration ≡ 0)
unfolding adjust_if_needed
aborts_on_wrap_only_example =
    let (h, r) = rounds-Reach 255 (omega arith) in
    aborts_on_wrap_only history (seven 255) []
      (applied-Reach h 255 (seven 255 ∷ []) (sent_twice-Reach h 255 r)) refl refl

iterations_meet_example : (receive_all (asking [] 0) (1 ∷ [])).latest_adj_iteration ≡ 1
iterations_meet_example =
    iterations_meet history
      (applied-Reach [] 0 [] (sent-Reach [] 0 (connected new_client start refl refl refl)))
