-- ===== src/Network/ClientNetwork.antt =====
-- Source/ClientLib/Network/Private/Network.cpp: the client's side of the tick adjustment.
use amalgam_engine.Prelude.{
  ℕ, zero, suc, ◌+◌, ◌≡◌, refl, ◌∙◌, ap, arith, ◌%◌, ◌^◌, Bool, true, false, ◌&&◌, not, ◌==◌,
  Option, none, some, ltb, if◌then◌else◌,
}
use amalgam_engine.Prelude.Int.{ℤ, pos, negsuc, +ℤ_parts, -ℤ_parts, eq_of_parts, ◌+ℤ◌, ◌-ℤ◌, ltb_ℤ}

pub record Network : Type 0 where
  pub tick_adjustment : ℤ
  pub adjustment_iteration : ℕ
  pub is_applying_tick_adjustment : Bool

-- The constructor of `Network`. Note that `disconnect` keeps the tick adjustment.
abbrev pub start : Network
start = record {
  tick_adjustment = pos 0;
  adjustment_iteration = 0;
  is_applying_tick_adjustment = false;
}

-- `disconnect`, of these members
unfoldable pub disconnect : Network → Network
disconnect n = record n { adjustment_iteration = 0; is_applying_tick_adjustment = false }

abbrev is_zero : ℤ → Bool
is_zero z = not (ltb_ℤ z (pos 0)) && not (ltb_ℤ (pos 0) z)

-- `adjustIfNeeded`; `none` is the abort of LOG_FATAL.
unfoldable pub adjust_if_needed : Network → ℤ → ℕ → Option Network
adjust_if_needed n received_tick_adj received_adj_iteration =
    if is_zero received_tick_adj
    then some n
    else if received_adj_iteration == n.adjustment_iteration && not n.is_applying_tick_adjustment
    then some (record n {
      tick_adjustment = n.tick_adjustment +ℤ received_tick_adj;
      is_applying_tick_adjustment = true;
    })
    else if ltb n.adjustment_iteration received_adj_iteration
    then none
    else some n

-- `transferTickAdjustment`, with its result
unfoldable pub transfer_tick_adjustment : Network → Network × ℤ
transfer_tick_adjustment n =
    if n.is_applying_tick_adjustment
    then if ltb_ℤ n.tick_adjustment (pos 0)
      then (record n { tick_adjustment = n.tick_adjustment +ℤ pos 1 }, negsuc 0)
      else if ltb_ℤ (pos 0) n.tick_adjustment
      then (
        record n { tick_adjustment = n.tick_adjustment -ℤ n.tick_adjustment },
        n.tick_adjustment,
      )
      else (
        record n {
          adjustment_iteration = (n.adjustment_iteration + 1) % 2 ^ 8;
          is_applying_tick_adjustment = false;
        },
        pos 0,
      )
    else (n, pos 0)

-- What the simulation takes over in a number of its ticks: `Simulation::tick` calls
-- `transferTickAdjustment` once in each.
unfoldable pub transfers : ℕ → Network → Network × ℤ
unfolding transfer_tick_adjustment
transfers zero n = (n, pos 0)
transfers (suc ticks) n =
    let (after, first) = transfer_tick_adjustment n in
    let (last, rest) = transfers ticks after in (last, first +ℤ rest)

-- The ticks that it takes until an adjustment is applied and its iteration ended.
abbrev pub ticks_needed : ℤ → ℕ
ticks_needed (pos zero) = 1
ticks_needed (pos (suc a)) = 2
ticks_needed (negsuc a) = suc (suc a)

abbrev applying_of : ℤ → ℕ → Network
applying_of z iteration = record {
  tick_adjustment = z;
  adjustment_iteration = iteration;
  is_applying_tick_adjustment = true;
}

abbrev pub idle_at : ℕ → Network
idle_at iteration = record {
  tick_adjustment = pos 0;
  adjustment_iteration = iteration;
  is_applying_tick_adjustment = false;
}

transfer_negative :
    (a iteration : ℕ)
    → transfer_tick_adjustment (applying_of (negsuc a) iteration)
      ≡ (applying_of (negsuc a +ℤ pos 1) iteration, negsuc 0)
unfolding transfer_tick_adjustment
transfer_negative a iteration = ground arith

transfer_positive :
    (a iteration : ℕ)
    → transfer_tick_adjustment (applying_of (pos (suc a)) iteration)
      ≡ (applying_of (pos (suc a) -ℤ pos (suc a)) iteration, pos (suc a))
unfolding transfer_tick_adjustment
transfer_positive a iteration = ground arith

sub_self : (z : ℤ) → z -ℤ z ≡ pos 0
sub_self z = eq_of_parts _ _ (omega (-ℤ_parts z z, arith))

add_zero : (z : ℤ) → z +ℤ pos 0 ≡ z
add_zero z = eq_of_parts _ _ (omega (+ℤ_parts z (pos 0), arith))

last_one : negsuc 0 +ℤ pos 1 ≡ pos 0
last_one = eq_of_parts _ _ (omega (+ℤ_parts (negsuc 0) (pos 1), arith))

one_less : (a : ℕ) → negsuc (suc a) +ℤ pos 1 ≡ negsuc a
one_less a = eq_of_parts _ _ (omega (+ℤ_parts (negsuc (suc a)) (pos 1), arith))

one_more : (a : ℕ) → negsuc 0 +ℤ negsuc a ≡ negsuc (suc a)
one_more a = eq_of_parts _ _ (omega (+ℤ_parts (negsuc 0) (negsuc a), arith))

transfer_zero :
    (iteration : ℕ)
    → transfer_tick_adjustment (applying_of (pos 0) iteration)
      ≡ (idle_at ((iteration + 1) % 2 ^ 8), pos 0)
unfolding transfer_tick_adjustment
transfer_zero iteration = refl

transfers_next :
    (ticks : ℕ) (n : Network) {after last : Network} {first rest total : ℤ}
    → transfer_tick_adjustment n ≡ (after, first)
    → transfers ticks after ≡ (last, rest)
    → first +ℤ rest ≡ total
    → transfers (suc ticks) n ≡ (last, total)
unfolding transfers
transfers_next ticks n e f g = rw (transfers, e, f, g) refl

transfers_none : (n : Network) → transfers 0 n ≡ (n, pos 0)
unfolding transfers
transfers_none n = refl

transfers_zero :
    (iteration : ℕ)
    → transfers 1 (applying_of (pos 0) iteration) ≡ (idle_at ((iteration + 1) % 2 ^ 8), pos 0)
transfers_zero iteration =
    transfers_next 0 _ (transfer_zero iteration) (transfers_none _) (add_zero (pos 0))

transfers_of :
    (z : ℤ) (iteration : ℕ)
    → transfers (ticks_needed z) (applying_of z iteration) ≡ (idle_at ((iteration + 1) % 2 ^ 8), z)
transfers_of (pos zero) iteration = transfers_zero iteration
transfers_of (pos (suc a)) iteration =
    transfers_next _ _ (transfer_positive a iteration)
      (rw (sub_self (pos (suc a))) (transfers_zero iteration)) (add_zero (pos (suc a)))
transfers_of (negsuc zero) iteration =
    transfers_next _ _ (transfer_negative 0 iteration) (rw last_one (transfers_zero iteration))
      (add_zero (negsuc 0))
transfers_of (negsuc (suc a)) iteration =
    transfers_next _ _ (transfer_negative (suc a) iteration)
      (rw (one_less a) (transfers_of (negsuc a) iteration)) (one_more a)

-- An adjustment that is applied is taken over exactly, in a bounded number of ticks: all that was
-- asked for is transferred, no more is left, and the iteration moves on by one.
pub transfers_all :
    (n : Network)
    → n.is_applying_tick_adjustment ≡ true
    → transfers (ticks_needed n.tick_adjustment) n
      ≡ (idle_at ((n.adjustment_iteration + 1) % 2 ^ 8), n.tick_adjustment)
transfers_all n applying =
    let e : n ≡ applying_of n.tick_adjustment n.adjustment_iteration =
      ap (λ b. record n { is_applying_tick_adjustment = b }) applying in
    ap (transfers (ticks_needed n.tick_adjustment)) e
    ∙ transfers_of n.tick_adjustment n.adjustment_iteration

-- A disconnect while an adjustment is applied leaves its rest behind: after the next connection, the
-- first adjustment that is accepted transfers that rest on top of what the server asked for.
pub disconnect_keeps_adjustment :
    (n : Network) (a : ℤ)
    → is_zero a ≡ false
    → (m : Network) × (adjust_if_needed (disconnect n) a 0 ≡ some m)
      × ((transfers (ticks_needed m.tick_adjustment) m).1 ≡ n.tick_adjustment +ℤ a)
unfolding adjust_if_needed disconnect
disconnect_keeps_adjustment n a asked =
    let m : Network = applying_of (n.tick_adjustment +ℤ a) 0 in
    (m, rw asked refl, ap (λ p. p.1) (transfers_all m refl))
