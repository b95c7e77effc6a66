-- ===== src/Network/Peer.antt =====
-- Source/SharedLib/Network/Private/Peer.cpp. The sockets of SDL_net are a parameter: what a call
-- receives or sends may depend on all that happened before, so it takes and returns a state.
use amalgam_engine.Prelude.{
  ℕ, zero, suc, ◌+◌, ◌-◌, ◌≤◌, ◌≡◌, refl, inl, inr, Bool, true, false, Option, none, some, [], ◌++◌,
  arith, length, length-append, ltb, ◌==◌, Bool-cases, Option-cases, if◌then◌else◌,
}
use amalgam_engine.Prelude.Map.{Bytes}
use amalgam_engine.Network.{NetworkResult, success, disconnected}

-- The bytes that `SDLNet_TCP_Recv` wrote, which is no more than it was asked for; `none` is an error,
-- no bytes the end of the connection. `SDLNet_TCP_Send` returns the number of bytes sent.
pub record Socket (S : Type 0) : Type 0 where
  pub receive : S → ℕ → Option Bytes × S
  pub receive_bounded :
      (s : S) (n : ℕ) (bytes : Bytes) → (receive s n).0 ≡ some bytes → length bytes ≤ n
  pub send : S → Bytes → ℕ × S

pub record Peer (S : Type 0) : Type 0 where
  pub socket : S
  pub is_connected : Bool

module _ {S : Type 0} (os : Socket S) where
  -- `send`: of both overloads, which differ in how the bytes are given
  unfoldable pub send : Peer S → Bytes → Peer S × NetworkResult
  send p bytes =
      if p.is_connected
      then if ltb (os.send p.socket bytes).0 (length bytes)
        then (record { socket = (os.send p.socket bytes).1; is_connected = false }, disconnected)
        else (record p { socket = (os.send p.socket bytes).1 }, success)
      else (p, disconnected)

  -- `receiveBytes`; `none` is the result -1
  unfoldable pub receive_bytes : Peer S → ℕ → Peer S × Option Bytes
  receive_bytes p n =
      if p.is_connected
      then elim (os.receive p.socket n).0 [
        | none ↦ (record { socket = (os.receive p.socket n).1; is_connected = false }, none)
        | some bytes ↦ (record p { socket = (os.receive p.socket n).1 }, some bytes)
      ]
      else (p, none)

  -- The loop of `receiveBytesWait`, behind the bytes received so far. A round receives at least one
  -- byte, so as many rounds as there are bytes to receive are enough.
  unfoldable pub wait_loop : ℕ → Peer S → ℕ → Bytes → Peer S × Option Bytes
  wait_loop zero p n received = (p, some received)
  wait_loop (suc fuel) p n received =
      if ltb (length received) n
      then elim (os.receive p.socket (n - length received)).0 [
        | none ↦ (
          record { socket = (os.receive p.socket (n - length received)).1; is_connected = false },
          none,
        )
        | some bytes ↦
            if length bytes == 0
            then (
              record {
                socket = (os.receive p.socket (n - length received)).1;
                is_connected = false;
              },
              none,
            )
            else wait_loop fuel
                (record p { socket = (os.receive p.socket (n - length received)).1 }) n
                (received ++ bytes)
      ]
      else (p, some received)

  -- `receiveBytesWait`
  unfoldable pub receive_bytes_wait : Peer S → ℕ → Peer S × Option Bytes
  unfolding wait_loop
  receive_bytes_wait p n = if p.is_connected then wait_loop n p n [] else (p, none)

  -- Either exactly the bytes that were asked for, or the end of the connection.
  abbrev pub Received : ℕ → Peer S × Option Bytes → Type 0
  Received n (q, none) = q.is_connected ≡ false
  Received n (q, some bytes) = (q.is_connected ≡ true) × (length bytes ≡ n)

  wait_loop-Received :
      (fuel : ℕ) (p : Peer S) (n : ℕ) (received : Bytes)
      → length received ≤ n
      → n ≤ length received + fuel
      → p.is_connected ≡ true
      → Received n (wait_loop fuel p n received)
  unfolding wait_loop
  wait_loop-Received zero p n received le enough up = (up, omega arith)
  wait_loop-Received (suc fuel) p n received le enough up =
      let next = os.receive p.socket (n - length received) in
      elim (Bool-cases (ltb (length received) n)) [
        | inl more ↦ elim (Option-cases next.0) [
          | inl failed ↦ rw (more, failed) refl
          | inr (bytes, got) ↦
              let bounded = os.receive_bounded p.socket (n - length received) bytes got in
              elim (Bool-cases (length bytes == 0)) [
                | inl end ↦ rw (more, got, end) refl
                | inr some_bytes ↦
                    rw (more, got, some_bytes)
                      (wait_loop-Received fuel (record p { socket = next.1 }) n (received ++ bytes)
                        (ground (arith, length-append received bytes))
                        (ground (arith, length-append received bytes)) up)
              ]
        ]
        | inr all ↦ rw all (up, ground arith)
      ]

  -- Waiting for bytes ends, and either receives exactly the bytes that were asked for, or reports
  -- the end of the connection and leaves the peer disconnected.
  pub receive_bytes_wait-Received : (p : Peer S) (n : ℕ) → Received n (receive_bytes_wait p n)
  unfolding receive_bytes_wait
  receive_bytes_wait-Received p n = elim (Bool-cases p.is_connected) [
    | inl up ↦ simp up (wait_loop-Received n p n [] (omega arith) (omega arith) up)
    | inr down ↦ simp down refl
  ]
