-- ===== src/Network/Protocol.antt =====
-- The agreement of the two sides on the tick adjustment's iteration: Client.cpp of the server and
-- Network.cpp of the client, with the connection between them. The connection keeps each direction's
-- order and loses nothing; each function is one step, in any interleaving of the threads.
use amalgam_engine.Prelude.{ℕ, ◌≡◌, ◌⊎◌, inl, inr, false, some, List, [], ◌∷◌, ◌++◌}
use amalgam_engine.Prelude.Int.{ℤ}
use amalgam_engine.Network.ServerClient.{
  CircularBuffer, Client, get_tick_adjustment, record_tick_diff, receive_iteration,
}
use amalgam_engine.Network.ClientNetwork.{Network, adjust_if_needed, transfer_tick_adjustment}

-- A batch header that the server sends.
pub record Header : Type 0 where
  pub adjustment : ℤ
  pub iteration : ℕ

-- Both ends, the headers on their way to the client and the iterations on their way to the server,
-- the oldest first.
pub record System (H P : Type 0) : Type 0 where
  pub server : Client H P
  pub client : Network
  pub down : List Header
  pub up : List ℕ

module _ {H P : Type 0} (buf : CircularBuffer H) where
  abbrev pub header_of : Client H P → Header
  header_of c = record {
    adjustment = (get_tick_adjustment buf c).0;
    iteration = (get_tick_adjustment buf c).1;
  }

  infix 40 ◌⟶◌
  pub data ◌⟶◌ : System H P → System H P → Type 0 where
    send_batch : {s : System H P} → s ⟶ record s { down = s.down ++ (header_of s.server ∷ []) }
    deliver_batch :
        {s : System H P} {h : Header} {rest : List Header} {n : Network}
        → s.down ≡ h ∷ rest
        → adjust_if_needed s.client h.adjustment h.iteration ≡ some n
        → s ⟶ record s { client = n; down = rest }
    client_tick : {s : System H P} → s ⟶ record s { client = (transfer_tick_adjustment s.client).0 }
    send_message :
        {s : System H P} → s ⟶ record s { up = s.up ++ (s.client.adjustment_iteration ∷ []) }
    deliver_message :
        {s : System H P} {i : ℕ} {rest : List ℕ}
        → s.up ≡ i ∷ rest
        → s ⟶ record s { server = receive_iteration s.server i; up = rest }
    diff_recorded :
        {s : System H P} (diff : ℤ) → s ⟶ record s { server = record_tick_diff buf s.server diff }

  -- What can follow from a new connection.
  pub data Reach : System H P → Type 0 where
    connected :
        (c : Client H P) (n : Network)
        → c.latest_adj_iteration ≡ 0
        → n.adjustment_iteration ≡ 0
        → n.is_applying_tick_adjustment ≡ false
        → Reach (record { server = c; client = n; down = []; up = [] })
    later : {s t : System H P} → Reach s → s ⟶ t → Reach t

-- All of a list has one iteration; or all up to some place has the first iteration, and all from
-- there on the second.
module _ {A : Type 0} (iteration_of : A → ℕ) where
  abbrev pub Every : ℕ → List A → Type 0
  Every i [] = Unit
  Every i (x ∷ xs) = (iteration_of x ≡ i) × Every i xs

  pub data Turn (i j : ℕ) : List A → Type 0 where
    turned : {xs : List A} → Every j xs → Turn i j xs
    not_yet : {x : A} {xs : List A} → iteration_of x ≡ i → Turn i j xs → Turn i j (x ∷ xs)

  pub Every-append :
      (i : ℕ) (xs : List A) (x : A) → Every i xs → iteration_of x ≡ i → Every i (xs ++ (x ∷ []))
  Every-append i [] x h e = (e, tt)
  Every-append i (y ∷ ys) x h e = (h.0, Every-append i ys x h.1 e)

  pub Turn-append :
      (i j : ℕ) (xs : List A) (x : A) → Turn i j xs → iteration_of x ≡ j → Turn i j (xs ++ (x ∷ []))
  Turn-append i j xs x (turned h) e = turned (Every-append j xs x h e)
  Turn-append i j (y ∷ ys) x (not_yet f t) e = not_yet f (Turn-append i j ys x t e)

  pub Turn-first :
      {i j : ℕ} {x : A} {xs : List A}
      → Turn i j (x ∷ xs)
      → ((iteration_of x ≡ i) × Turn i j xs) ⊎ ((iteration_of x ≡ j) × Every j xs)
  Turn-first (turned h) = inr h
  Turn-first (not_yet e t) = inl (e, t)

  pub Every-Turn : (i j : ℕ) (xs : List A) → Every i xs → Turn i j xs
  Every-Turn i j [] h = turned tt
  Every-Turn i j (x ∷ xs) h = not_yet h.0 (Every-Turn i j xs h.1)
