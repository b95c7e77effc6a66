-- ===== src/Network/Stream.antt =====
-- A connection that delivers what was sent, under `receiveBytesWait` of
-- Source/SharedLib/Network/Private/Peer.cpp.
use mathlib.Core.List.{append-nil}
use amalgam_engine.Prelude.{
  ℕ, zero, suc, ◌+◌, ◌-◌, ◌≤◌, ◌<◌, ◌≡◌, refl, sym, ap, ◌∙◌, subst, true, false, Option, some, List,
  [], ◌∷◌, ◌++◌, arith, length, length-append, ltb, ◌==◌,
}
use amalgam_engine.Prelude.Map.{Bytes}
use amalgam_engine.Network.Peer.{Peer, Socket, wait_loop, receive_bytes_wait}
use amalgam_engine.Network.Batches.{append_assoc}
pub mod Next
pub mod Sequence
mod Tests

-- What TCP gives: while bytes of the stream are left, a receive returns the next ones, at least one.
pub record Stream {S : Type 0} (os : Socket S) : Type 0 where
  pub rest : S → Bytes
  pub receive_next_bytes :
      (s : S) (n : ℕ)
      → 0 < n
      → 0 < length (rest s)
      → (b : Bytes) × ((os.receive s n).0 ≡ some b)
        × (0 < length b)
        × (rest s ≡ b ++ rest (os.receive s n).1)

cons_injective : {A : Type 0} (x y : A) (xs ys : List A) → x ∷ xs ≡ y ∷ ys → (x ≡ y) × (xs ≡ ys)
cons_injective x y xs ys e = (cc, cc)

append_split :
    {A : Type 0} (b want rest more : List A)
    → want ++ more ≡ b ++ rest
    → length b ≤ length want
    → (left : List A) × (want ≡ b ++ left) × (rest ≡ left ++ more)
append_split [] want rest more e le = (want, refl, sym e)
append_split (x ∷ b) [] rest more e le = absurd (omega arith)
append_split (x ∷ b) (y ∷ want) rest more e le =
    let (same, tails) = cons_injective y x (want ++ more) (b ++ rest) e in
    let (left, f, g) = append_split b want rest more tails (omega arith) in
    (left, ap (λ z. z ∷ want) same ∙ ap (λ zs. x ∷ zs) f, g)

regroup :
    (received b left want : Bytes) → want ≡ b ++ left → (received ++ b) ++ left ≡ received ++ want
regroup received b left want e = append_assoc received b left ∙ ap (λ bs. received ++ bs) (sym e)

module _ {S : Type 0} (os : Socket S) (stream : Stream os) where
  abbrev pub Leaves : Bytes → Bytes → Peer S × Option Bytes → Type 0
  Leaves bytes more got =
      (q : Peer S) × (got ≡ (q, some bytes))
      × (q.is_connected ≡ true)
      × (stream.rest q.socket ≡ more)

  wait_loop-Leaves :
      (fuel : ℕ) (p : Peer S) (n : ℕ) (received want more : Bytes)
      → p.is_connected ≡ true
      → stream.rest p.socket ≡ want ++ more
      → n ≡ length received + length want
      → length want ≤ fuel
      → Leaves (received ++ want) more (wait_loop os fuel p n received)
  unfolding wait_loop
  wait_loop-Leaves zero p n received [] more up e size enough =
      (p, ap (λ b. (p, some b)) (sym (append-nil received)), up, e)
  wait_loop-Leaves zero p n received (w ∷ want) more up e size enough = absurd (omega arith)
  wait_loop-Leaves (suc fuel) p n received [] more up e size enough =
      let full : ltb (length received) n ≡ false = ground arith in
      rw full (p, ap (λ b. (p, some b)) (sym (append-nil received)), up, e)
  wait_loop-Leaves (suc fuel) p n received (w ∷ want) more up e size enough =
      let under : ltb (length received) n ≡ true = ground arith in
      let left : length (stream.rest p.socket) ≡ suc (length want) + length more =
        ap length e ∙ length-append (w ∷ want) more in
      let (b, got, some_bytes, f) =
        stream.receive_next_bytes p.socket (n - length received) (omega arith) (omega arith) in
      let at_most = os.receive_bounded p.socket (n - length received) b got in
      let (want', g, h) = append_split b (w ∷ want) _ more (sym e ∙ f) (omega arith) in
      let sizes = ap length g ∙ length-append b want' in
      let not_end : (length b == 0) ≡ false = ground arith in
      let p' : Peer S = record p { socket = (os.receive p.socket (n - length received)).1 } in
      let (q, all, still_up, behind) =
        wait_loop-Leaves fuel p' n (received ++ b) want' more up h
          (omega (arith, length-append received b)) (omega arith) in
      rw (under, got, not_end)
        (
          q,
          subst (λ bs. wait_loop os fuel p' n (received ++ b) ≡ (q, some bs))
              (regroup received b want' (w ∷ want) g) all,
          still_up,
          behind,
        )

  pub receive_bytes_wait-Leaves :
      (p : Peer S) (bytes more : Bytes)
      → p.is_connected ≡ true
      → stream.rest p.socket ≡ bytes ++ more
      → Leaves bytes more (receive_bytes_wait os p (length bytes))
  unfolding receive_bytes_wait
  receive_bytes_wait-Leaves p bytes more up e = simp up (
      wait_loop-Leaves (length bytes) p (length bytes) [] bytes more up e (omega arith)
        (omega arith))
