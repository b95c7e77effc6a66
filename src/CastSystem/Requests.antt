-- ===== src/CastSystem/Requests.antt =====
-- Which requests a tick processes, and in which order.
use mathlib.Core.List.{append-nil, append_assoc}
use amalgam_engine.Prelude.{
  ℕ, ◌+◌, ◌^◌, ◌<◌, ◌≡◌, refl, ap, sym, ◌∙◌, subst, inl, inr, ◌⊎◌, Bool, true, false, ◌&&◌, not,
  List, [], ◌∷◌, ◌++◌, none, some, arith, ltb, leb, ◌==◌, if◌then◌else◌, Bool-cases, Option-cases,
}
use amalgam_engine.EventSorter.{EventSorter, buffer_size, push}
use amalgam_engine.EventSorter.Agenda.{
  IsValid, agenda, push_refines, advance_refines, get_current_queue_refines, is_tick_valid_iff,
}
use amalgam_engine.CastSystem.{
  CastRequest, Scene, Casting, CastSystem, process_cast_request, process_all, sort_request,
  sort_requests, process_cast_requests,
}

module _ {Float Vec : Type 0} (sc : Scene Float Vec) where
  -- A sorter at tick `now` takes requests for the ten ticks from `now` on.
  abbrev pub window : ℕ → ℕ → Bool
  window now t = leb now t && ltb t (now + buffer_size)

  -- A request of a castable that exists is processed on arrival if the castable is not synchronized
  -- or the sorter does not take the request's tick.
  abbrev pub at_once : ℕ → CastRequest Vec → Bool
  at_once now q = elim (sc.castables q.castable_id) [
    | none ↦ false
    | some c ↦ if c.is_tick_synchronized then not (window now q.tick_num) else true
  ]

  -- Otherwise it waits for its tick.
  abbrev pub waits_for : ℕ → ℕ → CastRequest Vec → Bool
  waits_for now u q = elim (sc.castables q.castable_id) [
    | none ↦ false
    | some c ↦ c.is_tick_synchronized && (window now q.tick_num && u == q.tick_num)
  ]

  abbrev pub keep : (CastRequest Vec → Bool) → List (CastRequest Vec) → List (CastRequest Vec)
  keep p [] = []
  keep p (q ∷ qs) = if p q then q ∷ keep p qs else keep p qs

  process_all-append :
      (s : Casting Float Vec) (xs ys : List (CastRequest Vec))
      → process_all sc s (xs ++ ys) ≡ process_all sc (process_all sc s xs) ys
  unfolding process_all
  process_all-append s [] ys = refl
  process_all-append s (q ∷ qs) ys = process_all-append (process_cast_request sc s q) qs ys

  -- What sorting one request does to a sorter at tick `now`.
  record Sorted (now : ℕ) (s t : CastSystem Float Vec) (q : CastRequest Vec) : Type 0 where
    casting : t.casting ≡ (if at_once now q then process_cast_request sc s.casting q else s.casting)
    waiting :
        (u : ℕ)
        → agenda t.cast_request_sorter u ≡ (
            if waits_for now u q
            then agenda s.cast_request_sorter u ++ q ∷ []
            else agenda s.cast_request_sorter u)
    same_tick : t.cast_request_sorter.current_tick ≡ now
    sorter : IsValid t.cast_request_sorter

  push-current_tick :
      (s : EventSorter (CastRequest Vec)) (q : CastRequest Vec) (t : ℕ)
      → (push s q t).0.current_tick ≡ s.current_tick
  unfolding push
  push-current_tick s q t = ground arith

  sort_request-sorter :
      (s : CastSystem Float Vec) (q : CastRequest Vec)
      → ((sort_request sc s q).cast_request_sorter ≡ s.cast_request_sorter)
        ⊎ ((sort_request sc s q).cast_request_sorter ≡ (push s.cast_request_sorter q q.tick_num).0)
  unfolding sort_request
  sort_request-sorter s q = elim (Option-cases (sc.castables q.castable_id)) [
    | inl unknown ↦ inl (ground arith)
    | inr (c, e) ↦ elim (Bool-cases c.is_tick_synchronized) [
      | inl synced ↦ inr (ground arith)
      | inr unsynced ↦ inl (ground arith)
    ]
  ]

  sort_request-Sorted :
      (s : CastSystem Float Vec) (q : CastRequest Vec)
      → IsValid s.cast_request_sorter
      → Sorted s.cast_request_sorter.current_tick s (sort_request sc s q) q
  unfolding sort_request
  sort_request-Sorted s q v =
      let (result, pushed, w) = push_refines s.cast_request_sorter q q.tick_num v in
      let test = is_tick_valid_iff s.cast_request_sorter q.tick_num v in
      let tick = push-current_tick s.cast_request_sorter q q.tick_num in
      record {
        casting = ground arith;
        waiting = λ u. ground (arith, pushed u);
        same_tick = ground arith;
        sorter = elim (sort_request-sorter s q) [
          | inl same ↦ subst IsValid (sym same) v
          | inr new ↦ subst IsValid (sym new) w
        ];
      }

  -- After one request, what it does at once or leaves waiting comes first.
  first_processed :
      (now : ℕ) (s t : CastSystem Float Vec) (q : CastRequest Vec) (qs : List (CastRequest Vec))
      → Sorted now s t q
      → process_all sc t.casting (keep (at_once now) qs)
        ≡ process_all sc s.casting (keep (at_once now) (q ∷ qs))
  unfolding process_all
  first_processed now s t q qs o = elim (Bool-cases (at_once now q)) [
    | inl now_processed ↦ rw (o.casting, now_processed) refl
    | inr not_processed ↦ rw (o.casting, not_processed) refl
  ]

  first_waiting :
      (now u : ℕ) (s t : CastSystem Float Vec) (q : CastRequest Vec) (qs : List (CastRequest Vec))
      → Sorted now s t q
      → agenda t.cast_request_sorter u ++ keep (waits_for now u) qs
        ≡ agenda s.cast_request_sorter u ++ keep (waits_for now u) (q ∷ qs)
  first_waiting now u s t q qs o = elim (Bool-cases (waits_for now u q)) [
    | inl queued ↦
        rw (o.waiting u, queued)
          (append_assoc (agenda s.cast_request_sorter u) (q ∷ []) (keep (waits_for now u) qs))
    | inr elsewhere ↦ rw (o.waiting u, elsewhere) refl
  ]

  sort_requests_lem :
      (s : CastSystem Float Vec) (qs : List (CastRequest Vec)) (now : ℕ)
      → IsValid s.cast_request_sorter
      → s.cast_request_sorter.current_tick ≡ now
      → ((sort_requests sc s qs).casting ≡ process_all sc s.casting (keep (at_once now) qs))
        × ((u : ℕ)
            → agenda (sort_requests sc s qs).cast_request_sorter u
              ≡ agenda s.cast_request_sorter u ++ keep (waits_for now u) qs)
        × ((sort_requests sc s qs).cast_request_sorter.current_tick ≡ now)
        × IsValid (sort_requests sc s qs).cast_request_sorter
  unfolding sort_requests process_all
  sort_requests_lem s [] now v e =
      (refl, λ u. sym (append-nil (agenda s.cast_request_sorter u)), e, v)
  sort_requests_lem s (q ∷ qs) now v e =
      let t = sort_request sc s q in
      let one = subst (λ n. Sorted n s t q) e (sort_request-Sorted s q v) in
      let (casting, waiting, tick, w) = sort_requests_lem t qs now (one.sorter) (one.same_tick) in
      (
        casting ∙ first_processed now s t q qs one,
        λ u. waiting u ∙ first_waiting now u s t q qs one,
        tick,
        w,
      )

  -- At tick `now` a tick's requests come in. Those of castables that are not synchronized, and those
  -- that the sorter does not take for being late or early, are processed at once, in their order;
  -- then the requests that have waited for `now`, and behind them those that came in for `now`. The
  -- requests for a later tick wait for it behind those that were waiting. Nothing else is lost but
  -- the requests of castables that do not exist. The ten ticks behind `now` are 32-bit numbers.
  pub process_cast_requests_refines :
      (s : CastSystem Float Vec) (qs : List (CastRequest Vec)) (now : ℕ)
      → IsValid s.cast_request_sorter
      → s.cast_request_sorter.current_tick ≡ now
      → now + buffer_size < 2 ^ 32
      → ((process_cast_requests sc s qs).casting
          ≡ process_all sc s.casting (
              keep (at_once now) qs
              ++ (agenda s.cast_request_sorter now ++ keep (waits_for now now) qs)))
        × ((u : ℕ)
            → agenda (process_cast_requests sc s qs).cast_request_sorter u ≡ (
                if u == now
                then []
                else agenda s.cast_request_sorter u ++ keep (waits_for now u) qs))
  unfolding process_cast_requests
  process_cast_requests_refines s qs now v e room =
      let t = (sort_requests sc s qs).cast_request_sorter in
      let (casting, waiting, tick, w) = sort_requests_lem s qs now v e in
      let current = get_current_queue_refines t w ∙ ap (agenda t) tick ∙ waiting now in
      (
        rw (process_cast_requests, casting, current)
            (sym (process_all-append s.casting (keep (at_once now) qs) _)),
        λ u.
            rw
              (
                process_cast_requests,
                advance_refines t u w (omega (arith, tick, room)),
                waiting u,
                tick,
              )
              refl,
      )
