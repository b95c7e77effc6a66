-- ===== src/ClientAoi/Replication.antt =====
-- What a client knows of the world: the entities that it was told of and that were not deleted since.
use amalgam_engine.Prelude.{
  ℕ, ◌+◌, ◌≤◌, ◌<◌, ◌≡◌, refl, ap, ◌∙◌, List, [], ◌∷◌, ◌++◌, some, if◌then◌else◌, ltb, arith, map,
}
use amalgam_engine.Prelude.Map.{lookup, nat_eq}
use amalgam_engine.ClientAoi.{
  Registry, EntityData, AoiMessage, entity_delete, entity_init, ClientSimData, erase_index,
  left_messages, entered_data, sort, set_difference, update_aoi_list,
}
use amalgam_engine.ClientAoi.Differences.{occurs, IsSorted, sort_lem, occurs-set_difference}
use amalgam_engine.ClientAoi.Tracking.{
  IsTracked, entered_data-some, occurs-append, occurs-erase_index,
}

-- Each entity at most once.
abbrev pub IsOnce : List ℕ → Type 0
IsOnce xs = (e : ℕ) → occurs e xs ≤ 1

module _ {Vec Component : Type 0} where
  -- One message, received.
  unfoldable pub receive : List ℕ → AoiMessage Vec Component → List ℕ
  receive known (entity_delete tick e) = erase_index e known
  receive known (entity_init tick ds) = known ++ map (λ (d : EntityData Vec Component). d.entity) ds

  unfoldable pub receive_all : List ℕ → List (AoiMessage Vec Component) → List ℕ
  unfolding receive
  receive_all known [] = known
  receive_all known (m ∷ ms) = receive_all (receive known m) ms

  receive_all-append :
      (known : List ℕ) (xs ys : List (AoiMessage Vec Component))
      → receive_all known (xs ++ ys) ≡ receive_all (receive_all known xs) ys
  unfolding receive_all
  receive_all-append known [] ys = refl
  receive_all-append known (m ∷ xs) ys = receive_all-append (receive known m) xs ys

  occurs-left_messages :
      (r : Registry Vec Component) (e tick : ℕ) (known es : List ℕ)
      → occurs e (receive_all known (left_messages {Vec = Vec} {Component = Component} tick es))
        ≡ (if ltb 0 (occurs e es) then 0 else occurs e known)
  unfolding receive_all receive left_messages
  occurs-left_messages r e tick known [] = refl
  occurs-left_messages r e tick known (d ∷ es) =
      let one = occurs-erase_index e d known in
      let rest = occurs-left_messages r e tick (erase_index d known) es in ground (arith, one, rest)

  -- The two differences, received.
  known_after :
      (r : Registry Vec Component) (e tick : ℕ) (known old current : List ℕ)
      → IsSorted old
      → IsSorted current
      → occurs e old ≤ 1
      → occurs e known ≡ occurs e old
      → occurs e (
            receive_all known
              (left_messages {Vec = Vec} {Component = Component} tick (set_difference old current)))
          + occurs e (set_difference current old)
        ≡ occurs e current
  known_after r e tick known old current s t once same =
      let left = occurs-left_messages r e tick known (set_difference old current) in
      let a = occurs-set_difference old current e s t in
      let b = occurs-set_difference current old e t s in rw left (ground (arith, a, b, same, once))

  update_none_entered :
      (r : Registry Vec Component) (tick : ℕ) (client : ClientSimData) (located : List ℕ)
      → set_difference (sort located) client.entities_in_aoi ≡ []
      → update_aoi_list r tick client located
        ≡ some (
          record client { entities_in_aoi = sort located },
          left_messages tick (set_difference client.entities_in_aoi (sort located)),
        )
  unfolding update_aoi_list
  update_none_entered r tick client located q = rw (update_aoi_list, q) refl

  update_entered :
      (r : Registry Vec Component) (tick : ℕ) (client : ClientSimData) (located : List ℕ) (d : ℕ)
      (es : List ℕ) (ds : List (EntityData Vec Component))
      → set_difference (sort located) client.entities_in_aoi ≡ d ∷ es
      → entered_data r (d ∷ es) ≡ some ds
      → update_aoi_list r tick client located
        ≡ some (
          record client { entities_in_aoi = sort located },
          left_messages tick (set_difference client.entities_in_aoi (sort located))
              ++ entity_init tick ds ∷ [],
        )
  unfolding update_aoi_list
  update_entered r tick client located d es ds q found = rw (update_aoi_list, q, found) refl

  -- A client knows of the entities in its sorted AOI list, each once; the registry's components are
  -- tracked, and each entity that the locator has found has a list of them. Then the update reads no
  -- missing component, the new list is the found entities in order, and the client that has received
  -- the messages knows of exactly these, each as often as it was found.
  pub update_aoi_list_replicates :
      (r : Registry Vec Component) (tick : ℕ) (client : ClientSimData) (located known : List ℕ)
      → IsTracked r
      → ((e : ℕ) → 0 < occurs e located → (l : List ℕ) × (lookup e r.type_indices ≡ some l))
      → IsSorted client.entities_in_aoi
      → IsOnce client.entities_in_aoi
      → ((e : ℕ) → occurs e known ≡ occurs e client.entities_in_aoi)
      → (updated : ClientSimData) × (ms : List (AoiMessage Vec Component)) × (update_aoi_list r tick
            client located
          ≡ some (updated, ms))
        × IsSorted updated.entities_in_aoi
        × ((e : ℕ) → occurs e updated.entities_in_aoi ≡ occurs e located)
        × ((e : ℕ) → occurs e (receive_all known ms) ≡ occurs e located)
  unfolding receive_all receive
  update_aoi_list_replicates r tick client located known t listed s once same =
      go (set_difference current client.entities_in_aoi) refl
    where
      current : List ℕ
      current = sort located

      left : List (AoiMessage Vec Component)
      left = left_messages tick (set_difference client.entities_in_aoi current)

      known_lem :
          (e : ℕ)
          → occurs e (receive_all known left)
              + occurs e (set_difference current client.entities_in_aoi)
            ≡ occurs e located
      known_lem e =
          known_after r e tick known client.entities_in_aoi current s (sort_lem located).0 (once e)
            (same e)
          ∙ (sort_lem located).1 e

      entered_located :
          (e d : ℕ) (es : List ℕ)
          → set_difference current client.entities_in_aoi ≡ d ∷ es
          → 0 < occurs e (d ∷ es)
          → 0 < occurs e located
      entered_located e d es q m =
          let at = ap (occurs e) q in let both = known_lem e in omega (arith, at, both)

      go :
          (entered : List ℕ)
          → set_difference current client.entities_in_aoi ≡ entered
          → (updated : ClientSimData) × (ms : List (AoiMessage Vec Component)) × (update_aoi_list r
                tick client located
              ≡ some (updated, ms))
            × IsSorted updated.entities_in_aoi
            × ((e : ℕ) → occurs e updated.entities_in_aoi ≡ occurs e located)
            × ((e : ℕ) → occurs e (receive_all known ms) ≡ occurs e located)
      go [] q = (
        record client { entities_in_aoi = current },
        left,
        update_none_entered r tick client located q,
        (sort_lem located).0,
        (sort_lem located).1,
        λ e. let at = ap (occurs e) q in omega (arith, at, known_lem e),
      )
      go (d ∷ es) q =
          let (ds, found, names) =
            entered_data-some r (d ∷ es) t (λ e m. listed e (entered_located e d es q m)) in
          (
            record client { entities_in_aoi = current },
            left ++ entity_init tick ds ∷ [],
            update_entered r tick client located d es ds q found,
            (sort_lem located).0,
            (sort_lem located).1,
            λ e.
                let at = ap (occurs e) q in
                let told = ap (occurs e) names in
                ap (occurs e) (receive_all-append known left (entity_init tick ds ∷ []))
                ∙ occurs-append e (receive_all known left) _
                ∙ omega (arith, at, told, known_lem e),
          )
