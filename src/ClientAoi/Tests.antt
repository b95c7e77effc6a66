-- ===== src/ClientAoi/Tests.antt =====
-- Instances of the theorems on the areas of interest: components are numbers.
use amalgam_engine.Prelude.{ℕ, ◌<◌, ◌≡◌, List, [], ◌∷◌, none, some, arith}
use amalgam_engine.Prelude.Map.{lookup, nat_eq}
use amalgam_engine.ClientAoi.{Registry, AoiMessage, ClientSimData, update_aoi_list}
use amalgam_engine.ClientAoi.Differences.{occurs, IsSorted}
use amalgam_engine.ClientAoi.Tracking.{IsTracked}
use amalgam_engine.ClientAoi.Replication.{receive_all, update_aoi_list_replicates}

-- Every entity below 10 has its list, without components as yet.
abbrev unborn : Registry ℕ ℕ
unborn = record {
  type_indices = (3, []) ∷ (5, []) ∷ (8, []) ∷ [];
  component = λ e i. none;
  position = λ e. e;
}

unborn-IsTracked : IsTracked unborn
unfolding lookup
unborn-IsTracked = record { indices = λ e i. ground arith }

abbrev viewer : ClientSimData
viewer = record { net_id = 1; entities_in_aoi = 3 ∷ 5 ∷ [] }

abbrev located : List ℕ
located = 8 ∷ 5 ∷ []

located_listed :
    (e : ℕ) → 0 < occurs e located → (l : List ℕ) × (lookup e unborn.type_indices ≡ some l)
unfolding lookup
located_listed e h = ([], ground arith)

update_aoi_list_replicates_example :
    (updated : ClientSimData) × (ms : List (AoiMessage ℕ ℕ)) × (update_aoi_list unborn 40 viewer
        located
      ≡ some (updated, ms))
    × IsSorted updated.entities_in_aoi
    × ((e : ℕ) → occurs e updated.entities_in_aoi ≡ occurs e located)
    × ((e : ℕ) → occurs e (receive_all (5 ∷ 3 ∷ []) ms) ≡ occurs e located)
update_aoi_list_replicates_example =
    update_aoi_list_replicates unborn 40 viewer located (5 ∷ 3 ∷ []) unborn-IsTracked located_listed
      ((omega arith, tt), (tt, tt)) (λ e. ground arith) (λ e. ground arith)
