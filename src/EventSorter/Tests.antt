-- ===== src/EventSorter/Tests.antt =====
-- Instances of the theorems on the event sorter, with numbers as events.
use amalgam_engine.Prelude.{ℕ, ◌≡◌, refl, ◌&&◌, [], ◌∷◌, ◌++◌, arith, ◌==◌, if◌then◌else◌}
use amalgam_engine.EventSorter.{EventSorter, drain, advance, is_tick_valid, push}
use amalgam_engine.EventSorter.Agenda.{IsValid, in_window, agenda, push_refines, advance_refines}

abbrev at_seven : EventSorter ℕ
at_seven = record {
  queue_buffer = [] ∷ [] ∷ [] ∷ [] ∷ [] ∷ [] ∷ [] ∷ (40 ∷ []) ∷ [] ∷ (41 ∷ []) ∷ [];
  current_tick = 7;
}

at_seven-IsValid : IsValid at_seven
at_seven-IsValid = record { sized = refl; no_wrap = omega arith }

push_refines_example :
    ((push at_seven 50 12).1 ≡ is_tick_valid at_seven 12)
    × ((u : ℕ)
        → agenda (push at_seven 50 12).0 u ≡ (
            if in_window at_seven 12 && u == 12
            then agenda at_seven u ++ 50 ∷ []
            else agenda at_seven u))
    × IsValid (push at_seven 50 12).0
push_refines_example = push_refines at_seven 50 12 at_seven-IsValid

advance_refines_example :
    agenda (advance (drain at_seven)) 9
    ≡ (if 9 == at_seven.current_tick then [] else agenda at_seven 9)
advance_refines_example = advance_refines at_seven 9 at_seven-IsValid (omega arith)
