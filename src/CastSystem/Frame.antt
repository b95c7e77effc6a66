-- ===== src/CastSystem/Frame.antt =====
-- What the update of one cast leaves alone.
use mathlib.Core.List.{append-nil}
use amalgam_engine.Prelude.{
  ℕ, ◌≡◌, ◌≢◌, refl, ap, sym, ◌∙◌, inl, inr, List, [], ◌∷◌, ◌++◌, Bool-cases,
}
use amalgam_engine.Prelude.Map.{lookup, insert, erase, nat_eq, lookup-insert_ne, lookup-erase_ne}
use amalgam_engine.CastHelper.{CastInfo, CastState}
use amalgam_engine.CastSystem.{Scene, Casting, CastMessage, announce, handle_cast, has_visuals}

module _ {Float Vec : Type 0} where
  -- Only the cast of entity `k` may change, and no handled cast is forgotten.
  pub record Only (k : ℕ) (s t : Casting Float Vec) : Type 0 where
    pub others : (e : ℕ) → k ≢ e → lookup e t.registry.cast_states ≡ lookup e s.registry.cast_states
    pub more : (new : List (CastInfo Float Vec)) × (t.handled ≡ s.handled ++ new)

  pub Only-refl : (k : ℕ) (s : Casting Float Vec) → Only k s s
  Only-refl k s = record { others = λ e ne. refl; more = ([], sym (append-nil s.handled)) }

  pub Only-erase :
      (k : ℕ) (s t : Casting Float Vec)
      → t.registry.cast_states ≡ erase k s.registry.cast_states
      → ((new : List (CastInfo Float Vec)) × (t.handled ≡ s.handled ++ new))
      → Only k s t
  Only-erase k s t q grown = record {
    others = λ e ne. ap (λ m. lookup e m) q ∙ lookup-erase_ne k e s.registry.cast_states ne;
    more = grown;
  }

  pub Only-insert :
      (k : ℕ) (st : CastState Float Vec) (s t : Casting Float Vec)
      → t.registry.cast_states ≡ insert k st s.registry.cast_states
      → t.handled ≡ s.handled
      → Only k s t
  Only-insert k st s t q same = record {
    others = λ e ne. ap (λ m. lookup e m) q ∙ lookup-insert_ne k e st s.registry.cast_states ne;
    more = ([], same ∙ sym (append-nil s.handled));
  }

module _ {Float Vec : Type 0} (sc : Scene Float Vec) where
  pub handle_cast-more :
      (h : List (CastInfo Float Vec)) (info : CastInfo Float Vec)
      → (new : List (CastInfo Float Vec)) × (handle_cast sc h info ≡ h ++ new)
  unfolding handle_cast
  handle_cast-more h info = elim (Bool-cases (sc.has_handler info.castable.castable_id)) [
    | inl there ↦ (info ∷ [], rw there)
    | inr missing ↦ ([], rw missing (sym (append-nil h)))
  ]

  pub announce-handled :
      (s : Casting Float Vec) (info : CastInfo Float Vec) (m : CastMessage Vec)
      → (announce sc s info m).handled ≡ s.handled
  unfolding announce
  announce-handled s info m = elim (Bool-cases (has_visuals sc info.castable)) [
    | inl seen ↦ rw seen
    | inr unseen ↦ rw unseen
  ]
