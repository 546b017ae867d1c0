-- ===== src/Fleet/Names.antt =====
-- src/zamboni/fleet.py: what the check of a fleet's warehouses accepts, and refuses.
use zamboni.Base.{
  ◌≡◌, ◌≢◌, refl, sym, ◌∙◌, String, List, [], ◌∷◌, none, false, arith, inl, inr, text_discrete,
  contains, Distinct, All, Option-cases, Bool-cases,
}
use zamboni.Fleet.{Warehouse, names, first_repeat, make_fleet, ok}

module _ {S : Type 0} where
  -- No warehouse has one of these names.
  abbrev pub Unseen : List String → List (Warehouse S) → Type 0
  Unseen seen ws = All (λ w. contains text_discrete seen w.name ≡ false) ws

  Unseen-head :
      (name : String) (seen : List String) (ws : List (Warehouse S))
      → Unseen (name ∷ seen) ws
      → contains text_discrete (names ws) name ≡ false
  Unseen-head name seen [] h = refl
  Unseen-head name seen (w ∷ ws) h = ground (arith, Unseen-head name seen ws h.1)

  Unseen-tail :
      (name : String) (seen : List String) (ws : List (Warehouse S))
      → Unseen (name ∷ seen) ws
      → Unseen seen ws
  Unseen-tail name seen [] h = tt
  Unseen-tail name seen (w ∷ ws) h = (ground arith, Unseen-tail name seen ws h.1)

  first_repeat-next :
      (seen : List String) (w : Warehouse S) (ws : List (Warehouse S))
      → contains text_discrete seen w.name ≡ false
      → first_repeat seen (w ∷ ws) ≡ first_repeat (w.name ∷ seen) ws
  unfolding first_repeat
  first_repeat-next seen w ws e = rw (e, first_repeat) refl

  first_repeat-Distinct :
      (ws : List (Warehouse S)) (seen : List String)
      → first_repeat seen ws ≡ none
      → Distinct text_discrete (names ws) × Unseen seen ws
  unfolding first_repeat
  first_repeat-Distinct [] seen h = (tt, tt)
  first_repeat-Distinct (w ∷ ws) seen h = elim (Bool-cases (contains text_discrete seen w.name)) [
    | inl again ↦ absurd (ground arith)
    | inr new ↦
        let rest =
          first_repeat-Distinct ws (w.name ∷ seen) (sym (first_repeat-next seen w ws new) ∙ h) in
        ((Unseen-head w.name seen ws rest.1, rest.0), (new, Unseen-tail w.name seen ws rest.1))
  ]

  -- A fleet that is accepted is as it was written, has a warehouse, and its warehouses have
  -- distinct names.
  pub make_fleet-Distinct :
      (ws fleet : List (Warehouse S))
      → make_fleet ws ≡ ok fleet
      → (fleet ≡ ws) × (ws ≢ []) × Distinct text_discrete (names ws)
  unfolding make_fleet
  make_fleet-Distinct [] fleet h = absurd (ground arith)
  make_fleet-Distinct (w ∷ ws) fleet h = elim (Option-cases (first_repeat [] (w ∷ ws))) [
    | inr (name, e) ↦ absurd (ground arith)
    | inl e ↦ (ground arith, λ k. ground arith, (first_repeat-Distinct (w ∷ ws) [] e).0)
  ]
