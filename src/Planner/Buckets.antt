-- ===== src/Planner/Buckets.antt =====
-- src/zamboni/planner.py: the buckets of `plan` hold each candidate file, by its partition.
use zamboni.Base.{
  ℕ, ◌≡◌, refl, sym, ◌∙◌, subst, ap, List, [], ◌∷◌, ◌++◌, Bool, true, false, ◌&&◌, arith, inl, inr,
  is_yes, if◌then◌else◌, if_pos, if_neg, Bool-cases, or_else, Distinct, All, All-map, keep,
}
use mathlib.Core.List.{append-nil, append_assoc}
use zamboni.Base.Dict.{Dict, get, keys, get-put, Distinct-put, get-nil, All-get}
use zamboni.Planner.{CompactionConfig, LiveFile, key_of, is_candidate, appended, buckets}

module _ {P : Type 0} (dec : Discrete (ℕ × P)) (config : CompactionConfig) (target : ℕ) where
  -- The file is a candidate of that partition.
  abbrev pub belongs : ℕ × P → LiveFile P → Bool
  belongs k f = is_candidate dec config target f && is_yes (dec (key_of dec config target f) k)

  appended-get :
      (d : Dict (ℕ × P) (List (LiveFile P))) (f : LiveFile P) (k : ℕ × P)
      → or_else (get dec (appended dec config target d f) k) [] ≡ (
          if is_yes (dec (key_of dec config target f) k)
          then or_else (get dec d k) [] ++ f ∷ []
          else or_else (get dec d k) [])
  appended-get d f k = elim (dec (key_of dec config target f) k) [
    | yes e ↦
        rw (get-put, if_pos _ e)
          (subst
            (λ j. (or_else (get dec d (key_of dec config target f)) [] ++ f ∷ []) ≡ (
              if is_yes (dec (key_of dec config target f) j)
              then or_else (get dec d j) [] ++ f ∷ []
              else or_else (get dec d j) []))
            e (ground arith))
    | no n ↦ rw (get-put, if_neg _ n) (ground arith)
  ]

  buckets-taken :
      (f : LiveFile P) (fs : List (LiveFile P)) (d : Dict (ℕ × P) (List (LiveFile P)))
      → is_candidate dec config target f ≡ true
      → buckets dec config target d (f ∷ fs)
        ≡ buckets dec config target (appended dec config target d f) fs
  unfolding buckets
  buckets-taken f fs d e = rw (e, buckets) refl

  buckets-left :
      (f : LiveFile P) (fs : List (LiveFile P)) (d : Dict (ℕ × P) (List (LiveFile P)))
      → is_candidate dec config target f ≡ false
      → buckets dec config target d (f ∷ fs) ≡ buckets dec config target d fs
  unfolding buckets
  buckets-left f fs d e = rw (e, buckets) refl

  keep-taken :
      (f : LiveFile P) (fs : List (LiveFile P)) (k : ℕ × P)
      → belongs k f ≡ true
      → keep (belongs k) (f ∷ fs) ≡ f ∷ keep (belongs k) fs
  keep-taken f fs k e = rw e refl

  keep-left :
      (f : LiveFile P) (fs : List (LiveFile P)) (k : ℕ × P)
      → belongs k f ≡ false
      → keep (belongs k) (f ∷ fs) ≡ keep (belongs k) fs
  keep-left f fs k e = rw e refl

  buckets-get :
      (fs : List (LiveFile P)) (d : Dict (ℕ × P) (List (LiveFile P))) (k : ℕ × P)
      → or_else (get dec (buckets dec config target d fs) k) []
        ≡ or_else (get dec d k) [] ++ keep (belongs k) fs
  unfolding buckets
  buckets-get [] d k = sym (append-nil _)
  buckets-get (f ∷ fs) d k = elim (Bool-cases (is_candidate dec config target f)) [
    | inr skipped ↦
        rw (buckets-left f fs d skipped, keep-left f fs k (ground arith)) (buckets-get fs d k)
    | inl taken ↦ elim (Bool-cases (is_yes (dec (key_of dec config target f) k))) [
      | inl here ↦
          rw (buckets-taken f fs d taken, keep-taken f fs k (ground arith))
            (buckets-get fs (appended dec config target d f) k
              ∙ rw (appended-get d f k, here)
                  (append_assoc (or_else (get dec d k) []) (f ∷ []) (keep (belongs k) fs)))
      | inr there ↦
          rw (buckets-taken f fs d taken, keep-left f fs k (ground arith))
            (buckets-get fs (appended dec config target d f) k
              ∙ rw (appended-get d f k, there) refl)
    ]
  ]

  buckets-Distinct :
      (fs : List (LiveFile P)) (d : Dict (ℕ × P) (List (LiveFile P)))
      → Distinct dec (keys d)
      → Distinct dec (keys (buckets dec config target d fs))
  unfolding buckets
  buckets-Distinct [] d h = h
  buckets-Distinct (f ∷ fs) d h = elim (Bool-cases (is_candidate dec config target f)) [
    | inl yes_ ↦
        rw yes_ (buckets-Distinct fs (appended dec config target d f) (Distinct-put dec d _ _ h))
    | inr no_ ↦ rw no_ (buckets-Distinct fs d h)
  ]

  -- Every bucket is the candidates of its partition, in the profile's order.
  pub buckets-belongs :
      (fs : List (LiveFile P))
      → All (λ b. b.1 ≡ keep (belongs b.0) fs) (buckets dec config target [] fs)
  buckets-belongs fs =
      All-map (λ b e. sym (ap (λ o. or_else o []) e) ∙ from_empty b.0) _
        (All-get dec (buckets dec config target [] fs) (buckets-Distinct fs [] tt))
    where
      from_empty :
          (k : ℕ × P)
          → or_else (get dec (buckets dec config target [] fs) k) [] ≡ keep (belongs k) fs
      from_empty k = rw (buckets-get fs [] k, get-nil) refl
