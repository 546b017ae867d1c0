-- ===== src/Planner/Groups.antt =====
-- src/zamboni/planner.py: what `plan` chooses to rewrite, and that it passes over nothing silently.
use zamboni.Base.{
  ℕ, suc, ◌+◌, ◌≤◌, ◌≡◌, refl, ◌∙◌, ap, String, List, [], ◌∷◌, Option, none, some, true, false, ◌⊎◌,
  arith, inl, inr, length, Bool-cases, Option-cases, All, keep,
}
use Prim.Native.String.{compare}
use Prim.Native.Nat.{Ordering}
use zamboni.Base.Dict.{Dict}
use zamboni.Planner.{
  CompactionConfig, CompactionPlan, FileGroup, LiveFile, Metadata, Now, sort_by, insert_by, too_few,
  is_held, is_unchanged, judged, judge_all, plan, buckets,
}
use zamboni.Planner.Buckets.{belongs, buckets-belongs}

module _ {A : Type 0} (text : A → String) where
  All-insert_by :
      (Q : A → Type 0) (a : A) (bs : List A) → Q a → All Q bs → All Q (insert_by text a bs)
  All-insert_by Q a [] q h = (q, tt)
  All-insert_by Q a (b ∷ bs) q h = by_order (All-insert_by Q a bs q h.1) (compare (text a) (text b))
    where
      by_order :
          All Q (insert_by text a bs)
          → (o : Ordering)
          → All Q (elim o [ Ordering.gt ↦ b ∷ insert_by text a bs | _ ↦ a ∷ b ∷ bs ])
      by_order later Ordering.gt = (h.0, later)
      by_order later Ordering.lt = (q, h)
      by_order later Ordering.eq = (q, h)

  All-sort_by : (Q : A → Type 0) (bs : List A) → All Q bs → All Q (sort_by text bs)
  All-sort_by Q [] h = tt
  All-sort_by Q (b ∷ bs) h = All-insert_by Q b (sort_by text bs) h.0 (All-sort_by Q bs h.1)

  length-insert_by : (a : A) (bs : List A) → length (insert_by text a bs) ≡ suc (length bs)
  length-insert_by a [] = refl
  length-insert_by a (b ∷ bs) = by_order (length-insert_by a bs) (compare (text a) (text b))
    where
      by_order :
          length (insert_by text a bs) ≡ suc (length bs)
          → (o : Ordering)
          → length (elim o [ Ordering.gt ↦ b ∷ insert_by text a bs | _ ↦ a ∷ b ∷ bs ])
            ≡ suc (suc (length bs))
      by_order later Ordering.gt = ap suc later
      by_order later Ordering.lt = refl
      by_order later Ordering.eq = refl

  length-sort_by : (bs : List A) → length (sort_by text bs) ≡ length bs
  length-sort_by [] = refl
  length-sort_by (b ∷ bs) = length-insert_by b (sort_by text bs) ∙ ap suc (length-sort_by bs)

module _ {P : Type 0} (dec : Discrete (ℕ × P)) (config : CompactionConfig) (target : ℕ)
    (m : Metadata P) (now : Now) (files : List (LiveFile P)) where
  -- A group that should be rewritten: all the candidates of its partition, in the order of their paths,
  -- neither held back by the floor nor unchanged, and enough of them.
  pub record Chosen (g : FileGroup P) : Type 0 where
    pub whole : g.files ≡ sort_by (λ f. f.path) (keep (belongs dec config target g.key) files)
    pub closed : is_held dec config target m now g.key ≡ false
    pub changed : is_unchanged dec config target m now g.key ≡ false
    pub enough :
        (config.rewrite_all ≡ true)
        ⊎ ((config.min_input_files ≤ length g.files) × (2 ≤ length g.files))

  -- The bucket is all the candidates of its partition.
  abbrev Whole : (ℕ × P) × List (LiveFile P) → Type 0
  Whole b = b.1 ≡ keep (belongs dec config target b.0) files

  module _ (least : 1 ≤ config.min_input_files) where
    too_few-none :
        (n : ℕ)
        → too_few config n ≡ none
        → (config.rewrite_all ≡ true) ⊎ ((config.min_input_files ≤ n) × (2 ≤ n))
    unfolding too_few
    too_few-none n h = elim (Bool-cases config.rewrite_all) [
      | inl all_ ↦ inl all_
      | inr some_ ↦ inr (ground arith)
    ]

    judged-Chosen :
        (b : (ℕ × P) × List (LiveFile P)) (rest : CompactionPlan P)
        → Whole b
        → All Chosen rest.groups
        → All Chosen (judged dec config target m now b rest).groups
    unfolding judged
    judged-Chosen (k, fs) rest w h = elim (Bool-cases (is_unchanged dec config target m now k)) [
      | inl same ↦ rw (judged, same) h
      | inr changed ↦ elim (Bool-cases (is_held dec config target m now k)) [
        | inl open_ ↦ rw (judged, changed, open_) h
        | inr closed ↦ elim (Option-cases (too_few config (length fs))) [
          | inr (why, e) ↦ rw (judged, changed, closed, e) h
          | inl e ↦
              rw (judged, changed, closed, e)
                (
                  record {
                    whole = ap (sort_by (λ f. f.path)) w;
                    closed = closed;
                    changed = changed;
                    enough = rw length-sort_by (too_few-none (length fs) e);
                  },
                  h,
                )
        ]
      ]
    ]

    judge_all-Chosen :
        (bs : Dict (ℕ × P) (List (LiveFile P)))
        → All Whole bs
        → All Chosen (judge_all dec config target m now bs).groups
    unfolding judge_all
    judge_all-Chosen [] h = tt
    judge_all-Chosen (b ∷ bs) h =
        judged-Chosen b (judge_all dec config target m now bs) h.0 (judge_all-Chosen bs h.1)

    -- With `min_input_files` at least 1: every group that a plan rewrites is all the candidate
    -- files of its partition, in the order of their paths; its partition is neither held back by
    -- the floor nor unchanged; and unless everything is rewritten it has at least
    -- `min_input_files` files, and two.
    pub plan-Chosen :
        (snapshot : Option ℕ) → All Chosen (plan dec config target m now snapshot files).groups
    unfolding plan
    plan-Chosen none = tt
    plan-Chosen (some id) =
        judge_all-Chosen _
          (All-sort_by (λ b. m.text b.0) Whole _ (buckets-belongs dec config target files))

  judged-count :
      (b : (ℕ × P) × List (LiveFile P)) (rest : CompactionPlan P)
      → length (judged dec config target m now b rest).groups
          + length (judged dec config target m now b rest).skipped
        ≡ suc (length rest.groups + length rest.skipped)
  unfolding judged
  judged-count (k, fs) rest = ground arith

  judge_all-count :
      (bs : Dict (ℕ × P) (List (LiveFile P)))
      → length (judge_all dec config target m now bs).groups
          + length (judge_all dec config target m now bs).skipped
        ≡ length bs
  unfolding judge_all
  judge_all-count [] = omega arith
  judge_all-count (b ∷ bs) =
      judged-count b (judge_all dec config target m now bs) ∙ ap suc (judge_all-count bs)

  -- For a table with a snapshot, the groups of a plan and the partitions that it skips with a
  -- reason are together as many as the partitions with a candidate file.
  pub plan-count :
      (snapshot : ℕ)
      → length (plan dec config target m now (some snapshot) files).groups
          + length (plan dec config target m now (some snapshot) files).skipped
        ≡ length (buckets dec config target [] files)
  unfolding plan
  plan-count snapshot =
      judge_all-count (sort_by (λ b. m.text b.0) (buckets dec config target [] files))
      ∙ length-sort_by (λ b. m.text b.0) _
