-- ===== src/Changed/Manifests.antt =====
-- src/zamboni/changed.py: `_from_manifests` lists every partition in which the snapshots wrote.
use mathlib.Core.Bool.{false≢true}
use zamboni.Base.{
  ℕ, ◌≡◌, refl, sym, ap, ◌∙◌, subst, not, All, ℕ_discrete, if◌then◌else◌, none, String, List, [],
  ◌∷◌, ◌++◌, Option, some, Bool, true, false, ◌||◌, ◌&&◌, arith, inl, inr, text_discrete, contains,
  contains-append, Option-cases, Bool-cases,
}
use zamboni.Changed.{
  Snapshot, DataFile, Manifest, is_wanted, ids, join, entry_paths, manifest_paths, snapshot_paths,
  from_manifests,
}

joins :
    (a b : Option (List String)) (paths : List String)
    → join a b ≡ some paths
    → (xs : List String) × (ys : List String) × (a ≡ some xs) × (b ≡ some ys) × (xs ++ ys ≡ paths)
joins none b paths h = ground arith
joins (some xs) none paths h = ground arith
joins (some xs) (some ys) paths h = (xs, ys, refl, refl, ground arith)

in_either :
    (xs ys paths : List String) (path : String)
    → xs ++ ys ≡ paths
    → (contains text_discrete xs path || contains text_discrete ys path) ≡ true
    → contains text_discrete paths path ≡ true
in_either xs ys paths path e h =
    subst (λ ps. contains text_discrete ps path ≡ true) e
      (contains-append text_discrete xs ys path ∙ h)

module _ {P Spec : Type 0} (specs : ℕ → Option Spec) (partition_path : Spec → P → String)
    (manifests_of : Snapshot → Option (List (Manifest P))) where
  -- The partitions of the data files that have a spec.
  abbrev pub partitions_of : List (DataFile P) → List String
  partitions_of [] = []
  partitions_of (f ∷ fs) =
      let rest = partitions_of fs in
      if not f.is_data then rest else elim (specs f.spec_id) [
        | none ↦ rest
        | some spec ↦ partition_path spec f.partition ∷ rest
      ]

  -- What the manifests that the snapshot with this id added list.
  abbrev pub added_by : ℕ → List (Manifest P) → List String
  added_by id [] = []
  added_by id (m ∷ ms) =
      let rest = added_by id ms in
      if is_wanted (id ∷ []) m.added_snapshot_id then partitions_of m.entries ++ rest else rest

  -- The partitions in which a snapshot's own manifests have live data files.
  abbrev pub written_by : Snapshot → List String
  written_by s = elim (manifests_of s) [ none ↦ [] | some ms ↦ added_by s.snapshot_id ms ]

  abbrev pub wrote : List Snapshot → String → Bool
  wrote [] path = false
  wrote (s ∷ ss) path = contains text_discrete (written_by s) path || wrote ss path

  -- A summary says that partitions changed where the snapshot wrote any, and where it includes
  -- them it names each one written.
  abbrev pub Recorded : Snapshot → Type 0
  Recorded s =
      All (λ path. (s.counted && (not s.included || contains text_discrete s.paths path)) ≡ true)
        (written_by s)

  entry_paths-all :
      (fs : List (DataFile P)) (paths : List String)
      → entry_paths specs partition_path manifests_of fs ≡ some paths
      → partitions_of fs ≡ paths
  unfolding entry_paths
  entry_paths-all [] paths h = ground arith
  entry_paths-all (f ∷ fs) paths h = elim (Bool-cases f.is_data) [
    | inr other ↦ rw other (entry_paths-all fs paths (rw other at h))
    | inl data_file ↦ elim (Option-cases (specs f.spec_id)) [
      | inl gone ↦ absurd (ground (arith, data_file, gone, h))
      | inr (spec, e) ↦
          let (xs, ys, a, b, both) =
            joins (some (partition_path spec f.partition ∷ []))
              (entry_paths specs partition_path manifests_of fs) paths
              (ground (arith, data_file, e, h)) in
          let rest = entry_paths-all fs ys b in rw (data_file, e, rest) (ground (arith, a, both))
    ]
  ]

  own-wanted :
      (wanted : List ℕ) (id : ℕ) (added : Option ℕ)
      → contains ℕ_discrete wanted id ≡ true
      → is_wanted (id ∷ []) added ≡ true
      → is_wanted wanted added ≡ true
  own-wanted wanted id none k h = elim (false≢true h) [ ]
  own-wanted wanted id (some x) k h = elim (ℕ_discrete id x) [
    | yes e ↦ subst (λ y. contains ℕ_discrete wanted y ≡ true) e k
    | no n ↦ absurd (ground (arith, h))
  ]

  manifest_paths-covers :
      (wanted : List ℕ) (id : ℕ) (ms : List (Manifest P)) (path : String) (paths : List String)
      → contains ℕ_discrete wanted id ≡ true
      → manifest_paths specs partition_path manifests_of wanted ms ≡ some paths
      → contains text_discrete (added_by id ms) path ≡ true
      → contains text_discrete paths path ≡ true
  unfolding manifest_paths
  manifest_paths-covers wanted id [] path paths k h w = elim (false≢true w) [ ]
  manifest_paths-covers wanted id (m ∷ ms) path paths k h w =
      elim (Bool-cases (is_wanted wanted m.added_snapshot_id)) [
        | inr other ↦ elim (Bool-cases (is_wanted (id ∷ []) m.added_snapshot_id)) [
          | inl own ↦
              elim (false≢true (sym other ∙ own-wanted wanted id m.added_snapshot_id k own)) [ ]
          | inr not_own ↦
              manifest_paths-covers wanted id ms path paths k (rw other at h) (rw not_own at w)
        ]
        | inl here ↦
            let (xs, ys, a, b, both) =
              joins (entry_paths specs partition_path manifests_of m.entries)
                (manifest_paths specs partition_path manifests_of wanted ms) paths (rw here at h) in
            let listed = entry_paths-all m.entries xs a in
            in_either xs ys paths path both
              (elim (Bool-cases (contains text_discrete (added_by id ms) path)) [
                | inl later ↦ ground (arith, manifest_paths-covers wanted id ms path ys k b later)
                | inr gone ↦ elim (Bool-cases (is_wanted (id ∷ []) m.added_snapshot_id)) [
                  | inr not_own ↦ elim (false≢true (sym gone ∙ rw not_own at w)) [ ]
                  | inl own ↦ ground (
                    arith,
                    gone,
                    sym (
                          contains-append text_discrete (partitions_of m.entries) (added_by id ms)
                            path)
                        ∙ rw own at w,
                    ap (λ ps. contains text_discrete ps path) listed,
                  )
                ]
              ])
      ]

  snapshot_paths-covers :
      (wanted : List ℕ) (ss : List Snapshot) (path : String) (paths : List String)
      → All (λ s. contains ℕ_discrete wanted s.snapshot_id ≡ true) ss
      → snapshot_paths specs partition_path manifests_of wanted ss ≡ some paths
      → wrote ss path ≡ true
      → contains text_discrete paths path ≡ true
  unfolding snapshot_paths
  snapshot_paths-covers wanted [] path paths k h w = elim (false≢true w) [ ]
  snapshot_paths-covers wanted (s ∷ ss) path paths k h w = elim (Option-cases (manifests_of s)) [
    | inl gone ↦ absurd (ground (arith, gone, h))
    | inr (ms, e) ↦
        let (xs, ys, a, b, both) =
          joins (manifest_paths specs partition_path manifests_of wanted ms)
            (snapshot_paths specs partition_path manifests_of wanted ss) paths
            (ground (arith, e, h)) in
        in_either xs ys paths path both
          (elim (Bool-cases (contains text_discrete (added_by s.snapshot_id ms) path)) [
            | inl here ↦
                ground (arith, manifest_paths-covers wanted s.snapshot_id ms path xs k.0 a here)
            | inr not_here ↦
                ground (arith, snapshot_paths-covers wanted ss path ys k.1 b (later ms e not_here))
          ])
  ]
    where
      later :
          (ms : List (Manifest P))
          → manifests_of s ≡ some ms
          → contains text_discrete (added_by s.snapshot_id ms) path ≡ false
          → wrote ss path ≡ true
      later ms e gone = ground (arith, w, e, gone)

  ids-contains :
      (ss all : List Snapshot)
      → ((i : ℕ) → contains ℕ_discrete (ids ss) i ≡ true → contains ℕ_discrete (ids all) i ≡ true)
      → All (λ s. contains ℕ_discrete (ids all) s.snapshot_id ≡ true) ss
  ids-contains [] all h = tt
  ids-contains (s ∷ ss) all h =
      (h s.snapshot_id (ground arith), ids-contains ss all (λ i k. h i (ground (arith, k))))

  pub from_manifests-covers :
      (ss : List Snapshot) (path : String) (paths : List String)
      → from_manifests specs partition_path manifests_of ss ≡ some paths
      → wrote ss path ≡ true
      → contains text_discrete paths path ≡ true
  unfolding from_manifests
  from_manifests-covers ss path paths h w =
      snapshot_paths-covers (ids ss) ss path paths (ids-contains ss ss (λ i k. k)) h w
