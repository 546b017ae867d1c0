-- ===== src/Quarantine/Adoption.antt =====
-- src/zamboni/quarantine.py: a reload keeps the records of the tables that the new fleet has.
use zamboni.Base.{
  ◌≡◌, subst, String, List, [], ◌∷◌, none, arith, inl, inr, text_discrete, if◌then◌else◌, contains,
  Bool-cases,
}
use zamboni.Base.Dict.{Dict, get}
use zamboni.Fleet.{Warehouse}
use zamboni.Quarantine.{Quarantine, adopted, only_known, known_tables}
use zamboni.Quarantine.Backoff.{IsSound, start-Fits}

get-only_known :
    {V : Type 0} (known : List String) (d : Dict String V) (k : String)
    → get text_discrete (only_known known d) k
      ≡ (if contains text_discrete known k then get text_discrete d k else none)
unfolding only_known get
get-only_known known [] k = ground arith
get-only_known known ((j, w) ∷ d) k = elim (text_discrete j k) [
  | yes same ↦
      subst
        (λ i.
          get text_discrete (only_known known ((j, w) ∷ d)) i
          ≡ (if contains text_discrete known i then get text_discrete ((j, w) ∷ d) i else none))
        same (ground (arith, get-only_known known d j))
  | no other ↦ ground (arith, get-only_known known d k)
]

pub adopted-IsSound :
    {S : Type 0} (q : Quarantine) (fleet : List (Warehouse S))
    → IsSound q
    → IsSound (adopted q fleet)
unfolding adopted
adopted-IsSound q fleet v = record {
  positive = v.positive;
  ceiling = v.ceiling;
  allowed = v.allowed;
  counts = v.counts;
  fits = λ k.
      rw (get-only_known, get-only_known)
        (elim (Bool-cases (contains text_discrete (known_tables fleet) k)) [
          | inl known ↦ rw known (v.fits k)
          | inr gone ↦ rw gone (start-Fits q.backoff q.most q.threshold v.counts)
        ]);
}
