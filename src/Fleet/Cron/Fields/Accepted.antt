-- ===== src/Fleet/Cron/Fields/Accepted.antt =====
-- What the parser accepts: every field is a set with an entry, all within the field's bounds.
use zamboni.Base.{
  ℕ, ◌≤◌, ◌≡◌, refl, sym, ap, subst, ◌∙◌, inl, inr, List, [], ◌∷◌, ◌++◌, map, Option, none, some,
  Bool, true, false, ◌==◌, is_some, Bool-cases, Option-cases, All, All-append, contains,
  contains-append, ℕ_discrete, arith,
}
use zamboni.Fleet.Cron.Construction.{IsField}
use zamboni.Fleet.Cron.Fields.{
  Text, Field, Parsed, ok, refused, ◌>>=◌, same_text, partition, split, int, lower, named, in_field,
  number, step_of, ordered, between, alone, bounds_of, range, parse_item, parse_items, parse_field,
}
use zamboni.Fleet.Cron.Fields.Ranges.{range-All, range-contains}

-- A chain that succeeds has succeeded at its first part.
pub bind-ok :
    {A B : Type 0} (p : Parsed A) (f : A → Parsed B) (b : B)
    → (p >>= f) ≡ ok b
    → (a : A) × ((p ≡ ok a) × (f a ≡ ok b))
bind-ok (ok a) f b e = (a, (refl, e))
bind-ok (refused x) f b e = absurd (ground (arith, e))

in_field-ok : (f : Field) (v n : ℕ) → in_field f v ≡ ok n → (f.low ≤ n) × (n ≤ f.high)
unfolding in_field
in_field-ok f v n e = ground (arith, e)

number-ok : (f : Field) (token : Text) (n : ℕ) → number f token ≡ ok n → (f.low ≤ n) × (n ≤ f.high)
unfolding number
number-ok f token n e = elim (Option-cases (named f.names (map lower token))) [
  | inl q ↦ ground (arith, e, q, in_field-ok f (int token) n)
  | inr (v, q) ↦ ground (arith, e, q, in_field-ok f v n)
]

step_of-ok : (after : Option Text) (n : ℕ) → step_of after ≡ ok n → 1 ≤ n
unfolding step_of
step_of-ok none n e = ground (arith, e)
step_of-ok (some text) n e = ground (arith, e)

ordered-ok :
    (spec : Text) (start end : ℕ) (b : ℕ × ℕ)
    → ordered spec start end ≡ ok b
    → (b.0 ≡ start) × (b.1 ≡ end) × (start ≤ end)
unfolding ordered
ordered-ok spec start end b e = ground (arith, e)

-- Bounds that an item may have in a field.
abbrev InBounds : Field → ℕ × ℕ → Type 0
InBounds f b = (f.low ≤ b.0) × (b.0 ≤ b.1) × (b.1 ≤ f.high)

between-ok :
    (f : Field) (spec first last : Text) (b : ℕ × ℕ)
    → between f spec first last ≡ ok b
    → InBounds f b
unfolding between
between-ok f spec first last b e =
    let (start, (p, e1)) =
      bind-ok (number f first) (λ start. number f last >>= λ end. ordered spec start end) b e in
    let (end, (q, e2)) = bind-ok (number f last) (λ end. ordered spec start end) b e1 in
    ground
      (arith, number-ok f first start p, number-ok f last end q, ordered-ok spec start end b e2)

alone-ok :
    (f : Field) (spec : Text) (slash : Bool) (b : ℕ × ℕ) → alone f spec slash ≡ ok b → InBounds f b
unfolding alone
alone-ok f spec true b e = absurd (ground (arith, e))
alone-ok f spec false b e =
    let (value, (p, e1)) = bind-ok (number f spec) (λ value. ok (value, value)) b e in
    ground (arith, number-ok f spec value p, e1)

bounds_of-ok :
    (f : Field) (spec : Text) (slash : Bool) (b : ℕ × ℕ)
    → f.low ≤ f.high
    → bounds_of f spec slash ≡ ok b
    → InBounds f b
unfolding bounds_of
bounds_of-ok f spec slash b h e = elim (Bool-cases (same_text spec (b'*' ∷ []))) [
  | inl star ↦ ground (arith, e, star, h)
  | inr star ↦ elim (Option-cases (partition b'-' spec).1) [
    | inr (last, q) ↦ ground (arith, e, star, q, between-ok f spec (partition b'-' spec).0 last b)
    | inl q ↦ ground (arith, e, star, q, alone-ok f spec slash b)
  ]
]

pub ok-inj : {A : Type 0} {a b : A} → ok a ≡ ok b → a ≡ b
ok-inj {a = a} e = ap (λ p. elim p [ ok x ↦ x | refused y ↦ a ]) e

parse_item-ok :
    (f : Field) (item : Text) (values : List ℕ)
    → f.low ≤ f.high
    → parse_item f item ≡ ok values
    → IsField f.low f.high values
unfolding parse_item
parse_item-ok f item values h e =
    let after = (partition b'/' item).1 in
    let spec = (partition b'/' item).0 in
    let (step, (p, e1)) =
      bind-ok (step_of after)
        (λ step. bounds_of f spec (is_some after) >>= λ b. ok (range b.0 b.1 step)) values e in
    let (b, (q, e2)) =
      bind-ok (bounds_of f spec (is_some after)) (λ b. ok (range b.0 b.1 step)) values e1 in
    let (low_le, le, le_high) = bounds_of-ok f spec (is_some after) b h q in
    subst (IsField f.low f.high) (ok-inj e2) record {
      entry = b.0;
      has_entry =
          (range-contains b.0 b.1 step b.0 (step_of-ok after step p)).1 (0, (omega arith, le));
      in_range = range-All b.0 b.1 step f.low f.high low_le le_high;
    }

-- A text has a part, if only the empty one.
split-cons :
    (mark : ℕ) (text : Text)
    → (first : Text) × ((others : List Text) × (split mark text ≡ first ∷ others))
unfolding split
split-cons mark [] = ([], ([], refl))
split-cons mark (c ∷ s) =
    let (first, (others, e)) = split-cons mark s in
    elim (Bool-cases (c == mark)) [
      | inl q ↦ ([], (first ∷ others, rw (e, q) refl))
      | inr q ↦ (c ∷ first, (others, rw (e, q) refl))
    ]

parse_items-All :
    (items : List Text) (f : Field) (values : List ℕ)
    → f.low ≤ f.high
    → parse_items f items ≡ ok values
    → All (λ x. (f.low ≤ x) × (x ≤ f.high)) values
unfolding parse_items
parse_items-All [] f values h e = subst (All (λ x. (f.low ≤ x) × (x ≤ f.high))) (ok-inj e) tt
parse_items-All (item ∷ items) f values h e =
    let (vs, (p, e1)) =
      bind-ok (parse_item f item) (λ vs. parse_items f items >>= λ others. ok (vs ++ others)) values
        e in
    let (others, (q, e2)) = bind-ok (parse_items f items) (λ others. ok (vs ++ others)) values e1 in
    subst (All (λ x. (f.low ≤ x) × (x ≤ f.high))) (ok-inj e2) (
      All-append (λ x. (f.low ≤ x) × (x ≤ f.high)) vs others (parse_item-ok f item vs h p).in_range
        (parse_items-All items f others h q))

parse_items-first :
    (f : Field) (item : Text) (items : List Text) (values : List ℕ)
    → parse_items f (item ∷ items) ≡ ok values
    → (vs : List ℕ) × ((others : List ℕ) × ((parse_item f item ≡ ok vs) × (vs ++ others ≡ values)))
unfolding parse_items
parse_items-first f item items values e =
    let (vs, (p, e1)) =
      bind-ok (parse_item f item) (λ vs. parse_items f items >>= λ others. ok (vs ++ others)) values
        e in
    let (others, (q, e2)) = bind-ok (parse_items f items) (λ others. ok (vs ++ others)) values e1 in
    (vs, (others, (p, ok-inj e2)))

parse_items-ok :
    (f : Field) (item : Text) (items : List Text) (values : List ℕ)
    → f.low ≤ f.high
    → parse_items f (item ∷ items) ≡ ok values
    → IsField f.low f.high values
parse_items-ok f item items values h e =
    let (vs, (others, (p, e2))) = parse_items-first f item items values e in
    let part = parse_item-ok f item vs h p in
    record {
      entry = part.entry;
      has_entry =
          subst (λ l. contains ℕ_discrete l part.entry ≡ true) e2
            (ground (arith, contains-append ℕ_discrete vs others part.entry, part.has_entry));
      in_range = parse_items-All (item ∷ items) f values h e;
    }

-- For a field whose least value is not above its greatest: what its parser accepts has a value,
-- and all its values are from the least to the greatest.
pub parse_field-IsField :
    (f : Field) (text : Text) (values : List ℕ)
    → f.low ≤ f.high
    → parse_field f text ≡ ok values
    → IsField f.low f.high values
unfolding parse_field
parse_field-IsField f text values h e =
    let (first, (others, parts)) = split-cons b',' text in
    parse_items-ok f first others values h (ap (parse_items f) (sym parts) ∙ e)
