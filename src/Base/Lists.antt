-- ===== src/Base/Lists.antt =====
-- Lists over the native numbers: lengths, sums, Boolean filters, predicates on every entry.
use Prim.Native.Nat.{ℕ, suc, ◌+◌, ◌≤◌}
use mathlib.Core.Path.{◌≡◌, refl, subst, sym}
use mathlib.Core.Logic.{◌⊎◌, inl, inr}
use mathlib.Core.Bool.{Bool, true, false, ◌||◌, ◌&&◌, false≢true}
use mathlib.Core.List.{List, [], ◌∷◌, ◌++◌}
use native.Mathlib.Omega.{arith}
use zamboni.Base.Tests.{if◌then◌else◌, is_yes}

module _ {ℓ} {A : Type ℓ} where
  abbrev pub length : List A → ℕ
  length [] = 0
  length (x ∷ xs) = suc (length xs)

  pub List-cases : (xs : List A) → (xs ≡ []) ⊎ ((x : A) × ((rest : List A) × (xs ≡ x ∷ rest)))
  List-cases [] = inl refl
  List-cases (x ∷ xs) = inr (x, (xs, refl))

  pub length-append : (xs ys : List A) → length (xs ++ ys) ≡ length xs + length ys
  length-append [] ys = omega arith
  length-append (x ∷ xs) ys = omega (arith, length-append xs ys)

  -- The entries that pass a Boolean test, in order.
  abbrev pub keep : (A → Bool) → List A → List A
  keep p [] = []
  keep p (x ∷ xs) = if p x then x ∷ keep p xs else keep p xs

  pub length-keep-le : (p : A → Bool) (xs : List A) → length (keep p xs) ≤ length xs
  length-keep-le p [] = omega arith
  length-keep-le p (x ∷ xs) = ground (arith, length-keep-le p xs)

  abbrev pub any_of : (A → Bool) → List A → Bool
  any_of p [] = false
  any_of p (x ∷ xs) = p x || any_of p xs

  abbrev pub All {κ} : (A → Type κ) → List A → Type κ
  All P [] = Unit
  All P (x ∷ xs) = P x × All P xs

  pub All-append {κ} : (P : A → Type κ) (xs ys : List A) → All P xs → All P ys → All P (xs ++ ys)
  All-append P [] ys hx hy = hy
  All-append P (x ∷ xs) ys hx hy = (hx.0, All-append P xs ys hx.1 hy)

  pub All-map {κ μ} :
      {P : A → Type κ} {Q : A → Type μ}
      → ((x : A) → P x → Q x)
      → (xs : List A) → All P xs
      → All Q xs
  All-map f [] h = tt
  All-map f (x ∷ xs) h = (f x h.0, All-map f xs h.1)

  abbrev pub sum_of : (A → ℕ) → List A → ℕ
  sum_of f [] = 0
  sum_of f (x ∷ xs) = f x + sum_of f xs

module _ {ℓ} {A : Type ℓ} (dec : Discrete A) where
  abbrev pub contains : List A → A → Bool
  contains [] a = false
  contains (x ∷ xs) a = is_yes (dec x a) || contains xs a

  -- No entry occurs twice.
  abbrev pub Distinct : List A → Type 0
  Distinct [] = Unit
  Distinct (x ∷ xs) = (contains xs x ≡ false) × Distinct xs

  pub All-contains {κ} :
      (P : A → Type κ) (xs : List A) (a : A) → All P xs → contains xs a ≡ true → P a
  All-contains P [] a h m = elim (false≢true m) [ ]
  All-contains P (x ∷ xs) a h m = elim (dec x a) [
    | yes e ↦ subst P e h.0
    | no n ↦ All-contains P xs a h.1 (ground arith)
  ]

  pub contains-append :
      (xs ys : List A) (a : A) → contains (xs ++ ys) a ≡ (contains xs a || contains ys a)
  contains-append [] ys a = refl
  contains-append (x ∷ xs) ys a = ground (arith, contains-append xs ys a)

  pub Distinct-snoc :
      (xs : List A) (a : A) → Distinct xs → contains xs a ≡ false → Distinct (xs ++ a ∷ [])
  Distinct-snoc [] a d h = (refl, tt)
  Distinct-snoc (x ∷ xs) a d h =
      (ground (arith, contains-append xs (a ∷ []) x), Distinct-snoc xs a d.1 (ground arith))

  pub contains-keep :
      (p : A → Bool) (xs : List A) (a : A) → contains (keep p xs) a ≡ (p a && contains xs a)
  contains-keep p [] a = ground arith
  contains-keep p (x ∷ xs) a = elim (dec x a) [
    | yes e ↦
        subst (λ b. contains (keep p (b ∷ xs)) a ≡ (p a && contains (b ∷ xs) a)) (sym e)
          (ground (arith, contains-keep p xs a))
    | no n ↦ ground (arith, contains-keep p xs a)
  ]
