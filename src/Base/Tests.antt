-- ===== src/Base/Tests.antt =====
-- Boolean tests, the conditional, equality of texts and of table keys, and results that may raise.
use Prim.Native.Nat.{ℕ, ◌≤◌, ◌<◌, compare, Ordering}
use Prim.Native.String.{String}
use mathlib.Core.Path.{◌≡◌, refl, sym}
use mathlib.Core.Logic.{◌↔◌, ◌⊎◌, inl, inr}
use mathlib.Core.Bool.{Bool, true, false, false≢true}
use mathlib.Core.Option.{Option, none, some}
use native.Mathlib.Omega.{arith}
use text.Mathlib.Text.{◌==◌ as str_eq}
use text.Mathlib.TextEquality.{eq_iff}

abbrev pub ltb : ℕ → ℕ → Bool
ltb a b = elim (compare a b) [ Ordering.lt ↦ true | _ ↦ false ]

abbrev pub leb : ℕ → ℕ → Bool
leb a b = elim (compare a b) [ Ordering.gt ↦ false | _ ↦ true ]

infix 50 ◌==◌
abbrev pub ◌==◌ : ℕ → ℕ → Bool
a == b = elim (compare a b) [ Ordering.eq ↦ true | _ ↦ false ]

infix 1 if◌then◌else◌
abbrev pub if◌then◌else◌ {ℓ} : {A : Type ℓ} → Bool → A → A → A
if true then x else y = x
if false then x else y = y

pub ltb→lt : (a b : ℕ) → ltb a b ≡ true → a < b
ltb→lt a b h = ground arith

pub leb→le : (a b : ℕ) → leb a b ≡ true → a ≤ b
leb→le a b h = ground arith

pub Bool-cases : (b : Bool) → (b ≡ true) ⊎ (b ≡ false)
Bool-cases true = inl refl
Bool-cases false = inr refl

pub Option-cases {ℓ} : {A : Type ℓ} (o : Option A) → (o ≡ none) ⊎ ((a : A) × (o ≡ some a))
Option-cases none = inl refl
Option-cases (some a) = inr (a, refl)

-- A decision from a Boolean test that reflects the statement.
dec_of_iff {ℓ} : {P : Type ℓ} (b : Bool) → ((b ≡ true) ↔ P) → Dec P
dec_of_iff true e = yes (e.0 refl)
dec_of_iff false e = no (λ p. false≢true (e.1 p))

-- Equality of names.
unfoldable pub text_discrete : Discrete String
unfolding dec_of_iff
text_discrete s t = dec_of_iff (str_eq s t) (eq_iff s t)

-- A pair of names: the key `(warehouse, table)` of the queue, the claims and the feed.
abbrev pub TableKey : Type 0
TableKey = String × String

key_parts_dec :
    {a b c d : String} → Dec (a ≡ c) → Dec (b ≡ d) → Dec (◌≡◌ {A = TableKey} (a, b) (c, d))
key_parts_dec (yes p) (yes q) = yes (λ i. (p i, q i))
key_parts_dec (no p) _ = no (λ e. p (λ i. (e i).0))
key_parts_dec (yes p) (no q) = no (λ e. q (λ i. (e i).1))

unfoldable pub key_discrete : Discrete TableKey
unfolding key_parts_dec text_discrete
key_discrete (a, b) (c, d) = key_parts_dec (text_discrete a c) (text_discrete b d)

abbrev pub is_some {ℓ} : {A : Type ℓ} → Option A → Bool
is_some none = false
is_some (some _) = true

abbrev pub or_else {ℓ} : {A : Type ℓ} → Option A → A → A
or_else none b = b
or_else (some a) b = a

-- A decision, as a Boolean.
abbrev pub is_yes {ℓ} : {P : Type ℓ} → Dec P → Bool
is_yes (yes _) = true
is_yes (no _) = false

infixl 5 ◌>>=◌
abbrev pub ◌>>=◌ : {A B : Type 0} → Option A → (A → Option B) → Option B
none >>= f = none
some a >>= f = f a

pub not_of_no {ℓ} : {P : Type ℓ} (d : Dec P) → is_yes d ≡ false → ¬ P
not_of_no (yes p) h q = false≢true (sym h)
not_of_no (no n) h q = n q
