-- ===== src/Base/Dict.antt =====
-- A Python `dict`, as an association list in insertion order: assigning to a key that is present
-- keeps its place, assigning to a new one appends. Used for `dict` and `OrderedDict` alike.
use mathlib.Core.Path.{◌≡◌, refl}
use mathlib.Core.Logic.{ite}
use mathlib.Core.Bool.{Bool, true, false}
use mathlib.Core.Option.{Option, none, some}
use mathlib.Core.List.{List, [], ◌∷◌, ◌++◌}
use native.Mathlib.Omega.{arith}
use zamboni.Base.Tests.{is_some}
use zamboni.Base.Lists.{contains, Distinct, All}

abbrev pub Dict {ℓ} : Type ℓ → Type ℓ → Type ℓ
Dict K V = List (K × V)

module _ {ℓ} {K V : Type ℓ} where
  -- `d.keys()`, in order.
  abbrev pub keys : Dict K V → List K
  keys [] = []
  keys ((k, v) ∷ d) = k ∷ keys d

module _ {ℓ} {K V : Type ℓ} (dec : Discrete K) where
  -- `d.get(k)`
  unfoldable pub get : Dict K V → K → Option V
  get [] k = none
  get ((j, v) ∷ d) k = ite (dec j k) (some v) (get d k)

  -- `d[k] = v`
  unfoldable pub put : Dict K V → K → V → Dict K V
  put [] k v = (k, v) ∷ []
  put ((j, w) ∷ d) k v = ite (dec j k) ((j, v) ∷ d) ((j, w) ∷ put d k v)

  -- `d.pop(k, None)`, `del d[k]`
  unfoldable pub remove : Dict K V → K → Dict K V
  remove [] k = []
  remove ((j, w) ∷ d) k = ite (dec j k) (remove d k) ((j, w) ∷ remove d k)

  -- `k in d`
  abbrev pub has : Dict K V → K → Bool
  has d k = is_some (get d k)

  pub get-nil : (k : K) → get [] k ≡ none
  unfolding get
  get-nil k = refl

  pub get-put :
      (d : Dict K V) (k j : K) (v : V) → get (put d k v) j ≡ ite (dec k j) (some v) (get d j)
  unfolding get put
  get-put [] k j v = refl
  get-put ((i, w) ∷ d) k j v = ground (arith, get-put d k j v)

  pub get-remove : (d : Dict K V) (k j : K) → get (remove d k) j ≡ ite (dec k j) none (get d j)
  unfolding get remove
  get-remove [] k j = ground arith
  get-remove ((i, w) ∷ d) k j = ground (arith, get-remove d k j)

module _ {K V : Type 0} (dec : Discrete K) where
  pub contains-keys : (d : Dict K V) (k : K) → contains dec (keys d) k ≡ is_some (get dec d k)
  unfolding get
  contains-keys [] k = refl
  contains-keys ((j, w) ∷ d) k = ground (arith, contains-keys d k)

  pub contains-keys-remove :
      (d : Dict K V) (k j : K)
      → contains dec (keys (remove dec d k)) j ≡ ite (dec k j) false (contains dec (keys d) j)
  unfolding remove
  contains-keys-remove [] k j = ground arith
  contains-keys-remove ((i, w) ∷ d) k j = ground (arith, contains-keys-remove d k j)

  contains-keys-put :
      (d : Dict K V) (k j : K) (v : V)
      → contains dec (keys (put dec d k v)) j ≡ ite (dec k j) true (contains dec (keys d) j)
  unfolding put
  contains-keys-put [] k j v = ground arith
  contains-keys-put ((i, w) ∷ d) k j v = ground (arith, contains-keys-put d k j v)

  pub Distinct-put :
      (d : Dict K V) (k : K) (v : V) → Distinct dec (keys d) → Distinct dec (keys (put dec d k v))
  unfolding put
  Distinct-put [] k v h = (refl, tt)
  Distinct-put ((i, w) ∷ d) k v h =
      ground (arith, Distinct-put d k v h.1, contains-keys-put d k i v)

  pub Distinct-remove :
      (d : Dict K V) (k : K) → Distinct dec (keys d) → Distinct dec (keys (remove dec d k))
  unfolding remove
  Distinct-remove [] k h = tt
  Distinct-remove ((i, w) ∷ d) k h =
      ground (arith, Distinct-remove d k h.1, contains-keys-remove d k i)

  -- A key that is present keeps its place; a new one goes to the end.
  pub keys-put_new :
      (d : Dict K V) (k : K) (v : V) → get dec d k ≡ none → keys (put dec d k v) ≡ keys d ++ k ∷ []
  unfolding put get
  keys-put_new [] k v h = refl
  keys-put_new ((j, w) ∷ d) k v h = ground (arith, keys-put_new d k v)

  pub keys-put_old :
      (d : Dict K V) (k : K) (v w : V) → get dec d k ≡ some w → keys (put dec d k v) ≡ keys d
  unfolding put get
  keys-put_old [] k v w h = cc
  keys-put_old ((j, u) ∷ d) k v w h = ground (arith, keys-put_old d k v w)

module _ {K V : Type 0} (dec : Discrete K) where
  All-get-cons :
      (k : K) (v : V) (e d : Dict K V)
      → contains dec (keys d) k ≡ false
      → All (λ b. get dec e b.0 ≡ some b.1) d
      → All (λ b. get dec ((k, v) ∷ e) b.0 ≡ some b.1) d
  unfolding get
  All-get-cons k v e [] h a = tt
  All-get-cons k v e ((j, w) ∷ d) h a =
      (ground (arith, a.0), All-get-cons k v e d (ground arith) a.1)

  -- With distinct keys, every entry is what its key looks up.
  pub All-get : (d : Dict K V) → Distinct dec (keys d) → All (λ b. get dec d b.0 ≡ some b.1) d
  unfolding get
  All-get [] h = tt
  All-get ((k, v) ∷ d) h = (ground arith, All-get-cons k v d d h.0 (All-get d h.1))

pub ruleset dict_laws = (get-put, get-remove)
