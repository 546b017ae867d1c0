-- ===== src/Fleet/Cron/Fields.antt =====
-- src/zamboni/fleet.py: `_parse_field` and the part of CronSchedule.__post_init__ from the five field texts on.
-- A text is the list of its code points. Of what `isdigit`, `int` and `lower` read it has ASCII only.
pub mod Ranges
pub mod Accepted
pub mod Schedules
use Prim.Native.Char.{code}
use zamboni.Base.{
  ℕ, String, zero, suc, ◌+◌, ◌-◌, ◌*◌, ◌%◌, List, [], ◌∷◌, ◌++◌, map, Bool, true, false, ◌&&◌, ◌||◌,
  not, Option, none, some, ltb, leb, ◌==◌, if◌then◌else◌, is_some,
}
use zamboni.Fleet.Cron.{Cron, never_fires}

abbrev pub Text : Type 0
Text = List ℕ

-- Why a `FleetConfigError` is raised; the last is that of a schedule that never fires.
pub data FieldError : Type 0 where
  not_a_number backwards ambiguous bad_step : Text → FieldError
  outside : ℕ → FieldError
  can_never_fire : FieldError

pub data Parsed (A : Type 0) : Type 0 where
  ok : A → Parsed A
  refused : FieldError → Parsed A

infixl 5 ◌>>=◌
abbrev pub ◌>>=◌ : {A B : Type 0} → Parsed A → (A → Parsed B) → Parsed B
ok a >>= f = f a
refused e >>= f = refused e

unfoldable pub same_text : Text → Text → Bool
same_text [] [] = true
same_text [] (d ∷ t) = false
same_text (c ∷ s) [] = false
same_text (c ∷ s) (d ∷ t) = (c == d) && same_text s t

-- `text.partition(mark)`, without the mark: what is before it and, if it occurs, what is after it.
unfoldable pub partition : ℕ → Text → Text × Option Text
partition mark [] = ([], none)
partition mark (c ∷ s) =
    let rest = partition mark s in if c == mark then ([], some s) else (c ∷ rest.0, rest.1)

-- `text.split(mark)`
unfoldable pub split : ℕ → Text → List Text
split mark [] = [] ∷ []
split mark (c ∷ s) = elim (split mark s) [
  | [] ↦ (c ∷ []) ∷ []
  | first ∷ others ↦ if c == mark then [] ∷ first ∷ others else (c ∷ first) ∷ others
]

abbrev digit : ℕ → Bool
digit c = leb b'0' c && leb c b'9'

unfoldable pub all_digits : Text → Bool
all_digits [] = true
all_digits (c ∷ s) = digit c && all_digits s

-- `token.isdigit()`
unfoldable pub is_digits : Text → Bool
is_digits [] = false
is_digits (c ∷ s) = all_digits (c ∷ s)

-- `int(token)`, of digits, with the value of those before.
unfoldable pub int_from : ℕ → Text → ℕ
int_from n [] = n
int_from n (c ∷ s) = int_from (n * 10 + (c - b'0')) s

abbrev pub int : Text → ℕ
int s = int_from 0 s

abbrev lower : ℕ → ℕ
lower c = if leb b'A' c && leb c b'Z' then c + 32 else c

unfoldable pub named : List (Text × ℕ) → Text → Option ℕ
named [] token = none
named ((name, value) ∷ names) token = if same_text name token then some value else named names token

-- A field of `_FIELDS`, with the names that it accepts.
pub record Field : Type 0 where
  pub low : ℕ
  pub high : ℕ
  pub names : List (Text × ℕ)

unfoldable pub in_field : Field → ℕ → Parsed ℕ
in_field f value = if leb f.low value && leb value f.high then ok value else refused (outside value)

-- The inner `number` of `_parse_field`.
unfoldable pub number : Field → Text → Parsed ℕ
number f token = elim (named f.names (map lower token)) [
  | some value ↦ in_field f value
  | none ↦ if is_digits token then in_field f (int token) else refused (not_a_number token)
]

-- The step of an item, of what follows its slash.
unfoldable pub step_of : Option Text → Parsed ℕ
step_of none = ok 1
step_of (some text) =
    if not (is_digits text) || (int text == 0) then refused (bad_step text) else ok (int text)

unfoldable pub ordered : Text → ℕ → ℕ → Parsed (ℕ × ℕ)
ordered spec start end = if ltb end start then refused (backwards spec) else ok (start, end)

-- The bounds of a range `first-last`.
unfoldable pub between : Field → Text → Text → Text → Parsed (ℕ × ℕ)
between f spec first last =
    number f first >>= λ start. number f last >>= λ end. ordered spec start end

-- The bounds of a number, which takes no step.
unfoldable pub alone : Field → Text → Bool → Parsed (ℕ × ℕ)
alone f spec slash =
    if slash then refused (ambiguous spec) else number f spec >>= λ value. ok (value, value)

-- The bounds of an item: those of `*`, of a range, or of a number.
unfoldable pub bounds_of : Field → Text → Bool → Parsed (ℕ × ℕ)
bounds_of f spec slash =
    if same_text spec (b'*' ∷ []) then ok (f.low, f.high) else elim (partition b'-' spec).1 [
      | some last ↦ between f spec (partition b'-' spec).0 last
      | none ↦ alone f spec slash
    ]

-- `range(x, end + 1, step)`, on fuel.
unfoldable pub range_from : ℕ → ℕ → ℕ → ℕ → List ℕ
range_from zero step end x = []
range_from (suc fuel) step end x =
    let rest = range_from fuel step end (x + step) in if leb x end then x ∷ rest else []

-- `range(start, end + 1, step)`. A round goes at least one on.
unfoldable pub range : ℕ → ℕ → ℕ → List ℕ
range start end step = range_from (end + 1 - start) step end start

unfoldable pub parse_item : Field → Text → Parsed (List ℕ)
parse_item f item =
    let parts = partition b'/' item in
    step_of parts.1 >>= λ step.
    bounds_of f parts.0 (is_some parts.1) >>= λ b. ok (range b.0 b.1 step)

unfoldable pub parse_items : Field → List Text → Parsed (List ℕ)
parse_items f [] = ok []
parse_items f (item ∷ items) =
    parse_item f item >>= λ values. parse_items f items >>= λ others. ok (values ++ others)

-- `_parse_field`
unfoldable pub parse_field : Field → Text → Parsed (List ℕ)
parse_field f text = parse_items f (split b',' text)

-- The code points of a name.
abbrev pub codes : String → Text
codes String.[] = []
codes (String.◌∷◌ c s) = code c ∷ codes s

-- The entries of `_FIELDS`, with `_MONTH_NAMES` and `_DAY_NAMES`.
abbrev pub minute_field : Field
minute_field = record { low = 0; high = 59; names = [] }

abbrev pub hour_field : Field
hour_field = record { low = 0; high = 23; names = [] }

abbrev pub day_of_month_field : Field
day_of_month_field = record { low = 1; high = 31; names = [] }

abbrev pub month_field : Field
month_field = record {
  low = 1;
  high = 12;
  names =
      (codes "jan", 1)
      ∷ (codes "feb", 2)
      ∷ (codes "mar", 3)
      ∷ (codes "apr", 4)
      ∷ (codes "may", 5)
      ∷ (codes "jun", 6)
      ∷ (codes "jul", 7)
      ∷ (codes "aug", 8)
      ∷ (codes "sep", 9)
      ∷ (codes "oct", 10)
      ∷ (codes "nov", 11)
      ∷ (codes "dec", 12)
      ∷ [];
}

abbrev pub day_of_week_field : Field
day_of_week_field = record {
  low = 0;
  high = 7;
  names =
      (codes "mon", 1)
      ∷ (codes "tue", 2)
      ∷ (codes "wed", 3)
      ∷ (codes "thu", 4)
      ∷ (codes "fri", 5)
      ∷ (codes "sat", 6)
      ∷ (codes "sun", 0)
      ∷ [];
}

-- `text.startswith("*")`
abbrev pub starred : Text → Bool
starred [] = false
starred (c ∷ s) = c == b'*'

-- The last step of `__post_init__`.
unfoldable pub check_fires : Cron → Parsed Cron
check_fires s = if never_fires s then refused can_never_fire else ok s

-- `CronSchedule.__post_init__` from its five parts on.
unfoldable pub make_cron : (minute hour day_of_month month day_of_week : Text) → Parsed Cron
make_cron minute hour day_of_month month day_of_week =
    parse_field minute_field minute >>= λ minutes. parse_field hour_field hour >>= λ hours.
    parse_field day_of_month_field day_of_month >>= λ days_of_month.
    parse_field month_field month >>= λ months.
    parse_field day_of_week_field day_of_week >>= λ days_of_week. check_fires record {
      minutes = minutes;
      hours = hours;
      days_of_month = days_of_month;
      months = months;
      days_of_week = map (λ d. d % 7) days_of_week;
      dom_star = starred day_of_month;
      dow_star = starred day_of_week;
    }
