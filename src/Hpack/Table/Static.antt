-- ===== src/Hpack/Table/Static.antt =====
-- The static table of src/http2/aws-http2-hpack-table.adb: its keys stand for its items.
use aws.Base.{ℕ, ◌≤◌, ◌≡◌, ◌≢◌, inl, inr, refl, arith}
use aws.Base.{ap, ◌∙◌, Option, none, some, All-weaken}
use aws.Base.{Text, text_eq, text_eq_sound, IsFree, length, All, all, all_sound}
use aws.Base.{not, Bool, true, false, leb, ◌==◌, ◌||◌, ◌&&◌}
use aws.Hpack.Outcome.{Outcome, ok, err, stuck}
use aws.Hpack.Table.{NameValue, find, pair_key, element, static}
use aws.Hpack.Table.{static_table_size}
use aws.Hpack.Table.Keys.{IsKey}

is_some : Option ℕ → Bool
is_some none = false
is_some (some i) = true

-- The name of each item of the static table is a key of its map.
static_named : all (λ item. is_some (find item.name static.t_ni)) static.t_in ≡ true
unfolding all static find text_eq is_some
static_named = refl

is_some_sound : (o : Option ℕ) → is_some o ≡ true → o ≢ none
unfolding is_some
is_some_sound none h = absurd (cc)
is_some_sound (some i) h = λ e. cc

-- A name that is no key of the static map is that of no item of the static table.
pub static_absent : (n : Text) → find n static.t_ni ≡ none → All (λ item. item.name ≢ n) static.t_in
static_absent n missing =
    All-weaken (λ item. find item.name static.t_ni ≢ none) (λ item. item.name ≢ n) static.t_in
      (λ item known same. known (ap (λ k. find k static.t_ni) same ∙ missing))
      (all_sound (λ item. find item.name static.t_ni ≢ none)
        (λ item. is_some (find item.name static.t_ni))
        (λ item. is_some_sound (find item.name static.t_ni)) static.t_in static_named)

pub length-static : length static.t_in ≡ 61
unfolding static
length-static = refl

-- Each key of the static map has the index of an item with that key.
unfoldable pub StaticPoint : Text × ℕ → Type 0
StaticPoint p =
    (item : NameValue) × (element static.t_in p.1 ≡ ok item)
    × IsKey p.0 item
    × IsFree b'=' item.name
    × (p.1 ≤ static_table_size)

static_point : Text × ℕ → Outcome NameValue → Bool
static_point p (ok item) =
    (text_eq p.0 item.name || text_eq p.0 (pair_key item.name item.value))
    && all (λ c. not (c == b'=')) item.name
    && leb p.1 static_table_size
static_point p (err e) = false
static_point p stuck = false

static_point_sound :
    (p : Text × ℕ) (o : Outcome NameValue)
    → element static.t_in p.1 ≡ o
    → static_point p o ≡ true
    → StaticPoint p
unfolding StaticPoint static_point
static_point_sound p (err x) at_index h = cc
static_point_sound p stuck at_index h = cc
static_point_sound p (ok item) at_index h = (
  item,
  at_index,
  key (text_eq p.0 item.name) (text_eq p.0 (pair_key item.name item.value)) refl refl
      (ground (arith, h)),
  all_sound (λ c. c ≢ b'=') (λ c. not (c == b'=')) (λ c e. ground arith) item.name
      (ground (arith, h)),
  ground (arith, h),
)
  where
    key :
        (by_name by_pair : Bool)
        → text_eq p.0 item.name ≡ by_name
        → text_eq p.0 (pair_key item.name item.value) ≡ by_pair
        → by_name || by_pair ≡ true
        → IsKey p.0 item
    key true b e f g = inl (text_eq_sound p.0 item.name e)
    key false true e f g = inr (text_eq_sound p.0 (pair_key item.name item.value) f)
    key false false e f g = cc

static_passed : all (λ p. static_point p (element static.t_in p.1)) static.t_ni ≡ true
unfolding all static_point element static text_eq
static_passed = refl

pub static_indexed : All StaticPoint static.t_ni
static_indexed =
    all_sound StaticPoint (λ p. static_point p (element static.t_in p.1))
      (λ p h. static_point_sound p (element static.t_in p.1) refl h) static.t_ni static_passed
