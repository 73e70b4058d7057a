-- ===== src/Update/Version.antt =====
-- Versions and checksum lists (internal/update/update.go). `int` has 64 bits.
pub mod Compare
use mathlib.Core.List.{reverse}
use ti_cli.Common.{
  ℕ, zero, suc, ◌+◌, ◌-◌, ◌*◌, ◌^◌, Bool, true, false, not, ◌&&◌, ◌||◌, Option, none, some, List,
  [], ◌∷◌, if◌then◌else◌, ltb, leb, ◌==◌, length,
}
use ti_cli.Common.Int.{ℤ, pos, negsuc, ltb_ℤ}
use ti_cli.Common.Text.{Text, codes, eqb, trim_space, trim_prefix}

-- `strings.Split` at one character: the part before the first, and those after it.
unfoldable pub cut_at : ℕ → Text → Text × List Text
cut_at sep [] = ([], [])
cut_at sep (c ∷ s) =
    let (first, others) = cut_at sep s in
    if c == sep then ([], first ∷ others) else (c ∷ first, others)

-- `value[:i]` for the first of the characters, if there is one.
unfoldable pub before_any : Text → Text
before_any [] = []
before_any (c ∷ s) = if c == b'-' || c == b'+' then [] else c ∷ before_any s

-- The digits of `strconv.Atoi`, most significant first.
unfoldable pub digits_value : Text → ℕ → Option ℕ
digits_value [] n = some n
digits_value (c ∷ s) n =
    let rest = digits_value s (n * 10 + (c - b'0')) in
    if leb b'0' c && leb c b'9' then rest else none

abbrev signed : Bool → ℕ → Option ℤ
signed negative n =
    if negative
    then if ltb (2 ^ 63) n then none else if n == 0 then some (pos 0) else some (negsuc (n - 1))
    else if leb (2 ^ 63) n
    then none
    else some (pos n)

unfoldable pub unsigned : Bool → Text → Option ℤ
unfolding digits_value
unsigned negative [] = none
unsigned negative (c ∷ s) = elim (digits_value (c ∷ s) 0) [
  | none ↦ none
  | some n ↦ signed negative n
]

-- `strconv.Atoi`.
unfoldable pub atoi : Text → Option ℤ
unfolding unsigned
atoi [] = none
atoi (c ∷ s) =
    if c == b'-'
    then unsigned true s
    else if c == b'+'
    then unsigned false s
    else unsigned false (c ∷ s)

pub record Numbers : Type 0 where
  pub major : ℤ
  pub minor : ℤ
  pub patch : ℤ

infixl 5 ◌>>=◌
abbrev ◌>>=◌ : {A B : Type 0} → Option A → (A → Option B) → Option B
none >>= f = none
some a >>= f = f a

unfoldable pub parse_parts : List Text → Option Numbers
unfolding atoi
parse_parts (a ∷ b ∷ c ∷ []) = do
  x ← atoi a
  y ← atoi b
  z ← atoi c
  some (record { major = x; minor = y; patch = z })
parse_parts _ = none

abbrev parts_at_dots : Text → List Text
parts_at_dots s = (cut_at b'.' s).0 ∷ (cut_at b'.' s).1

unfoldable pub parse_version : Text → Option Numbers
unfolding parse_parts cut_at before_any
parse_version value =
    let v = trim_space (trim_prefix (codes "v") value) in
    if eqb v [] || eqb v (codes "dev") then none else parse_parts (parts_at_dots (before_any v))

pub data Order : Type 0 where
  less same more : Order

unfoldable pub compare_numbers : Numbers → Numbers → Order
compare_numbers l r =
    if ltb_ℤ l.major r.major
    then less
    else if ltb_ℤ r.major l.major
    then more
    else if ltb_ℤ l.minor r.minor
    then less
    else if ltb_ℤ r.minor l.minor
    then more
    else if ltb_ℤ l.patch r.patch
    then less
    else if ltb_ℤ r.patch l.patch
    then more
    else same

abbrev pub both : Option Numbers → Option Numbers → Option Order
both none r = none
both (some l) none = none
both (some l) (some r) = some (compare_numbers l r)

unfoldable pub compare_versions : Text → Text → Option Order
unfolding parse_version compare_numbers
compare_versions left right = both (parse_version left) (parse_version right)

abbrev is_less : Order → Bool
is_less less = true
is_less _ = false

abbrev is_same : Order → Bool
is_same same = true
is_same _ = false

-- Whether there is an update, and whether the versions could be compared.
abbrev pub available : Option Order → Bool × Bool
available none = (true, false)
available (some o) = (is_less o, true)

unfoldable pub update_available : Text → Text → Bool × Bool
unfolding compare_versions
update_available current latest = available (compare_versions current latest)

unfoldable pub versions_equal : Text → Text → Bool
unfolding compare_versions
versions_equal left right = elim (compare_versions left right) [
  | none ↦ eqb (trim_prefix (codes "v") left) (trim_prefix (codes "v") right)
  | some o ↦ is_same o
]
