-- ===== src/Update/Version/Compare.antt =====
-- Versions that can be compared are ordered.
use ti_cli.Common.{true, false, Option, none, some, ◌≡◌, arith, ◌∙◌, ap}
use ti_cli.Common.Int.{ℤ, ltb_ℤ}
use ti_cli.Common.Text.{Text}
use ti_cli.Update.Version.{
  Numbers, Order, less, same, more, compare_numbers, parse_version, compare_versions,
  update_available, both, available,
}

abbrev pub flip : Order → Order
flip less = more
flip same = same
flip more = less

ltb_ℤ-asym : (a b : ℤ) → ltb_ℤ a b ≡ true → ltb_ℤ b a ≡ false
ltb_ℤ-asym a b h = ground arith

ltb_ℤ-trans : (a b c : ℤ) → ltb_ℤ a b ≡ true → ltb_ℤ b c ≡ true → ltb_ℤ a c ≡ true
ltb_ℤ-trans a b c h k = ground arith

ltb_ℤ-same : (a b : ℤ) → ltb_ℤ a b ≡ false → ltb_ℤ b a ≡ false → a ≡ b
ltb_ℤ-same a b h k = ground arith

compare_numbers-flip : (l r : Numbers) → compare_numbers r l ≡ flip (compare_numbers l r)
unfolding compare_numbers
compare_numbers-flip l r =
    ground
      (arith, ltb_ℤ-asym l.major r.major, ltb_ℤ-asym l.minor r.minor, ltb_ℤ-asym l.patch r.patch)

-- What the six tests of two orders say.
same_fields :
    (l r : Numbers)
    → compare_numbers l r ≡ same
    → (l.major ≡ r.major) × (l.minor ≡ r.minor) × (l.patch ≡ r.patch)
unfolding compare_numbers
same_fields l r h =
    ground
      (arith, ltb_ℤ-same l.major r.major, ltb_ℤ-same l.minor r.minor, ltb_ℤ-same l.patch r.patch)

-- Less by the first number that differs.
compare_numbers_trans :
    (a b c : Numbers)
    → compare_numbers a b ≡ less
    → compare_numbers b c ≡ less
    → compare_numbers a c ≡ less
unfolding compare_numbers
compare_numbers_trans a b c h k = ground (
  arith,
  ltb_ℤ-asym a.major b.major,
  ltb_ℤ-trans a.major b.major c.major,
  ltb_ℤ-same a.major b.major,
  ltb_ℤ-same b.major c.major,
  ltb_ℤ-trans a.minor b.minor c.minor,
  ltb_ℤ-same a.minor b.minor,
  ltb_ℤ-same b.minor c.minor,
  ltb_ℤ-trans a.patch b.patch c.patch,
)

less_pair : (o : Order) → available (some o) ≡ (true, true) → o ≡ less
less_pair o h = ground arith

both_order :
    (x y z : Option Numbers)
    → available (both x y) ≡ (true, true)
    → available (both y z) ≡ (true, true)
    → (available (both x z) ≡ (true, true)) × (available (both y x) ≡ (false, true))
both_order none y z h k = ground arith
both_order (some x) none z h k = ground arith
both_order (some x) (some y) none h k = ground arith
both_order (some x) (some y) (some z) h k =
    let o = less_pair (compare_numbers x y) h in
    (
      ap (λ n. available (some n))
          (compare_numbers_trans x y z o (less_pair (compare_numbers y z) k)),
      ap (λ n. available (some n)) (compare_numbers-flip x y ∙ ap flip o),
    )

-- Updates between versions compose, and an update is none the other way round: if b is an
-- update of a and c of b, both found by comparing versions, then c is an update of a, and a is
-- no update of b.
pub update_order :
    (a b c : Text)
    → update_available a b ≡ (true, true)
    → update_available b c ≡ (true, true)
    → (update_available a c ≡ (true, true)) × (update_available b a ≡ (false, true))
unfolding update_available compare_versions
update_order a b c h k = both_order (parse_version a) (parse_version b) (parse_version c) h k
