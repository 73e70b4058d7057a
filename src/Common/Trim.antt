-- ===== src/Common/Trim.antt =====
-- What `strings.TrimSpace` takes off.
use mathlib.Core.List.{reverse, reverse-cons, reverse-append, reverse-reverse}
use mathlib.Core.Path.{◌≡◌, refl, sym, ap, ◌∙◌}
use mathlib.Core.Logic.{inl, inr}
use mathlib.Core.Bool.{Bool, false, not, ◌||◌}
use mathlib.Core.List.{[], ◌∷◌, ◌++◌}
use Prim.Native.Nat.{ℕ}
use native.Mathlib.Omega.{arith}
use ti_cli.Common.Tests.{Bool-cases}
use ti_cli.Common.Text.{Text, eqb, eqb_iff, is_space, trim_left, trim_space}

-- A character that is no space.
has_ink : Text → Bool
unfolding is_space
has_ink [] = false
has_ink (c ∷ s) = not (is_space c) || has_ink s

has_ink-append : (s t : Text) → has_ink (s ++ t) ≡ (has_ink s || has_ink t)
unfolding has_ink
has_ink-append [] t = refl
has_ink-append (c ∷ s) t = ground (arith, has_ink-append s t)

has_ink-reverse : (s : Text) → has_ink (reverse s) ≡ has_ink s
has_ink-reverse [] = refl
has_ink-reverse (c ∷ s) =
    let split = ap has_ink (reverse-cons c s) ∙ has_ink-append (reverse s) (c ∷ []) in
    let last : has_ink (c ∷ []) ≡ not (is_space c) = unfold has_ink in ground arith in
    let first : has_ink (c ∷ s) ≡ (not (is_space c) || has_ink s) = unfold has_ink in refl in
    ground (arith, split, last, first, has_ink-reverse s)

has_ink-trim_left : (s : Text) → has_ink (trim_left s) ≡ has_ink s
unfolding has_ink trim_left
has_ink-trim_left [] = refl
has_ink-trim_left (c ∷ s) = ground (arith, has_ink-trim_left s)

has_ink-trim_space : (s : Text) → has_ink (trim_space s) ≡ has_ink s
unfolding trim_space
has_ink-trim_space s =
    has_ink-reverse (trim_left (reverse (trim_left s)))
    ∙ has_ink-trim_left (reverse (trim_left s))
    ∙ has_ink-reverse (trim_left s)
    ∙ has_ink-trim_left s

-- A text that starts with no space is not blank.
pub trim_space-ink : (c : ℕ) (s : Text) → is_space c ≡ false → eqb (trim_space (c ∷ s)) [] ≡ false
unfolding has_ink
trim_space-ink c s h = elim (Bool-cases (eqb (trim_space (c ∷ s)) [])) [
  | inr e ↦ e
  | inl e ↦
      let same = (eqb_iff (trim_space (c ∷ s)) []).0 e in
      let none_left : has_ink (trim_space (c ∷ s)) ≡ false = ap has_ink same in
      absurd (ground (arith, has_ink-trim_space (c ∷ s)))
]

trim_left-ink : (c : ℕ) (s : Text) → is_space c ≡ false → trim_left (c ∷ s) ≡ c ∷ s
unfolding trim_left
trim_left-ink c s h = rw (trim_left, h) refl

-- Text that neither starts nor ends with a space is kept whole.
pub trim_space_tight :
    (c d : ℕ) (s : Text)
    → is_space c ≡ false
    → is_space d ≡ false
    → trim_space (c ∷ (s ++ d ∷ [])) ≡ c ∷ (s ++ d ∷ [])
unfolding trim_space
trim_space_tight c d s h k =
    let whole = c ∷ (s ++ d ∷ []) in
    let turned : reverse whole ≡ d ∷ reverse (c ∷ s) = reverse-append (c ∷ s) (d ∷ []) in
    ap (λ t. reverse (trim_left (reverse t))) (trim_left-ink c (s ++ d ∷ []) h)
    ∙ ap (λ t. reverse (trim_left t)) turned
    ∙ ap reverse (trim_left-ink d (reverse (c ∷ s)) k)
    ∙ sym (ap reverse turned)
    ∙ reverse-reverse whole
