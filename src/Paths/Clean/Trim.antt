-- ===== src/Paths/Clean/Trim.antt =====
-- Slashes taken off the ends of a path.
use ti_cli.Common.{
  ℕ, true, false, List, [], ◌∷◌, ◌++◌, ◌≡◌, refl, sym, ap, ◌∙◌, arith, All, append-nil,
}
use ti_cli.Common.Text.{Text, Lacks, eqb, codes}
use ti_cli.Paths.Clean.{
  is_nil, join_slash, trim_slashes_right, trim_slashes_left, trim_slashes, trim_one_slash,
  ends_in_slash,
}
use ti_cli.Paths.Clean.Laws.{Plain, absolute}

is_nil-append : (s : Text) (c : ℕ) (t : Text) → is_nil (s ++ c ∷ t) ≡ false
is_nil-append [] c t = refl
is_nil-append (d ∷ s) c t = refl

trim_slashes_right-append :
    (s : Text) (c : ℕ) (t : Text)
    → trim_slashes_right (c ∷ t) ≡ c ∷ t
    → trim_slashes_right (s ++ c ∷ t) ≡ s ++ c ∷ t
unfolding trim_slashes_right
trim_slashes_right-append [] c t h = h
trim_slashes_right-append (d ∷ s) c t h =
    ground (arith, trim_slashes_right-append s c t h, is_nil-append s c t)

trim_slashes_right-Lacks : (s : Text) → Lacks b'/' s → trim_slashes_right s ≡ s
unfolding trim_slashes_right
trim_slashes_right-Lacks [] h = refl
trim_slashes_right-Lacks (c ∷ s) h = ground (arith, trim_slashes_right-Lacks s h.1)

Plain-nonempty : (p : Text) → Plain p → is_nil p ≡ false
unfolding eqb
Plain-nonempty [] h = absurd (cc (h.busy))
Plain-nonempty (c ∷ p) h = refl

join_slash-nonempty :
    (p : Text) (ps : List Text) → All Plain (p ∷ ps) → is_nil (join_slash (p ∷ ps)) ≡ false
unfolding join_slash
join_slash-nonempty p [] h = Plain-nonempty p h.0
join_slash-nonempty p (q ∷ ps) h = is_nil-append p b'/' (join_slash (q ∷ ps))

trim_slashes_right-under :
    (s : Text)
    → is_nil s ≡ false
    → trim_slashes_right s ≡ s
    → trim_slashes_right (b'/' ∷ s) ≡ b'/' ∷ s
unfolding trim_slashes_right
trim_slashes_right-under s n h = rw (h, n) refl

trim_slashes_right-join_slash :
    (p : Text) (ps : List Text)
    → All Plain (p ∷ ps)
    → trim_slashes_right (join_slash (p ∷ ps)) ≡ join_slash (p ∷ ps)
unfolding join_slash
trim_slashes_right-join_slash p [] h = trim_slashes_right-Lacks p h.0.whole
trim_slashes_right-join_slash p (q ∷ ps) h =
    trim_slashes_right-append p b'/' (join_slash (q ∷ ps)) (
      trim_slashes_right-under (join_slash (q ∷ ps)) (join_slash-nonempty q ps h.1)
        (trim_slashes_right-join_slash q ps h.1))

trim_slashes_left-Plain : (p t : Text) → Plain p → trim_slashes_left (p ++ t) ≡ p ++ t
unfolding trim_slashes_left eqb
trim_slashes_left-Plain [] t h = absurd (cc (h.busy))
trim_slashes_left-Plain (c ∷ p) t h = let other = h.whole.0 in ground arith

trim_slashes_left-join_slash :
    (p : Text) (ps : List Text)
    → All Plain (p ∷ ps)
    → trim_slashes_left (join_slash (p ∷ ps)) ≡ join_slash (p ∷ ps)
unfolding join_slash
trim_slashes_left-join_slash p [] h =
    ap trim_slashes_left (sym (append-nil p)) ∙ trim_slashes_left-Plain p [] h.0 ∙ append-nil p
trim_slashes_left-join_slash p (q ∷ ps) h =
    trim_slashes_left-Plain p (b'/' ∷ join_slash (q ∷ ps)) h.0

trim_slashes_left-under : (s : Text) → trim_slashes_left (b'/' ∷ s) ≡ trim_slashes_left s
unfolding trim_slashes_left
trim_slashes_left-under s = refl

pub trim_slashes-absolute :
    (ps : List Text) → All Plain ps → trim_slashes (absolute ps) ≡ join_slash ps
unfolding trim_slashes
trim_slashes-absolute [] h = unfold trim_slashes_left trim_slashes_right join_slash in refl
trim_slashes-absolute (p ∷ ps) h =
    ap trim_slashes_right
      (trim_slashes_left-under (join_slash (p ∷ ps)) ∙ trim_slashes_left-join_slash p ps h)
    ∙ trim_slashes_right-join_slash p ps h

trim_one_slash-kept : (s : Text) → trim_slashes_right s ≡ s → trim_one_slash s ≡ s
unfolding trim_slashes_right trim_one_slash
trim_one_slash-kept [] h = refl
trim_one_slash-kept (c ∷ []) h = ground arith
trim_one_slash-kept (c ∷ d ∷ s) h = ground (arith, trim_one_slash-kept (d ∷ s))

pub trim_one_slash-absolute :
    (p : Text) (ps : List Text)
    → All Plain (p ∷ ps)
    → trim_one_slash (absolute (p ∷ ps)) ≡ absolute (p ∷ ps)
trim_one_slash-absolute p ps h = trim_one_slash-kept (absolute (p ∷ ps)) (
    trim_slashes_right-under (join_slash (p ∷ ps)) (join_slash-nonempty p ps h)
      (trim_slashes_right-join_slash p ps h))

pub trim_one_slash-append : (s : Text) → trim_one_slash (s ++ b'/' ∷ []) ≡ s
unfolding trim_one_slash
trim_one_slash-append [] = refl
trim_one_slash-append (c ∷ s) = ground (arith, trim_one_slash-append s, is_nil-append s b'/' [])

ends_in_slash-kept : (s : Text) → trim_slashes_right s ≡ s → ends_in_slash s ≡ false
unfolding trim_slashes_right ends_in_slash
ends_in_slash-kept [] h = refl
ends_in_slash-kept (c ∷ []) h = ground arith
ends_in_slash-kept (c ∷ d ∷ s) h = ground (arith, ends_in_slash-kept (d ∷ s))

eqb-nonempty : (s : Text) → is_nil s ≡ false → eqb s [] ≡ false
unfolding eqb
eqb-nonempty [] h = absurd (cc (h))
eqb-nonempty (c ∷ s) h = refl

pub ends_in_slash-absolute :
    (p : Text) (ps : List Text) → All Plain (p ∷ ps) → ends_in_slash (absolute (p ∷ ps)) ≡ false
ends_in_slash-absolute p ps h = ends_in_slash-kept (absolute (p ∷ ps)) (
    trim_slashes_right-under (join_slash (p ∷ ps)) (join_slash-nonempty p ps h)
      (trim_slashes_right-join_slash p ps h))

pub ends_in_slash-append : (s : Text) → ends_in_slash (s ++ b'/' ∷ []) ≡ true
unfolding ends_in_slash
ends_in_slash-append [] = refl
ends_in_slash-append (c ∷ []) = refl
ends_in_slash-append (c ∷ d ∷ s) = ends_in_slash-append (d ∷ s)

pub eqb-absolute :
    (p : Text) (ps : List Text) → All Plain (p ∷ ps) → eqb (absolute (p ∷ ps)) (codes "/") ≡ false
unfolding eqb
eqb-absolute p ps h =
    ground (arith, eqb-nonempty (join_slash (p ∷ ps)) (join_slash-nonempty p ps h))

pub eqb-join_slash :
    (p : Text) (ps : List Text) → All Plain (p ∷ ps) → eqb (join_slash (p ∷ ps)) [] ≡ false
eqb-join_slash p ps h = eqb-nonempty (join_slash (p ∷ ps)) (join_slash-nonempty p ps h)
