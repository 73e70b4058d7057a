-- ===== src/Paths/Clean/Laws.antt =====
-- Splitting, joining and cleaning paths.
use mathlib.Core.List.{reverse, reverse-cons, append-nil, append_assoc}
use ti_cli.Common.{
  ℕ, Bool, true, false, List, [], ◌∷◌, ◌++◌, ◌≡◌, refl, sym, ap, subst, ◌∙◌, arith, inl, inr,
  Bool-cases, All, All-append, ◌==◌,
}
use ti_cli.Common.Text.{Text, eqb, Lacks}
use ti_cli.Paths.Clean.{
  cut_slash, split_slash, join_slash, is_dot_dot, is_idle, pop_part, resolve_part, resolve_parts,
  is_rooted, clean_path,
}

-- A part that names something.
pub record Plain (p : Text) : Type 0 where
  pub busy : is_idle p ≡ false
  pub not_up : is_dot_dot p ≡ false
  pub whole : Lacks b'/' p

cut_slash-append :
    (s t : Text) → cut_slash (s ++ b'/' ∷ t) ≡ ((cut_slash s).0, (cut_slash s).1 ++ split_slash t)
unfolding cut_slash
cut_slash-append [] t = refl
cut_slash-append (c ∷ s) t = ground (arith, cut_slash-append s t)

pub split_slash-append : (s t : Text) → split_slash (s ++ b'/' ∷ t) ≡ split_slash s ++ split_slash t
split_slash-append s t = rw (cut_slash-append s t) refl

cut_slash_whole : (s : Text) → Lacks b'/' s → cut_slash s ≡ (s, [])
unfolding cut_slash
cut_slash_whole [] h = refl
cut_slash_whole (c ∷ s) h = ground (arith, cut_slash_whole s h.1)

pub split_slash-join_slash :
    (p : Text) (ps : List Text) → All Plain (p ∷ ps) → split_slash (join_slash (p ∷ ps)) ≡ p ∷ ps
unfolding join_slash
split_slash-join_slash p [] h = rw (cut_slash_whole p h.0.whole) refl
split_slash-join_slash p (q ∷ ps) h =
    split_slash-append p (join_slash (q ∷ ps))
    ∙ ap (λ (x : Text × List Text). (x.0 ∷ x.1) ++ split_slash (join_slash (q ∷ ps)))
        (cut_slash_whole p h.0.whole)
    ∙ ap (λ x. p ∷ x) (split_slash-join_slash q ps h.1)

pub join_slash-append :
    (p q : Text) (ps qs : List Text)
    → join_slash ((p ∷ ps) ++ (q ∷ qs)) ≡ join_slash (p ∷ ps) ++ b'/' ∷ join_slash (q ∷ qs)
unfolding join_slash
join_slash-append p q [] qs = refl
join_slash-append p q (r ∷ ps) qs =
    ap (λ x. p ++ b'/' ∷ x) (join_slash-append r q ps qs)
    ∙ sym (append_assoc p (b'/' ∷ join_slash (r ∷ ps)) (b'/' ∷ join_slash (q ∷ qs)))

cut_slash-Lacks : (s : Text) → Lacks b'/' (cut_slash s).0 × All (Lacks b'/') (cut_slash s).1
unfolding cut_slash
cut_slash-Lacks [] = (tt, tt)
cut_slash-Lacks (c ∷ s) = elim (Bool-cases (c == b'/')) [
  | inl e ↦ rw e (tt, cut_slash-Lacks s)
  | inr e ↦ rw e ((ground arith, (cut_slash-Lacks s).0), (cut_slash-Lacks s).1)
]

pub split_slash-Lacks : (s : Text) → All (Lacks b'/') (split_slash s)
split_slash-Lacks s = cut_slash-Lacks s

pub resolve_parts-append :
    (r : Bool) (stack ps qs : List Text)
    → resolve_parts r stack (ps ++ qs) ≡ resolve_parts r (resolve_parts r stack ps) qs
unfolding resolve_parts
resolve_parts-append r stack [] qs = refl
resolve_parts-append r stack (p ∷ ps) qs = resolve_parts-append r (resolve_part r stack p) ps qs

resolve_part-Plain :
    (r : Bool) (stack : List Text) (p : Text) → Plain p → resolve_part r stack p ≡ p ∷ stack
unfolding resolve_part
resolve_part-Plain r stack p h = rw (h.busy, h.not_up) refl

-- Plain parts are put under what is there.
pub resolve_parts-Plain :
    (r : Bool) (stack ps : List Text)
    → All Plain ps
    → reverse (resolve_parts r stack ps) ≡ reverse stack ++ ps
unfolding resolve_parts
resolve_parts-Plain r stack [] h = sym (append-nil (reverse stack))
resolve_parts-Plain r stack (p ∷ ps) h =
    ap (λ x. reverse (resolve_parts r x ps)) (resolve_part-Plain r stack p h.0)
    ∙ resolve_parts-Plain r (p ∷ stack) ps h.1
    ∙ ap (λ x. x ++ ps) (reverse-cons p stack)
    ∙ append_assoc (reverse stack) (p ∷ []) ps

-- Over a root every part that is kept is plain.
pop_part-Plain : (stack : List Text) → All Plain stack → All Plain (pop_part true stack)
unfolding pop_part
pop_part-Plain [] h = tt
pop_part-Plain (q ∷ stack) h = rw h.0.not_up h.1

resolve_part-AllPlain :
    (stack : List Text) (p : Text)
    → All Plain stack
    → Lacks b'/' p
    → All Plain (resolve_part true stack p)
unfolding resolve_part
resolve_part-AllPlain stack p h l = elim (Bool-cases (is_idle p)) [
  | inl e ↦ rw e h
  | inr e ↦ elim (Bool-cases (is_dot_dot p)) [
    | inl u ↦ rw (e, u) (pop_part-Plain stack h)
    | inr u ↦ rw (e, u) (record { busy = e; not_up = u; whole = l }, h)
  ]
]

resolve_parts-AllPlain :
    (stack ps : List Text)
    → All Plain stack
    → All (Lacks b'/') ps
    → All Plain (resolve_parts true stack ps)
unfolding resolve_parts
resolve_parts-AllPlain stack [] h l = h
resolve_parts-AllPlain stack (p ∷ ps) h l =
    resolve_parts-AllPlain (resolve_part true stack p) ps (resolve_part-AllPlain stack p h l.0) l.1

All-reverse : (ps : List Text) → All Plain ps → All Plain (reverse ps)
All-reverse [] h = tt
All-reverse (p ∷ ps) h =
    subst (All Plain) (sym (reverse-cons p ps))
      (All-append Plain (reverse ps) (p ∷ []) (All-reverse ps h.1) (h.0, tt))

-- The parts that cleaning leaves of a rooted path.
abbrev pub parts_of : Text → List Text
parts_of s = reverse (resolve_parts true [] (split_slash s))

abbrev pub absolute : List Text → Text
absolute ps = b'/' ∷ join_slash ps

pub clean_path-rooted : (s : Text) → is_rooted s ≡ true → clean_path s ≡ absolute (parts_of s)
unfolding clean_path
clean_path-rooted s h = rw h refl

pub parts_of-Plain : (s : Text) → All Plain (parts_of s)
parts_of-Plain s =
    All-reverse (resolve_parts true [] (split_slash s))
      (resolve_parts-AllPlain [] (split_slash s) tt (split_slash-Lacks s))

-- Plain parts after a slash are put under the path before it.
pub parts_of-append :
    (s : Text) (p : Text) (ps : List Text)
    → All Plain (p ∷ ps)
    → parts_of (s ++ b'/' ∷ join_slash (p ∷ ps)) ≡ parts_of s ++ (p ∷ ps)
parts_of-append s p ps h =
    ap (λ x. reverse (resolve_parts true [] x)) (split_slash-append s (join_slash (p ∷ ps)))
    ∙ ap reverse (resolve_parts-append true [] (split_slash s) (split_slash (join_slash (p ∷ ps))))
    ∙ ap (λ x. reverse (resolve_parts true (resolve_parts true [] (split_slash s)) x))
        (split_slash-join_slash p ps h)
    ∙ resolve_parts-Plain true (resolve_parts true [] (split_slash s)) (p ∷ ps) h

pub parts_of-absolute : (ps : List Text) → All Plain ps → parts_of (absolute ps) ≡ ps
unfolding cut_slash join_slash resolve_parts eqb
parts_of-absolute [] h = refl
parts_of-absolute (p ∷ ps) h = parts_of-append [] p ps h

-- Cleaning is idempotent on what it makes of a rooted path.
pub clean_path-absolute : (ps : List Text) → All Plain ps → clean_path (absolute ps) ≡ absolute ps
clean_path-absolute ps h =
    clean_path-rooted (absolute ps) refl ∙ ap absolute (parts_of-absolute ps h)

pub absolute-append :
    (p q : Text) (ps qs : List Text)
    → absolute ((p ∷ ps) ++ (q ∷ qs)) ≡ absolute (p ∷ ps) ++ b'/' ∷ join_slash (q ∷ qs)
absolute-append p q ps qs = ap (λ x. b'/' ∷ x) (join_slash-append p q ps qs)

join_slash-cons :
    (c : ℕ) (p : Text) (ps : List Text) → join_slash ((c ∷ p) ∷ ps) ≡ c ∷ join_slash (p ∷ ps)
unfolding join_slash
join_slash-cons c p [] = refl
join_slash-cons c p (q ∷ ps) = refl

pub join_slash-split_slash : (s : Text) → join_slash (split_slash s) ≡ s
unfolding cut_slash join_slash
join_slash-split_slash [] = refl
join_slash-split_slash (c ∷ s) = elim (Bool-cases (c == b'/')) [
  | inl e ↦ rw e (ground (arith, join_slash-split_slash s))
  | inr e ↦ rw e (
      join_slash-cons c (cut_slash s).0 (cut_slash s).1
      ∙ ap (λ t. c ∷ t) (join_slash-split_slash s))
]
