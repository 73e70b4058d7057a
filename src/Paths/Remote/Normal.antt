-- ===== src/Paths/Remote/Normal.antt =====
-- What `normalizeRemotePath` and `canonicalArchivePath` make of a path.
use mathlib.Core.List.{reverse}
use ti_cli.Common.{
  true, false, not, ◌&&◌, ◌||◌, List, [], ◌∷◌, ◌++◌, ◌≡◌, ◌⊎◌, refl, sym, ap, ◌∙◌, arith, inl, inr,
  Bool-cases, All, if◌then◌else◌,
}
use ti_cli.Common.Text.{Text, codes, eqb, has_prefix, trim_space}
use ti_cli.Common.Result.{Result, ok, err}
use ti_cli.Paths.Clean.{
  cut_slash, split_slash, join_slash, is_rooted, clean_path, ends_in_slash, resolve_parts,
}
use ti_cli.Paths.Clean.Laws.{
  Plain, absolute, parts_of, parts_of-absolute, parts_of-Plain, clean_path-rooted,
  split_slash-append, resolve_parts-append,
}
use ti_cli.Paths.Clean.Trim.{ends_in_slash-absolute, ends_in_slash-append, eqb-absolute}
use ti_cli.Paths.Archive.{
  PathError, missing_remote_path, invalid_remote_path, canonical_archive_path, rooted_form,
  root_for_dot,
}
use ti_cli.Paths.Remote.{normalize_remote_path, has_control_rune}

rooted_form-is_rooted : (s : Text) → is_rooted (rooted_form s) ≡ true
unfolding has_prefix
rooted_form-is_rooted [] = refl
rooted_form-is_rooted (c ∷ s) = ground arith

root_for_dot-absolute : (ps : List Text) → root_for_dot (absolute ps) ≡ absolute ps
unfolding eqb
root_for_dot-absolute ps = refl

-- A normal remote path: its parts, perhaps with a slash at the end.
pub data Normal (s : Text) : Type 0 where
  bare : (ps : List Text) → All Plain ps → s ≡ absolute ps → Normal s
  slashed :
      (p : Text) (ps : List Text)
      → All Plain (p ∷ ps)
      → s ≡ absolute (p ∷ ps) ++ codes "/"
      → Normal s

cleaned_lem :
    (s : Text) → root_for_dot (clean_path (rooted_form s)) ≡ absolute (parts_of (rooted_form s))
cleaned_lem s =
    ap root_for_dot (clean_path-rooted (rooted_form s) (rooted_form-is_rooted s))
    ∙ root_for_dot-absolute (parts_of (rooted_form s))

slashed_of :
    (qs : List Text) (r : Text)
    → All Plain qs
    → eqb (absolute qs) (codes "/") ≡ false
    → r ≡ absolute qs ++ codes "/"
    → Normal r
unfolding eqb join_slash
slashed_of [] r h e k = absurd (cc (e))
slashed_of (q ∷ qs) r h e k = slashed q qs h k

-- `normalize_remote_path` over the cleaned text.
abbrev finish : Text → Text → Result PathError Text
finish value cleaned =
    if eqb value []
    then err missing_remote_path
    else if has_control_rune value
    then err invalid_remote_path
    else if ends_in_slash (rooted_form value) && not (eqb cleaned (codes "/"))
    then ok (cleaned ++ codes "/")
    else ok cleaned

normalize_remote_path_lem :
    (s : Text) → normalize_remote_path s ≡ finish s (absolute (parts_of (rooted_form s)))
unfolding normalize_remote_path
normalize_remote_path_lem s = ap (finish s) (cleaned_lem s)

finished :
    (s cleaned r : Text)
    → finish s cleaned ≡ ok r
    → (r ≡ cleaned) ⊎ ((r ≡ cleaned ++ codes "/") × (eqb cleaned (codes "/") ≡ false))
finished s cleaned r h =
    elim (Bool-cases (ends_in_slash (rooted_form s) && not (eqb cleaned (codes "/")))) [
      | inl e ↦ inr (ground arith, ground arith)
      | inr e ↦ inl (ground arith)
    ]

pub normalize_remote_path-Normal : (s r : Text) → normalize_remote_path s ≡ ok r → Normal r
normalize_remote_path-Normal s r h =
    let ps = parts_of (rooted_form s) in
    elim (finished s (absolute ps) r (sym (normalize_remote_path_lem s) ∙ h)) [
      | inl e ↦ bare ps (parts_of-Plain (rooted_form s)) e
      | inr (e, deep) ↦ slashed_of ps r (parts_of-Plain (rooted_form s)) deep e
    ]

rooted_form-slash : (s : Text) → rooted_form (b'/' ∷ s) ≡ b'/' ∷ s
unfolding has_prefix
rooted_form-slash s = refl

normalize_rooted :
    (s : Text)
    → normalize_remote_path (b'/' ∷ s) ≡ finish (b'/' ∷ s) (absolute (parts_of (b'/' ∷ s)))
normalize_rooted s =
    normalize_remote_path_lem (b'/' ∷ s)
    ∙ ap (λ v. finish (b'/' ∷ s) (absolute (parts_of v))) (rooted_form-slash s)

finish-absolute :
    (ps : List Text)
    → All Plain ps
    → has_control_rune (absolute ps) ≡ false
    → finish (absolute ps) (absolute ps) ≡ ok (absolute ps)
unfolding eqb has_prefix join_slash
finish-absolute [] h c = ground (arith, c)
finish-absolute (p ∷ ps) h c = rw (c, ends_in_slash-absolute p ps h) refl

-- A normal path without control characters stays as it is.
pub normalize_remote_path-absolute :
    (ps : List Text)
    → All Plain ps
    → has_control_rune (absolute ps) ≡ false
    → normalize_remote_path (absolute ps) ≡ ok (absolute ps)
normalize_remote_path-absolute ps h c =
    normalize_rooted (join_slash ps)
    ∙ ap (λ q. finish (absolute ps) (absolute q)) (parts_of-absolute ps h)
    ∙ finish-absolute ps h c

pub parts_of-slash : (s : Text) → parts_of (s ++ b'/' ∷ []) ≡ parts_of s
unfolding cut_slash resolve_parts eqb
parts_of-slash s =
    ap (λ x. reverse (resolve_parts true [] x)) (split_slash-append s [])
    ∙ ap reverse (resolve_parts-append true [] (split_slash s) ([] ∷ []))

finish-slashed :
    (p : Text) (ps : List Text)
    → All Plain (p ∷ ps)
    → has_control_rune (absolute (p ∷ ps) ++ codes "/") ≡ false
    → finish (absolute (p ∷ ps) ++ codes "/") (absolute (p ∷ ps))
      ≡ ok (absolute (p ∷ ps) ++ codes "/")
finish-slashed p ps h c =
    let deep = eqb-absolute p ps h in
    let ends = ends_in_slash-append (absolute (p ∷ ps)) in
    let form = rooted_form-slash (join_slash (p ∷ ps) ++ codes "/") in
    let some_text : eqb (absolute (p ∷ ps) ++ codes "/") [] ≡ false = unfold eqb in refl in
    rw (some_text, c, form, ends, deep) refl

pub normalize_remote_path-slashed :
    (p : Text) (ps : List Text)
    → All Plain (p ∷ ps)
    → has_control_rune (absolute (p ∷ ps) ++ codes "/") ≡ false
    → normalize_remote_path (absolute (p ∷ ps) ++ codes "/") ≡ ok (absolute (p ∷ ps) ++ codes "/")
normalize_remote_path-slashed p ps h c =
    normalize_rooted (join_slash (p ∷ ps) ++ codes "/")
    ∙ ap (λ q. finish (absolute (p ∷ ps) ++ codes "/") (absolute q))
        (parts_of-slash (absolute (p ∷ ps)) ∙ parts_of-absolute (p ∷ ps) h)
    ∙ finish-slashed p ps h c

-- A path in an archive is absolute and in parts.
pub canonical_archive_path-Plain :
    (s p : Text)
    → canonical_archive_path s ≡ ok p
    → (ps : List Text) × All Plain ps × (p ≡ absolute ps)
unfolding canonical_archive_path join_slash
canonical_archive_path-Plain s p h =
    let v = trim_space s in
    elim (Bool-cases (eqb v [] || eqb v (codes "."))) [
      | inl top ↦ ([], tt, ground arith)
      | inr other ↦ (
        parts_of (rooted_form v),
        parts_of-Plain (rooted_form v),
        (let same : p ≡ root_for_dot (clean_path (rooted_form v)) = ground arith in same)
            ∙ cleaned_lem v,
      )
    ]

finish-control : (s cleaned r : Text) → has_control_rune s ≡ true → finish s cleaned ≡ ok r → ⊥
finish-control s cleaned r c h = ground arith

-- Nothing else comes of a path in parts.
pub normalize_remote_path_only :
    (ps : List Text) (r : Text)
    → All Plain ps
    → normalize_remote_path (absolute ps) ≡ ok r
    → r ≡ absolute ps
normalize_remote_path_only ps r h e = elim (Bool-cases (has_control_rune (absolute ps))) [
  | inl c ↦ absurd (
      finish-control (absolute ps) (absolute (parts_of (absolute ps))) r c
        (sym (normalize_rooted (join_slash ps)) ∙ e))
  | inr c ↦ let same = normalize_remote_path-absolute ps h c in cc
]
