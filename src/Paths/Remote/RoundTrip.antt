-- ===== src/Paths/Remote/RoundTrip.antt =====
-- Local paths and the remote paths that they stand for.
use mathlib.Core.List.{append_assoc}
use ti_cli.Common.{
  ℕ, true, false, Option, none, some, List, [], ◌∷◌, ◌++◌, ◌≡◌, refl, sym, ap, subst, ◌∙◌, arith,
  All, All-append, if◌then◌else◌,
}
use ti_cli.Common.Text.{
  Text, codes, eqb, eqb_refl, has_prefix, has_prefix-append, trim_prefix, trim_prefix-append,
}
use ti_cli.Common.Result.{ok, err}
use ti_cli.Paths.Clean.{join_slash, is_rooted, join_path, trim_one_slash}
use ti_cli.Paths.Clean.Laws.{
  Plain, absolute, parts_of, parts_of-append, parts_of-absolute, clean_path-rooted, absolute-append,
}
use ti_cli.Paths.Clean.Trim.{
  trim_one_slash-absolute, trim_one_slash-append, eqb-absolute, eqb-join_slash,
}
use ti_cli.Paths.Archive.{canonical_archive_path}
use ti_cli.Paths.Remote.{
  normalize_remote_path, has_control_rune, default_remote_path, to_remote_path, below_root,
  remote_to_local_path,
}
use ti_cli.Paths.Remote.Normal.{
  Normal, bare, slashed, normalize_remote_path-Normal, normalize_remote_path-absolute,
  normalize_remote_path-slashed, canonical_archive_path-Plain, parts_of-slash,
}

join_path-rooted :
    (s t : Text)
    → is_rooted s ≡ true
    → eqb t [] ≡ false
    → join_path s t ≡ absolute (parts_of (s ++ b'/' ∷ t))
unfolding join_path eqb
join_path-rooted [] t r n = absurd (cc (r))
join_path-rooted (c ∷ s) [] r n = absurd (cc (n))
join_path-rooted (c ∷ s) (d ∷ t) r n = clean_path-rooted ((c ∷ s) ++ b'/' ∷ d ∷ t) r

pub join_path-absolute :
    (s : Text) (p : Text) (ps : List Text)
    → is_rooted s ≡ true
    → All Plain (p ∷ ps)
    → join_path s (join_slash (p ∷ ps)) ≡ absolute (parts_of s ++ p ∷ ps)
join_path-absolute s p ps r h =
    join_path-rooted s (join_slash (p ∷ ps)) r (eqb-join_slash p ps h)
    ∙ ap absolute (parts_of-append s p ps h)

eqb-append : (s : Text) → eqb (s ++ codes "/") [] ≡ false
unfolding eqb
eqb-append [] = refl
eqb-append (c ∷ s) = refl

eqb-longer : (s : Text) (c : ℕ) (t : Text) → eqb (s ++ c ∷ t) s ≡ false
unfolding eqb
eqb-longer [] c t = refl
eqb-longer (d ∷ s) c t = ground (arith, eqb-longer s c t)

below_root-under :
    (root top t : Text)
    → eqb root (codes "/") ≡ false
    → trim_one_slash root ≡ top
    → below_root root (top ++ b'/' ∷ t) ≡ some (b'/' ∷ t)
unfolding below_root
below_root-under root top t deep e =
    let long : has_prefix (top ++ codes "/") (top ++ b'/' ∷ t) ≡ true =
      subst (λ x. has_prefix (top ++ codes "/") x ≡ true) (append_assoc top (codes "/") t)
        (has_prefix-append (top ++ codes "/") t) in
    let rest : trim_prefix (top ++ codes "/") (top ++ b'/' ∷ t) ≡ t =
      subst (λ x. trim_prefix (top ++ codes "/") x ≡ t) (append_assoc top (codes "/") t)
        (trim_prefix-append (top ++ codes "/") t) in
    rw (deep, e, eqb-longer top b'/' t, long, rest) refl

below_root-top :
    (ps : List Text) → All Plain ps → below_root (absolute ps) (absolute ps) ≡ some (codes "/")
unfolding below_root join_slash
below_root-top [] h = rw (eqb_refl (codes "/")) refl
below_root-top (p ∷ ps) h =
    rw (eqb-absolute p ps h, trim_one_slash-absolute p ps h, eqb_refl (absolute (p ∷ ps))) refl

-- The root, with or without a slash at its end, and the parts under it.
below_root-deep :
    (ps : List Text) (q : Text) (qs : List Text)
    → All Plain ps
    → below_root (absolute ps) (absolute (ps ++ q ∷ qs)) ≡ some (absolute (q ∷ qs))
below_root-deep [] q qs h = unfold below_root eqb join_slash in refl
below_root-deep (p ∷ ps) q qs h =
    ap (below_root (absolute (p ∷ ps))) (absolute-append p q ps qs)
    ∙ below_root-under (absolute (p ∷ ps)) (absolute (p ∷ ps)) (join_slash (q ∷ qs))
        (eqb-absolute p ps h) (trim_one_slash-absolute p ps h)

eqb-slashed :
    (p : Text) (ps : List Text)
    → All Plain (p ∷ ps)
    → eqb (absolute (p ∷ ps) ++ codes "/") (codes "/") ≡ false
unfolding eqb
eqb-slashed p ps h = ground (arith, eqb-append (join_slash (p ∷ ps)))

below_root-slashed :
    (p : Text) (ps : List Text) (t : Text)
    → All Plain (p ∷ ps)
    → below_root (absolute (p ∷ ps) ++ codes "/") (absolute (p ∷ ps) ++ b'/' ∷ t) ≡ some (b'/' ∷ t)
below_root-slashed p ps t h =
    below_root-under (absolute (p ∷ ps) ++ codes "/") (absolute (p ∷ ps)) t (eqb-slashed p ps h)
      (trim_one_slash-append (absolute (p ∷ ps)))

-- The remote path of a canonical path, over a normal root.
under_root : Text → Text → Text
under_root root p = if eqb p (codes "/") then root else join_path root (trim_prefix (codes "/") p)

under_root-deep :
    (root q : Text) (qs : List Text)
    → is_rooted root ≡ true
    → All Plain (q ∷ qs)
    → under_root root (absolute (q ∷ qs)) ≡ absolute (parts_of root ++ q ∷ qs)
unfolding under_root
under_root-deep root q qs r h = rw (eqb-absolute q qs h) (
    ap (join_path root) (trim_prefix-append (codes "/") (join_slash (q ∷ qs)))
    ∙ join_path-absolute root q qs r h)

under_root-top : (root : Text) → under_root root (codes "/") ≡ root
unfolding under_root
under_root-top root = rw (eqb_refl (codes "/")) refl

-- Read back: the normal form of the remote path, below the root.
read_back : Text → Text → Option Text
read_back root p = elim (normalize_remote_path (under_root root p)) [
  | err e ↦ none
  | ok q ↦ below_root root q
]

read_back_via :
    (root p q r : Text)
    → normalize_remote_path (under_root root p) ≡ ok q
    → below_root root q ≡ some r
    → read_back root p ≡ some r
unfolding read_back
read_back_via root p q r e f = rw (e, read_back) f

read_back-bare :
    (rs ps : List Text)
    → All Plain rs
    → All Plain ps
    → has_control_rune (under_root (absolute rs) (absolute ps)) ≡ false
    → read_back (absolute rs) (absolute ps) ≡ some (absolute ps)
unfolding join_slash
read_back-bare rs [] h k c =
    let here = under_root-top (absolute rs) in
    let calm = subst (λ x. has_control_rune x ≡ false) here c in
    read_back_via (absolute rs) (codes "/") (absolute rs) (codes "/")
      (ap normalize_remote_path here ∙ normalize_remote_path-absolute rs h calm)
      (below_root-top rs h)
read_back-bare rs (p ∷ ps) h k c =
    let there =
      under_root-deep (absolute rs) p ps refl k
      ∙ ap (λ x. absolute (x ++ p ∷ ps)) (parts_of-absolute rs h) in
    let calm = subst (λ x. has_control_rune x ≡ false) there c in
    read_back_via (absolute rs) (absolute (p ∷ ps)) (absolute (rs ++ p ∷ ps)) (absolute (p ∷ ps))
      (ap normalize_remote_path there
        ∙ normalize_remote_path-absolute (rs ++ p ∷ ps) (All-append Plain rs (p ∷ ps) h k) calm)
      (below_root-deep rs p ps h)

read_back-slashed :
    (r : Text) (rs ps : List Text)
    → All Plain (r ∷ rs)
    → All Plain ps
    → has_control_rune (under_root (absolute (r ∷ rs) ++ codes "/") (absolute ps)) ≡ false
    → read_back (absolute (r ∷ rs) ++ codes "/") (absolute ps) ≡ some (absolute ps)
unfolding join_slash
read_back-slashed r rs [] h k c =
    let root = absolute (r ∷ rs) ++ codes "/" in
    let here = under_root-top root in
    let calm = subst (λ x. has_control_rune x ≡ false) here c in
    read_back_via root (codes "/") root (codes "/")
      (ap normalize_remote_path here ∙ normalize_remote_path-slashed r rs h calm)
      (below_root-slashed r rs [] h)
read_back-slashed r rs (p ∷ ps) h k c =
    let root = absolute (r ∷ rs) ++ codes "/" in
    let there =
      under_root-deep root p ps refl k
      ∙ ap (λ x. absolute (x ++ p ∷ ps))
          (parts_of-slash (absolute (r ∷ rs)) ∙ parts_of-absolute (r ∷ rs) h) in
    let calm = subst (λ x. has_control_rune x ≡ false) there c in
    let split = absolute-append r p rs ps in
    read_back_via root (absolute (p ∷ ps)) (absolute ((r ∷ rs) ++ p ∷ ps)) (absolute (p ∷ ps))
      (ap normalize_remote_path there
        ∙ normalize_remote_path-absolute ((r ∷ rs) ++ p ∷ ps)
            (All-append Plain (r ∷ rs) (p ∷ ps) h k) calm)
      (ap (below_root root) split ∙ below_root-slashed r rs (join_slash (p ∷ ps)) h)

read_back_lem :
    (root : Text) (ps : List Text)
    → Normal root
    → All Plain ps
    → has_control_rune (under_root root (absolute ps)) ≡ false
    → read_back root (absolute ps) ≡ some (absolute ps)
read_back_lem root ps (bare rs h e) k c =
    subst
      (λ x.
        has_control_rune (under_root x (absolute ps)) ≡ false
        → read_back x (absolute ps) ≡ some (absolute ps))
      (sym e) (read_back-bare rs ps h k) c
read_back_lem root ps (slashed r rs h e) k c =
    subst
      (λ x.
        has_control_rune (under_root x (absolute ps)) ≡ false
        → read_back x (absolute ps) ≡ some (absolute ps))
      (sym e) (read_back-slashed r rs ps h k) c

to_remote_path_lem :
    (remote_root local root p : Text)
    → normalize_remote_path (default_remote_path remote_root) ≡ ok root
    → canonical_archive_path local ≡ ok p
    → to_remote_path remote_root local ≡ under_root root p
unfolding to_remote_path under_root
to_remote_path_lem remote_root local root p e f = rw (e, f) refl

remote_to_local_path_lem :
    (remote_root root p : Text)
    → normalize_remote_path (default_remote_path remote_root) ≡ ok root
    → remote_to_local_path remote_root (under_root root p) ≡ read_back root p
unfolding remote_to_local_path read_back
remote_to_local_path_lem remote_root root p e = rw (e, remote_to_local_path) refl

-- A local path of a layered mount is read back, in its canonical form, from the remote path that it
-- stands for, if the mount's root is a remote path, the local path has a canonical form, and the
-- remote path has no control character.
pub remote_to_local_path-to_remote_path :
    (remote_root local root p : Text)
    → normalize_remote_path (default_remote_path remote_root) ≡ ok root
    → canonical_archive_path local ≡ ok p
    → has_control_rune (to_remote_path remote_root local) ≡ false
    → remote_to_local_path remote_root (to_remote_path remote_root local) ≡ some p
remote_to_local_path-to_remote_path remote_root local root p e f c =
    let (ps, h, parts) = canonical_archive_path-Plain local p f in
    let there = to_remote_path_lem remote_root local root p e f in
    let calm =
      subst (λ x. has_control_rune (under_root root x) ≡ false) parts
        (subst (λ x. has_control_rune x ≡ false) there c) in
    ap (remote_to_local_path remote_root) there
    ∙ remote_to_local_path_lem remote_root root p e
    ∙ ap (read_back root) parts
    ∙ read_back_lem root ps (normalize_remote_path-Normal (default_remote_path remote_root) root e)
        h calm
    ∙ ap (λ x. some x) (sym parts)
