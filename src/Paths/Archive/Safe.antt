-- ===== src/Paths/Archive/Safe.antt =====
-- The entries of a pack stay inside the overlay.
use mathlib.Core.List.{append_assoc}
use ti_cli.Common.{
  ℕ, true, false, List, [], ◌∷◌, ◌++◌, ◌≡◌, refl, sym, ap, ◌∙◌, arith, All, All-append,
  if◌then◌else◌,
}
use ti_cli.Common.Text.{Text, codes, eqb, Lacks, has_prefix-append}
use ti_cli.Common.Result.{Result, ok, err}
use ti_cli.Paths.Clean.{cut_slash, split_slash, join_slash, is_rooted, clean_path, join_path}
use ti_cli.Paths.Clean.Laws.{
  Plain, absolute, parts_of, parts_of-append, parts_of-absolute, parts_of-Plain, clean_path-rooted,
  clean_path-absolute, absolute-append, split_slash-Lacks, join_slash-split_slash,
}
use ti_cli.Paths.Archive.{
  PathError, invalid_pack_entry, has_bad_part, overlay_root, pack_entry_rel, inside,
  safe_overlay_target,
}

-- The parts of the overlay's root.
abbrev pub overlay_parts : Text → List Text
overlay_parts root = parts_of root ++ codes "overlay" ∷ []

overlay-Plain : Plain (codes "overlay")
unfolding eqb
overlay-Plain = record { busy = refl; not_up = refl; whole = omega arith }

pub overlay_parts-Plain : (root : Text) → All Plain (overlay_parts root)
overlay_parts-Plain root =
    All-append Plain (parts_of root) (codes "overlay" ∷ []) (parts_of-Plain root)
      (overlay-Plain, tt)

is_rooted-append : (s t : Text) → is_rooted s ≡ true → is_rooted (s ++ t) ≡ true
is_rooted-append [] t h = absurd (cc (h))
is_rooted-append (c ∷ s) t h = h

pub join_path-rooted :
    (s t : Text) (c : ℕ)
    → is_rooted s ≡ true
    → join_path s (c ∷ t) ≡ absolute (parts_of (s ++ b'/' ∷ c ∷ t))
unfolding join_path
join_path-rooted [] t c h = absurd (cc (h))
join_path-rooted (d ∷ s) t c h = clean_path-rooted ((d ∷ s) ++ b'/' ∷ c ∷ t) h

pub overlay_root_lem :
    (root : Text) → is_rooted root ≡ true → overlay_root root ≡ absolute (overlay_parts root)
unfolding overlay_root join_slash
overlay_root_lem root h =
    join_path-rooted root (codes "verlay") b'o' h
    ∙ ap absolute (parts_of-append root (codes "overlay") [] (overlay-Plain, tt))

All-Plain-parts : (ps : List Text) → has_bad_part ps ≡ false → All (Lacks b'/') ps → All Plain ps
All-Plain-parts [] h l = tt
All-Plain-parts (p ∷ ps) h l = (
  record { busy = ground arith; not_up = ground arith; whole = l.0 },
  All-Plain-parts ps (ground arith) l.1,
)

-- What an accepted name is made of.
pack_entry_rel-Plain :
    (name rel : Text) → pack_entry_rel name ≡ ok rel → All Plain (split_slash rel)
unfolding pack_entry_rel
pack_entry_rel-Plain name rel h =
    All-Plain-parts (split_slash rel) (ground arith) (split_slash-Lacks rel)

inside-under : (root t : Text) → inside root (root ++ b'/' ∷ t) ≡ true
inside-under root t =
    let long = has_prefix-append (root ++ codes "/") t in
    let same = append_assoc root (codes "/") t in ground (arith, rw same at long)

clean_path-under :
    (ps : List Text) (q : Text) (qs : List Text)
    → All Plain ps
    → All Plain (q ∷ qs)
    → clean_path (absolute ps ++ b'/' ∷ join_slash (q ∷ qs)) ≡ absolute (ps ++ q ∷ qs)
clean_path-under ps q qs h k =
    clean_path-rooted (absolute ps ++ b'/' ∷ join_slash (q ∷ qs)) refl
    ∙ ap absolute
        (parts_of-append (absolute ps) q qs k ∙ ap (λ x. x ++ q ∷ qs) (parts_of-absolute ps h))

absolute-under :
    (ps : List Text) (p q : Text) (qs : List Text)
    → absolute ((ps ++ p ∷ []) ++ q ∷ qs) ≡ absolute (ps ++ p ∷ []) ++ b'/' ∷ join_slash (q ∷ qs)
absolute-under [] p q qs = absolute-append p q [] qs
absolute-under (r ∷ ps) p q qs = absolute-append r q (ps ++ p ∷ []) qs

entry_target :
    (ps : List Text) (rel : Text)
    → All Plain ps
    → All Plain (split_slash rel)
    → clean_path (join_path (absolute ps) rel) ≡ absolute (ps ++ split_slash rel)
unfolding join_path cut_slash eqb
entry_target ps [] h k = absurd (cc (k.0.busy))
entry_target ps (c ∷ t) h k =
    let under = clean_path-under ps (cut_slash (c ∷ t)).0 (cut_slash (c ∷ t)).1 h k in
    let joined : clean_path (absolute ps ++ b'/' ∷ c ∷ t) ≡ absolute (ps ++ split_slash (c ∷ t)) =
      ap (λ x. clean_path (absolute ps ++ b'/' ∷ x)) (sym (join_slash-split_slash (c ∷ t)))
      ∙ under in
    ap clean_path joined
    ∙ clean_path-absolute (ps ++ split_slash (c ∷ t))
        (All-append Plain ps (split_slash (c ∷ t)) h k)

-- `safe_overlay_target` over the root of the overlay.
abbrev checked_target : Text → Text → Result PathError Text
checked_target root rel =
    let target = clean_path (join_path root rel) in
    if inside (clean_path root) target then ok target else err invalid_pack_entry

checked_target_lem :
    (root rel : Text) → safe_overlay_target root rel ≡ checked_target (overlay_root root) rel
unfolding safe_overlay_target
checked_target_lem root rel = refl

checked_target-absolute :
    (ps : List Text) (rel : Text)
    → All Plain ps
    → All Plain (split_slash rel)
    → absolute (ps ++ split_slash rel) ≡ absolute ps ++ b'/' ∷ rel
    → checked_target (absolute ps) rel ≡ ok (absolute ps ++ b'/' ∷ rel)
checked_target-absolute ps rel h k e =
    rw (entry_target ps rel h k, clean_path-absolute ps h, e, inside-under (absolute ps) rel) refl

-- An entry of a pack that is accepted by its name is unpacked at its own path below the overlay of
-- an absolute local root.
pub safe_overlay_target-pack_entry_rel :
    (root name rel : Text)
    → is_rooted root ≡ true
    → pack_entry_rel name ≡ ok rel
    → safe_overlay_target root rel ≡ ok (overlay_root root ++ b'/' ∷ rel)
safe_overlay_target-pack_entry_rel root name rel r h =
    let k = pack_entry_rel-Plain name rel h in
    let whole =
      absolute-under (parts_of root) (codes "overlay") (cut_slash rel).0 (cut_slash rel).1
      ∙ ap (λ x. absolute (overlay_parts root) ++ b'/' ∷ x) (join_slash-split_slash rel) in
    checked_target_lem root rel
    ∙ ap (λ o. checked_target o rel) (overlay_root_lem root r)
    ∙ checked_target-absolute (overlay_parts root) rel (overlay_parts-Plain root) k whole
    ∙ ap (λ o. ok (o ++ b'/' ∷ rel)) (sym (overlay_root_lem root r))
