-- ===== src/Fuse/Metadata/Trees.antt =====
-- Where a move of a tree (`move` of internal/fs/metastore.go) takes a path.
use ti_cli.Common.{
  ℕ, true, false, [], ◌∷◌, ◌++◌, ◌≡◌, ◌⊎◌, refl, sym, ap, ◌∙◌, arith, inl, inr, Bool-cases, length,
  drop, append-nil, append_assoc,
}
use ti_cli.Common.Text.{
  Text, codes, eqb, eqb_iff, eqb_refl, has_prefix, has_prefix_sound, has_prefix-append,
}
use ti_cli.Paths.Clean.{ends_in_slash}
use ti_cli.Fuse.Cache.{tree_prefix}
use ti_cli.Fuse.Metadata.{moved_path}

-- What is left of a path in a tree below the tree's root: nothing, or a slash and more.
abbrev pub IsTail : Text → Type 0
IsTail r = (r ≡ []) ⊎ ((t : Text) × (r ≡ b'/' ∷ t))

abbrev pub InTree : Text → Text → Type 0
InTree root p = (r : Text) × IsTail r × (p ≡ root ++ r)

-- The move takes a path of the tree below the target, with what is left of it, and leaves any
-- other path where it is.
abbrev pub IsMovedTo : Text → Text → Text → Text → Type 0
IsMovedTo source target p q =
    ((r : Text) × IsTail r × (p ≡ source ++ r) × (q ≡ target ++ r))
    ⊎ ((InTree source p → ⊥) × (q ≡ p))

tree_prefix_lem : (s : Text) → ends_in_slash s ≡ false → tree_prefix s ≡ s ++ codes "/"
unfolding tree_prefix ends_in_slash
tree_prefix_lem [] h = refl
tree_prefix_lem (c ∷ []) h = ground arith
tree_prefix_lem (c ∷ d ∷ s) h = ap (λ l. c ∷ l) (tree_prefix_lem (d ∷ s) h)

drop-append : (s t : Text) → drop (length s) (s ++ t) ≡ t
drop-append [] t = refl
drop-append (c ∷ s) t = drop-append s t

longer_differs : (s t : Text) (c : ℕ) → eqb (s ++ c ∷ t) s ≡ false
unfolding eqb
longer_differs [] t c = refl
longer_differs (d ∷ s) t c = ground (arith, longer_differs s t c)

moved_path_tail :
    (source target r : Text)
    → ends_in_slash source ≡ false
    → IsTail r
    → moved_path source target (source ++ r) ≡ target ++ r
unfolding moved_path
moved_path_tail source target r h (inl e) =
    rw (e, append-nil source, append-nil target, eqb_refl source) refl
moved_path_tail source target r h (inr (t, e)) =
    let prefix : has_prefix (tree_prefix source) (source ++ b'/' ∷ t) ≡ true =
      ap (λ s. has_prefix s (source ++ b'/' ∷ t)) (tree_prefix_lem source h)
      ∙ ap (λ s. has_prefix (source ++ codes "/") s) (sym (append_assoc source (codes "/") t))
      ∙ has_prefix-append (source ++ codes "/") t in
    rw (e, longer_differs source t b'/', prefix, drop-append source (b'/' ∷ t)) refl

-- Whatever the move does to a path, it is one of the two.
pub moved_path-IsMovedTo :
    (source target p : Text)
    → ends_in_slash source ≡ false
    → IsMovedTo source target p (moved_path source target p)
moved_path-IsMovedTo source target p h = elim (Bool-cases (eqb p source)) [
  | inl e ↦
      let root = (eqb_iff p source).0 e ∙ sym (append-nil source) in
      inl (
        [],
        inl refl,
        root,
        ap (moved_path source target) root ∙ moved_path_tail source target [] h (inl refl),
      )
  | inr e ↦ elim (Bool-cases (has_prefix (tree_prefix source) p)) [
    | inl f ↦
        let t = drop (length (tree_prefix source)) p in
        let whole =
          sym (has_prefix_sound (tree_prefix source) p f)
          ∙ ap (λ s. s ++ t) (tree_prefix_lem source h)
          ∙ append_assoc source (codes "/") t in
        let below = inr (t, refl) in
        inl (
          b'/' ∷ t,
          below,
          whole,
          ap (moved_path source target) whole ∙ moved_path_tail source target (b'/' ∷ t) h below,
        )
    | inr f ↦
        inr (λ (r, tail, at). absurd (outside r tail at e f), unfold moved_path in rw (e, f) refl)
  ]
]
  where
    outside :
        (r : Text)
        → IsTail r
        → p ≡ source ++ r
        → eqb p source ≡ false
        → has_prefix (tree_prefix source) p ≡ false
        → ⊥
    outside r (inl n) at e f =
        let root = (eqb_iff p source).1 (at ∙ ap (λ s. source ++ s) n ∙ append-nil source) in cc
    outside r (inr (t, n)) at e f =
        let long : has_prefix (tree_prefix source) p ≡ true =
          ap (λ s. has_prefix s p) (tree_prefix_lem source h)
          ∙ ap (has_prefix (source ++ codes "/"))
              (at ∙ ap (λ s. source ++ s) n ∙ sym (append_assoc source (codes "/") t))
          ∙ has_prefix-append (source ++ codes "/") t in
        cc

-- And only one of the two.
pub moved_path_to :
    (source target p q : Text)
    → ends_in_slash source ≡ false
    → IsMovedTo source target p q
    → moved_path source target p ≡ q
moved_path_to source target p q h (inl (r, tail, at, to)) =
    ap (moved_path source target) at ∙ moved_path_tail source target r h tail ∙ sym to
moved_path_to source target p q h (inr (out, same)) =
    elim (moved_path-IsMovedTo source target p h) [
      | inl (r, tail, at, to) ↦ absurd (out (r, tail, at))
      | inr (_, stays) ↦ stays ∙ sym same
    ]
