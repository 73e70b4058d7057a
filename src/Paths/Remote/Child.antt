-- ===== src/Paths/Remote/Child.antt =====
-- The paths of children.
use ti_cli.Common.{
  some, List, [], ◌∷◌, ◌++◌, ◌≡◌, ◌⊎◌, refl, sym, ap, ◌∙◌, arith, inl, inr, Bool-cases, All,
  All-append,
}
use ti_cli.Common.Text.{Text, codes, eqb, eqb_iff, contains-Lacks}
use ti_cli.Common.Result.{ok}
use ti_cli.Paths.Clean.{join_slash, join_path}
use ti_cli.Paths.Clean.Laws.{Plain, absolute, parts_of-absolute}
use ti_cli.Paths.Clean.Trim.{eqb-absolute}
use ti_cli.Paths.Remote.{normalize_remote_path, child_path}
use ti_cli.Paths.Remote.Normal.{normalize_remote_path_only}
use ti_cli.Paths.Remote.RoundTrip.{join_path-absolute}

child_path-name : (parent name child : Text) → child_path parent name ≡ some child → Plain name
unfolding child_path
child_path-name parent name child h = record {
  busy = ground arith;
  not_up = ground arith;
  whole = contains-Lacks b'/' name (ground arith);
}

child_path-normal :
    (parent name child : Text)
    → child_path parent name ≡ some child
    → ((parent ≡ codes "/") × (normalize_remote_path (b'/' ∷ name) ≡ ok child))
      ⊎ (normalize_remote_path (join_path parent name) ≡ ok child)
unfolding child_path
child_path-normal parent name child h = elim (Bool-cases (eqb parent (codes "/"))) [
  | inl top ↦ inl ((eqb_iff parent (codes "/")).0 top, ground arith)
  | inr deep ↦ inr (ground arith)
]

absolute-top : (ps : List Text) → All Plain ps → absolute ps ≡ codes "/" → ps ≡ []
unfolding join_slash
absolute-top [] h e = refl
absolute-top (p ∷ ps) h e =
    let deep = eqb-absolute p ps h in
    let top = (eqb_iff (absolute (p ∷ ps)) (codes "/")).1 e in absurd (cc)

-- A name that is accepted in a directory, whose own path is made of named parts, gives the path of
-- exactly that child.
pub child_path_lem :
    (ps : List Text) (name child : Text)
    → All Plain ps
    → child_path (absolute ps) name ≡ some child
    → child ≡ absolute (ps ++ name ∷ [])
unfolding join_slash
child_path_lem ps name child h k =
    let named = child_path-name (absolute ps) name child k in
    let longer = All-append Plain ps (name ∷ []) h (named, tt) in
    elim (child_path-normal (absolute ps) name child k) [
      | inl (top, e) ↦
          normalize_remote_path_only (name ∷ []) child (named, tt) e
          ∙ ap (λ x. absolute (x ++ name ∷ [])) (sym (absolute-top ps h top))
      | inr e ↦ normalize_remote_path_only (ps ++ name ∷ []) child longer (
          sym (
            ap normalize_remote_path (
              join_path-absolute (absolute ps) name [] refl (named, tt)
              ∙ ap (λ x. absolute (x ++ name ∷ [])) (parts_of-absolute ps h)))
          ∙ e)
    ]
