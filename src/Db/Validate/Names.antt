-- ===== src/Db/Validate/Names.antt =====
-- Which names of clusters are accepted.
use ti_cli.Common.{
  ℕ, Bool, true, false, ◌&&◌, ◌||◌, [], ◌∷◌, leb, ◌==◌, length, ◌≡◌, ◌↔◌, refl, arith, Bool-cases,
  inl, inr,
}
use ti_cli.Common.Text.{Text, is_space}
use ti_cli.Common.Result.{ok}
use ti_cli.Db.Validate.{cluster_name, cluster_name_matches, name_tail, is_alnum, required}
use ti_cli.Common.Trim.{trim_space-ink}

unfoldable pub all_allowed : Text → Bool
unfolding is_alnum
all_allowed [] = true
all_allowed (c ∷ s) = (is_alnum c || c == b'-') && all_allowed s

unfoldable pub starts_alnum : Text → Bool
unfolding is_alnum
starts_alnum [] = false
starts_alnum (c ∷ s) = is_alnum c

unfoldable pub ends_alnum : Text → Bool
unfolding is_alnum
ends_alnum [] = false
ends_alnum (c ∷ []) = is_alnum c
ends_alnum (c ∷ d ∷ s) = ends_alnum (d ∷ s)

name_tail-ends_alnum : (s : Text) → name_tail s ≡ (all_allowed s && ends_alnum s)
unfolding name_tail all_allowed ends_alnum
name_tail-ends_alnum [] = refl
name_tail-ends_alnum (c ∷ []) = ground arith
name_tail-ends_alnum (c ∷ d ∷ s) = ground (arith, name_tail-ends_alnum (d ∷ s))

alnum_ink : (c : ℕ) → is_alnum c ≡ true → is_space c ≡ false
unfolding is_alnum is_space
alnum_ink c h = ground arith

-- A name is accepted exactly if it has 4 to 64 characters, all letters, digits or hyphens, with no
-- hyphen at either end.
pub cluster_name_lem :
    (s : Text)
    → (cluster_name s ≡ ok tt) ↔ (
        (leb 4 (length s) && leb (length s) 64 && all_allowed s && starts_alnum s && ends_alnum s)
        ≡ true)
unfolding cluster_name required cluster_name_matches all_allowed starts_alnum ends_alnum
cluster_name_lem [] = ground arith
cluster_name_lem (c ∷ []) = ground arith
cluster_name_lem (c ∷ d ∷ s) = elim (Bool-cases (is_alnum c)) [
  | inr e ↦ ground (arith, e)
  | inl e ↦
      let ink = trim_space-ink c (d ∷ s) (alnum_ink c e) in
      ground (arith, e, ink, name_tail-ends_alnum (d ∷ s))
]
