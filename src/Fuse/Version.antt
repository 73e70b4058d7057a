-- ===== src/Fuse/Version.antt =====
-- Object versions (internal/fs/fuse_version.go).
use ti_cli.Common.{Bool, true, false, not, ◌&&◌, ◌||◌, [], ◌≡◌, arith, if◌then◌else◌}
use ti_cli.Common.Int.{ℤ, pos, eqb_ℤ, is_positive}
use ti_cli.Common.Text.{Text, eqb, eqb_refl}

pub record Version : Type 0 where
  pub revision : ℤ
  pub resource_id : Text

abbrev pub unknown : Version
unknown = record { revision = pos 0; resource_id = [] }

-- `s != ""`.
abbrev pub nonempty : Text → Bool
nonempty s = not (eqb s [])

unfoldable pub known : Version → Bool
known v = is_positive v.revision || nonempty v.resource_id

unfoldable pub matches : Version → Version → Bool
unfolding known
matches v required =
    if not (known required)
    then true
    else if nonempty required.resource_id && not (eqb v.resource_id required.resource_id)
    then false
    else if is_positive required.revision && not (eqb_ℤ v.revision required.revision)
    then false
    else true

unfoldable pub conflicts_with : Version → Version → Bool
conflicts_with v expected =
    if nonempty expected.resource_id
      && nonempty v.resource_id
      && not (eqb v.resource_id expected.resource_id)
    then true
    else is_positive expected.revision
      && is_positive v.revision
      && not (eqb_ℤ v.revision expected.revision)

unfoldable pub with_revision : Version → ℤ → Version
with_revision v revision = if is_positive revision then record v { revision = revision } else v

pub eqb_ℤ-refl : (a : ℤ) → eqb_ℤ a a ≡ true
eqb_ℤ-refl a = ground arith

pub matches_self : (v : Version) → matches v v ≡ true
unfolding matches
matches_self v = ground (arith, eqb_refl v.resource_id, eqb_ℤ-refl v.revision)

-- A cached version that matches the required one does not conflict with it.
pub matches→no_conflict :
    (v required : Version) → matches v required ≡ true → conflicts_with v required ≡ false
unfolding matches conflicts_with
matches→no_conflict v required h = ground arith

-- Where both versions carry a revision and an id, a match is the absence of a conflict.
pub conflicts_with-not-matches :
    (v required : Version)
    → is_positive v.revision ≡ true
    → nonempty v.resource_id ≡ true
    → known required ≡ true
    → conflicts_with v required ≡ not (matches v required)
unfolding matches conflicts_with
conflicts_with-not-matches v required p q k = ground arith
