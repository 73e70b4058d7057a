-- ===== src/Update/Tests.antt =====
-- Versions of three releases, and a new binary that does not run.
use ti_cli.Common.{true, false, none, some, [], ◌∷◌, if◌then◌else◌, ◌≡◌, refl}
use ti_cli.Common.Text.{Text, codes, eqb, has_prefix, trim_prefix, trim_space, trim_left, is_space}
use ti_cli.Update.Version.{
  update_available, compare_versions, parse_version, compare_numbers, parse_parts, atoi, unsigned,
  digits_value, cut_at, before_any,
}
use ti_cli.Update.Install.{
  Disk, replace_binary, move_aside, install, remove_file, rename_file, backup_of, put_back,
}
use ti_cli.Update.Install.Whole.{replace_binary_whole}
use ti_cli.Update.Version.Compare.{update_order}

update_order_example :
    (update_available (codes "v1.2.9") (codes "2.0.0") ≡ (true, true))
    × (update_available (codes "v1.10.0-rc1") (codes "v1.2.9") ≡ (false, true))
unfolding update_available compare_versions parse_version compare_numbers parse_parts atoi unsigned
    digits_value cut_at before_any trim_space trim_left is_space trim_prefix has_prefix eqb
update_order_example = update_order (codes "v1.2.9") (codes "v1.10.0-rc1") (codes "2.0.0") refl refl

abbrev program : Text
program = codes "/b/ti"

abbrev staged : Text
staged = codes "/b/n"

-- A disk with the binary and a new one, where nothing fails.
abbrev a_disk : Disk
a_disk = record {
  files =
      λ q. if eqb q program then some (1 ∷ []) else if eqb q staged then some (2 ∷ []) else none;
  ops = 0;
  fails = λ _. false;
}

replace_binary_whole_example :
    (replace_binary (λ _ _. false) a_disk staged program).0.files program ≡ some (1 ∷ [])
unfolding eqb replace_binary move_aside install remove_file rename_file backup_of put_back
replace_binary_whole_example =
    replace_binary_whole (λ _ _. false) a_disk staged program refl refl refl refl
