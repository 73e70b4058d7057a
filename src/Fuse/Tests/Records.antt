-- ===== src/Fuse/Tests/Records.antt =====
-- A store of modes and links with two entries.
use ti_cli.Common.{inl, inr, true, false, Option, none, some, [], ◌∷◌, ◌≡◌, refl}
use ti_cli.Common.Text.{codes, eqb, has_prefix}
use ti_cli.Paths.Clean.{
  cut_slash, resolve_parts, resolve_part, pop_part, join_slash, clean_path, ends_in_slash,
}
use ti_cli.Paths.Remote.{normalize_remote_path, has_control_rune}
use ti_cli.Fuse.Cache.{under, tree_prefix}
use ti_cli.Fuse.Metadata.{
  MetaEntry, MetaStore, MetaError, Entries, holds, blank_entry, find_entry, lookup_entry,
  move_entries, read_locked, write_locked, move_onto,
}
use ti_cli.Fuse.Metadata.Trees.{IsMovedTo}
use ti_cli.Fuse.Metadata.Moves.{lookup_entry-move_entries, move_order, NoClash, IsMap}

abbrev run_mode : MetaEntry
run_mode = record blank_entry { mode = 0x1ED; has_mode = true }

abbrev recorded : Entries
recorded = (codes "/d/x", run_mode) ∷ (codes "/e", blank_entry) ∷ []

abbrev store : MetaStore
store = record { file = holds recorded; stuck = false }

abbrev moved : MetaStore × Option MetaError
moved = move_entries store (codes "/d") (codes "/n")

moved_run : moved ≡ (moved.0, none)
unfolding move_entries normalize_remote_path has_control_rune ends_in_slash clean_path cut_slash
    resolve_parts resolve_part pop_part join_slash eqb has_prefix read_locked write_locked
moved_run = refl

x-IsMovedTo : IsMovedTo (codes "/d") (codes "/n") (codes "/d/x") (codes "/n/x")
x-IsMovedTo = inl (codes "/x", inr (codes "x", refl), refl, refl)

e-stays : IsMovedTo (codes "/d") (codes "/n") (codes "/e") (codes "/n/x") → ⊥
e-stays (inl (r, tail, at, to)) = cc
e-stays (inr (out, same)) = cc

no_clash : NoClash (codes "/d") (codes "/n") (codes "/d/x") (codes "/n/x") recorded
no_clash = (λ e. refl, (λ e. absurd (e-stays e), tt))

recorded-IsMap : IsMap recorded
unfolding find_entry eqb
recorded-IsMap = (refl, (refl, tt))

lookup_entry-move_entries_example :
    lookup_entry moved.0 (codes "/n/x") ≡ find_entry (codes "/d/x") recorded
unfolding normalize_remote_path has_control_rune ends_in_slash clean_path cut_slash resolve_parts
    resolve_part pop_part join_slash eqb has_prefix read_locked
lookup_entry-move_entries_example =
    lookup_entry-move_entries store moved.0 (codes "/d") (codes "/n") (codes "/n/x") (codes "/d")
      (codes "/n") (codes "/d/x") recorded refl refl refl refl x-IsMovedTo refl recorded-IsMap
      no_clash moved_run

move_order_example :
    (find_entry (codes "/e") (
        move_onto
          (codes "/d")
          (codes "/e")
          []
          ((codes "/d", run_mode) ∷ (codes "/e", blank_entry) ∷ []))
      ≡ some blank_entry)
    × (find_entry (codes "/e") (
          move_onto
            (codes "/d")
            (codes "/e")
            []
            ((codes "/e", blank_entry) ∷ (codes "/d", run_mode) ∷ []))
        ≡ some run_mode)
unfolding under eqb has_prefix tree_prefix
move_order_example = move_order (codes "/d") (codes "/e") run_mode blank_entry [] refl tt
