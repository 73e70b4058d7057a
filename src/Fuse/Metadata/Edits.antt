-- ===== src/Fuse/Metadata/Edits.antt =====
-- What is found after an entry is changed.
use ti_cli.Common.{Bool, true, none, some, [], ◌∷◌, if◌then◌else◌, ◌≡◌, refl, sym, ap, ◌∙◌, arith}
use ti_cli.Common.Text.{Text, eqb, eqb_iff}
use ti_cli.Common.Result.{ok}
use ti_cli.Paths.Remote.{normalize_remote_path}
use ti_cli.Fuse.Cache.{under}
use ti_cli.Fuse.Metadata.{
  MetaEntry, Entries, MetaStore, find_entry, put_entry, drop_entry, drop_under, read_locked,
  write_locked, Change, changed_entries, update_entry, lookup_entry, remove_entry,
}

pub find_entry-put_entry :
    (p q : Text) (e : MetaEntry) (d : Entries)
    → find_entry q (put_entry p e d) ≡ (if eqb p q then some e else find_entry q d)
unfolding find_entry put_entry
find_entry-put_entry p q e [] = refl
find_entry-put_entry p q e ((r, f) ∷ d) =
    ground (arith, eqb_iff r p, eqb_iff r q, eqb_iff p q, find_entry-put_entry p q e d)

find_entry-drop_entry :
    (p q : Text) (d : Entries)
    → find_entry q (drop_entry p d) ≡ (if eqb p q then none else find_entry q d)
unfolding find_entry drop_entry
find_entry-drop_entry p q [] = ground arith
find_entry-drop_entry p q ((r, f) ∷ d) =
    ground (arith, eqb_iff r p, eqb_iff r q, eqb_iff p q, find_entry-drop_entry p q d)

find_entry-drop_under :
    (p q : Text) (d : Entries)
    → find_entry q (drop_under p d) ≡ (if under p q then none else find_entry q d)
unfolding find_entry drop_under
find_entry-drop_under p q [] = ground arith
find_entry-drop_under p q ((r, f) ∷ d) =
    ground (arith, eqb_iff r q, same_under, find_entry-drop_under p q d)
  where
    same_under : r ≡ q → under p r ≡ under p q
    same_under e = ap (under p) e

-- A write that succeeds is read back.
pub written :
    (s s' : MetaStore) (d : Entries) → write_locked s d ≡ (s', none) → read_locked s' ≡ ok d
unfolding write_locked read_locked
written s s' d h = ground arith

pub lookup_entry-update_entry :
    (s s' : MetaStore) (path q p k : Text) (d : Entries) (change : Change) (recursive : Bool)
    → normalize_remote_path path ≡ ok p
    → normalize_remote_path q ≡ ok k
    → read_locked s ≡ ok d
    → update_entry s path change recursive ≡ (s', none)
    → lookup_entry s' q ≡ find_entry k (changed_entries d p change recursive)
unfolding lookup_entry
lookup_entry-update_entry s s' path q p k d change recursive e f r h =
    let steps : update_entry s path change recursive
        ≡ write_locked s (changed_entries d p change recursive) =
      unfold update_entry in rw (e, r, update_entry) refl in
    let sent = sym steps ∙ h in
    rw (f, written s s' (changed_entries d p change recursive) sent, lookup_entry) refl

-- For well-formed paths, in a store that can be read: after the recorded entries of a tree are removed
-- with success, nothing under it is found, and all else is found as before.
pub lookup_entry-remove_entry :
    (s s' : MetaStore) (path q p k : Text) (d : Entries)
    → normalize_remote_path path ≡ ok p
    → normalize_remote_path q ≡ ok k
    → read_locked s ≡ ok d
    → remove_entry s path true ≡ (s', none)
    → lookup_entry s' q ≡ (if under p k then none else lookup_entry s q)
unfolding remove_entry
lookup_entry-remove_entry s s' path q p k d e f r h =
    let before : lookup_entry s q ≡ find_entry k d =
      unfold lookup_entry in rw (f, r, lookup_entry) refl in
    lookup_entry-update_entry s s' path q p k d (λ _. none) true e f r h
    ∙ (unfold changed_entries in find_entry-drop_under p k d)
    ∙ ap (λ o. if under p k then none else o) (sym before)
