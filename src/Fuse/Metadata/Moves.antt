-- ===== src/Fuse/Metadata/Moves.antt =====
-- What is found after a tree is moved.
use ti_cli.Common.{
  subst, false, Option, none, some, [], ◌∷◌, if◌then◌else◌, ◌≡◌, ◌≢◌, refl, sym, ap, ◌∙◌, arith,
  Bool-cases, inl, inr, All,
}
use ti_cli.Common.Text.{Text, eqb, eqb_iff, eqb_refl}
use ti_cli.Common.Result.{ok}
use ti_cli.Paths.Remote.{normalize_remote_path}
use ti_cli.Fuse.Metadata.{
  MetaEntry, Entries, MetaStore, find_entry, put_entry, read_locked, write_locked, lookup_entry,
  moved_path, move_onto, move_entries,
}
use ti_cli.Fuse.Metadata.Edits.{find_entry-put_entry, written}
use ti_cli.Paths.Clean.{ends_in_slash}
use ti_cli.Fuse.Cache.{under}
use ti_cli.Fuse.Metadata.Trees.{IsMovedTo, moved_path-IsMovedTo, moved_path_to}

-- No path is recorded twice.
abbrev pub IsMap : Entries → Type 0
IsMap [] = Unit
IsMap ((p, e) ∷ d) = (find_entry p d ≡ none) × IsMap d

-- No other recorded path than `p` is moved to `q`.
abbrev pub NoClash : Text → Text → Text → Text → Entries → Type 0
NoClash source target p q = All (λ (k : Text × MetaEntry). IsMovedTo source target k.0 q → k.0 ≡ p)

abbrev Apart : Text → Text → Text → Entries → Type 0
Apart source target p =
    All (λ (k : Text × MetaEntry).
      moved_path source target k.0 ≡ moved_path source target p → k.0 ≡ p)

NoClash-Apart :
    (source target p q : Text) (d : Entries)
    → ends_in_slash source ≡ false
    → moved_path source target p ≡ q
    → NoClash source target p q d
    → Apart source target p d
NoClash-Apart source target p q [] h to c = tt
NoClash-Apart source target p q ((k, e) ∷ d) h to (c, cs) = (
  λ same.
      c (subst (IsMovedTo source target k) (same ∙ to) (moved_path-IsMovedTo source target k h)),
  NoClash-Apart source target p q d h to cs,
)

abbrev or_else : Option MetaEntry → Option MetaEntry → Option MetaEntry
or_else none o = o
or_else (some e) o = some e

find_entry-move_onto :
    (source target p : Text) (next d : Entries)
    → IsMap d
    → Apart source target p d
    → find_entry (moved_path source target p) (move_onto source target next d)
      ≡ or_else (find_entry p d) (find_entry (moved_path source target p) next)
unfolding move_onto find_entry
find_entry-move_onto source target p next [] m c = refl
find_entry-move_onto source target p next ((k, e) ∷ d) m c =
    let later =
      find_entry-move_onto source target p (put_entry (moved_path source target k) e next) d m.1
        c.1 in
    let placed =
      find_entry-put_entry (moved_path source target k) (moved_path source target p) e next in
    elim (Bool-cases (eqb k p)) [
      | inl same ↦
          let here = (eqb_iff k p).0 same in
          let at = ap (moved_path source target) here in
          let gone : find_entry p d ≡ none = ap (λ x. find_entry x d) (sym here) ∙ m.0 in
          let hit = (eqb_iff (moved_path source target k) (moved_path source target p)).1 at in
          ground (arith)
      | inr other ↦
          let apart = eqb_iff (moved_path source target k) (moved_path source target p) in
          let same = eqb_iff k p in ground (arith, c.0)
    ]

or_else-none : (o : Option MetaEntry) {n : Option MetaEntry} → n ≡ none → or_else o n ≡ o
or_else-none none e = e
or_else-none (some x) e = refl

find_entry-nil : (p : Text) → find_entry p [] ≡ none
unfolding find_entry
find_entry-nil p = refl

-- Between well-formed paths, where the source has no slash at its end, in a store that can be read and
-- records no path twice: after a move that succeeds, a path of the moved tree has what was recorded
-- for it, an entry or none, under the target followed by the rest of the path, and a path outside of
-- the tree has it where it was, if no other recorded path is moved there.
pub lookup_entry-move_entries :
    (s s' : MetaStore) (source target q from to p : Text) (d : Entries)
    → normalize_remote_path source ≡ ok from
    → normalize_remote_path target ≡ ok to
    → ends_in_slash from ≡ false
    → normalize_remote_path q ≡ ok q
    → IsMovedTo from to p q
    → read_locked s ≡ ok d
    → IsMap d
    → NoClash from to p q d
    → move_entries s source target ≡ (s', none)
    → lookup_entry s' q ≡ find_entry p d
lookup_entry-move_entries s s' source target q from to p d e f no_slash g to_q r m c h =
    let at = moved_path_to from to p q no_slash to_q in
    let steps : move_entries s source target ≡ write_locked s (move_onto from to [] d) =
      unfold move_entries in rw (e, f, r, move_entries) refl in
    let found : lookup_entry s' q ≡ find_entry (moved_path from to p) (move_onto from to [] d) =
      unfold lookup_entry in
      rw (g ∙ ap ok (sym at), written s s' (move_onto from to [] d) (sym steps ∙ h), lookup_entry)
        refl in
    found
    ∙ find_entry-move_onto from to p [] d m (NoClash-Apart from to p q d no_slash at c)
    ∙ or_else-none (find_entry p d) (find_entry-nil (moved_path from to p))

find_entry-move_onto_apart :
    (source target x : Text) (next d : Entries)
    → All (λ (k : Text × MetaEntry). moved_path source target k.0 ≢ x) d
    → find_entry x (move_onto source target next d) ≡ find_entry x next
unfolding move_onto
find_entry-move_onto_apart source target x next [] h = refl
find_entry-move_onto_apart source target x next ((k, e) ∷ d) h =
    find_entry-move_onto_apart source target x (put_entry (moved_path source target k) e next) d h.1
    ∙ find_entry-put_entry (moved_path source target k) x e next
    ∙ ap (λ b. if b then some e else find_entry x next) (apart (moved_path source target k) x h.0)
  where
    apart : (a b : Text) → a ≢ b → eqb a b ≡ false
    apart a b ne = ground (arith, eqb_iff a b)

moved_path_self : (source target : Text) → moved_path source target source ≡ target
unfolding moved_path
moved_path_self source target = rw (eqb_refl source) refl

moved_path_other :
    (source target p : Text) → under source p ≡ false → moved_path source target p ≡ p
unfolding moved_path under
moved_path_other source target p h = ground (arith, eqb_iff p source)

put_twice :
    (to : Text) (a b : MetaEntry) → find_entry to (put_entry to b (put_entry to a [])) ≡ some b
put_twice to a b = find_entry-put_entry to to b (put_entry to a []) ∙ rw (eqb_refl to) refl

-- Where a path outside the moved tree has an entry and the tree is moved onto that path, the entry
-- that is kept there depends on the order in which the range over the map meets the two.
pub move_order :
    (from to : Text) (moved old : MetaEntry) (d : Entries)
    → under from to ≡ false
    → All (λ (k : Text × MetaEntry). moved_path from to k.0 ≢ to) d
    → (find_entry to (move_onto from to [] ((from, moved) ∷ (to, old) ∷ d)) ≡ some old)
      × (find_entry to (move_onto from to [] ((to, old) ∷ (from, moved) ∷ d)) ≡ some moved)
unfolding move_onto
move_order from to moved old d apart rest =
    let here = moved_path_self from to in
    let there = moved_path_other from to to apart in
    (
      find_entry-move_onto_apart from to to _ d rest
          ∙ ap (λ (x : Text × Text). find_entry to (put_entry x.1 old (put_entry x.0 moved [])))
              (λ i. (here i, there i))
          ∙ put_twice to moved old,
      find_entry-move_onto_apart from to to _ d rest
          ∙ ap (λ (x : Text × Text). find_entry to (put_entry x.0 moved (put_entry x.1 old [])))
              (λ i. (here i, there i))
          ∙ put_twice to old moved,
    )
