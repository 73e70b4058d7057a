-- ===== src/Fuse/Nodes/Listing/Layers.antt =====
-- What a listing of a directory has.
use ti_cli.Common.{
  Bool, true, false, Option, none, some, List, [], ◌∷◌, if◌then◌else◌, ◌≡◌, refl, sym, ap, ◌∙◌,
  arith, inl, inr, Bool-cases, subst,
}
use ti_cli.Common.Text.{Text, eqb, eqb_iff}
use ti_cli.Common.Result.{Result, ok, err, Result-cases}
use ti_cli.Fuse.Errors.{FsError}
use ti_cli.Paths.Remote.{is_local_only}
use ti_cli.Fuse.DataPlane.{DataPlane}
use ti_cli.Fuse.Nodes.{Surroundings, Mount, DirEntry}
use ti_cli.Fuse.Nodes.Listing.{
  ltb_text, named, put_named, put_all, insert_named, sort_named, readdir, list_remote, list_local,
  merge_listings, remote_entries, is_on_disk,
}

ltb_text-total : (s t : Text) → ltb_text s t ≡ false → eqb s t ≡ false → ltb_text t s ≡ true
unfolding ltb_text eqb
ltb_text-total [] [] h e = absurd (cc)
ltb_text-total [] (d ∷ t) h e = absurd (cc)
ltb_text-total (c ∷ s) [] h e = refl
ltb_text-total (c ∷ s) (d ∷ t) h e = ground (arith, ltb_text-total s t)

-- The entries have rising names, above the given one.
abbrev Above : Text → List DirEntry → Type 0
Above x [] = Unit
Above x (e ∷ es) = (ltb_text x e.name ≡ true) × Above e.name es

-- The names rise, so that none stands twice.
abbrev pub Rising : List DirEntry → Type 0
Rising [] = Unit
Rising (e ∷ es) = Above e.name es

insert_named-Above :
    (x : Text) (e : DirEntry) (es : List DirEntry)
    → ltb_text x e.name ≡ true
    → named e.name es ≡ none
    → Above x es
    → Above x (insert_named e es)
unfolding insert_named named
insert_named-Above x e [] lt new h = (lt, tt)
insert_named-Above x e (f ∷ es) lt new h =
    let other : eqb f.name e.name ≡ false = ground arith in
    let apart : eqb e.name f.name ≡ false =
      ground (arith, eqb_iff f.name e.name, eqb_iff e.name f.name) in
    elim (Bool-cases (ltb_text e.name f.name)) [
      | inl b ↦ rw b (lt, (b, h.1))
      | inr b ↦ rw b (
        h.0,
        insert_named-Above f.name e es (ltb_text-total e.name f.name b apart) (ground arith) h.1,
      )
    ]

insert_named-Rising :
    (e : DirEntry) (es : List DirEntry)
    → named e.name es ≡ none
    → Rising es
    → Rising (insert_named e es)
unfolding insert_named named
insert_named-Rising e [] new h = tt
insert_named-Rising e (f ∷ es) new h =
    let other : eqb f.name e.name ≡ false = ground arith in
    let apart : eqb e.name f.name ≡ false =
      ground (arith, eqb_iff f.name e.name, eqb_iff e.name f.name) in
    elim (Bool-cases (ltb_text e.name f.name)) [
      | inl b ↦ rw b (b, h)
      | inr b ↦
          rw b
            (insert_named-Above f.name e es (ltb_text-total e.name f.name b apart) (ground arith) h)
    ]

named-insert_named :
    (x : Text) (e : DirEntry) (es : List DirEntry)
    → named e.name es ≡ none
    → named x (insert_named e es) ≡ (if eqb e.name x then some e else named x es)
unfolding insert_named named
named-insert_named x e [] new = refl
named-insert_named x e (f ∷ es) new =
    ground
      (arith, eqb_iff f.name e.name, eqb_iff f.name x, eqb_iff e.name x, named-insert_named x e es)

-- No name stands twice.
abbrev Apart : List DirEntry → Type 0
Apart [] = Unit
Apart (e ∷ es) = (named e.name es ≡ none) × Apart es

named-sort_named : (x : Text) (es : List DirEntry) → Apart es → named x (sort_named es) ≡ named x es
unfolding sort_named named
named-sort_named x [] h = refl
named-sort_named x (e ∷ es) h =
    named-insert_named x e (sort_named es) (named-sort_named e.name es h.1 ∙ h.0)
    ∙ ap (λ o. if eqb e.name x then some e else o) (named-sort_named x es h.1)

sort_named-Rising : (es : List DirEntry) → Apart es → Rising (sort_named es)
unfolding sort_named
sort_named-Rising [] h = tt
sort_named-Rising (e ∷ es) h =
    insert_named-Rising e (sort_named es) (named-sort_named e.name es h.1 ∙ h.0)
      (sort_named-Rising es h.1)

named-put_named :
    (x : Text) (e : DirEntry) (es : List DirEntry)
    → named x (put_named e es) ≡ (if eqb e.name x then some e else named x es)
unfolding put_named named
named-put_named x e [] = refl
named-put_named x e (f ∷ es) =
    ground
      (arith, eqb_iff f.name e.name, eqb_iff f.name x, eqb_iff e.name x, named-put_named x e es)

put_named-Apart : (e : DirEntry) (es : List DirEntry) → Apart es → Apart (put_named e es)
unfolding put_named named
put_named-Apart e [] h = (refl, tt)
put_named-Apart e (f ∷ es) h = elim (Bool-cases (eqb f.name e.name)) [
  | inl b ↦ rw b (ap (λ x. named x es) (sym ((eqb_iff f.name e.name).0 b)) ∙ h.0, h.1)
  | inr b ↦ rw b (
    named-put_named f.name e es ∙ ground (arith, h.0, eqb_iff f.name e.name, eqb_iff e.name f.name),
    put_named-Apart e es h.1,
  )
]

put_all-Apart : (es by_name : List DirEntry) → Apart by_name → Apart (put_all es by_name)
unfolding put_all
put_all-Apart [] by_name h = h
put_all-Apart (e ∷ es) by_name h =
    put_all-Apart es (put_named e by_name) (put_named-Apart e by_name h)

abbrev pub or_else : Option DirEntry → Option DirEntry → Option DirEntry
or_else none o = o
or_else (some e) o = some e

-- The last of the entries of a name.
unfoldable pub last_named : Text → List DirEntry → Option DirEntry
last_named x [] = none
last_named x (e ∷ es) = or_else (last_named x es) (if eqb e.name x then some e else none)

or_else_assoc : (a b c : Option DirEntry) → or_else (or_else a b) c ≡ or_else a (or_else b c)
or_else_assoc none b c = refl
or_else_assoc (some e) b c = refl

or_else-if :
    (b : Bool) (e : DirEntry) (o : Option DirEntry)
    → (if b then some e else o) ≡ or_else (if b then some e else none) o
or_else-if true e o = refl
or_else-if false e o = refl

named-put_all :
    (x : Text) (es by_name : List DirEntry)
    → named x (put_all es by_name) ≡ or_else (last_named x es) (named x by_name)
unfolding put_all last_named
named-put_all x [] by_name = refl
named-put_all x (e ∷ es) by_name =
    named-put_all x es (put_named e by_name)
    ∙ ap (or_else (last_named x es))
        (named-put_named x e by_name ∙ or_else-if (eqb e.name x) e (named x by_name))
    ∙ sym
        (or_else_assoc (last_named x es) (if eqb e.name x then some e else none) (named x by_name))

merged_lem :
    (x : Text) (top middle bottom : List DirEntry)
    → Apart bottom
    → Rising (sort_named (put_all top (put_all middle bottom)))
      × (named x (sort_named (put_all top (put_all middle bottom)))
          ≡ or_else (last_named x top) (or_else (last_named x middle) (named x bottom)))
merged_lem x top middle bottom h =
    let both = put_all-Apart top (put_all middle bottom) (put_all-Apart middle bottom h) in
    (
      sort_named-Rising (put_all top (put_all middle bottom)) both,
      named-sort_named x (put_all top (put_all middle bottom)) both
          ∙ named-put_all x top (put_all middle bottom)
          ∙ ap (or_else (last_named x top)) (named-put_all x middle bottom),
    )

-- A listing that fails has nothing.
abbrev pub or_nothing : {E : Type 0} → Result E (List DirEntry) → List DirEntry
or_nothing (ok es) = es
or_nothing (err e) = []

merge_listings_lem :
    (far : List DirEntry) (near : Result FsError (List DirEntry)) (top entries : List DirEntry)
    → merge_listings far near top ≡ ok entries
    → entries ≡ sort_named (put_all top (put_all (or_nothing near) far))
unfolding merge_listings put_all
merge_listings_lem [] (err e) top entries h = absurd (cc)
merge_listings_lem (f ∷ fs) (err e) top entries h = ground arith
merge_listings_lem [] (ok near) top entries h = ground arith
merge_listings_lem (f ∷ fs) (ok near) top entries h = ground arith

module _ (d : DataPlane) (env : Surroundings d) where
  list_remote-Apart :
      (m : Mount d env) (p : Text) (far : List DirEntry)
      → list_remote d env m p ≡ ok far
      → Apart far
  unfolding list_remote
  list_remote-Apart m p far h = elim (Bool-cases (is_local_only m.layers p)) [
    | inl l ↦ let same : far ≡ [] = ground arith in subst Apart (sym same) tt
    | inr l ↦ elim (Result-cases (env.list_dir m.runtime.remote p)) [
      | inl (names, e) ↦
          let same : far ≡ put_all (remote_entries p names) [] = ground arith in
          subst Apart (sym same) (put_all-Apart (remote_entries p names) [] tt)
      | inr (x, e) ↦ elim (Bool-cases (is_on_disk d env m p)) [
        | inl on ↦ let same : far ≡ [] = ground arith in subst Apart (sym same) tt
        | inr off ↦ absurd (ground arith)
      ]
    ]
  ]

  -- A directory that is listed with success has rising names, so that none stands twice, and for each
  -- name the last entry of the local disk, or else of the workspace, or else the remote one.
  pub readdir_layers :
      (m m' : Mount d env) (p : Text) (entries : List DirEntry) (x : Text)
      → readdir d env m p ≡ (m', ok entries)
      → Rising entries
        × (named x entries
            ≡ or_else (last_named x (list_local d env m p)) (
                or_else
                  (last_named x (or_nothing (env.git_readdir m.git p).1))
                  (named x (or_nothing (list_remote d env m p)))))
  unfolding readdir
  readdir_layers m m' p entries x h = elim (Result-cases (list_remote d env m p)) [
    | inr (e, f) ↦ absurd (ground arith)
    | inl (far, f) ↦
        let near = (env.git_readdir m.git p).1 in
        let top = list_local d env m p in
        let done : merge_listings far near top ≡ ok entries = ground arith in
        let same = merge_listings_lem far near top entries done in
        rw (f, same) (merged_lem x top (or_nothing near) far (list_remote-Apart m p far f))
  ]
