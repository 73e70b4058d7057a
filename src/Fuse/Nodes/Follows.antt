-- ===== src/Fuse/Nodes/Follows.antt =====
-- What calls on paths do to the handles that are open.
use ti_cli.Common.{
  ℕ, Bool, true, false, not, ◌||◌, Option, none, some, List, [], ◌∷◌, if◌then◌else◌, ◌≡◌, refl, sym,
  ap, subst, ◌∙◌, arith, inl, inr, Bool-cases, Option-cases,
}
use ti_cli.Common.Text.{Text, eqb_iff}
use ti_cli.Common.Result.{ok}
use ti_cli.Fuse.Version.{Version, known}
use ti_cli.Fuse.Cache.{under, invalidate_prefix, get}
use ti_cli.Fuse.Cache.Invariant.{Inv}
use ti_cli.Fuse.Cache.Lookup.{get-invalidate_prefix}
use ti_cli.Fuse.DataPlane.{DataPlane, IsStore}
use ti_cli.Fuse.Runtime.{Runtime}
use ti_cli.Fuse.File.{File, Commit, mark_deleted, retarget, flush}
use ti_cli.Fuse.File.Marks.{Tracks}
use ti_cli.Fuse.File.Flush.{flush_stores}
use ti_cli.Fuse.Handles.{
  Handle, Registry, each_file, mark_deleted_open_handles, retarget_open_handles,
}
use ti_cli.Fuse.Handles.Newest.{Among}
use ti_cli.Fuse.Nodes.{Surroundings, Mount, remove_remote}
use ti_cli.Fuse.Nodes.Renaming.{rename_remote, version_or_unknown}
use ti_cli.Fuse.Upload.{stat_version}

each_file-Among :
    (f : File → File) (h : Handle) (hs : List Handle)
    → Among h (each_file f hs)
    → (g : Handle) × Among g hs × (h ≡ record g { file = f g.file })
unfolding each_file
each_file-Among f h [] m = absurd m
each_file-Among f h (g ∷ hs) (inl e) = (g, inl refl, e)
each_file-Among f h (g ∷ hs) (inr m) =
    let (k, deep, e) = each_file-Among f h hs m in (k, inr deep, e)

mark_deleted-under :
    (f : File) (p : Text) → under p f.path ≡ true → (mark_deleted f p).deleted ≡ true
unfolding mark_deleted under
mark_deleted-under f p h = ground arith

mark_deleted-path : (f : File) (p : Text) → (mark_deleted f p).path ≡ f.path
unfolding mark_deleted
mark_deleted-path f p = ground arith

module _ (d : DataPlane) (env : Surroundings d) where
  deleted_silent :
      (r : Runtime d) (now : ℕ) (f : File) (c : Option (Commit d))
      → f.deleted ≡ true
      → (flush d r now f c).0.0 ≡ r
  unfolding flush
  deleted_silent r now f c h = elim (Bool-cases (not f.writable || not f.dirty)) [
    | inl e ↦ rw (e, flush) refl
    | inr e ↦ rw (e, h, flush) refl
  ]

  removed-registry :
      (m m' : Mount d env) (p : Text) (recursive : Bool)
      → remove_remote d env m p recursive ≡ (m', none)
      → (m'.registry ≡ mark_deleted_open_handles m.registry p)
        × (m'.runtime.cache ≡ invalidate_prefix m.runtime.cache p)
  unfolding remove_remote
  removed-registry m m' p recursive h = elim (Option-cases (env.delete_file m.runtime.remote p).1) [
    | inl e ↦ (ground arith, ground arith)
    | inr (x, e) ↦ absurd (ground arith)
  ]

  removed_silent :
      (r : Registry) (p : Text) (h : Handle) (runtime : Runtime d) (now : ℕ) (c : Option (Commit d))
      → Among h (mark_deleted_open_handles r p).handles
      → under p h.file.path ≡ true
      → (flush d runtime now h.file c).0.0 ≡ runtime
  unfolding mark_deleted_open_handles
  removed_silent r p h runtime now c a u =
      let (g, there, same) = each_file-Among (λ f. mark_deleted f p) h r.handles a in
      let file : h.file ≡ mark_deleted g.file p = ap (λ (x : Handle). x.file) same in
      let at : h.file.path ≡ g.file.path =
        ap (λ (x : File). x.path) file ∙ mark_deleted-path g.file p in
      let gone : h.file.deleted ≡ true =
        ap (λ (x : File). x.deleted) file
        ∙ mark_deleted-under g.file p (ap (under p) (sym at) ∙ u) in
      deleted_silent runtime now h.file c gone

  -- After a file or a tree of the remote file system is removed with success, a flush of a handle that
  -- is open under it changes nothing, so that what was removed does not come back, and the cache, if
  -- it satisfied its invariant, serves nothing under it.
  pub removed_stays_gone :
      (m m' : Mount d env) (p : Text) (recursive : Bool) (h : Handle) (r : Runtime d) (now : ℕ)
      (c : Option (Commit d)) (q : Text) (v : Version)
      → remove_remote d env m p recursive ≡ (m', none)
      → Among h m'.registry.handles
      → under p h.file.path ≡ true
      → Inv m.runtime.cache
      → under p q ≡ true
      → ((flush d r now h.file c).0.0 ≡ r) × ((get m'.runtime.cache now q v).1 ≡ none)
  removed_stays_gone m m' p recursive h r now c q v done a u i below =
      let (handles, cache) = removed-registry m m' p recursive done in
      (
        removed_silent m.registry p h r now c
            (subst (λ (x : Registry). Among h x.handles) handles a) u,
        ap (λ x. (get x now q v).1) cache
            ∙ get-invalidate_prefix m.runtime.cache now p q v i
            ∙ ap (λ b. if b then none else (get m.runtime.cache now q v).1) below,
      )

  -- What the service documents of a rename.
  pub record MovesFiles : Type 0 where
    pub moves :
        (s s' : d.State) (source target : Text)
        → env.rename_file s source target ≡ (s', none)
        → d.content s' target ≡ d.content s source

  retargeted_version : File → Version → Version
  retargeted_version f v = if known v then v else f.version

  retarget_here :
      (f : File) (source target : Text) (v : Version)
      → f.path ≡ source
      → retarget f source target v ≡ record f { path = target; version = retargeted_version f v }
  unfolding retarget retargeted_version
  retarget_here f source target v e =
      let same = (eqb_iff f.path source).1 e in
      elim (Bool-cases (known v)) [ inl k ↦ rw (same, k) refl | inr k ↦ rw (same, k) refl ]

  retarget-Tracks :
      (f : File) (old : List ℕ) (target : Text) (v : Version)
      → Tracks old f
      → Tracks old (record f { path = target; version = v })
  retarget-Tracks f old target v t = record {
    size = t.size;
    marks = elim t.marks [
      | inl w ↦ inl w
      | inr a ↦
          inr (record { same_size = a.same_size; no_shorter = a.no_shorter; unmarked = a.unmarked })
    ];
    unchanged = t.unchanged;
  }

  each_file-Among_back :
      (f : File → File) (h : Handle) (hs : List Handle)
      → Among h hs
      → Among (record h { file = f h.file }) (each_file f hs)
  unfolding each_file
  each_file-Among_back f h [] m = absurd m
  each_file-Among_back f h (g ∷ hs) (inl e) =
      inl (ap (λ (x : Handle). record x { file = f x.file }) e)
  each_file-Among_back f h (g ∷ hs) (inr m) = inr (each_file-Among_back f h hs m)

  -- The version that a rename gives to the handles under the new path.
  abbrev pub version_at : d.State → Text → Version
  version_at s p = version_or_unknown d env (stat_version d s p)

  renamed :
      (m m' : Mount d env) (source target : Text)
      → rename_remote d env m source target ≡ (m', none)
      → (m'.registry
          ≡ retarget_open_handles m.registry source target (version_at m'.runtime.remote target))
        × (env.rename_file m.runtime.remote source target ≡ (m'.runtime.remote, none))
  unfolding rename_remote
  renamed m m' source target h =
      elim (Option-cases (env.rename_file m.runtime.remote source target).1) [
        | inl e ↦
            let out = env.rename_file m.runtime.remote source target in
            let there : m'.runtime.remote ≡ out.0 = ground arith in
            let kept : m'.registry
                ≡ retarget_open_handles m.registry source target (version_at out.0 target) =
              ground arith in
            (
              kept
                  ∙ ap (λ s. retarget_open_handles m.registry source target (version_at s target))
                      (sym there),
              (λ i. (out.0, e i)) ∙ ap (λ s. (s, none)) (sym there),
            )
        | inr (x, e) ↦ absurd (ground arith)
      ]

  moved-Among :
      (r : Registry) (h : Handle) (source target : Text) (v : Version)
      → Among h r.handles
      → Among
          (record h { file = retarget h.file source target v })
          (retarget_open_handles r source target v).handles
  unfolding retarget_open_handles
  moved-Among r h source target v a =
      each_file-Among_back (λ f. retarget f source target v) h r.handles a

  moved_flush :
      IsStore d
      → (r r' : Runtime d) (f f' : File) (source target : Text) (v : Version) (old : List ℕ)
        (now : ℕ)
      → f.path ≡ source
      → Tracks old f
      → d.content r.remote target ≡ some old
      → f.writable ≡ true
      → f.deleted ≡ false
      → flush d r now (retarget f source target v) none ≡ ((r', f'), ok tt)
      → d.content r'.remote target ≡ some f.bytes
  moved_flush store r r' f f' source target v old now at t held w alive done =
      let g = record f { path = target; version = retargeted_version f v } in
      let done' =
        subst (λ x. flush d r now x none ≡ ((r', f'), ok tt)) (retarget_here f source target v at)
          done in
      (flush_stores d store r r' now g f' old
        (retarget-Tracks f old target (retargeted_version f v) t) held w alive done').0

  -- A file that is open, tracks what the service holds, and is writable and not deleted, is renamed
  -- with success: its handle stays open, under the new path, and a flush of it that succeeds leaves
  -- its bytes under the new path, if the service moves the content of what it renames.
  pub rename_follows :
      IsStore d
      → MovesFiles
      → (m m' : Mount d env) (r : Runtime d) (source target : Text) (h : Handle) (f' : File)
        (old : List ℕ) (now : ℕ)
      → rename_remote d env m source target ≡ (m', none)
      → Among h m.registry.handles
      → h.file.path ≡ source
      → Tracks old h.file
      → d.content m.runtime.remote source ≡ some old
      → h.file.writable ≡ true
      → h.file.deleted ≡ false
      → let f = retarget h.file source target (version_at m'.runtime.remote target) in
        flush d m'.runtime now f none ≡ ((r, f'), ok tt)
        → Among (record h { file = f }) m'.registry.handles
          × (f.path ≡ target)
          × (d.content r.remote target ≡ some h.file.bytes)
  rename_follows store law m m' r source target h f' old now done there at t held w alive flushed =
      let (handles, sent) = renamed m m' source target done in
      let v = version_at m'.runtime.remote target in
      let content = law.moves m.runtime.remote m'.runtime.remote source target sent ∙ held in
      (
        subst
            (λ (x : Registry).
              Among (record h { file = retarget h.file source target v }) x.handles)
            (sym handles) (moved-Among m.registry h source target v there),
        ap (λ (x : File). x.path) (retarget_here h.file source target v at),
        moved_flush store m'.runtime r h.file f' source target v old now at t content w alive
            flushed,
      )
