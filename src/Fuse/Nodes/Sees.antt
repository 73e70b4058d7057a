-- ===== src/Fuse/Nodes/Sees.antt =====
-- What an open of a remote path sees of other handles that are open.
use ti_cli.Common.{
  ℕ, Bool, true, false, ◌&&◌, none, some, List, [], ◌∷◌, ◌≡◌, refl, sym, ap, ◌∙◌, arith, inl, inr,
  Bool-cases, Option-cases, All, ◌↔◌, ◌≤◌,
}
use ti_cli.Common.Text.{Text, eqb_iff}
use ti_cli.Common.Result.{ok, Result-cases}
use ti_cli.Fuse.Version.{Version}
use ti_cli.Fuse.DataPlane.{DataPlane}
use ti_cli.Fuse.Upload.{stat_version}
use ti_cli.Fuse.File.{File, new_file}
use ti_cli.Fuse.Handles.{
  Handle, Registry, register_open_handle, is_dirty_for, newest_dirty, dirty_open_handle_data,
}
use ti_cli.Fuse.Handles.Newest.{Among, NoNewer, newest_dirty-none, dirty_open_handle_data_newest}
use ti_cli.Fuse.Nodes.{Surroundings, Mount, is_dir_info}
use ti_cli.Fuse.Nodes.Opening.{opened, open_remote}

-- The handle is at the path, open and dirty, and its file was not removed.
abbrev pub IsEdited : Text → File → Type 0
IsEdited path f = (f.path ≡ path) × (f.closed ≡ false) × (f.deleted ≡ false) × (f.dirty ≡ true)

abbrev pub NoneNewer : Text → ℕ → List Handle → Type 0
NoneNewer path seq = All (λ h. IsEdited path h.file → h.seq ≤ seq)

is_dirty_for_iff : (path : Text) (f : File) → (is_dirty_for path f ≡ true) ↔ IsEdited path f
unfolding is_dirty_for
is_dirty_for_iff path f =
    let same = eqb_iff f.path path in
    (
      λ h. (same.0 (ground arith), ground arith, ground arith, ground arith),
      λ (at, open_still, there, dirty). let here = same.1 at in ground arith,
    )

NoNewer-NoneNewer :
    (path : Text) (seq : ℕ) (hs : List Handle) → NoNewer path seq hs → NoneNewer path seq hs
NoNewer-NoneNewer path seq [] h = tt
NoNewer-NoneNewer path seq (x ∷ hs) (h, hs') =
    (λ e. h ((is_dirty_for_iff path x.file).1 e), NoNewer-NoneNewer path seq hs hs')

none_clean :
    (path : Text) (x : Handle) (hs : List Handle)
    → All (λ (h : Handle). is_dirty_for path h.file ≡ false) hs
    → Among x hs
    → is_dirty_for path x.file ≡ false
none_clean path x [] h m = absurd m
none_clean path x (y ∷ hs) h (inl e) = ap (λ (z : Handle). is_dirty_for path z.file) e ∙ h.0
none_clean path x (y ∷ hs) h (inr m) = none_clean path x hs h.1 m

-- Where a dirty handle is open, something is found.
found_dirty :
    (r : Registry) (path : Text) (x : Handle)
    → Among x r.handles
    → is_dirty_for path x.file ≡ true
    → (bytes : List ℕ) × (v : Version) × (dirty_open_handle_data r path ≡ some (bytes, v))
unfolding dirty_open_handle_data
found_dirty r path x m e = elim (Option-cases (newest_dirty path none r.handles)) [
  | inl f ↦ absurd (cc (none_clean path x r.handles (newest_dirty-none path r.handles f) m))
  | inr (b, f) ↦ (b.file.bytes, b.file.version, rw (f, dirty_open_handle_data) refl)
]

module _ (d : DataPlane) (env : Surroundings d) where
  opened_lem :
      (m : Mount d env) (pid : ℕ) (p : Text) (bytes : List ℕ) (writable truncating : Bool)
      (v : Version)
      → (h : Handle) × ((opened d env m pid p bytes writable truncating v).0.registry.handles
          ≡ h ∷ m.registry.handles)
        × (h.file.path ≡ p)
        × (h.file.bytes ≡ bytes)
        × (h.file.version ≡ v)
  unfolding opened register_open_handle new_file
  opened_lem m pid p bytes writable truncating v = (_, refl, refl, refl, refl)

  -- The handle that an open adds to those of the mount sees these bytes and this version.
  abbrev pub Adds : Mount d env → Mount d env → Text → List ℕ → Version → Type 0
  Adds m m' p bytes v =
      (h : Handle) × (m'.registry.handles ≡ h ∷ m.registry.handles)
      × (h.file.path ≡ p)
      × (h.file.bytes ≡ bytes)
      × (h.file.version ≡ v)

  open_remote_found :
      (m m' : Mount d env) (now pid i : ℕ) (p : Text) (writable truncating : Bool) (bytes : List ℕ)
      (v : Version)
      → open_remote d env m now pid p writable truncating ≡ (m', ok (some i))
      → (writable && truncating) ≡ false
      → dirty_open_handle_data m.registry p ≡ some (bytes, v)
      → Adds m m' p bytes v
  unfolding open_remote
  open_remote_found m m' now pid i p writable truncating bytes v h t e =
      elim (Result-cases (stat_version d m.runtime.remote p)) [
        | inr (x, s) ↦ absurd (ground arith)
        | inl (w, s) ↦ elim (Bool-cases (is_dir_info d env m p)) [
          | inl f ↦ absurd (ground arith)
          | inr f ↦
              let same : m' ≡ (opened d env m pid p bytes writable truncating v).0 = ground arith in
              rw same (opened_lem m pid p bytes writable truncating v)
        ]
      ]

  -- Where a handle at a path of the remote file system is open, dirty and not deleted, another open of
  -- the path that succeeds and does not truncate sees the bytes and the version of such a handle, and
  -- no such handle has a later number.
  pub open_sees_newest :
      (m m' : Mount d env) (now pid i : ℕ) (p : Text) (writable truncating : Bool) (x : Handle)
      → open_remote d env m now pid p writable truncating ≡ (m', ok (some i))
      → (writable && truncating) ≡ false
      → Among x m.registry.handles
      → IsEdited p x.file
      → (b : Handle) × Among b m.registry.handles
        × IsEdited p b.file
        × NoneNewer p b.seq m.registry.handles
        × Adds m m' p b.file.bytes b.file.version
  open_sees_newest m m' now pid i p writable truncating x h t a e =
      let (bytes, v, found) = found_dirty m.registry p x a ((is_dirty_for_iff p x.file).1 e) in
      let (b, there, dirty, newest, same, at) =
        dirty_open_handle_data_newest m.registry p bytes v found in
      let (n, adds, path, has, version) =
        open_remote_found m m' now pid i p writable truncating bytes v h t found in
      (
        b,
        there,
        (is_dirty_for_iff p b.file).0 dirty,
        NoNewer-NoneNewer p b.seq m.registry.handles newest,
        (n, adds, path, has ∙ sym same, version ∙ sym at),
      )
