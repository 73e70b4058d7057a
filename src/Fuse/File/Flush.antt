-- ===== src/Fuse/File/Flush.antt =====
-- What a flush leaves in the service.
use ti_cli.Common.{
  ℕ, ◌<◌, true, false, none, some, List, [], ◌∷◌, ◌≡◌, inl, inr, refl, sym, ◌∙◌, ap, arith,
  Bool-cases, length, subst,
}
use ti_cli.Common.Text.{Text}
use ti_cli.Common.Result.{ok, Result-cases}
use ti_cli.Fuse.Version.{Version}
use ti_cli.Fuse.Ranges.Cover.{covered}
use ti_cli.Fuse.DataPlane.{DataPlane, IsStore}
use ti_cli.Fuse.Upload.Patch.{Agrees}
use ti_cli.Fuse.Upload.Stores.{upload_stores}
use ti_cli.Fuse.Runtime.{Runtime, write_with_dirty, upload_through, upload_through_done}
use ti_cli.Fuse.File.{File, new_file, flush, flush_write, sent_ranges, clean_after}
use ti_cli.Fuse.File.Marks.{Tracks, new_file-Tracks, covered-merge_raw}
use ti_cli.Fuse.File.Track.{Call, AllInRange, apply_all, apply_all-Tracks}

covered_whole : (n i : ℕ) → i < n → covered (record { start = 0; end = n } ∷ []) i ≡ true
unfolding covered
covered_whole n i h = ground arith

-- The ranges that a flush sends mark every byte that differs from the old file.
sent-Agrees :
    (d : DataPlane) (base : List ℕ) (f : File)
    → Tracks base f
    → length base ≡ length f.bytes
    → Agrees base f.bytes (sent_ranges d f)
sent-Agrees d base f t same i lt c = elim (Bool-cases f.force_whole) [
  | inl whole ↦ absurd (cc (covered_whole (length f.bytes) i lt, all_sent whole))
  | inr partly ↦ elim t.marks [
    | inl whole ↦ absurd (cc)
    | inr a ↦ a.unmarked i (omega arith) (kept partly)
  ]
]
  where
    all_sent :
        f.force_whole ≡ true → covered (record { start = 0; end = length f.bytes } ∷ []) i ≡ false
    all_sent whole =
        sym (covered-merge_raw (record { start = 0; end = length f.bytes } ∷ []) i)
        ∙ (rw whole at c)

    kept : f.force_whole ≡ false → covered f.ranges i ≡ false
    kept partly = sym (covered-merge_raw f.ranges i) ∙ (rw partly at c)

clean_after-Tracks :
    (d : DataPlane) (f : File) (v : Version)
    → Tracks f.bytes (record (clean_after d f) { version = v })
clean_after-Tracks d f v = record {
  size = refl;
  marks = inr (record { same_size = refl; no_shorter = omega arith; unmarked = λ i lt c. refl });
  unchanged = λ e. refl;
}

module _ (d : DataPlane) (store : IsStore d) where
  -- The state that a flush has to leave.
  abbrev pub Stored : File → Runtime d → File → Type 0
  Stored f r' f' =
      (d.content r'.remote f.path ≡ some f.bytes)
      × (f'.bytes ≡ f.bytes)
      × (f'.dirty ≡ false)
      × Tracks f.bytes f'

  flush_write_stores :
      (r r' : Runtime d) (now : ℕ) (f f' : File) (old : List ℕ)
      → Tracks old f
      → d.content r.remote f.path ≡ some old
      → flush_write d r now f ≡ ((r', f'), ok tt)
      → Stored f r' f'
  unfolding flush_write write_with_dirty
  flush_write_stores r r' now f f' old t there h =
      let out = upload_through d r f.path f.bytes f.version f.base_size (sent_ranges d f) in
      elim (Result-cases out.1) [
        | inr (x, e) ↦ absurd (ground arith)
        | inl (v, e) ↦
            let remote : r'.remote ≡ out.0.1 = ground arith in
            let file : f' ≡ record (clean_after d f) { version = v } = ground arith in
            let sent =
              upload_through_done d r f.path f.bytes f.version v f.base_size (sent_ranges d f) e in
            let kept =
              upload_stores d store r.remote f.path f.bytes f.version f.base_size (sent_ranges d f)
                v out.0.1 old there t.size (λ same. sent-Agrees d old f t (t.size ∙ same)) sent in
            (
              rw remote kept,
              ap (λ (g : File). g.bytes) file,
              ap (λ (g : File). g.dirty) file,
              subst (Tracks f.bytes) (sym file) (clean_after-Tracks d f v),
            )
      ]

  -- A flush that succeeds leaves exactly the handle's bytes in the service, whether it sent all of
  -- them, patched parts, or had nothing to send; afterwards the handle tracks these bytes. The
  -- service must still hold what the handle tracks, and the file must be writable and not deleted.
  pub flush_stores :
      (r r' : Runtime d) (now : ℕ) (f f' : File) (old : List ℕ)
      → Tracks old f
      → d.content r.remote f.path ≡ some old
      → f.writable ≡ true
      → f.deleted ≡ false
      → flush d r now f none ≡ ((r', f'), ok tt)
      → Stored f r' f'
  unfolding flush
  flush_stores r r' now f f' old t there w alive h = elim (Bool-cases f.dirty) [
    | inl changed ↦ flush_write_stores r r' now f f' old t there (ground arith)
    | inr clean ↦
        let runtime : r' ≡ r = ground arith in
        let file : f' ≡ f = ground arith in
        let same = t.unchanged clean in
        (
          rw (runtime, same) there,
          ap (λ (g : File). g.bytes) file,
          ap (λ (g : File). g.dirty) file ∙ clean,
          subst (Tracks f.bytes) (sym file) (subst (λ b. Tracks b f) (sym same) t),
        )
  ]

  -- Open a file that the service has, change it by any calls with offsets and lengths below 2^63 so
  -- that it is writable and not deleted, and flush: if the flush succeeds, the service holds exactly
  -- the bytes that the calls made. The service must still have the old bytes under the path at that
  -- time.
  pub session_stores :
      (r r' : Runtime d) (now : ℕ) (path : Text) (old : List ℕ) (version : Version) (cs : List Call)
      (f f' : File)
      → AllInRange cs
      → apply_all (new_file path old true false version) cs ≡ f
      → d.content r.remote f.path ≡ some old
      → f.writable ≡ true
      → f.deleted ≡ false
      → flush d r now f none ≡ ((r', f'), ok tt)
      → d.content r'.remote f.path ≡ some f.bytes
  session_stores r r' now path old version cs f f' h edits there w alive done =
      let t = apply_all-Tracks old _ cs h (new_file-Tracks path old true version) in
      (flush_stores r r' now f f' old (subst (Tracks old) edits t) there w alive done).0
