-- ===== src/Fuse/Handles/Newest.antt =====
-- Which handle's bytes a later open of the path sees.
use ti_cli.Common.{
  ℕ, ◌≤◌, Bool, true, false, ◌&&◌, Option, none, some, List, [], ◌∷◌, ◌≡◌, ◌⊎◌, refl, ap, ◌∙◌,
  arith, inl, inr, Bool-cases, All, Option-cases,
}
use ti_cli.Common.Text.{Text}
use ti_cli.Fuse.Version.{Version}
use ti_cli.Fuse.Handles.{
  Handle, Registry, is_dirty_for, is_newer, newest_dirty, dirty_open_handle_data,
}

abbrev pub Among : Handle → List Handle → Type 0
Among b [] = ⊥
Among b (h ∷ hs) = (b ≡ h) ⊎ Among b hs

-- Dirty handles of the path are no newer than this one.
abbrev pub NoNewer : Text → ℕ → List Handle → Type 0
NoNewer path seq = All (λ h. is_dirty_for path h.file ≡ true → h.seq ≤ seq)

-- Of what was found before and the handles that were walked over, this one is the newest.
record Found (path : Text) (best : Option Handle) (hs : List Handle) (b : Handle) : Type 0 where
  from : (best ≡ some b) ⊎ (Among b hs × (is_dirty_for path b.file ≡ true))
  newest : NoNewer path b.seq hs
  after : (o : Handle) → best ≡ some o → o.seq ≤ b.seq

abbrev is_taken : Text → Option Handle → Handle → Bool
is_taken path best h = is_dirty_for path h.file && is_newer best h

newer-le :
    (best : Option Handle) (h o : Handle) → is_newer best h ≡ true → best ≡ some o → o.seq ≤ h.seq
unfolding is_newer
newer-le none h o n e = absurd (cc)
newer-le (some b) h o n e = ground arith

older-le :
    (path : Text) (best : Option Handle) (h : Handle) (n : ℕ)
    → is_taken path best h ≡ false
    → ((o : Handle) → best ≡ some o → o.seq ≤ n)
    → is_dirty_for path h.file ≡ true
    → h.seq ≤ n
unfolding is_newer
older-le path none h n t le d = absurd (ground arith)
older-le path (some b) h n t le d = ground (arith, le b refl)

newest_dirty-Found :
    (path : Text) (best : Option Handle) (hs : List Handle) (b : Handle)
    → newest_dirty path best hs ≡ some b
    → Found path best hs b
unfolding newest_dirty is_newer
newest_dirty-Found path best [] b e = record {
  from = inl e;
  newest = tt;
  after = λ o f. ground arith;
}
newest_dirty-Found path best (h ∷ hs) b e = elim (Bool-cases (is_taken path best h)) [
  | inl t ↦
      let rest = newest_dirty-Found path (some h) hs b (rw t at e) in
      record {
        from = elim rest.from [
          | inl same ↦
              let it : b ≡ h = ground arith in
              inr (inl it, ap (λ (x : Handle). is_dirty_for path x.file) it ∙ dirty_of t)
          | inr (deep, d) ↦ inr (inr deep, d)
        ];
        newest = (λ d. rest.after h refl, rest.newest);
        after =
            λ o f. (let le = newer-le best h o (newer_of t) f in omega (arith, rest.after h refl));
      }
  | inr t ↦
      let rest = newest_dirty-Found path best hs b (rw t at e) in
      record {
        from = elim rest.from [ inl same ↦ inl same | inr (deep, d) ↦ inr (inr deep, d) ];
        newest = (older-le path best h b.seq t rest.after, rest.newest);
        after = rest.after;
      }
]
  where
    dirty_of : is_taken path best h ≡ true → is_dirty_for path h.file ≡ true
    dirty_of t = ground arith

    newer_of : is_taken path best h ≡ true → is_newer best h ≡ true
    newer_of t = ground arith

newest_dirty-some :
    (path : Text) (b : Handle) (hs : List Handle) → newest_dirty path (some b) hs ≡ none → ⊥
unfolding newest_dirty is_newer
newest_dirty-some path b [] e = cc
newest_dirty-some path b (h ∷ hs) e = elim (Bool-cases (is_taken path (some b) h)) [
  | inl t ↦ newest_dirty-some path h hs (rw t at e)
  | inr t ↦ newest_dirty-some path b hs (rw t at e)
]

-- No handle is dirty at a path where nothing is found.
pub newest_dirty-none :
    (path : Text) (hs : List Handle)
    → newest_dirty path none hs ≡ none
    → All (λ h. is_dirty_for path h.file ≡ false) hs
unfolding newest_dirty is_newer
newest_dirty-none path [] e = tt
newest_dirty-none path (h ∷ hs) e = elim (Bool-cases (is_taken path none h)) [
  | inl t ↦ absurd (newest_dirty-some path h hs (rw t at e))
  | inr t ↦ (clean t, newest_dirty-none path hs (rw t at e))
]
  where
    clean : is_taken path none h ≡ false → is_dirty_for path h.file ≡ false
    clean t = ground arith

-- The bytes that another open of a path sees are those of a handle that is open, not deleted, dirty and
-- at the path, and no such handle has a later number.
pub dirty_open_handle_data_newest :
    (r : Registry) (path : Text) (bytes : List ℕ) (version : Version)
    → dirty_open_handle_data r path ≡ some (bytes, version)
    → (b : Handle) × Among b r.handles
      × (is_dirty_for path b.file ≡ true)
      × NoNewer path b.seq r.handles
      × (b.file.bytes ≡ bytes)
      × (b.file.version ≡ version)
unfolding dirty_open_handle_data
dirty_open_handle_data_newest r path bytes version e =
    elim (Option-cases (newest_dirty path none r.handles)) [
      | inl f ↦ absurd (ground arith)
      | inr (b, f) ↦
          let found = newest_dirty-Found path none r.handles b f in
          elim found.from [
            | inl early ↦ absurd (cc)
            | inr (deep, d) ↦ (b, deep, d, found.newest, ground arith, ground arith)
          ]
    ]
