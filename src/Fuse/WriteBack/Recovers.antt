-- ===== src/Fuse/WriteBack/Recovers.antt =====
-- What a recovery does with the writes on the disk.
use ti_cli.Common.{
  ℕ, ◌+◌, true, false, Option, none, some, List, [], ◌∷◌, length, ◌≡◌, ◌≢◌, inl, inr, refl, ap, ◌∙◌,
  arith, Option-cases,
}
use ti_cli.Common.Text.{Text, eqb_iff, eqb_refl}
use ti_cli.Common.Result.{ok, Result-cases}
use ti_cli.Fuse.Version.{Version}
use ti_cli.Fuse.Ranges.{DirtyRange}
use ti_cli.Fuse.DataPlane.{DataPlane}
use ti_cli.Fuse.Upload.{upload}
use ti_cli.Fuse.WriteBack.{
  Identity, Meta, Disk, Store, Done, drop_meta, new_meta, put, remove, recover_one, recover_all,
  recover, all_parse, same_identity, set_meta, attempt, with_data,
}
use ti_cli.Fuse.WriteBack.Keeps.{remove_ok, put_ok}

module _ (key : Text → ℕ) (d : DataPlane) where
  open d use {State}

  -- Every metadata file that parses stands under the name of its path.
  abbrev pub Keyed : List (ℕ × Option Meta) → Type 0
  Keyed [] = Unit {0}
  Keyed ((n, none) ∷ ms) = Keyed ms
  Keyed ((n, some m) ∷ ms) = (n ≡ key m.path) × Keyed ms

  drop-first :
      (n : ℕ) (o : Option Meta) (ms : List (ℕ × Option Meta)) (j : ℕ)
      → n ≡ j
      → drop_meta j ((n, o) ∷ ms) ≡ ms
  unfolding drop_meta
  drop-first n o ms j h = ground arith

  same_identity_refl : (a : Identity) → same_identity a a ≡ true
  unfolding same_identity
  same_identity_refl a =
      rw
        (
          eqb_refl a.profile,
          eqb_refl a.file_system_name,
          eqb_refl a.tenant_id,
          eqb_refl a.endpoint,
          eqb_refl a.remote_path,
          eqb_refl a.mount_path,
          eqb_refl a.api_key_fingerprint,
        )
        refl

  remove_works :
      (path : Text) (k : Disk) → ((n : ℕ) → k.fails n ≡ false) → (remove key path k).1 ≡ ok tt
  unfolding remove attempt with_data
  remove_works path k fine = ground (arith, fine k.ops, fine (k.ops + 1))

  recover_one_drops :
      (s s' : Store) (remote remote' : State) (m : Meta)
      → recover_one key d s remote (some m) ≡ ((s', remote'), ok tt)
      → s'.disk.metas ≡ drop_meta (key m.path) s.disk.metas
  unfolding recover_one
  recover_one_drops s s' remote remote' m h =
      let cleared = remove key m.path s.disk in
      elim (Option-cases (s.disk.bytes (key m.path))) [
        | inl e ↦ absurd (ground arith)
        | inr (bytes, e) ↦
            elim (Result-cases (upload d remote m.path bytes m.base m.base_size m.ranges).1) [
              | inr (x, f) ↦ absurd (ground arith)
              | inl (v, f) ↦
                  let disk : s'.disk ≡ cleared.0 = ground arith in
                  let gone : cleared.1 ≡ ok tt = ground arith in
                  let (metas, _) =
                    remove_ok key m.path s.disk cleared.0 (λ i. (cleared.0, gone i)) in
                  ap (λ (x : Disk). x.metas) disk ∙ metas
            ]
      ]

  recover_all_clears :
      (s s' : Store) (remote remote' : State) (ms : List (ℕ × Option Meta))
      → s.disk.metas ≡ ms
      → Keyed ms
      → recover_all key d s remote ms ≡ ((s', remote'), ok tt)
      → s'.disk.metas ≡ []
  unfolding recover_all
  recover_all_clears s s' remote remote' [] same k h =
      let kept : s' ≡ s = ground arith in ap (λ (x : Store). x.disk.metas) kept ∙ same
  recover_all_clears s s' remote remote' ((n, none) ∷ ms) same k h =
      absurd (unfold recover_one in ground arith)
  recover_all_clears s s' remote remote' ((n, some m) ∷ ms) same k h =
      let one = recover_one key d s remote (some m) in
      elim (Result-cases one.1) [
        | inr (x, e) ↦ absurd (ground arith)
        | inl (_, e) ↦
            let dropped = recover_one_drops s one.0.0 remote one.0.1 m (λ i. (one.0, e i)) in
            let rest : one.0.0.disk.metas ≡ ms =
              dropped
              ∙ ap (drop_meta (key m.path)) same
              ∙ drop-first n (some m) ms (key m.path) k.0 in
            recover_all_clears one.0.0 s' one.0.1 remote' ms rest k.1 (ground arith)
      ]

  -- A recovery that succeeds, over metadata files that stand under the names of their paths,
  -- leaves nothing pending and reports how many writes there were.
  pub recover_clears :
      (s s' : Store) (remote remote' : State) (n : ℕ)
      → Keyed s.disk.metas
      → recover key d s remote ≡ ((s', remote'), ok n)
      → (s'.disk.metas ≡ []) × (n ≡ length s.disk.metas)
  unfolding recover
  recover_clears s s' remote remote' n k h =
      let all = recover_all key d s remote s.disk.metas in
      elim (Result-cases all.1) [
        | inr (x, e) ↦ absurd (ground arith)
        | inl (_, e) ↦
            let left =
              recover_all_clears s all.0.0 remote all.0.1 s.disk.metas refl k (λ i. (all.0, e i)) in
            let same : s' ≡ all.0.0 = ground arith in
            (ap (λ (x : Store). x.disk.metas) same ∙ left, ground arith)
      ]

  recover_one_pending :
      (s : Store) (remote : State) (path : Text) (bytes : List ℕ) (base v : Version) (base_size : ℕ)
      (ranges : List DirtyRange)
      → s.disk.bytes (key path) ≡ some bytes
      → (upload d remote path bytes base base_size ranges).1 ≡ ok v
      → (remove key path s.disk).1 ≡ ok tt
      → recover_one key d s remote (some (new_meta key s.identity path bytes base base_size ranges))
        ≡ (
          (
            record s { disk = (remove key path s.disk).0 },
            (upload d remote path bytes base base_size ranges).0,
          ),
          ok tt,
        )
  unfolding recover_one new_meta
  recover_one_pending s remote path bytes base v base_size ranges there up worked =
      rw (recover_one, there, same_identity_refl s.identity, up) (ground (arith, worked))

  -- A write that the disk took, where none was pending, is uploaded by a recovery with the bytes,
  -- the base and the ranges that it was asked for, and nothing is pending afterwards, if that
  -- upload succeeds, the path is not empty, and no operation on the disk fails.
  pub recover-put :
      (s : Store) (k : Disk) (remote : State) (path : Text) (bytes : List ℕ) (base : Version)
      (base_size : ℕ) (ranges : List DirtyRange) (v : Version)
      → s.disk.metas ≡ []
      → path ≢ []
      → put key s.identity path bytes base base_size ranges s.disk ≡ (k, ok tt)
      → (upload d remote path bytes base base_size ranges).1 ≡ ok v
      → ((n : ℕ) → k.fails n ≡ false)
      → let out = recover key d (record s { disk = k }) remote in
        (out.1 ≡ ok 1)
        × (out.0.0.disk.metas ≡ [])
        × (out.0.1 ≡ (upload d remote path bytes base base_size ranges).0)
  unfolding recover
  recover-put s k remote path bytes base base_size ranges v clear named h up fine =
      let m = new_meta key s.identity path bytes base base_size ranges in
      let (stored, there) = put_ok key s.identity path bytes base base_size ranges s.disk k h in
      let single : k.metas ≡ (key path, some m) ∷ [] =
        stored ∙ ap (set_meta (key path) m) clear ∙ (unfold set_meta in refl) in
      let cleared = remove key path k in
      let worked = remove_works path k fine in
      let (metas, _) = remove_ok key path k cleared.0 (λ i. (cleared.0, worked i)) in
      let dropped =
        metas
        ∙ ap (drop_meta (key path)) single
        ∙ drop-first (key path) (some m) [] (key path) refl in
      let out = upload d remote path bytes base base_size ranges in
      let start : Store = record s { disk = k } in
      let one =
        recover_one_pending start remote path bytes base v base_size ranges there up worked in
      let all : recover_all key d start remote k.metas
          ≡ ((record s { disk = cleared.0 }, out.0), ok tt) =
        ap (recover_all key d start remote) single
        ∙ (unfold recover_all in
            rw (recover_all, one) (ap (λ (o : (Store × State) × Done). (o.0, ok tt)) one)) in
      let parse : all_parse key d k.metas ≡ true =
        ap (all_parse key d) single
        ∙ (unfold all_parse in unfold new_meta in ground (arith, eqb_iff path [])) in
      let count : length k.metas ≡ 1 = ap length single in
      rw (parse, all, count)
        (
          refl,
          ap (λ (o : (Store × State) × Done). o.0.0.disk.metas) all ∙ dropped,
          ap (λ (o : (Store × State) × Done). o.0.1) all,
        )
