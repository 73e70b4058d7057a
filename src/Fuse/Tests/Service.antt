-- ===== src/Fuse/Tests/Service.antt =====
-- A service in memory with the behaviour that the mount relies on, for the runs in the tests.
use ti_cli.Common.{
  ℕ, zero, suc, ◌+◌, ◌/◌, ◌%◌, ◌<◌, ◌≡◌, sym, ap, Option, none, some, List, [], ◌∷◌, if◌then◌else◌,
  length, get_elem?, arith, Option-cases, inl, inr,
}
use ti_cli.Common.Int.{pos}
use ti_cli.Common.Text.{Text, eqb, eqb_refl}
use ti_cli.Common.Result.{Result, ok, err}
use ti_cli.Fuse.Version.{Version}
use ti_cli.Fuse.Errors.{FsError, not_exist, other}
use ti_cli.Fuse.Ranges.Parts.{member}
use ti_cli.Fuse.DataPlane.{DataPlane, PartReader, IsStore, part_len, Patched}

-- The files and the revision that the last change has.
pub record Memory : Type 0 where
  pub files : Text → Option (List ℕ)
  pub revision : ℕ

-- The first `n` values of a sequence that has them all.
unfoldable pub collect : (ℕ → Option ℕ) → ℕ → Option (List ℕ)
collect f zero = some []
collect f (suc n) = elim (f 0) [
  | none ↦ none
  | some a ↦ elim (collect (λ i. f (suc i)) n) [ none ↦ none | some rest ↦ some (a ∷ rest) ]
]

collect_lem :
    (f : ℕ → Option ℕ) (n : ℕ) (new : List ℕ)
    → collect f n ≡ some new
    → (length new ≡ n) × ((i : ℕ) → i < n → get_elem? new i ≡ f i)
unfolding collect
collect_lem f zero new h =
    let same : new ≡ [] = ground arith in (ap length same, λ i lt. absurd (omega arith))
collect_lem f (suc n) new h = elim (Option-cases (f 0)) [
  | inl e ↦ absurd (ground arith)
  | inr (a, e) ↦ elim (Option-cases (collect (λ i. f (suc i)) n)) [
    | inl g ↦ absurd (ground arith)
    | inr (rest, g) ↦
        let same : new ≡ a ∷ rest = ground arith in
        let (long, at) = collect_lem (λ i. f (suc i)) n rest g in
        rw same (ap suc long, λ i lt. each a rest e at i lt)
  ]
]
  where
    each :
        (a : ℕ) (rest : List ℕ)
        → f 0 ≡ some a
        → ((i : ℕ) → i < n → get_elem? rest i ≡ f (suc i))
        → (i : ℕ) → i < suc n
        → get_elem? (a ∷ rest) i ≡ f i
    each a rest e at zero lt = sym e
    each a rest e at (suc i) lt = at i (omega arith)

unfoldable pub stored : Memory → Text → List ℕ → Memory
stored m p bytes = record {
  files = λ q. if eqb p q then some bytes else m.files q;
  revision = m.revision + 1;
}

unfoldable pub find : Memory → Text → Result FsError Version
find m p = elim (m.files p) [
  | none ↦ err not_exist
  | some bytes ↦ ok (record { revision = pos m.revision; resource_id = [] })
]

-- The byte of the patched file.
unfoldable pub patched_byte : List ℕ → ℕ → List ℕ → PartReader → ℕ → ℕ → Option ℕ
unfolding member
patched_byte old n parts read part_size i =
    if member (i / part_size + 1) parts
    then get_elem? (read (i / part_size + 1) (part_len n part_size (i / part_size + 1)))
        (i % part_size)
    else get_elem? old i

unfoldable pub patched : Memory → Text → ℕ → List ℕ → PartReader → ℕ → Memory × Option FsError
unfolding collect patched_byte stored
patched m p n parts read part_size = elim (m.files p) [
  | none ↦ (m, some not_exist)
  | some old ↦ elim (collect (patched_byte old n parts read part_size) n) [
    | none ↦ (m, some other)
    | some new ↦ (stored m p new, none)
  ]
]

abbrev pub memory : DataPlane
memory = record {
  State = Memory;
  stat_metadata = find;
  stat = find;
  read_file = λ m p. elim (m.files p) [ none ↦ err not_exist | some bytes ↦ ok bytes ];
  write_file = λ m p bytes. (stored m p bytes, ok (pos (m.revision + 1)));
  patch_file = λ m p n parts read part_size revision. patched m p n parts read part_size;
  content = λ m p. m.files p;
}

stored_there : (m : Memory) (p : Text) (bytes : List ℕ) → (stored m p bytes).files p ≡ some bytes
unfolding stored
stored_there m p bytes = ground (arith, eqb_refl p)

patched_lem :
    (m m' : Memory) (p : Text) (n : ℕ) (parts : List ℕ) (read : PartReader) (part_size : ℕ)
    (old : List ℕ)
    → patched m p n parts read part_size ≡ (m', none)
    → m.files p ≡ some old
    → (new : List ℕ) × (m'.files p ≡ some new) × Patched old new n parts read part_size
unfolding patched patched_byte
patched_lem m m' p n parts read part_size old h there =
    elim (Option-cases (collect (patched_byte old n parts read part_size) n)) [
      | inl e ↦ absurd (ground arith)
      | inr (new, e) ↦
          let same : m' ≡ stored m p new = ground arith in
          (
            new,
            rw same (stored_there m p new),
            collect_lem (patched_byte old n parts read part_size) n new e,
          )
    ]

patched_fails :
    (m m' : Memory) (p : Text) (n : ℕ) (parts : List ℕ) (read : PartReader) (part_size : ℕ)
    (e : FsError)
    → patched m p n parts read part_size ≡ (m', some e)
    → m'.files p ≡ m.files p
unfolding patched
patched_fails m m' p n parts read part_size e h =
    let same : m' ≡ m = ground arith in ap (λ (k : Memory). k.files p) same

pub memory-IsStore : IsStore memory
memory-IsStore = record {
  write_stores = λ m p bytes m' revision h. rw (ap (λ out. out.0) (sym h)) (stored_there m p bytes);
  patch_stores = λ m p n parts read part_size revision m' old h there size pos.
      patched_lem m m' p n parts read part_size old h there;
  patch_fails =
      λ m p n parts read part_size revision m' e h. patched_fails m m' p n parts read part_size e h;
}
