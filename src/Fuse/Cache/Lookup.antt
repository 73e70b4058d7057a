-- ===== src/Fuse/Cache/Lookup.antt =====
-- What a lookup returns after the other operations.
use ti_cli.Common.{
  ℕ, zero, suc, ◌≤◌, true, false, not, ◌&&◌, Option, none, some, List, [], ◌∷◌, ◌≡◌, refl, sym, ap,
  ◌∙◌, ◌⊎◌, inl, inr, arith, ltb, if◌then◌else◌, Bool-cases, Option-cases, length,
}
use ti_cli.Common.Int.{ℤ, pos, ltb_ℤ, ◌+ℤ◌, is_positive}
use ti_cli.Common.Text.{Text, eqb, eqb_iff, eqb_refl}
use ti_cli.Fuse.Version.{Version, matches}
use ti_cli.Fuse.Cache.{
  Entry, Cache, update, back, evict, evict_path, get, shrink, store, put, evict_under,
  invalidate_prefix, under,
}
use ti_cli.Fuse.Cache.Invariant.{Inv, has, is_some, evict_path-Inv}
use ti_cli.Fuse.Cache.Recency.{put-items, evict_path-items}

-- The version and the age of an entry allow it to be served.
abbrev pub Fresh : Cache → ℕ → ℕ → Type 0
Fresh c put_at now = (is_positive c.ttl && ltb_ℤ (pos put_at +ℤ c.ttl) (pos now)) ≡ false

shrink-ttl : (n : ℕ) (c : Cache) → (shrink n c).ttl ≡ c.ttl
unfolding shrink evict_path evict
shrink-ttl zero c = refl
shrink-ttl (suc n) c = elim (Bool-cases (ltb c.max_size c.size)) [
  | inr fits ↦ rw (fits, shrink) refl
  | inl over ↦ elim (Option-cases (back c.order)) [
    | inl e ↦ rw (over, e, shrink) refl
    | inr (p, e) ↦ rw (over, e, shrink) (shrink-ttl n (evict_path c p) ∙ evict_path-ttl c p)
  ]
]
  where
    evict_path-ttl : (c : Cache) (p : Text) → (evict_path c p).ttl ≡ c.ttl
    evict_path-ttl c p = ground arith

put-ttl :
    (c : Cache) (now : ℕ) (p : Text) (bytes : List ℕ) (version : Version)
    → (put c now p bytes version).ttl ≡ c.ttl
unfolding put store
put-ttl c now p bytes version =
    ground
      (arith, shrink-ttl (length (store c now p bytes version).order) (store c now p bytes version))

-- In a cache that satisfies its invariant, bytes within the limits that were put are found again
-- while they are fresh and their version matches the required one.
pub get-put :
    (c : Cache) (put_at now : ℕ) (p : Text) (bytes : List ℕ) (version required : Version)
    → Inv c
    → length bytes ≤ c.max_file
    → length bytes ≤ c.max_size
    → Fresh c put_at now
    → matches version required ≡ true
    → (get (put c put_at p bytes version) now p required).1 ≡ some bytes
unfolding get
get-put c put_at now p bytes version required v small fits fresh m = rw (
  put-items c put_at p bytes version v small fits,
  get,
  m,
  put-ttl c put_at p bytes version,
  fresh,
)

pub evict_path_gone : (c : Cache) (p : Text) → Inv c → (evict_path c p).items p ≡ none
unfolding evict_path evict update
evict_path_gone c p v = elim (Option-cases (c.items p)) [
  | inl e ↦ rw (e, evict_path) e
  | inr (d, e) ↦ rw (e, evict_path, evict, update, v.keyed p d e, eqb_refl p) refl
]

evict_under-items :
    (prefix q : Text) (ps : List Text) (c : Cache)
    → ((evict_under prefix ps c).items q ≡ none) ⊎ ((evict_under prefix ps c).items q ≡ c.items q)
unfolding evict_under
evict_under-items prefix q [] c = inr refl
evict_under-items prefix q (p ∷ ps) c =
    elim (evict_under-items prefix q ps (if under prefix p then evict_path c p else c)) [
      | inl gone ↦ inl gone
      | inr kept ↦ elim (Bool-cases (under prefix p)) [
        | inr e ↦ inr (kept ∙ rw e refl)
        | inl e ↦ elim (evict_path-items c p q) [
          | inl gone ↦ inl (kept ∙ rw e gone)
          | inr same ↦ inr (kept ∙ rw e same)
        ]
      ]
    ]

stays_gone :
    (prefix q : Text) (ps : List Text) (c : Cache)
    → c.items q ≡ none
    → (evict_under prefix ps c).items q ≡ none
stays_gone prefix q ps c h = elim (evict_under-items prefix q ps c) [
  | inl gone ↦ gone
  | inr same ↦ same ∙ h
]

evict_under_gone :
    (prefix q : Text) (ps : List Text) (c : Cache)
    → Inv c
    → has q ps ≡ true
    → under prefix q ≡ true
    → (evict_under prefix ps c).items q ≡ none
unfolding evict_under has
evict_under_gone prefix q [] c v h u = cc
evict_under_gone prefix q (p ∷ ps) c v h u = elim (Bool-cases (eqb p q)) [
  | inl hit ↦
      let same = (eqb_iff p q).0 hit in
      rw (same, u, evict_under) (stays_gone prefix q ps (evict_path c q) (evict_path_gone c q v))
  | inr miss ↦ elim (Bool-cases (under prefix p)) [
    | inl e ↦
        rw (e, evict_under)
          (evict_under_gone prefix q ps (evict_path c p) (evict_path-Inv c p v) (ground arith) u)
    | inr e ↦ rw (e, evict_under) (evict_under_gone prefix q ps c v (ground arith) u)
  ]
]

pub invalidate_prefix-items :
    (c : Cache) (prefix q : Text)
    → ((invalidate_prefix c prefix).items q ≡ none)
      ⊎ ((invalidate_prefix c prefix).items q ≡ c.items q)
unfolding invalidate_prefix
invalidate_prefix-items c prefix q = evict_under-items prefix q c.order c

-- No entry at or below the prefix is left.
pub invalidate_prefix_gone :
    (c : Cache) (prefix q : Text)
    → Inv c
    → under prefix q ≡ true
    → (invalidate_prefix c prefix).items q ≡ none
unfolding invalidate_prefix
invalidate_prefix_gone c prefix q v u = elim (Option-cases (c.items q)) [
  | inl e ↦ stays_gone prefix q c.order c e
  | inr (d, e) ↦ evict_under_gone prefix q c.order c v (sym (v.agree q) ∙ ap is_some e) u
]

evict_path_other :
    (c : Cache) (p q : Text) → Inv c → eqb p q ≡ false → (evict_path c p).items q ≡ c.items q
unfolding evict_path evict update
evict_path_other c p q v ne = elim (Option-cases (c.items p)) [
  | inl e ↦ rw (e, evict_path) refl
  | inr (d, e) ↦ rw (e, evict_path, evict, update, v.keyed p d e, ne) refl
]

evict_under_other :
    (prefix q : Text) (ps : List Text) (c : Cache)
    → Inv c
    → under prefix q ≡ false
    → (evict_under prefix ps c).items q ≡ c.items q
unfolding evict_under
evict_under_other prefix q [] c v u = refl
evict_under_other prefix q (p ∷ ps) c v u = elim (Bool-cases (under prefix p)) [
  | inr e ↦ rw (e, evict_under) (evict_under_other prefix q ps c v u)
  | inl e ↦
      let apart : eqb p q ≡ false = ground (arith, eqb_iff p q) in
      rw (e, evict_under)
        (evict_under_other prefix q ps (evict_path c p) (evict_path-Inv c p v) u
          ∙ evict_path_other c p q v apart)
]

-- The answer of `get` as a function of the entry that the map holds.
abbrev pub serve : ℤ → ℕ → Version → Option Entry → Option (List ℕ)
serve ttl now required none = none
serve ttl now required (some e) =
    if not (matches e.version required)
    then none
    else if is_positive ttl && ltb_ℤ e.expires (pos now)
    then none
    else some e.bytes

pub get-serve :
    (c : Cache) (now : ℕ) (p : Text) (required : Version)
    → (get c now p required).1 ≡ serve c.ttl now required (c.items p)
unfolding get
get-serve c now p required = elim (Option-cases (c.items p)) [
  | inl e ↦ rw (e, get) refl
  | inr (d, e) ↦ rw (e, get) (ground arith)
]

evict_path-ttl : (c : Cache) (p : Text) → (evict_path c p).ttl ≡ c.ttl
unfolding evict_path evict
evict_path-ttl c p = ground arith

evict_under-ttl :
    (prefix : Text) (ps : List Text) (c : Cache) → (evict_under prefix ps c).ttl ≡ c.ttl
unfolding evict_under
evict_under-ttl prefix [] c = refl
evict_under-ttl prefix (p ∷ ps) c =
    evict_under-ttl prefix ps (if under prefix p then evict_path c p else c)
    ∙ elim (Bool-cases (under prefix p)) [ inl e ↦ rw e (evict_path-ttl c p) | inr e ↦ rw e refl ]

-- In a cache that satisfies its invariant, after an invalidation of a tree nothing in it is
-- served, and everything outside is as before.
pub get-invalidate_prefix :
    (c : Cache) (now : ℕ) (prefix q : Text) (required : Version)
    → Inv c
    → (get (invalidate_prefix c prefix) now q required).1
      ≡ (if under prefix q then none else (get c now q required).1)
get-invalidate_prefix c now prefix q required v = elim (Bool-cases (under prefix q)) [
  | inl u ↦ rw (
    u,
    get-serve (invalidate_prefix c prefix) now q required,
    invalidate_prefix_gone c prefix q v u,
  )
  | inr u ↦
      rw (u, get-serve (invalidate_prefix c prefix) now q required, get-serve c now q required)
        (unfold invalidate_prefix in
          (λ i.
            serve (evict_under-ttl prefix c.order c i) now required
              (evict_under_other prefix q c.order c v u i)))
]
