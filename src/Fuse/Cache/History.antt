-- ===== src/Fuse/Cache/History.antt =====
-- The cache against its history: it serves only what was put last, of what a file may have, and not
-- dropped since.
use ti_cli.Common.{
  ℕ, ◌≤◌, true, Option, none, some, List, [], ◌∷◌, ◌≡◌, refl, sym, subst, ap, ◌∙◌, ◌⊎◌, inl, inr,
  arith, ltb, if◌then◌else◌, Bool-cases, length,
}
use ti_cli.Common.Int.{ℤ}
use ti_cli.Common.Text.{Text, eqb, eqb_iff}
use ti_cli.Fuse.Version.{Version, matches}
use ti_cli.Fuse.Cache.{
  Entry, Cache, new_cache, update, get, store, put, invalidate, invalidate_prefix, under,
  evict_path, evict,
}
use ti_cli.Fuse.Cache.Invariant.{
  Inv, evict_path-Inv, get-Inv, put-Inv, invalidate_prefix-Inv, new_cache-Inv, new_entry,
  store-inserted, store-Inv,
}
use ti_cli.Fuse.Cache.Recency.{put_size, shrink-items, evict_path-items}
use ti_cli.Fuse.Cache.Limits.{invalidate_prefix_size, put-max_file, invalidate_prefix-max_file}
use ti_cli.Fuse.Cache.Lookup.{
  invalidate_prefix_gone, invalidate_prefix-items, evict_path_gone, get-serve, serve,
}

pub data Op : Type 0 where
  puts : ℕ → Text → List ℕ → Version → Op
  gets : ℕ → Text → Version → Op
  invalidates invalidates_tree : Text → Op

unfoldable pub step : Cache → Op → Cache
step c (puts now p bytes version) = put c now p bytes version
step c (gets now p required) = (get c now p required).0
step c (invalidates p) = invalidate c p
step c (invalidates_tree prefix) = invalidate_prefix c prefix

unfoldable pub run : Cache → List Op → Cache
run c [] = c
run c (op ∷ ops) = run (step c op) ops

-- The abstract view: what was put last under each path, if nothing has dropped it since. A put
-- beyond the limit of a file is ignored.
abbrev pub Log : Type 0
Log = Text → Option (List ℕ × Version)

unfoldable pub log_step : ℕ → Log → Op → Log
log_step max_file log (puts now p bytes version) q =
    if ltb max_file (length bytes) then log q else if eqb p q then some (bytes, version) else log q
log_step max_file log (gets now p required) q = log q
log_step max_file log (invalidates p) q = if eqb p q then none else log q
log_step max_file log (invalidates_tree prefix) q = if under prefix q then none else log q

unfoldable pub log_run : ℕ → Log → List Op → Log
log_run max_file log [] = log
log_run max_file log (op ∷ ops) = log_run max_file (log_step max_file log op) ops

-- Every entry of the cache is what the log has for its path.
abbrev pub Refines : Log → Cache → Type 0
Refines log c = (q : Text) (e : Entry) → c.items q ≡ some e → log q ≡ some (e.bytes, e.version)

step-Inv : (c : Cache) (op : Op) → Inv c → Inv (step c op)
unfolding step invalidate
step-Inv c (puts now p bytes version) v = put-Inv c now p bytes version v
step-Inv c (gets now p required) v = get-Inv c now p required v
step-Inv c (invalidates p) v = evict_path-Inv c p v
step-Inv c (invalidates_tree prefix) v = invalidate_prefix-Inv c prefix v

pub run-Inv : (c : Cache) (ops : List Op) → Inv c → Inv (run c ops)
unfolding run
run-Inv c [] v = v
run-Inv c (op ∷ ops) v = run-Inv (step c op) ops (step-Inv c op v)

step_size :
    (c : Cache) (op : Op) → Inv c → c.size ≤ c.max_size → (step c op).size ≤ (step c op).max_size
unfolding step invalidate evict_path evict get
step_size c (puts now p bytes version) v h = put_size c now p bytes version v h
step_size c (gets now p required) v h = ground arith
step_size c (invalidates p) v h = ground arith
step_size c (invalidates_tree prefix) v h = invalidate_prefix_size c prefix h

-- A cache that satisfies its invariant and holds no more bytes than its limit holds no more
-- through any history.
pub run_size :
    (c : Cache) (ops : List Op)
    → Inv c
    → c.size ≤ c.max_size
    → (run c ops).size ≤ (run c ops).max_size
unfolding run
run_size c [] v h = h
run_size c (op ∷ ops) v h = run_size (step c op) ops (step-Inv c op v) (step_size c op v h)

-- Entries that a step leaves alone or drops.
none-ne-some {ℓ κ} : {A : Type ℓ} {B : Type κ} {o : Option A} {a : A} → o ≡ none → o ≡ some a → B
none-ne-some p q = absurd (cc)

get-items :
    (c : Cache) (now : ℕ) (p : Text) (required : Version) (q : Text)
    → ((get c now p required).0.items q ≡ none) ⊎ ((get c now p required).0.items q ≡ c.items q)
unfolding get evict update
get-items c now p required q = ground arith

put-Refines :
    (c : Cache) (log : Log) (now : ℕ) (p : Text) (bytes : List ℕ) (version : Version)
    → Inv c
    → Refines log c
    → Refines (log_step c.max_file log (puts now p bytes version)) (put c now p bytes version)
unfolding put log_step
put-Refines c log now p bytes version v r q e h =
    elim (Bool-cases (ltb c.max_file (length bytes))) [
      | inl large ↦ rw large (r q e (rw large at h))
      | inr small ↦
          let d = new_entry c now p bytes version in
          let stored = store-inserted c now p bytes version v in
          elim (shrink-items (length (store c now p bytes version).order)
            (store c now p bytes version) q (store-Inv c now p bytes version v)) [
              | inl gone ↦ none-ne-some gone (rw small at h)
              | inr kept ↦
                  let found : update c.items p (some d) q ≡ some e =
                    ap (λ (k : Cache). k.items q) (sym stored) ∙ sym kept ∙ rw small at h in
                  rw small (unfold update in ground (arith, r q e, found))
            ]
    ]

step-Refines :
    (c : Cache) (log : Log) (op : Op)
    → Inv c
    → Refines log c
    → Refines (log_step c.max_file log op) (step c op)
unfolding step log_step invalidate
step-Refines c log (puts now p bytes version) v r q e h =
    put-Refines c log now p bytes version v r q e h
step-Refines c log (gets now p required) v r q e h = elim (get-items c now p required q) [
  | inl gone ↦ none-ne-some gone h
  | inr same ↦ r q e (sym same ∙ h)
]
step-Refines c log (invalidates p) v r q e h = elim (Bool-cases (eqb p q)) [
  | inl hit ↦
      none-ne-some
        (subst (λ z. (evict_path c p).items z ≡ none) ((eqb_iff p q).0 hit) (evict_path_gone c p v))
        h
  | inr miss ↦ elim (evict_path-items c p q) [
    | inl gone ↦ none-ne-some gone h
    | inr same ↦ rw miss (r q e (sym same ∙ h))
  ]
]
step-Refines c log (invalidates_tree prefix) v r q e h = elim (Bool-cases (under prefix q)) [
  | inl u ↦ none-ne-some (invalidate_prefix_gone c prefix q v u) h
  | inr u ↦ elim (invalidate_prefix-items c prefix q) [
    | inl gone ↦ none-ne-some gone h
    | inr same ↦ rw u (r q e (sym same ∙ h))
  ]
]

step-max_file : (c : Cache) (op : Op) → (step c op).max_file ≡ c.max_file
unfolding step invalidate get evict evict_path
step-max_file c (puts now p bytes version) = put-max_file c now p bytes version
step-max_file c (gets now p required) = ground arith
step-max_file c (invalidates p) = ground arith
step-max_file c (invalidates_tree prefix) = invalidate_prefix-max_file c prefix

run-Refines :
    (c : Cache) (log : Log) (ops : List Op)
    → Inv c
    → Refines log c
    → Refines (log_run c.max_file log ops) (run c ops)
unfolding run log_run
run-Refines c log [] v r = r
run-Refines c log (op ∷ ops) v r =
    subst (λ m. Refines (log_run m (log_step c.max_file log op) ops) (run (step c op) ops))
      (step-max_file c op)
      (run-Refines (step c op) (log_step c.max_file log op) ops (step-Inv c op v)
        (step-Refines c log op v r))

new_cache-Refines :
    (max_size max_file ttl : ℤ) → Refines (λ _. none) (new_cache max_size max_file ttl)
unfolding new_cache
new_cache-Refines max_size max_file ttl q e h = absurd (cc)

serve-some :
    (ttl : ℤ) (now : ℕ) (required : Version) (o : Option Entry) (bytes : List ℕ)
    → serve ttl now required o ≡ some bytes
    → (e : Entry) × (o ≡ some e) × (e.bytes ≡ bytes) × (matches e.version required ≡ true)
serve-some ttl now required none bytes h = absurd (cc)
serve-some ttl now required (some e) bytes h = (e, refl, ground arith, ground arith)

-- After any history of a new cache, what `get` serves for a path is what was put there last, of the
-- puts within the limit of a file, with no invalidation of the path or of a tree above it since, and
-- its version is the required one.
pub get-run :
    (max_size max_file ttl : ℤ) (ops : List Op) (now : ℕ) (p : Text) (required : Version)
    (bytes : List ℕ)
    → (get (run (new_cache max_size max_file ttl) ops) now p required).1 ≡ some bytes
    → (version : Version) × (log_run (new_cache max_size max_file ttl).max_file (λ _. none) ops p
        ≡ some (bytes, version))
      × (matches version required ≡ true)
get-run max_size max_file ttl ops now p required bytes h =
    let c = new_cache max_size max_file ttl in
    let (e, there, same, m) =
      serve-some _ now required _ bytes (sym (get-serve (run c ops) now p required) ∙ h) in
    let logged =
      run-Refines c (λ _. none) ops (new_cache-Inv max_size max_file ttl)
        (new_cache-Refines max_size max_file ttl) p e there in
    (e.version, logged ∙ ap (λ b. some (b, e.version)) same, m)
