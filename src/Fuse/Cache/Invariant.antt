-- ===== src/Fuse/Cache/Invariant.antt =====
-- The map, the list and the size of the cache agree after every operation.
use ti_cli.Common.{
  ℕ, zero, suc, ◌+◌, ◌-◌, Bool, true, false, not, ◌&&◌, ◌||◌, Option, none, some, List, [], ◌∷◌,
  ◌≡◌, refl, sym, subst, inl, inr, arith, ltb, Bool-cases, Option-cases, length,
}
use ti_cli.Common.Int.{ℤ, pos, ltb_ℤ, ◌+ℤ◌, is_positive}
use ti_cli.Common.Text.{Text, eqb, eqb_iff, eqb_refl}
use ti_cli.Fuse.Version.{Version, matches}
use ti_cli.Fuse.Cache.{
  Entry, Cache, new_cache, update, remove, back, evict, evict_path, get, shrink, store, put,
  evict_under, invalidate_prefix, under,
}

unfoldable pub has : Text → List Text → Bool
has p [] = false
has p (q ∷ qs) = eqb q p || has p qs

abbrev pub is_some {ℓ} : {A : Type ℓ} → Option A → Bool
is_some none = false
is_some (some a) = true

abbrev pub bytes_of : Option Entry → ℕ
bytes_of none = 0
bytes_of (some e) = length e.bytes

unfoldable pub weight : (Text → Option Entry) → List Text → ℕ
weight items [] = 0
weight items (p ∷ ps) = bytes_of (items p) + weight items ps

abbrev pub Distinct : List Text → Type 0
Distinct [] = Unit {0}
Distinct (p ∷ ps) = (has p ps ≡ false) × Distinct ps

pub record Inv (c : Cache) : Type 0 where
  pub distinct : Distinct c.order
  pub agree : (p : Text) → is_some (c.items p) ≡ has p c.order
  pub keyed : (p : Text) (e : Entry) → c.items p ≡ some e → e.path ≡ p
  pub total : c.size ≡ weight c.items c.order

pub has-remove :
    (p q : Text) (ps : List Text) → Distinct ps → has q (remove p ps) ≡ (has q ps && not (eqb p q))
unfolding has remove
has-remove p q [] d = refl
has-remove p q (x ∷ ps) d =
    ground (arith, has-remove p q ps d.1, eqb_iff x p, eqb_iff x q, eqb_iff p q)

remove-Distinct : (p : Text) (ps : List Text) → Distinct ps → Distinct (remove p ps)
unfolding has remove
remove-Distinct p [] d = tt
remove-Distinct p (x ∷ ps) d = ground (arith, has-remove p x ps d.1, remove-Distinct p ps d.1)

pub remove-absent : (p : Text) (ps : List Text) → has p ps ≡ false → remove p ps ≡ ps
unfolding has remove
remove-absent p [] h = refl
remove-absent p (x ∷ ps) h = ground (arith, remove-absent p ps)

weight-update :
    (items : Text → Option Entry) (p : Text) (v : Option Entry) (ps : List Text)
    → has p ps ≡ false
    → weight (update items p v) ps ≡ weight items ps
unfolding weight update has
weight-update items p v [] h = refl
weight-update items p v (x ∷ ps) h =
    ground (arith, weight-update items p v ps, eqb_iff x p, eqb_iff p x)

weight-remove :
    (items : Text → Option Entry) (p : Text) (ps : List Text)
    → has p ps ≡ true
    → weight items ps ≡ bytes_of (items p) + weight items (remove p ps)
unfolding weight remove has
weight-remove items p [] h = cc
weight-remove items p (x ∷ ps) h = ground (arith, weight-remove items p ps, eqb_iff x p)

has-remove_self : (p : Text) (ps : List Text) → Distinct ps → has p (remove p ps) ≡ false
has-remove_self p ps d = ground (arith, has-remove p p ps d, eqb_refl p)

-- What a list and a map weigh after the entry of `p` has been taken out of both.
weight-update-remove :
    (items : Text → Option Entry) (p : Text) (v : Option Entry) (ps : List Text)
    → Distinct ps
    → weight (update items p v) (remove p ps) ≡ weight items (remove p ps)
weight-update-remove items p v ps d = weight-update items p v (remove p ps) (has-remove_self p ps d)

pub evict-Inv : (c : Cache) (e : Entry) → Inv c → c.items e.path ≡ some e → Inv (evict c e)
unfolding evict
evict-Inv c e v h = record {
  distinct = remove-Distinct e.path c.order v.distinct;
  agree = λ p. ground (arith, v.agree p, has-remove e.path p c.order v.distinct);
  keyed = λ p d k. ground (arith, v.keyed p d);
  total = ground (
    arith,
    v.agree e.path,
    weight-remove c.items e.path c.order,
    weight-update-remove c.items e.path none c.order v.distinct,
  );
}

pub evict_path-Inv : (c : Cache) (p : Text) → Inv c → Inv (evict_path c p)
unfolding evict_path
evict_path-Inv c p v = elim (Option-cases (c.items p)) [
  | inl e ↦ rw (e, evict_path) v
  | inr (d, e) ↦
      let same = v.keyed p d e in
      rw (e, evict_path) (evict-Inv c d v (subst (λ q. c.items q ≡ some d) (sym same) e))
]

-- A lookup that hits moves the path to the front.
touch-Inv :
    (c : Cache) (p : Text) (e : Entry)
    → Inv c
    → c.items p ≡ some e
    → Inv (record c { order = p ∷ remove p c.order })
touch-Inv c p e v h = record {
  distinct = (has-remove_self p c.order v.distinct, remove-Distinct p c.order v.distinct);
  agree =
      λ q. unfold has in ground (arith, v.agree q, has-remove p q c.order v.distinct, eqb_iff p q);
  keyed = v.keyed;
  total = unfold weight in ground (arith, v.agree p, weight-remove c.items p c.order);
}

pub get-Inv :
    (c : Cache) (now : ℕ) (p : Text) (required : Version) → Inv c → Inv (get c now p required).0
unfolding get
get-Inv c now p required v = elim (Option-cases (c.items p)) [
  | inl e ↦ rw (e, get) v
  | inr (d, e) ↦
      let same = v.keyed p d e in
      let evicted = evict-Inv c d v (subst (λ q. c.items q ≡ some d) (sym same) e) in
      let touched = touch-Inv c p d v e in
      rw (e, get)
        (elim (Bool-cases (matches d.version required)) [
          | inl m ↦ elim (Bool-cases (is_positive c.ttl && ltb_ℤ d.expires (pos now))) [
            | inl late ↦ rw (m, late) evicted
            | inr fresh ↦ rw (m, fresh) touched
          ]
          | inr m ↦ rw m v
        ])
]

-- Entry `d` in front of the list, and the map's value at its path.
abbrev pub inserted : Cache → Entry → Cache
inserted c d = record c {
  items = update c.items d.path (some d);
  order = d.path ∷ remove d.path c.order;
  size = c.size - bytes_of (c.items d.path) + length d.bytes;
}

abbrev pub new_entry : Cache → ℕ → Text → List ℕ → Version → Entry
new_entry c now p bytes version = record {
  path = p;
  bytes = bytes;
  version = version;
  expires = pos now +ℤ c.ttl;
}

insert-Inv : (c : Cache) (d : Entry) → Inv c → Inv (inserted c d)
unfolding update has weight
insert-Inv c d v = record {
  distinct = (has-remove_self d.path c.order v.distinct, remove-Distinct d.path c.order v.distinct);
  agree = λ q. ground (arith, v.agree q, has-remove d.path q c.order v.distinct, eqb_iff d.path q);
  keyed = λ q e k. ground (arith, v.keyed q e, eqb_iff d.path q);
  total = insert_weight;
}
  where
    insert_weight :
        c.size - bytes_of (c.items d.path) + length d.bytes
        ≡ weight (update c.items d.path (some d)) (d.path ∷ remove d.path c.order)
    insert_weight = ground (
      arith,
      v.agree d.path,
      eqb_refl d.path,
      weight-remove c.items d.path c.order,
      remove-absent d.path c.order,
      weight-update-remove c.items d.path (some d) c.order v.distinct,
    )

-- Both branches of `put` do the same to a cache whose map and list agree.
pub store-inserted :
    (c : Cache) (now : ℕ) (p : Text) (bytes : List ℕ) (version : Version)
    → Inv c
    → store c now p bytes version ≡ inserted c (new_entry c now p bytes version)
unfolding store
store-inserted c now p bytes version v = ground (arith, v.agree p, remove-absent p c.order)

pub store-Inv :
    (c : Cache) (now : ℕ) (p : Text) (bytes : List ℕ) (version : Version)
    → Inv c
    → Inv (store c now p bytes version)
store-Inv c now p bytes version v =
    rw (store-inserted c now p bytes version v) (insert-Inv c (new_entry c now p bytes version) v)

pub shrink-Inv : (n : ℕ) (c : Cache) → Inv c → Inv (shrink n c)
unfolding shrink
shrink-Inv zero c v = v
shrink-Inv (suc n) c v = elim (Bool-cases (ltb c.max_size c.size)) [
  | inl over ↦ elim (Option-cases (back c.order)) [
    | inl e ↦ rw (over, e, shrink) v
    | inr (p, e) ↦ rw (over, e, shrink) (shrink-Inv n (evict_path c p) (evict_path-Inv c p v))
  ]
  | inr fits ↦ rw (fits, shrink) v
]

pub put-Inv :
    (c : Cache) (now : ℕ) (p : Text) (bytes : List ℕ) (version : Version)
    → Inv c
    → Inv (put c now p bytes version)
unfolding put
put-Inv c now p bytes version v = elim (Bool-cases (ltb c.max_file (length bytes))) [
  | inl large ↦ rw large v
  | inr small ↦ rw small (shrink-Inv _ _ (store-Inv c now p bytes version v))
]

evict_under-Inv :
    (prefix : Text) (ps : List Text) (c : Cache) → Inv c → Inv (evict_under prefix ps c)
unfolding evict_under
evict_under-Inv prefix [] c v = v
evict_under-Inv prefix (p ∷ ps) c v = elim (Bool-cases (under prefix p)) [
  | inl e ↦ rw (e, evict_under) (evict_under-Inv prefix ps _ (evict_path-Inv c p v))
  | inr e ↦ rw (e, evict_under) (evict_under-Inv prefix ps c v)
]

pub invalidate_prefix-Inv : (c : Cache) (prefix : Text) → Inv c → Inv (invalidate_prefix c prefix)
unfolding invalidate_prefix
invalidate_prefix-Inv c prefix v = evict_under-Inv prefix c.order c v

pub new_cache-Inv : (max_size max_file ttl : ℤ) → Inv (new_cache max_size max_file ttl)
unfolding new_cache has weight
new_cache-Inv max_size max_file ttl = record {
  distinct = tt;
  agree = λ p. refl;
  keyed = λ p e k. cc;
  total = refl;
}
