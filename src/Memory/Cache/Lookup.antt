-- ===== src/Memory/Cache/Lookup.antt =====
-- What src/memory/cache.cpp answers: each address has a word or none, and every call is described
-- by what it does to them.
use multicore_simulator.Prelude.{
  ℕ, true, false, List, [], ◌∷◌, Option, none, some, ◌+◌, ◌≡◌, ◌≢◌, ◌⊎◌, refl, arith, inl, inr,
  ◌==◌, ◌&&◌, ==_refl, leb, if◌then◌else◌, length, Bool-cases, Option-cases,
}
use multicore_simulator.Prelude.Assoc.{
  nat_eq, contains, lookup, keys, contains-lookup-some, lookup-insert, lookup-erase,
  contains-lookup,
}
use multicore_simulator.Memory.Cache.{
  Cache, CacheEntry, cache_miss, no_address, get_address_to_replace, or_default, get, evict, store,
  put, update_entry, update, invalidate_all, invalidate,
}

unfoldable pub valid_word : Option CacheEntry → Option ℕ
valid_word none = none
valid_word (some entry) = if entry.is_valid then some entry.word else none

-- The word that the cache holds for an address.
unfoldable pub cached : Cache → ℕ → Option ℕ
unfolding valid_word lookup
cached c a = valid_word (lookup a c.cache_map)

abbrev pub word_or_miss : Option ℕ → ℕ
word_or_miss none = cache_miss
word_or_miss (some w) = w

-- `get` answers the cached word, or CACHE_MISS; it counts one hit or one miss, and changes nothing
-- else.
pub get_lem :
    (c : Cache) (a : ℕ)
    → ((get c a).1 ≡ word_or_miss (cached c a))
      × ((get c a).0.cache_map ≡ c.cache_map)
      × ((get c a).0.fifo_queue ≡ c.fifo_queue)
      × ((get c a).0.capacity ≡ c.capacity)
      × ((get c a).0.hits + (get c a).0.misses ≡ c.hits + c.misses + 1)
unfolding get cached
get_lem c a = ground arith

pub cached-get : (c : Cache) (a b : ℕ) → cached (get c a).0 b ≡ cached c b
unfolding get cached
cached-get c a b = ground arith

pub cached-store :
    (c : Cache) (a w b : ℕ) → cached (store c a w) b ≡ (if a == b then some w else cached c b)
unfolding store cached
cached-store c a w b =
    let entry : CacheEntry = record { word = w; is_valid = true; is_dirty = false } in
    ground (arith, lookup-insert a b entry c.cache_map)

cached-update_entry :
    (c : Cache) (a w b : ℕ) (o : Option CacheEntry)
    → lookup a c.cache_map ≡ o
    → cached (update_entry c a w o) b
      ≡ (if a == b && contains a (keys c.cache_map) then some w else cached c b)
unfolding update_entry cached
cached-update_entry c a w b none e = ground (arith, contains-lookup a c.cache_map)
cached-update_entry c a w b (some entry) e =
    let dirty : CacheEntry = record { word = w; is_valid = true; is_dirty = true } in
    ground (arith, lookup-insert a b dirty c.cache_map, contains-lookup-some a entry c.cache_map)

-- `update` writes the word of an address that has an entry, and does nothing for any other.
pub cached-update :
    (c : Cache) (a w b : ℕ)
    → cached (update c a w) b
      ≡ (if a == b && contains a (keys c.cache_map) then some w else cached c b)
unfolding update
cached-update c a w b = cached-update_entry c a w b (lookup a c.cache_map) refl

pub cached-some-contains :
    (c : Cache) (a w : ℕ) → cached c a ≡ some w → contains a (keys c.cache_map) ≡ true
unfolding cached
cached-some-contains c a w h = elim (Option-cases (lookup a c.cache_map)) [
  | inl e ↦ absurd (ground arith)
  | inr (entry, e) ↦ contains-lookup-some a entry c.cache_map e
]

module _ {M : Type 0} (write_to_file : ℕ → ℕ → M → M) where
  -- Making room takes at most the entry of one address away.
  pub cached-evict :
      (c : Cache) (mem : M) (b : ℕ)
      → let c' = (evict write_to_file c mem).0 in (cached c' b ≡ cached c b) ⊎ (cached c' b ≡ none)
  unfolding evict cached
  cached-evict c mem b =
      ground (arith, lookup-erase (get_address_to_replace c.fifo_queue).1 b c.cache_map)

  pub cached-put_self :
      (c : Cache) (a w : ℕ) (mem : M) → cached (put write_to_file c a w mem).0 a ≡ some w
  unfolding put
  cached-put_self c a w mem = elim (Bool-cases (leb c.capacity (length c.cache_map))) [
    | inl e ↦ rw (e, cached-store, ==_refl a)
    | inr e ↦ rw (e, cached-store, ==_refl a)
  ]

  pub cached-put_ne :
      (c : Cache) (a w : ℕ) (mem : M) (b : ℕ)
      → a ≢ b
      → let c' = (put write_to_file c a w mem).0 in
        (cached c' b ≡ cached c b) ⊎ (cached c' b ≡ none)
  unfolding put
  cached-put_ne c a w mem b n =
      let other : (a == b) ≡ false = ground arith in
      elim (Bool-cases (leb c.capacity (length c.cache_map))) [
        | inl e ↦ rw (e, cached-store, other) (cached-evict c mem b)
        | inr e ↦ rw (e, cached-store, other) (inl refl)
      ]

  -- What holds of the memory before and after any write-back holds of it after `put`.
  pub put_cases :
      (P : M → Type 0) (c : Cache) (a w : ℕ) (mem : M)
      → P mem
      → ((b v : ℕ) → P (write_to_file b v mem))
      → P (put write_to_file c a w mem).1
  unfolding put evict
  put_cases P c a w mem same back = elim (Bool-cases (leb c.capacity (length c.cache_map))) [
    | inr e ↦ rw e same
    | inl e ↦
        let victim = (get_address_to_replace c.fifo_queue).1 in
        let entry = or_default (lookup victim c.cache_map) in
        elim (Bool-cases (victim == no_address)) [
          | inl nobody ↦ rw (e, evict, nobody) same
          | inr somebody ↦ elim (Bool-cases entry.is_dirty) [
            | inl dirty ↦ rw (e, evict, somebody, dirty) (back _ _)
            | inr clean ↦ rw (e, evict, somebody, clean) same
          ]
        ]
  ]

lookup-invalidate_all :
    (m : List (ℕ × CacheEntry)) (a : ℕ) → valid_word (lookup a (invalidate_all m)) ≡ none
unfolding valid_word lookup invalidate_all
lookup-invalidate_all [] a = refl
lookup-invalidate_all ((b, entry) ∷ m) a = ground (arith, lookup-invalidate_all m a)

-- After `invalidate` every `get` misses.
pub get-invalidate : (c : Cache) (a : ℕ) → (get (invalidate c) a).1 ≡ cache_miss
unfolding invalidate
get-invalidate c a =
    rw ((get_lem (invalidate c) a).0) (unfold cached in rw (lookup-invalidate_all c.cache_map a))
