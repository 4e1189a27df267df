-- ===== src/Memory/Cache/Capacity.antt =====
-- The queue of src/memory/cache.cpp against its map: what keeps the cache within its capacity.
use multicore_simulator.Prelude.{
  ℕ, true, false, List, [], ◌∷◌, ◌++◌, Option, none, some, ◌+◌, ◌≡◌, ◌≤◌, ◌<◌, refl, ap, subst, ◌∙◌,
  arith, inl, inr, ◌==◌, ==_refl, suc, leb, if◌then◌else◌, length, length-append, to_u32,
  Bool-cases,
}
use multicore_simulator.Prelude.Assoc.{
  nat_eq, contains, Distinct, lookup, insert, erase, keys, Distinct-append_one, keys-insert_new,
  keys-insert_old, contains-lookup-some, erase_absent, length-keys,
}
use multicore_simulator.Memory.Cache.{
  Cache, CacheEntry, cache_capacity, no_address, new_cache, get_address_to_replace, get, evict,
  store, put, update_entry, update, invalidate_all, invalidate,
}

abbrev pub Below : ℕ → List ℕ → Type 0
Below n [] = Unit
Below n (a ∷ rest) = (a < n) × Below n rest

-- The queue holds each cached address once, oldest first, and no more than fit.
pub record IsValid (c : Cache) : Type 0 where
  pub sixteen : c.capacity ≡ cache_capacity
  pub queued : c.fifo_queue ≡ keys c.cache_map
  pub distinct : Distinct (keys c.cache_map)
  pub fits : length c.cache_map ≤ c.capacity
  pub addresses : Below no_address (keys c.cache_map)

pub new_cache-IsValid : IsValid new_cache
unfolding new_cache
new_cache-IsValid = record {
  sixteen = refl;
  queued = refl;
  distinct = tt;
  fits = omega arith;
  addresses = tt;
}

pub get-IsValid : (c : Cache) (a : ℕ) → IsValid c → IsValid (get c a).0
unfolding get
get-IsValid c a h = ground arith

Below-append_one : (n a : ℕ) (xs : List ℕ) → a < n → Below n xs → Below n (xs ++ a ∷ [])
Below-append_one n a [] h b = (h, tt)
Below-append_one n a (x ∷ xs) h b = (b.0, Below-append_one n a xs h b.1)

-- A full valid cache with a first entry loses that entry, which is written back if it is dirty.
pub evict_lem {ℓ} :
    {M : Type ℓ} (write_to_file : ℕ → ℕ → M → M) (c : Cache) (mem : M) (a : ℕ) (entry : CacheEntry)
    (rest : List (ℕ × CacheEntry))
    → IsValid c
    → c.cache_map ≡ (a, entry) ∷ rest
    → evict write_to_file c mem ≡ (
      record c { fifo_queue = keys rest; cache_map = rest },
      if entry.is_dirty then write_to_file (to_u32 a) (to_u32 entry.word) mem else mem,
    )
unfolding evict get_address_to_replace lookup erase
evict_lem write_to_file c mem a entry rest h e =
    let queue : c.fifo_queue ≡ a ∷ keys rest = h.queued ∙ ap keys e in
    let once = subst (λ m. Distinct (keys m)) e h.distinct in
    let small = subst (λ m. Below no_address (keys m)) e h.addresses in
    let named : (a == no_address) ≡ false = ground arith in
    rw (queue, e, evict, named, ==_refl a, erase_absent a rest once.0)

evict-IsValid {ℓ} :
    {M : Type ℓ} (write_to_file : ℕ → ℕ → M → M) (c : Cache) (mem : M) (m : List (ℕ × CacheEntry))
    → c.cache_map ≡ m
    → IsValid c
    → cache_capacity ≤ length m
    → let c' = (evict write_to_file c mem).0 in
      IsValid c'
      × (length c'.cache_map < cache_capacity)
      × ((k : ℕ) → contains k (keys c.cache_map) ≡ false → contains k (keys c'.cache_map) ≡ false)
unfolding contains
evict-IsValid write_to_file c mem [] e h full = absurd (omega arith)
evict-IsValid write_to_file c mem ((a, entry) ∷ rest) e h full =
    let once = subst (λ m. Distinct (keys m)) e h.distinct in
    let small = subst (λ m. Below no_address (keys m)) e h.addresses in
    rw (evict_lem write_to_file c mem a entry rest h e, e)
      (
        record {
          sixteen = h.sixteen;
          queued = refl;
          distinct = once.1;
          fits = omega (arith, ap length e);
          addresses = small.1;
        },
        omega (arith, h.fits, h.sixteen, ap length e),
        λ k absent. ground arith,
      )

store-IsValid :
    (c : Cache) (a word : ℕ)
    → IsValid c
    → length c.cache_map < cache_capacity
    → contains a (keys c.cache_map) ≡ false
    → a < no_address
    → IsValid (store c a word)
unfolding store
store-IsValid c a word h room absent small =
    let entry : CacheEntry = record { word = word; is_valid = true; is_dirty = false } in
    let grown = keys-insert_new a entry c.cache_map absent in
    record {
      sixteen = h.sixteen;
      queued = rw (h.queued, grown);
      distinct = rw grown (Distinct-append_one a (keys c.cache_map) absent h.distinct);
      fits = omega (
        arith,
        h.sixteen,
        ap length grown,
        length-append (keys c.cache_map) (a ∷ []),
        length-keys c.cache_map,
        length-keys (insert a entry c.cache_map),
      );
      addresses = rw grown (Below-append_one no_address a (keys c.cache_map) small h.addresses);
    }

-- `put` of an address that is not in the cache, and is not (size_t)-1, keeps a valid cache valid:
-- within its capacity, and with each cached address once in the queue.
pub put-IsValid {ℓ} :
    {M : Type ℓ} (write_to_file : ℕ → ℕ → M → M) (c : Cache) (a word : ℕ) (mem : M)
    → IsValid c
    → contains a (keys c.cache_map) ≡ false
    → a < no_address
    → IsValid (put write_to_file c a word mem).0
unfolding put
put-IsValid write_to_file c a word mem h absent small =
    elim (Bool-cases (leb c.capacity (length c.cache_map))) [
      | inl full ↦
          let (valid, room, kept) =
            evict-IsValid write_to_file c mem c.cache_map refl h (ground (arith, h.sixteen)) in
          rw full (store-IsValid _ a word valid room (kept a absent) small)
      | inr free ↦ rw free (store-IsValid c a word h (ground (arith, h.sixteen)) absent small)
    ]

update-IsValid_entry :
    (c : Cache) (a word : ℕ) (o : Option CacheEntry)
    → lookup a c.cache_map ≡ o
    → IsValid c
    → IsValid (update_entry c a word o)
unfolding update_entry
update-IsValid_entry c a word none e h = h
update-IsValid_entry c a word (some entry) e h =
    let same =
      keys-insert_old a (record { word = word; is_valid = true; is_dirty = true }) c.cache_map
        (contains-lookup-some a entry c.cache_map e) in
    record {
      sixteen = h.sixteen;
      queued = rw (h.queued, same);
      distinct = rw same h.distinct;
      fits = omega (
        arith,
        h.fits,
        ap length same,
        length-keys c.cache_map,
        length-keys
            (insert a (record { word = word; is_valid = true; is_dirty = true }) c.cache_map),
      );
      addresses = rw same h.addresses;
    }

pub update-IsValid : (c : Cache) (a word : ℕ) → IsValid c → IsValid (update c a word)
unfolding update
update-IsValid c a word h = update-IsValid_entry c a word (lookup a c.cache_map) refl h

length-invalidate_all : (m : List (ℕ × CacheEntry)) → length (invalidate_all m) ≡ length m
unfolding invalidate_all
length-invalidate_all [] = refl
length-invalidate_all ((a, entry) ∷ m) = ap suc (length-invalidate_all m)

keys-invalidate_all : (m : List (ℕ × CacheEntry)) → keys (invalidate_all m) ≡ keys m
unfolding invalidate_all
keys-invalidate_all [] = refl
keys-invalidate_all ((a, entry) ∷ m) = ap (◌∷◌ a) (keys-invalidate_all m)

-- `invalidate` empties the queue and leaves the dead entries in the map: if the cache was valid and
-- full, the next `put` of a new address writes nothing back and goes over the capacity.
pub put-invalidate_overflows {ℓ} :
    {M : Type ℓ} (write_to_file : ℕ → ℕ → M → M) (c : Cache) (a word : ℕ) (mem : M)
    → IsValid c
    → length c.cache_map ≡ c.capacity
    → contains a (keys c.cache_map) ≡ false
    → let (c', mem') = put write_to_file (invalidate c) a word mem in
      (length c'.cache_map ≡ c'.capacity + 1) × (mem' ≡ mem)
unfolding put invalidate evict store get_address_to_replace
put-invalidate_overflows write_to_file c a word mem h full absent =
    let entry : CacheEntry = record { word = word; is_valid = true; is_dirty = false } in
    let m = invalidate_all c.cache_map in
    let kept = keys-invalidate_all c.cache_map in
    let grown = keys-insert_new a entry m (rw kept absent) in
    let at_limit : leb c.capacity (length m) ≡ true =
      ground (arith, length-invalidate_all c.cache_map) in
    rw at_limit (
      omega (
        arith,
        length-invalidate_all c.cache_map,
        ap length grown,
        length-append (keys m) (a ∷ []),
        length-keys m,
        length-keys (insert a entry m),
      ),
      refl,
    )
