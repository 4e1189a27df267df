-- ===== src/Memory/Ram/Laws.antt =====
-- The contract of the main memory: src/memory/MAIN_MEMORY.cpp.
use multicore_simulator.Prelude.{
  ℕ, true, false, List, [], ◌∷◌, ◌≡◌, ◌≤◌, ◌↔◌, ◌⊎◌, get_or-past, refl, arith, inl, inr, ltb, ◌==◌,
  ◌&&◌, if◌then◌else◌, length, zero, suc, length-set, length-replicate, get_or, get_or-set,
  Bool-cases,
}
use multicore_simulator.Memory.Ram.{
  MainMemory, memory_access_error, max_memory_size, new_main_memory, all_empty, is_empty, read_mem,
  write_mem, delete_data,
}

pub record IsValid (m : MainMemory) : Type 0 where
  pub sized : length m.ram ≡ m.size
  pub bounded : m.size ≤ max_memory_size

pub new_main_memory-IsValid : (size : ℕ) → IsValid (new_main_memory size)
unfolding new_main_memory
new_main_memory-IsValid size = elim (Bool-cases (ltb max_memory_size size)) [
  | inl e ↦ rw e (record { sized = length-replicate max_memory_size _; bounded = omega arith })
  | inr e ↦ rw e (record { sized = length-replicate size _; bounded = ground arith })
]

pub write_mem-IsValid : (m : MainMemory) (a v : ℕ) → IsValid m → IsValid (write_mem m a v).0
unfolding write_mem
write_mem-IsValid m a v h = ground (arith, length-set m.ram a v)

pub delete_data-IsValid : (m : MainMemory) (a : ℕ) → IsValid m → IsValid (delete_data m a).0
unfolding delete_data
delete_data-IsValid m a h = ground (arith, length-set m.ram a memory_access_error)

pub size-write_mem : (m : MainMemory) (a v : ℕ) → (write_mem m a v).0.size ≡ m.size
unfolding write_mem
size-write_mem m a v = ground arith

pub read_mem-write_mem :
    (m : MainMemory) (a v b : ℕ)
    → IsValid m
    → read_mem (write_mem m a v).0 b ≡ (if a == b && ltb a m.size then v else read_mem m b)
unfolding read_mem write_mem
read_mem-write_mem m a v b h = ground (arith, get_or-set m.ram a b v memory_access_error)

pub result-write_mem :
    (m : MainMemory) (a v : ℕ)
    → IsValid m
    → (write_mem m a v).1 ≡ (if ltb a m.size then v else memory_access_error)
unfolding write_mem
result-write_mem m a v h = ground (arith, get_or-set m.ram a a v memory_access_error)

-- `DeleteData` returns what a read would have returned, makes that word empty, and leaves every
-- other word of a valid memory as it was.
pub delete_data_lem :
    (m : MainMemory) (a b : ℕ)
    → IsValid m
    → ((delete_data m a).1 ≡ read_mem m a)
      × (read_mem (delete_data m a).0 b ≡ (if a == b then memory_access_error else read_mem m b))
unfolding read_mem delete_data
delete_data_lem m a b h =
    ground (arith, get_or-set m.ram a b memory_access_error memory_access_error)

all_empty-get_or :
    (xs : List ℕ) (i : ℕ)
    → all_empty xs ≡ true
    → get_or xs i memory_access_error ≡ memory_access_error
unfolding all_empty get_or
all_empty-get_or [] i e = refl
all_empty-get_or (x ∷ xs) zero e = ground arith
all_empty-get_or (x ∷ xs) (suc i) e = ground (arith, all_empty-get_or xs i)

get_or-all_empty :
    (xs : List ℕ)
    → ((i : ℕ) → get_or xs i memory_access_error ≡ memory_access_error)
    → all_empty xs ≡ true
unfolding all_empty get_or
get_or-all_empty [] h = refl
get_or-all_empty (x ∷ xs) h = ground (arith, h zero, get_or-all_empty xs (λ i. h (suc i)))

-- A valid memory is empty exactly when every read answers the error value.
pub is_empty_iff :
    (m : MainMemory)
    → IsValid m
    → (is_empty m ≡ true) ↔ ((a : ℕ) → read_mem m a ≡ memory_access_error)
unfolding is_empty read_mem
is_empty_iff m h = (
  λ e a. ground (arith, all_empty-get_or m.ram a e),
  λ r. get_or-all_empty m.ram (λ i. past i (Bool-cases (ltb i m.size)) (r i)),
)
  where
    past :
        (i : ℕ)
        → (ltb i m.size ≡ true) ⊎ (ltb i m.size ≡ false)
        → (if ltb i m.size then get_or m.ram i memory_access_error else memory_access_error)
          ≡ memory_access_error
        → get_or m.ram i memory_access_error ≡ memory_access_error
    past i (inl e) r = ground arith
    past i (inr e) r = ground (arith, get_or-past m.ram i memory_access_error)
