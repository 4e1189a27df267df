-- ===== src/Memory/Manager/Isolation.antt =====
-- No two pages share a frame, in src/memory/MemoryManager.cpp.
use multicore_simulator.Prelude.{
  ℕ, Bool, false, some, ◌≡◌, ◌≢◌, ◌⊎◌, ◌/◌, inl, inr, sym, ap, subst, ◌∙◌, arith,
}
use multicore_simulator.Memory.Ram.{memory_access_error}
use multicore_simulator.Memory.Manager.Frames.{IsValid, mapped, frame_of}
use multicore_simulator.Memory.Manager.Translation.{Leads, Unmapped, translate_address_lem}
use multicore_simulator.Memory.Manager.{System, page_size, translate_address}

-- A frame is the frame of one page of one process at most.
pub mapped-injective :
    (s : System) (p q page other frame : ℕ)
    → IsValid s
    → mapped s p page ≡ some frame
    → mapped s q other ≡ some frame
    → (p ≡ q) × (page ≡ other)
mapped-injective s p q page other frame h e k =
    let same : frame_of p page ≡ frame_of q other =
      sym (h.owned p page frame e).recorded ∙ (h.owned q other frame k).recorded in
    ground arith

-- Two addresses of two processes that lead to one word of the memory are one address of one
-- process: no process reaches the memory of another.
pub Leads-injective :
    (s : System) (va vb p q a : ℕ)
    → IsValid s
    → Leads s va p a
    → Leads s vb q a
    → (p ≡ q) × (va ≡ vb)
Leads-injective s va vb p q a h l k =
    let same : l.frame ≡ k.frame = omega (arith, l.address, k.address) in
    let (who, page) = mapped-injective s p q _ _ k.frame h (l.in_table ∙ ap some same) k.in_table in
    (who, omega (arith, l.address, k.address))

-- A translation that does not answer the error value leads somewhere.
translate_address-Leads :
    (s s' : System) (va process a : ℕ) (is_write : Bool)
    → IsValid s
    → translate_address s va process is_write ≡ (s', a)
    → a ≢ memory_access_error
    → IsValid s' × Leads s' va process a
translate_address-Leads s s' va process a is_write h e ne =
    let (valid, outcome) =
      subst
        (λ (r : System × ℕ).
          IsValid r.0
          × (Leads r.0 va process r.1
              ⊎ ((r.1 ≡ memory_access_error)
                  × (r.0 ≡ s)
                  × Unmapped s va process
                  × (is_write ≡ false))))
        e (translate_address_lem s va process is_write h) in
    elim outcome [ inl l ↦ (valid, l) | inr (failed, _, _, _) ↦ absurd (ne failed) ]

-- From a system with the paging invariant, take two translations one after the other, neither of
-- which answers the error value, and let the page of the first still have its frame after the
-- second. If they answer the same address, they were asked for the same address of the same
-- process: no process reaches the memory of another.
pub translate_address-separate :
    (s s' s'' : System) (va vb p q a b : ℕ) (is_write later : Bool)
    → IsValid s
    → translate_address s va p is_write ≡ (s', a)
    → translate_address s' vb q later ≡ (s'', b)
    → a ≢ memory_access_error
    → b ≢ memory_access_error
    → mapped s'' p (va / page_size) ≡ mapped s' p (va / page_size)
    → a ≡ b
    → (p ≡ q) × (va ≡ vb)
translate_address-separate s s' s'' va vb p q a b is_write later h e k ne nb kept same =
    let (valid, l) = translate_address-Leads s s' va p a is_write h e ne in
    let (valid', l') = translate_address-Leads s' s'' vb q b later valid k nb in
    let still : Leads s'' va p a = record {
      frame = l.frame;
      in_table = kept ∙ l.in_table;
      address = l.address;
      inside = omega (arith, same, l'.inside);
    } in
    let there : Leads s'' vb q a = subst (Leads s'' vb q) (sym same) l' in
    Leads-injective s'' va vb p q a valid' still there
