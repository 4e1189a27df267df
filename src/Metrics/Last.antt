-- ===== src/Metrics/Last.antt =====
-- print_system_metrics of src/main.cpp: the time that it reports for the whole simulation.
use multicore_simulator.Prelude.{
  ℕ, zero, suc, List, [], ◌∷◌, ◌≤◌, ◌<◌, ◌≡◌, ◌⊎◌, inl, inr, refl, arith, map, get_or, length,
  get_or-past, sym, ◌∙◌,
}
use multicore_simulator.Process.{Pcb}
use multicore_simulator.Machine.{Worker}
use multicore_simulator.Metrics.{
  Totals, no_totals, later, count_process, count_processes, last_clock, simulation_time,
}

-- The greatest of some numbers, 0 for none. A position behind the end has 0.
abbrev Greatest : List ℕ → ℕ → Type 0
Greatest xs n = ((i : ℕ) → get_or xs i 0 ≤ n) × ((i : ℕ) × (get_or xs i 0 ≡ n))

unfoldable latest : ℕ → List ℕ → ℕ
unfolding later
latest time [] = time
latest time (x ∷ xs) = latest (later time x) xs

count_processes-latest :
    (t : Totals) (ps : List Pcb)
    → (count_processes t ps).max_finish_time
      ≡ latest t.max_finish_time (map (λ p. p.finish_time) ps)
unfolding count_processes count_process latest
count_processes-latest t [] = refl
count_processes-latest t (p ∷ ps) = count_processes-latest (count_process t p) ps

last_clock-latest :
    (time : ℕ) (ws : List Worker) → last_clock time ws ≡ latest time (map (λ w. w.core_clock) ws)
unfolding last_clock latest
last_clock-latest time [] = refl
last_clock-latest time (w ∷ ws) = last_clock-latest (later time w.core_clock) ws

latest-start : (time : ℕ) (xs : List ℕ) → time ≤ latest time xs
unfolding latest later
latest-start time [] = omega arith
latest-start time (x ∷ xs) = ground (arith, latest-start (later time x) xs)

latest-bound : (time : ℕ) (xs : List ℕ) (i : ℕ) → get_or xs i 0 ≤ latest time xs
unfolding latest later get_or
latest-bound time [] i = omega arith
latest-bound time (x ∷ xs) zero = ground (arith, latest-start (later time x) xs)
latest-bound time (x ∷ xs) (suc i) = latest-bound (later time x) xs i

later-cases : (time x : ℕ) → (later time x ≡ time) ⊎ (later time x ≡ x)
unfolding later
later-cases time x = ground arith

latest-reached :
    (time : ℕ) (xs : List ℕ)
    → (latest time xs ≡ time) ⊎ ((i : ℕ) × (get_or xs i 0 ≡ latest time xs))
unfolding latest get_or
latest-reached time [] = inl refl
latest-reached time (x ∷ xs) = elim (latest-reached (later time x) xs) [
  | inl e ↦ elim (later-cases time x) [
    | inl same ↦ inl (e ∙ same)
    | inr new ↦ inr (0, sym (e ∙ new))
  ]
  | inr (i, e) ↦ inr (suc i, e)
]

latest-Greatest : (xs : List ℕ) → Greatest xs (latest 0 xs)
latest-Greatest xs = (
  latest-bound 0 xs,
  elim (latest-reached 0 xs) [
    | inl e ↦ (length xs, get_or-past xs (length xs) 0 (omega arith) ∙ sym e)
    | inr found ↦ found
  ],
)

some_finished :
    (ps : List Pcb) (ws : List Worker)
    → 0 < latest 0 (map (λ p. p.finish_time) ps)
    → simulation_time ps ws ≡ latest 0 (map (λ p. p.finish_time) ps)
unfolding simulation_time
some_finished ps ws some =
    let e : (count_processes no_totals ps).max_finish_time
        ≡ latest 0 (map (λ p. p.finish_time) ps) =
      count_processes-latest no_totals ps in
    ground (arith, e)

none_finished :
    (ps : List Pcb) (ws : List Worker)
    → latest 0 (map (λ p. p.finish_time) ps) ≡ 0
    → simulation_time ps ws ≡ latest 0 (map (λ w. w.core_clock) ws)
unfolding simulation_time
none_finished ps ws nobody =
    let e : (count_processes no_totals ps).max_finish_time ≡ 0 =
      count_processes-latest no_totals ps ∙ nobody in
    ground (arith, e, last_clock-latest 0 ws)

-- The time of the simulation is that of the last process to finish; if none finished after time 0, it is
-- the greatest clock of a core.
simulation_time-Greatest :
    (ps : List Pcb) (ws : List Worker)
    → ((i : ℕ)
        → 0 < get_or (map (λ p. p.finish_time) ps) i 0
        → Greatest (map (λ p. p.finish_time) ps) (simulation_time ps ws))
      × (((i : ℕ) → get_or (map (λ p. p.finish_time) ps) i 0 ≡ 0)
          → Greatest (map (λ w. w.core_clock) ws) (simulation_time ps ws))
simulation_time-Greatest ps ws =
    let times : List ℕ = map (λ p. p.finish_time) ps in
    let clocks : List ℕ = map (λ w. w.core_clock) ws in
    (
      λ i later_than.
          let bound : get_or times i 0 ≤ latest 0 times = latest-bound 0 times i in
          rw (some_finished ps ws (omega (arith, later_than, bound))) (latest-Greatest times),
      λ zeros.
          let (i, e) = (latest-Greatest times).1 in
          rw (none_finished ps ws (sym e ∙ zeros i)) (latest-Greatest clocks),
    )
