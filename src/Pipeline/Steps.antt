-- ===== src/Pipeline/Steps.antt =====
-- One round of `Core` of src/cpu/CONTROL_UNIT.cpp in a program of arithmetic instructions.
use multicore_simulator.Prelude.{
  ℕ, true, false, List, some, ◌≡◌, ◌⊎◌, ◌≤◌, ◌<◌, ◌+◌, ◌-◌, ◌==◌, ◌&&◌, ◌∙◌, inl, inr, refl, sym,
  ap, arith, leb, length, if◌then◌else◌,
}
use multicore_simulator.Control.Decode.{InstructionData}
use multicore_simulator.Control.Core.{Core}
use multicore_simulator.Control.Execute.{decode_at}
use multicore_simulator.Control.Execute.Run.{decode_stage, fetch_stage, stages, end_round}
use multicore_simulator.Pipeline.Back.{Setting, Back-Flow, early-Halfway, late-Halfway}
use multicore_simulator.Pipeline.Front.{Fetched, decode_at-Decoded}
use multicore_simulator.Pipeline.Count.{Filled-Filling, Decoding-Emptying, Flow-Emptied}
use multicore_simulator.Pipeline.Rounds.{Decoding, Emptied, Emptying, Filling, fetch_stage-Filled}

module _ (g : Setting) where
  -- The core at the head of the loop, when at least the first words have been executed or are in the
  -- pipeline.
  pub data Running (c : Core) (k : ℕ) : Type 0 where
    filling : (m p : ℕ) → k ≤ m + p → Filling g c m p → Running c k
    emptying : (m p : ℕ) → k ≤ m + p → Emptying g c m p → Running c k
    emptied : (m : ℕ) → k ≤ m → Emptied g c m → Running c k

  -- A round leads to a core at the head of the loop.
  abbrev pub Steps : ℕ → Core → ℕ → Type 0
  Steps clock c n = (c' : Core) × (stages c ≡ some c') × Running (end_round clock c') n

  -- The stages up to Decode while the pipeline is filled.
  decoding :
      (c : Core) (n p : ℕ)
      → Filling g c n p
      → 4 ≤ c.counter_for_end
      → (d : Core) × (q : ℕ) × (stages c ≡ some (fetch_stage d))
        × Decoding g d (n + p) q
        × (length c.instructions ≤ 1 → n + p < length g.program → q ≡ 1)
        × (d.counter_for_end ≡ c.counter_for_end)
        × (d.end_program ≡ c.end_program)
        × (d.end_execution ≡ c.end_execution)
  unfolding decode_stage
  decoding c n p h early =
      let (b, e, k) = early-Halfway g c n p h.flow h.pending (omega (arith, early)) in
      let flow = Back-Flow g c b n (n + p) k h.flow in
      let count : length b.instructions ≡ c.counter =
        ap (λ (xs : List InstructionData). length xs) k.instructions ∙ h.sized in
      let (q, d) =
        decode_at-Decoded g b (b.counter - 1) (n + p) flow
          (omega (arith, count, k.counter, h.begun))
          (rw (k.ir_kept, k.pc_kept, k.end_program) h.fetched) in
      let test : (leb 1 b.counter && leb 4 b.counter_for_end) ≡ true =
        ground (arith, k.counter, k.counter_for_end, h.begun) in
      (
        decode_at b (b.counter - 1),
        q,
        e ∙ ap (λ t. some (fetch_stage (if t then decode_at b (b.counter - 1) else b))) test,
        record {
          flow = d.flow;
          next = rw d.counter d.next;
          begun = λ _. omega (arith, d.counter, k.counter, h.begun);
          pc_next = d.pc_next;
          inside = d.inside;
          sized = d.sized ∙ count ∙ sym k.counter ∙ sym d.counter;
        },
        λ few more. d.first (omega (arith, few, count, h.sized)) more,
        d.counter_for_end ∙ k.counter_for_end,
        d.end_program ∙ k.end_program,
        d.end_execution ∙ k.end_execution,
      )

  -- How far the program is after a round of the pipeline that Decode leaves with `q` instructions; the
  -- first instruction of a call does not wait.
  abbrev pub Bound : Core → ℕ → ℕ → ℕ → Type 0
  Bound c n p k =
      (q : ℕ) → (length c.instructions ≤ 1 → n + p < length g.program → q ≡ 1) → k ≤ n + p + q

  at_end : (c : Core) (m : ℕ) → Fetched g c m → c.end_program ≡ true → m ≡ length g.program
  at_end c m (_, inl (_, _, going)) x = cc (going, x)
  at_end c m (_, inr (last, _, _)) x = last

  pub Filling-Steps :
      (clock : ℕ) (c : Core) (n p k : ℕ) → Filling g c n p → Bound c n p k → Steps clock c k
  unfolding fetch_stage
  Filling-Steps clock c n p k h bound = go h.pace
    where
      go :
          (((c.counter_for_end ≡ 5) × (c.end_program ≡ false))
            ⊎ ((c.counter_for_end ≡ 4) × (c.end_execution ≡ true)))
          → Steps clock c k
      go (inl (five, going)) =
          let (d, q, e, decoded_d, first, count, program_end, _) =
            decoding c n p h (omega (arith, five)) in
          let filled =
            fetch_stage-Filled g d (n + p) q decoded_d (count ∙ five) (program_end ∙ going) in
          (
            fetch_stage d,
            e,
            filling (n + p) q (bound q first) (Filled-Filling g clock _ (n + p) q filled),
          )
      go (inr (four, stopped)) =
          let (d, q, e, decoded_d, first, count, program_end, execution_end) =
            decoding c n p h (omega (arith, four)) in
          let test : (d.counter_for_end == 5) ≡ false = ground (arith, count, four) in
          let done : c.end_program ≡ true → n + p ≡ length g.program = at_end c (n + p) h.fetched in
          (
            d,
            e ∙ rw test refl,
            emptying (n + p) q (bound q first) (
                Decoding-Emptying g clock d (n + p) q decoded_d (count ∙ four)
                  (execution_end ∙ stopped)
                  (λ x. omega (arith, done (sym program_end ∙ x), decoded_d.inside))),
          )

  -- Decode and Fetch have no part in a round of the last three.
  no_front : (c : Core) → c.counter_for_end < 4 → fetch_stage (decode_stage c) ≡ c
  unfolding fetch_stage decode_stage
  no_front c late =
      let test : (leb 1 c.counter && leb 4 c.counter_for_end) ≡ false = ground (arith, late) in
      let idle : (c.counter_for_end == 5) ≡ false = ground (arith, late) in rw (test, idle) refl

  Emptying-Steps : (clock : ℕ) (c : Core) (n p : ℕ) → Emptying g c n p → Steps clock c (n + p)
  Emptying-Steps clock c n p h =
      let (b, e, k) = early-Halfway g c n p h.flow h.pending (omega (arith, h.pace)) in
      let flow = Back-Flow g c b n (n + p) k h.flow in
      (
        b,
        e ∙ ap some (no_front b (omega (arith, k.counter_for_end, h.pace))),
        emptied (n + p) (omega arith) (
            Flow-Emptied g clock b (n + p) flow (k.pc_kept ∙ h.pc_next) h.inside
              (omega (arith, k.counter_for_end, h.pace)) (k.end_execution ∙ h.stopping)
              (λ x. h.over (sym k.end_program ∙ x))),
      )

  Emptied-Steps : (clock : ℕ) (c : Core) (n : ℕ) → Emptied g c n → Steps clock c n
  Emptied-Steps clock c n h =
      let (b, e, k) = late-Halfway g c n h.flow h.pace in
      let flow = Back-Flow g c b n n k h.flow in
      (
        b,
        e ∙ ap some (no_front b (omega (arith, k.counter_for_end, h.pace))),
        emptied n (omega arith) (
            Flow-Emptied g clock b n flow (k.pc_kept ∙ h.pc_next) h.inside
              (omega (arith, k.counter_for_end, h.pace)) (k.end_execution ∙ h.stopping)
              (λ x. h.over (sym k.end_program ∙ x))),
      )

  Running-≤ : (c : Core) (k n : ℕ) → k ≤ n → Running c n → Running c k
  Running-≤ c k n low (filling m p above h) = filling m p (omega (arith, low, above)) h
  Running-≤ c k n low (emptying m p above h) = emptying m p (omega (arith, low, above)) h
  Running-≤ c k n low (emptied m above h) = emptied m (omega (arith, low, above)) h

  Steps-≤ : (clock : ℕ) (c : Core) (k n : ℕ) → k ≤ n → Steps clock c n → Steps clock c k
  Steps-≤ clock c k n low (c', e, h) = (c', e, Running-≤ (end_round clock c') k n low h)

  pub Running-Steps : (clock : ℕ) (c : Core) (k : ℕ) → Running c k → Steps clock c k
  Running-Steps clock c k (filling m p low h) =
      Filling-Steps clock c m p k h (λ q first. omega (arith, low))
  Running-Steps clock c k (emptying m p low h) =
      Steps-≤ clock c k (m + p) low (Emptying-Steps clock c m p h)
  Running-Steps clock c k (emptied m low h) = Steps-≤ clock c k m low (Emptied-Steps clock c m h)
