-- ===== src/Control/Execute/Run/Termination.antt =====
-- `Core` of src/cpu/CONTROL_UNIT.cpp ends, and throws nothing.
use multicore_simulator.Prelude.{
  ℕ, zero, suc, Bool, true, false, List, [], ◌∷◌, ◌++◌, some, ◌≡◌, ◌≢◌, ◌⊎◌, ◌<◌, ◌+◌, ◌-◌, ◌==◌,
  ◌&&◌, inl, inr, refl, sym, ◌∙◌, arith, leb, Bool-cases, if◌then◌else◌, get_or,
}
use multicore_simulator.Process.{finished}
use multicore_simulator.Memory.Manager.{System}
use multicore_simulator.Memory.Manager.Quantum.{quantum_of, state_of}
use multicore_simulator.Control.Decode.{InstructionData, empty_instruction}
use multicore_simulator.Control.Core.{Core, IoRequest, account_pipeline_cycle}
use multicore_simulator.Control.Execute.{fetch}
use multicore_simulator.Control.Execute.Coded.{empty_instruction-Coded}
use multicore_simulator.Control.Execute.Keeps.{
  AllCoded, Keeps, Keeps-refl, Keeps-trans, Succeeds, on_block-Keeps, choice-Keeps, choice-Succeeds,
}
use multicore_simulator.Control.Execute.Total.{
  execute-Succeeds, memory_acess-Succeeds, write_back-Succeeds, decode_at-Keeps, fetch-Keeps,
}
use multicore_simulator.Control.Execute.Run.{
  new_core, write_back_stage, memory_stage, execute_stage, decode_stage, fetch_stage, stages,
  is_over, count_down, end_round, rounds, finish, run_core,
}

write_back_stage-Succeeds : (c : Core) → AllCoded c.instructions → Succeeds c (write_back_stage c)
unfolding write_back_stage
write_back_stage-Succeeds c h =
    choice-Succeeds c _ (leb 4 c.counter && leb 1 c.counter_for_end)
      (write_back-Succeeds c _ (h (c.counter - 4)))

memory_stage-Succeeds : (c : Core) → AllCoded c.instructions → Succeeds c (memory_stage c)
unfolding memory_stage
memory_stage-Succeeds c h =
    choice-Succeeds c _ (leb 3 c.counter && leb 2 c.counter_for_end)
      (memory_acess-Succeeds c _ (h (c.counter - 3)))

execute_stage-Succeeds : (c : Core) → AllCoded c.instructions → Succeeds c (execute_stage c)
unfolding execute_stage
execute_stage-Succeeds c h =
    choice-Succeeds c _ (leb 2 c.counter && leb 3 c.counter_for_end)
      (execute-Succeeds c _ (h (c.counter - 2)))

decode_stage-Keeps : (c : Core) → Keeps c (decode_stage c)
unfolding decode_stage
decode_stage-Keeps c =
    choice-Keeps c _ c (leb 1 c.counter && leb 4 c.counter_for_end)
      (decode_at-Keeps c (c.counter - 1)) (Keeps-refl c)

pub AllCoded-append_empty :
    (xs : List InstructionData) → AllCoded xs → AllCoded (xs ++ empty_instruction ∷ [])
unfolding get_or
AllCoded-append_empty [] h zero = empty_instruction-Coded
AllCoded-append_empty [] h (suc i) = empty_instruction-Coded
AllCoded-append_empty (x ∷ xs) h zero = h zero
AllCoded-append_empty (x ∷ xs) h (suc i) = AllCoded-append_empty xs (λ k. h (suc k)) i

-- What a round leaves as it was, and the termination of the loop rests on.
pub record Paced (c c' : Core) : Type 0 where
  pub process : c'.process ≡ c.process
  pub counter_for_end : c'.counter_for_end ≡ c.counter_for_end
  pub quantum : quantum_of c'.system c'.process ≡ quantum_of c.system c.process
  pub others : (q : ℕ) → q ≢ c.process → state_of c'.system q ≡ state_of c.system q
  pub unfinished : (q : ℕ) → state_of c'.system q ≡ finished → state_of c.system q ≡ finished
  pub ended : c.end_execution ≡ true → c'.end_execution ≡ true
  pub coded : AllCoded c.instructions → AllCoded c'.instructions

Keeps-Paced : (c c' : Core) → Keeps c c' → Paced c c'
Keeps-Paced c c' k = record {
  process = k.process;
  counter_for_end = k.counter_for_end;
  quantum = k.quantum;
  others = k.others;
  unfinished = k.unfinished;
  ended = k.ended;
  coded = k.coded;
}

Paced-trans : (a b c : Core) → Paced a b → Paced b c → Paced a c
Paced-trans a b c h k = record {
  process = k.process ∙ h.process;
  counter_for_end = k.counter_for_end ∙ h.counter_for_end;
  quantum = k.quantum ∙ h.quantum;
  others = λ q n. k.others q (λ e. n (e ∙ h.process)) ∙ h.others q n;
  unfinished = λ q e. h.unfinished q (k.unfinished q e);
  ended = λ e. k.ended (h.ended e);
  coded = λ all. k.coded (h.coded all);
}

fetch_stage-Paced : (c : Core) → Paced c (fetch_stage c)
unfolding fetch_stage
fetch_stage-Paced c = choose (c.counter_for_end == 5)
  where
    grown : Core
    grown = record c { instructions = c.instructions ++ empty_instruction ∷ [] }

    choose : (b : Bool) → Paced c (if b then fetch grown else c)
    choose true =
        Paced-trans c grown _
          (record {
            process = refl;
            counter_for_end = refl;
            quantum = refl;
            others = λ q n. refl;
            unfinished = λ q e. e;
            ended = λ e. e;
            coded = AllCoded-append_empty c.instructions;
          })
          (Keeps-Paced grown _ (fetch-Keeps grown))
    choose false = Keeps-Paced c c (Keeps-refl c)

-- The stages of a round before Fetch throw nothing.
pub before_fetch :
    (c : Core)
    → AllCoded c.instructions
    → (c' : Core) × (stages c ≡ some (fetch_stage c')) × Keeps c c'
unfolding stages
before_fetch c h =
    let (c1, e1, k1) = write_back_stage-Succeeds c h in
    let (c2, e2, k2) = memory_stage-Succeeds c1 (k1.coded h) in
    let (c3, e3, k3) = execute_stage-Succeeds c2 (k2.coded (k1.coded h)) in
    (
      decode_stage c3,
      rw (e1, e2, e3) refl,
      Keeps-trans c c1 _ k1
          (Keeps-trans c1 c2 _ k2 (Keeps-trans c2 c3 _ k3 (decode_stage-Keeps c3))),
    )

-- A round throws nothing.
pub stages-Paced :
    (c : Core) → AllCoded c.instructions → (c' : Core) × (stages c ≡ some c') × Paced c c'
stages-Paced c h =
    let (c', e, k) = before_fetch c h in
    (fetch_stage c', e, Paced-trans c c' _ (Keeps-Paced c c' k) (fetch_stage-Paced c'))

-- The rounds that are left: those until the quantum is used up, unless the end has begun, and those
-- that empty the pipeline.
abbrev pub Enough : ℕ → ℕ → Core → Type 0
Enough fuel clock c =
    ((c.end_execution ≡ true) × (c.counter_for_end < fuel))
    ⊎ (quantum_of c.system c.process - clock - 1 + c.counter_for_end < fuel)

counted-quantum :
    (c : Core)
    → let counted = account_pipeline_cycle (record c { counter = c.counter + 1 }) in
      quantum_of counted.system counted.process ≡ quantum_of c.system c.process
counted-quantum c =
    (on_block-Keeps (record c { counter = c.counter + 1 }) _ (λ p. refl) (λ p e. e)).quantum

count_down-Enough :
    (fuel clock : ℕ) (c : Core) (over : Bool)
    → is_over (clock + 1) c ≡ over
    → c.counter_for_end ≢ 0
    → Enough (suc fuel) clock c
    → Enough fuel (clock + 1) (count_down over c)
unfolding count_down is_over
count_down-Enough fuel clock c true e positive h = inl (refl, few h)
  where
    few : Enough (suc fuel) clock c → c.counter_for_end - 1 < fuel
    few (inl (ended, k)) = omega arith
    few (inr k) = omega arith
count_down-Enough fuel clock c false e positive h = ground arith

pub end_round-Enough :
    (fuel clock : ℕ) (c c' : Core)
    → Paced c c'
    → c.counter_for_end ≢ 0
    → Enough (suc fuel) clock c
    → Enough fuel (clock + 1) (end_round (clock + 1) c')
unfolding end_round
end_round-Enough fuel clock c c' k positive h =
    let counted = account_pipeline_cycle (record c' { counter = c'.counter + 1 }) in
    count_down-Enough fuel clock counted (is_over (clock + 1) counted) refl
      (λ e. positive (sym k.counter_for_end ∙ e)) (carried h)
  where
    carried :
        Enough (suc fuel) clock c
        → Enough (suc fuel) clock (account_pipeline_cycle (record c' { counter = c'.counter + 1 }))
    carried (inl (ended, few)) = inl (k.ended ended, omega (arith, k.counter_for_end))
    carried (inr few) = inr (omega (arith, k.counter_for_end, counted-quantum c', k.quantum))

pub end_round-AllCoded :
    (clock : ℕ) (c : Core) → AllCoded c.instructions → AllCoded (end_round clock c).instructions
unfolding end_round
end_round-AllCoded clock c h =
    kept (is_over clock (account_pipeline_cycle (record c { counter = c.counter + 1 })))
  where
    kept :
        (b : Bool)
        → AllCoded
            (count_down b
              (account_pipeline_cycle (record c { counter = c.counter + 1 }))).instructions
    kept true = unfold count_down in h
    kept false = unfold count_down in h

rounds-terminate :
    (fuel clock : ℕ) (c : Core)
    → AllCoded c.instructions
    → Enough fuel clock c
    → (c' : Core) × (rounds fuel clock c ≡ some c') × (c'.counter_for_end ≡ 0)
unfolding rounds
rounds-terminate zero clock c h enough = absurd (none_left enough)
  where
    none_left : Enough 0 clock c → ⊥
    none_left (inl (ended, k)) = omega arith
    none_left (inr k) = omega arith
rounds-terminate (suc fuel) clock c h enough = elim (Bool-cases (c.counter_for_end == 0)) [
  | inl e ↦ (c, rw e refl, ground arith)
  | inr e ↦
      let (c', k, paced) = stages-Paced c h in
      let next = end_round-Enough fuel clock c c' paced (ground arith) enough in
      let (last, f, empty) =
        rounds-terminate fuel (clock + 1) (end_round (clock + 1) c')
          (end_round-AllCoded (clock + 1) c' (paced.coded h)) next in
      (last, rw (e, k) f, empty)
]

-- Core ends and throws nothing, on any system and process: fuel above the quantum and five is
-- enough, and the pipeline has been counted down to 0 then.
pub run_core-ends :
    (fuel : ℕ) (system : System) (process : ℕ) (requests : List IoRequest) (print_lock : Bool)
    → quantum_of system process + 5 < fuel
    → (c : Core) × (run_core fuel system process requests print_lock ≡ some c)
      × (c.counter_for_end ≡ 0)
unfolding run_core finish new_core get_or
run_core-ends fuel system process requests print_lock h =
    let start = new_core system process requests print_lock in
    let (c, e, empty) =
      rounds-terminate fuel 0 start (λ i. empty_instruction-Coded) (inr (omega arith)) in
    (finish c, rw e refl, finished c empty)
  where
    finished : (c : Core) → c.counter_for_end ≡ 0 → (finish c).counter_for_end ≡ 0
    finished c e = ground arith
