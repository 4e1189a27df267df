-- ===== src/Control/Execute/Keeps.antt =====
-- What a stage of src/cpu/CONTROL_UNIT.cpp leaves as it was: the counters of the loop, the quantum,
-- the states of the other processes, and bit strings that can be read.
use multicore_simulator.Prelude.{
  ℕ, zero, suc, Bool, true, false, List, [], ◌∷◌, ◌++◌, Option, none, some, ◌≡◌, ◌≢◌, refl, sym,
  ◌∙◌, arith, ==_refl, if◌then◌else◌, length, length-set, get_or, set,
}
use multicore_simulator.Process.{Pcb, modify, blocked, finished}
use multicore_simulator.Cpu.Alu.{as_i32}
use multicore_simulator.Cpu.Registers.{RegisterBank}
use multicore_simulator.Memory.Manager.Quantum.{quantum_of, state_of, read-Same}
use multicore_simulator.Control.Decode.{InstructionData, empty_instruction}
use multicore_simulator.Control.Core.{
  Core, IoRequest, on_block, set_registers, account_stage, assign,
}
use multicore_simulator.Control.Execute.{assign_if, request_print, make_bubble, load}
use multicore_simulator.Control.Execute.Coded.{Coded, IsCode, assign-IsCode}

abbrev pub AllCoded : List InstructionData → Type 0
AllCoded instructions = (i : ℕ) → Coded (get_or instructions i empty_instruction)

-- What a stage leaves as it was.
pub record Keeps (c c' : Core) : Type 0 where
  pub process : c'.process ≡ c.process
  pub counter : c'.counter ≡ c.counter
  pub counter_for_end : c'.counter_for_end ≡ c.counter_for_end
  pub sized : length c'.instructions ≡ length c.instructions
  pub quantum : quantum_of c'.system c'.process ≡ quantum_of c.system c.process
  pub others : (q : ℕ) → q ≢ c.process → state_of c'.system q ≡ state_of c.system q
  pub unfinished : (q : ℕ) → state_of c'.system q ≡ finished → state_of c.system q ≡ finished
  pub ended : c.end_execution ≡ true → c'.end_execution ≡ true
  pub finishing : c.end_program ≡ true → c'.end_program ≡ true
  pub coded : AllCoded c.instructions → AllCoded c'.instructions

abbrev pub Succeeds : Core → Option Core → Type 0
Succeeds c o = (c' : Core) × (o ≡ some c') × Keeps c c'

pub Keeps-refl : (c : Core) → Keeps c c
Keeps-refl c = record {
  process = refl;
  counter = refl;
  counter_for_end = refl;
  sized = refl;
  quantum = refl;
  others = λ q n. refl;
  unfinished = λ q e. e;
  ended = λ e. e;
  finishing = λ e. e;
  coded = λ h. h;
}

pub Keeps-trans : (a b c : Core) → Keeps a b → Keeps b c → Keeps a c
Keeps-trans a b c h k = record {
  process = k.process ∙ h.process;
  counter = k.counter ∙ h.counter;
  counter_for_end = k.counter_for_end ∙ h.counter_for_end;
  sized = k.sized ∙ h.sized;
  quantum = k.quantum ∙ h.quantum;
  others = λ q n. k.others q (λ e. n (e ∙ h.process)) ∙ h.others q n;
  unfinished = λ q e. h.unfinished q (k.unfinished q e);
  ended = λ e. k.ended (h.ended e);
  finishing = λ e. k.finishing (h.finishing e);
  coded = λ all. k.coded (h.coded all);
}

-- What another core has to share with a core for it to be one that a stage may leave.
pub after : (a b : Core) (o : Option Core) → Keeps a b → Succeeds b o → Succeeds a o
after a b o h (c, e, k) = (c, e, Keeps-trans a b c h k)

pub on_block-Keeps :
    (c : Core) (f : Pcb → Pcb)
    → ((p : Pcb) → (f p).quantum ≡ p.quantum)
    → ((p : Pcb) → (f p).state ≡ finished → p.state ≡ finished)
    → Keeps c (on_block c f)
on_block-Keeps c f keep stays = record {
  process = refl;
  counter = refl;
  counter_for_end = refl;
  sized = refl;
  quantum =
      unfold modify in rw (==_refl c.process, quantum_of) (keep (c.system.processes c.process));
  others = λ q n. unfold modify in ground (arith, n);
  unfinished = λ q. unfold modify in λ e. ground (arith, e, stays (c.system.processes q));
  ended = λ e. e;
  finishing = λ e. e;
  coded = λ h. h;
}

pub set_registers-Keeps : (c : Core) (bank : RegisterBank) → Keeps c (set_registers bank c)
set_registers-Keeps c bank =
    on_block-Keeps c (λ p. record p { reg_bank = bank }) (λ p. refl) (λ p e. e)

pub account_stage-Keeps : (c : Core) → Keeps c (account_stage c)
account_stage-Keeps c = on_block-Keeps c _ (λ p. refl) (λ p e. e)

pub load-Keeps : (c : Core) (address : ℕ) → Keeps c (load c address).0
load-Keeps c address = record {
  process = refl;
  counter = refl;
  counter_for_end = refl;
  sized = refl;
  quantum = (read-Same c.system address c.process c.process).0;
  others = λ q n. (read-Same c.system address c.process q).1;
  unfinished = λ q e. sym (read-Same c.system address c.process q).1 ∙ e;
  ended = λ e. e;
  finishing = λ e. e;
  coded = λ h. h;
}

pub assign-Succeeds :
    (c : Core) (code : List ℕ) (value : ℕ) → IsCode code → Succeeds c (assign c code value)
assign-Succeeds c code value h =
    let (bank, e) = assign-IsCode c code value h in
    (set_registers bank c, e, set_registers-Keeps c bank)

pub assign_if-Succeeds :
    (c : Core) (code : List ℕ) (o : Option ℕ) → IsCode code → Succeeds c (assign_if c code o)
unfolding assign_if
assign_if-Succeeds c code none h = (c, refl, Keeps-refl c)
assign_if-Succeeds c code (some value) h = assign-Succeeds c code value h

pub choice-Keeps :
    (c a b : Core) (test : Bool) → Keeps c a → Keeps c b → Keeps c (if test then a else b)
choice-Keeps c a b true h k = h
choice-Keeps c a b false h k = k

pub choice-Succeeds :
    (c : Core) (o : Option Core) (test : Bool)
    → Succeeds c o
    → Succeeds c (if test then o else some c)
choice-Succeeds c o true h = h
choice-Succeeds c o false h = (c, refl, Keeps-refl c)

pub request_print-Keeps : (c : Core) (value : ℕ) → Keeps c (request_print c value)
unfolding request_print
request_print-Keeps c value =
    let request : IoRequest = record { value = as_i32 value; process = c.process } in
    let requested : Core = record c { io_requests = c.io_requests ++ request ∷ [] } in
    let asked : Keeps c requested = record {
      process = refl;
      counter = refl;
      counter_for_end = refl;
      sized = refl;
      quantum = refl;
      others = λ q n. refl;
      unfinished = λ q e. e;
      ended = λ e. e;
      finishing = λ e. e;
      coded = λ h. h;
    } in
    let k = on_block-Keeps requested (λ p. record p { state = blocked }) (λ p. refl) (λ p e. cc) in
    choice-Keeps c _ requested c.print_lock
      (record {
        process = k.process;
        counter = k.counter;
        counter_for_end = k.counter_for_end;
        sized = k.sized;
        quantum = k.quantum;
        others = k.others;
        unfinished = k.unfinished;
        ended = λ _. refl;
        finishing = k.finishing;
        coded = k.coded;
      })
      asked

AllCoded-set :
    (xs : List InstructionData) (i : ℕ) (d : InstructionData)
    → Coded d
    → AllCoded xs
    → AllCoded (set xs i d)
unfolding get_or set
AllCoded-set [] i d new h k = h k
AllCoded-set (x ∷ xs) zero d new h zero = new
AllCoded-set (x ∷ xs) zero d new h (suc k) = h (suc k)
AllCoded-set (x ∷ xs) (suc i) d new h zero = h zero
AllCoded-set (x ∷ xs) (suc i) d new h (suc k) = AllCoded-set xs i d new (λ n. h (suc n)) k

-- One instruction of the list is changed for one with strings that can be read.
pub set-Keeps :
    (c : Core) (i : ℕ) (d : InstructionData)
    → (AllCoded c.instructions → Coded d)
    → Keeps c (record c { instructions = set c.instructions i d })
set-Keeps c i d keep = record {
  process = refl;
  counter = refl;
  counter_for_end = refl;
  sized = length-set c.instructions i d;
  quantum = refl;
  others = λ q n. refl;
  unfinished = λ q e. e;
  ended = λ e. e;
  finishing = λ e. e;
  coded = λ h. AllCoded-set c.instructions i d (keep h) h;
}

pub with_instructions-Keeps :
    (c : Core) (b : Bool) (i : ℕ)
    → Keeps c
        (record c { instructions = if b then make_bubble c.instructions i else c.instructions })
unfolding make_bubble
with_instructions-Keeps c false i = Keeps-refl c
with_instructions-Keeps c true i = set-Keeps c i _ λ h. record {
  source = (h i).source;
  target = (h i).target;
  destination = (h i).destination;
  address = (h i).address;
}
