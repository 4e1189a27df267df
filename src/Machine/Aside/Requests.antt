-- ===== src/Machine/Aside/Requests.antt =====
-- That the requests of the I/O manager keep account of the processes that are aside.
use multicore_simulator.Prelude.{
  ℕ, Bool, true, false, List, [], ◌∷◌, ◌++◌, Option, none, some, ◌≡◌, ◌+◌, ◌*◌, ◌%◌, String, refl,
  sym, ap, arith, if◌then◌else◌, tally, count,
}
use mathlib.Core.Option.{some_inj}
use multicore_simulator.Io.{
  Draws, Request, IoManager, request_printer, request_disk, ask_devices, choose_device, new_request,
  make_request, add_if, add_request, queue_request,
}
use multicore_simulator.Machine.{Machine, ask_step, queue_step}
use multicore_simulator.Machine.Aside.{requested, Waits}
use multicore_simulator.Machine.Aside.Quiet.{Accounted-same}

requested-append :
    (q : ℕ) (rs : List Request) (r : Request)
    → count q (requested (rs ++ r ∷ [])) ≡ count q (requested rs) + count q (r.process ∷ [])
unfolding requested tally
requested-append q [] r = omega arith
requested-append q (s ∷ rs) r = omega (arith, requested-append q rs r)

io_of : IoManager → ℕ → ℕ
io_of io q = count q io.waiting_processes + count q (requested io.requests)

-- The devices ask, and a request is made of the first process that waits: the manager has the same
-- processes after it.
ask_devices-keeps : (d : Draws) (io : IoManager) (q : ℕ) → io_of (ask_devices d io) q ≡ io_of io q
unfolding io_of ask_devices request_disk request_printer
ask_devices-keeps d io q = ground arith

new_request-keeps :
    (d : Draws) (io : IoManager) (p : ℕ) (rest : List ℕ) (o : Option (String × String × IoManager))
    (q : ℕ)
    → io.waiting_processes ≡ p ∷ rest
    → ((a : String × String × IoManager) → o ≡ some a → a.2.requests ≡ io.requests)
    → let (io', r) = new_request d io p rest o in io_of (add_if io' r) q ≡ io_of io q
unfolding io_of new_request add_if add_request tally requested
new_request-keeps d io p rest none q e same = refl
new_request-keeps d io p rest (some (operation, msg, io')) q e same =
    let kept = ap (λ rs. count q (requested rs)) (same (operation, msg, io') refl) in
    omega (
      arith,
      requested-append q io'.requests (record {
        operation = operation;
        msg = msg;
        process = p;
        cost_cycles = (d.cost % 3 + 1) * 100;
      }),
      ap (count q) e,
      kept,
    )

choose_device-keeps :
    (io : IoManager) (a : String × String × IoManager)
    → choose_device io ≡ some a
    → a.2.requests ≡ io.requests
unfolding choose_device
choose_device-keeps io a e = choose io.printer_requesting io.disk_requesting e
  where
    choose :
        (printer disk : Bool)
        → (if printer
            then some
                ("print_job", "Imprimindo documento...", record io { printer_requesting = false })
            else if disk
            then some
                ("read_from_disk", "Lendo dados do disco...", record io { disk_requesting = false })
            else none)
          ≡ some a
        → a.2.requests ≡ io.requests
    choose true disk f = ap (λ (b : String × String × IoManager). b.2.requests) (sym (some_inj.0 f))
    choose false true f =
        ap (λ (b : String × String × IoManager). b.2.requests) (sym (some_inj.0 f))
    choose false false f = cc

make_request-keeps :
    (d : Draws) (io : IoManager) (xs : List ℕ) (q : ℕ)
    → io.waiting_processes ≡ xs
    → let (io', r) = make_request d io xs in io_of (add_if io' r) q ≡ io_of io q
unfolding make_request add_if
make_request-keeps d io [] q e = refl
make_request-keeps d io (p ∷ rest) q e =
    new_request-keeps d io p rest (choose_device io) q e (choose_device-keeps io)

queue_request-keeps :
    (d : Draws) (io : IoManager) (q : ℕ) → io_of (queue_request d io) q ≡ io_of io q
unfolding queue_request
queue_request-keeps d io q = make_request-keeps d io io.waiting_processes q refl

pub ask_step-Waits : (d : Draws) (m : Machine) → Waits m → Waits (ask_step d m)
unfolding ask_step io_of
ask_step-Waits d m k = record {
  accounted = λ q.
      Accounted-same _ _ _ _ _ _ (ask_devices-keeps d m.io_manager q) refl refl (k.accounted q);
  own = k.own;
}

pub queue_step-Waits : (d : Draws) (m : Machine) → Waits m → Waits (queue_step d m)
unfolding queue_step io_of
queue_step-Waits d m k = record {
  accounted = λ q.
      Accounted-same _ _ _ _ _ _ (queue_request-keeps d m.io_manager q) refl refl (k.accounted q);
  own = k.own;
}
