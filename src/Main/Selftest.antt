-- ===== src/Main/Selftest.antt =====
-- src/lib.rs: the run of the tests. A test passes or panics; what is left to the emulator is a write to its
-- port, and a name is given by its bytes.
use rucoonos.Prelude.{
  ℕ, ◌≡◌, refl, arith, Bool, true, ◌&&◌, List, [], ◌∷◌, Bytes, length, if◌then◌else◌,
}

pub data QemuExitCode : Type 0 where
  success failed : QemuExitCode

abbrev as_u32 : QemuExitCode → ℕ
as_u32 QemuExitCode.success = 0x10
as_u32 QemuExitCode.failed = 0x11

pub data Printed : Type 0 where
  running_tests : (count : ℕ) → Printed
  started : (name : Bytes) → Printed
  finished failed : Printed

pub record Test : Type 0 where
  pub name : Bytes
  pub passes : Bool

-- What is printed, and the writes to the ports.
pub record Trace : Type 0 where
  pub printed : List Printed
  pub writes : List (ℕ × ℕ)

abbrev print : Printed → Trace → Trace
print p t = record t { printed = p ∷ t.printed }

-- What remains after `exit_qemu`, if the emulator does not end at once: nothing.
exit_qemu : QemuExitCode → Trace
exit_qemu exit_code = record { printed = []; writes = (0xf4, as_u32 exit_code) ∷ [] }

-- `test_panic_handler`, which then halts for ever.
test_panic_handler : Trace
unfolding exit_qemu
test_panic_handler = print Printed.failed (exit_qemu QemuExitCode.failed)

-- The loop of `test_runner`, with `Testable::run`.
run_all : List Test → Trace
unfolding exit_qemu test_panic_handler
run_all [] = exit_qemu QemuExitCode.success
run_all (t ∷ ts) =
    let rest = print Printed.finished (run_all ts) in
    print (Printed.started t.name) (if t.passes then rest else test_panic_handler)

pub test_runner : List Test → Trace
unfolding run_all
test_runner tests = print (Printed.running_tests (length tests)) (run_all tests)

-- The reference: whether all tests pass.
pub all_pass : List Test → Bool
all_pass [] = true
all_pass (t ∷ ts) = t.passes && all_pass ts

run_all-writes :
    (tests : List Test)
    → (run_all tests).writes ≡ (0xf4, if all_pass tests then 0x10 else 0x11) ∷ []
unfolding run_all all_pass
run_all-writes [] = refl
run_all-writes (t ∷ ts) = ground (arith, run_all-writes ts)

-- The emulator is given one exit code, that of success exactly if all tests pass.
pub test_runner-writes :
    (tests : List Test)
    → (test_runner tests).writes ≡ (0xf4, if all_pass tests then 0x10 else 0x11) ∷ []
unfolding test_runner
test_runner-writes tests = run_all-writes tests
