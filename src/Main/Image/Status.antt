-- ===== src/Main/Image/Status.antt =====
-- boot/src/main.rs: how a run of the tests of src/lib.rs ends.
use rucoonos.Prelude.{
  ℕ, ◌+◌, ◌*◌, ◌≡◌, refl, ap, ◌∙◌, Bool, true, false, if◌then◌else◌, List, [], ◌∷◌, some, ok, ◌>>=◌,
}
use Prim.Native.String.{String}
use rucoonos.Main.Selftest.{Test, test_runner, test_runner-writes, all_pass}
use rucoonos.Main.Image.{
  Host, exited, expect, success, emulator_args, no_boot, create_disk_images, passed_on,
  run_emulator, main,
}

-- Where the emulator ends with `2 * v + 1` for a value `v` that is written to its port, the program exits with
-- 33 after tests that all pass, and with 35 otherwise, so never as a program that succeeds.
main-test_runner :
    (host : Host) (path kernel_binary_path bios : String) (tests : List Test)
    → host.canonicalize path ≡ some kernel_binary_path
    → create_disk_images host kernel_binary_path ≡ ok bios
    → ((v : ℕ)
        → (test_runner tests).writes ≡ (0xf4, v) ∷ []
        → host.emulate (emulator_args bios) ≡ some (some (2 * v + 1)))
    → main host (path ∷ []) ≡ ok (exited (if all_pass tests then 33 else 35))
unfolding main no_boot run_emulator passed_on success
main-test_runner host path kernel_binary_path bios tests found built ends =
    ap (λ o. expect o >>= λ k. create_disk_images host k >>= λ b. run_emulator host b false) found
    ∙ ap (λ o. o >>= λ b. run_emulator host b false) built
    ∙ ap (λ o. expect o >>= λ status. ok (passed_on host status))
        (ends _ (test_runner-writes tests))
    ∙ either (all_pass tests)
  where
    either :
        (b : Bool)
        → ok (passed_on host (some (2 * (if b then 0x10 else 0x11) + 1)))
          ≡ ok (exited (if b then 33 else 35))
    either true = refl
    either false = refl
