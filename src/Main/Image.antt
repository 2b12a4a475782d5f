-- ===== src/Main/Image.antt =====
-- boot/src/main.rs: the program that builds the disk image of a kernel and starts it in the emulator. The file
-- system, the builder and the emulator are parameters.
pub mod Status
use rucoonos.Prelude.{
  ℕ, Bool, true, false, ◌==◌, if◌then◌else◌, List, [], ◌∷◌, Option, none, some, Outcome, ok, panic,
  assert, ◌>>=◌, ◌>>◌,
}
use Prim.Native.String.{String, ◌++◌}
use text.Mathlib.Text.{◌==◌ as str_eq}

-- How the program ends.
pub data Ended : Type 0 where
  created : (bios : String) → Ended
  finished : Ended
  exited : (code : ℕ) → Ended

-- `ExitStatus`: no code is that of a process that a signal ended.
abbrev pub ExitStatus : Type 0
ExitStatus = Option ℕ

pub success : ExitStatus → Bool
success none = false
success (some code) = code == 0

run_args : List String
run_args = "--no-reboot" ∷ "-s" ∷ []

-- The arguments of the emulator; the branch on `false` is left out.
emulator_args : String → List String
unfolding run_args
emulator_args bios =
    "-drive"
    ∷ ("format=raw,file=" ++ bios)
    ∷ "-device"
    ∷ "VGA"
    ∷ "-device"
    ∷ "isa-debug-exit,iobase=0xf4,iosize=0x04"
    ∷ "-netdev"
    ∷ "user,id=network0"
    ∷ "-device"
    ∷ "e1000,netdev=network0"
    ∷ "-object"
    ∷ "filter-dump,id=f1,netdev=network0,file=dump.dat"
    ∷ "-serial"
    ∷ "stdio"
    ∷ run_args

-- The second argument.
no_boot : List String → Outcome Bool
no_boot [] = ok false
no_boot (arg ∷ args) = if str_eq arg "--no-run" then ok true else panic

-- `unwrap` of an optional value.
abbrev expect : {A : Type 0} → Option A → Outcome A
expect none = panic
expect (some a) = ok a

-- The other crates and the file system: where the manifests are, the paths, and how a command ends in a
-- directory.
pub record Host : Type 0 where
  pub locate_bootloader : Option String
  pub locate_manifest : Option String
  pub canonicalize : String → Option String
  pub parent : String → Option String
  pub file_name : String → Option String
  pub join : String → String → String
  pub exists : String → Bool
  pub build : String → List String → Option ExitStatus
  pub emulate : List String → Option ExitStatus

module _ (host : Host) where
  create_disk_images : String → Outcome String
  unfolding success
  create_disk_images kernel_binary_path = do
    bootloader_manifest_path ← expect host.locate_bootloader
    kernel_manifest_path ← expect host.locate_manifest
    bootloader_dir ← expect (host.parent bootloader_manifest_path)
    kernel_dir ← expect (host.parent kernel_manifest_path)
    out_dir ← expect (host.parent kernel_binary_path)
    status ← expect (
        host.build bootloader_dir (
          "builder"
          ∷ "--kernel-manifest"
          ∷ kernel_manifest_path
          ∷ "--kernel-binary"
          ∷ kernel_binary_path
          ∷ "--target-dir"
          ∷ host.join kernel_dir "target"
          ∷ "--out-dir"
          ∷ out_dir
          ∷ []))
    assert (success status)
    kernel_binary_name ← expect (host.file_name kernel_binary_path)
    let disk_image = host.join out_dir ("boot-bios-" ++ kernel_binary_name ++ ".img")
    assert (host.exists disk_image)
    ok disk_image

  -- The exit status of the emulator.
  passed_on : ExitStatus → Ended
  unfolding success
  passed_on none = exited 1
  passed_on (some code) = if success (some code) then finished else exited code

  run_emulator : String → Bool → Outcome Ended
  unfolding emulator_args passed_on
  run_emulator bios true = ok (created bios)
  run_emulator bios false =
      expect (host.emulate (emulator_args bios)) >>= λ status. ok (passed_on status)

  main : List String → Outcome Ended
  unfolding no_boot create_disk_images run_emulator
  main [] = panic
  main (path ∷ args) = do
    kernel_binary_path ← expect (host.canonicalize path)
    only_created ← no_boot args
    bios ← create_disk_images kernel_binary_path
    run_emulator bios only_created
