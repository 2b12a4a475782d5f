-- ===== src/Hardware/Boot.antt =====
-- src/hardware.rs: the set-up of the hardware in its order, with the statics of src/hardware.rs and of
-- src/video.rs. What only calls the processor is a list of calls. The page table that `memory::init` makes,
-- and the mapper and the pages of the `x86_64` crate, are parameters.
pub mod Ready
use rucoonos.Prelude.{
  ℕ, Bool, List, [], ◌∷◌, ◌++◌, Option, none, some, Bytes, Outcome, ok, err, panic, ◌>>=◌, ◌⊎◌, inl,
  inr,
}
use rucoonos.Net.Wire.{Profile}
use rucoonos.Net.Extension.Statics.{call_once}
use rucoonos.Acpi.{OffsetMapper, SdtHeader, RsdtIter}
use rucoonos.Hardware.Loop.{Exec, returned, panicked, ◌then◌}
use rucoonos.Hardware.Instance.{Device, setup_pci, rsdp_acip_setup}
use rucoonos.Hardware.Memory
use rucoonos.Hardware.Memory.{MemoryRegion, FrameAllocator}
use rucoonos.Hardware.Memory.Heap.{init_heap}
use rucoonos.Hardware.Random
use rucoonos.Hardware.Random.{Kiss}
use rucoonos.Screen
use rucoonos.Screen.{FrameBufferInfo, Color}

-- The calls of `Hardware::basic_init`.
pub data Call : Type 0 where
  interrupts_disable gdt_init init_idt pics_initialize interrupts_enable : Call

-- `Hardware`, without its locks.
pub record Hardware : Type 0 where
  pub rsdt : Option ((SdtHeader × RsdtIter) × OffsetMapper)
  pub memory_offset : Option ℕ
  pub devices : List Device
  pub rng : Kiss

pub record BootInfo : Type 0 where
  pub rsdp_addr : Option ℕ
  pub physical_memory_offset : Option ℕ
  pub framebuffer : Option (FrameBufferInfo × Bytes)
  pub memory_regions : List MemoryRegion

pub record Statics (M : Type 0) : Type 0 where
  pub memory_mapping : Option M
  pub kernel_instance : Option Hardware
  pub info : Option FrameBufferInfo
  pub buffer : Option Bytes
  pub calls : List Call

-- `unwrap` of a result.
abbrev pub unwrapped_result {ℓ} : {A : Type ℓ} → Outcome A → Exec A
unwrapped_result (ok a) = returned a
unwrapped_result err = panicked
unwrapped_result panic = panicked

-- `Hardware::get_rand`, with the instance afterwards.
get_rand : Profile → Hardware → Outcome (ℕ × Hardware)
get_rand profile h = Random.rand profile h.rng >>= λ (n, rng). ok (n, record h { rng = rng })

module _ {M : Type 0} where
  pub basic_init : Statics M → Statics M
  basic_init s = record s {
    calls =
        s.calls
        ++ (Call.interrupts_disable ∷ Call.gdt_init ∷ Call.init_idt ∷ Call.pics_initialize
            ∷ Call.interrupts_enable ∷ []);
  }

  -- `Hardware::try_get`
  try_get : Statics M → Option Hardware
  try_get s = s.kernel_instance

  -- `Hardware::video_init`, with `video::init`.
  pub video_init : Option (FrameBufferInfo × Bytes) → Statics M → Statics M
  video_init none s = s
  video_init (some (info, buffer)) s = record s {
    info = call_once s.info info;
    buffer = call_once s.buffer buffer;
  }

  -- `draw` of src/video.rs, with its statics.
  pub draw : Profile → Statics M → ℕ → ℕ → Color → Exec (Statics M)
  draw profile s x y color = elim s.buffer [
    | none ↦ returned s
    | some buffer ↦ elim s.info [
      | none ↦ panicked
      | some info ↦ Screen.draw profile info x y color buffer then λ b.
          returned (record s { buffer = some b })
    ]
  ]

module _ {M E : Type 0} (frame_allocation_failed : E)
    (map_to : M → ℕ → ℕ → FrameAllocator → E ⊎ (M × FrameAllocator)) (page_of frame_of : ℕ → ℕ)
    (range_inclusive : ℕ → ℕ → List ℕ) (page_table : ℕ → M) where
  -- The `expect`.
  pub expected : E ⊎ ((M × FrameAllocator) × (ℕ × ℕ)) → Exec M
  expected (inl e) = panicked
  expected (inr ((mapper, frame_allocator), heap)) = returned mapper

  -- `Hardware::memory_setup`
  pub memory_setup : Option ℕ → List MemoryRegion → Exec M
  unfolding expected
  memory_setup none memory_regions = panicked
  memory_setup (some offset) memory_regions = expected (
      init_heap frame_allocation_failed map_to page_of frame_of range_inclusive (page_table offset)
        (Memory.init memory_regions))

  module _ (memory : ℕ → ℕ) (is_utf8 : Bytes → Bool) (profile : Profile) (config : ℕ → ℕ) where
    -- The end of `init`, once the memory is set up.
    pub finished :
        BootInfo → Option ((SdtHeader × RsdtIter) × OffsetMapper) → M → Statics M → Exec (Statics M)
    finished boot_info rsdt mapper s =
        unwrapped_result (Random.new 239812446 1837621879 512893 123873267123) then λ rng.
        let instance : Hardware = record {
          rsdt = rsdt;
          memory_offset = boot_info.physical_memory_offset;
          devices = setup_pci config boot_info.physical_memory_offset;
          rng = rng;
        } in
        returned (record s {
          memory_mapping = call_once s.memory_mapping mapper;
          kernel_instance = call_once s.kernel_instance instance;
        })

    -- `Hardware::init`
    pub init : BootInfo → Statics M → Exec (Statics M)
    unfolding finished basic_init video_init memory_setup
    init boot_info s =
        rsdp_acip_setup memory is_utf8 profile boot_info.rsdp_addr boot_info.physical_memory_offset
        then λ rsdt.
            memory_setup boot_info.physical_memory_offset boot_info.memory_regions then λ mapper.
            finished boot_info rsdt mapper (video_init boot_info.framebuffer (basic_init s))
