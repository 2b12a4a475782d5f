-- ===== src/Hardware/Boot/Ready.antt =====
-- src/hardware.rs: what the set-up of the hardware leaves.
use rucoonos.Prelude.{
  ℕ, ◌*◌, ◌≡◌, refl, ap, ◌∙◌, arith, All, Bool, List, [], length, Option, none, some, Bytes, ◌⊎◌,
}
use rucoonos.Net.Wire.{Profile}
use rucoonos.Acpi.{OffsetMapper, SdtHeader, RsdtIter}
use rucoonos.Hardware.Loop.{Exec, returned, panicked, ◌then◌}
use rucoonos.Hardware.Instance.{rsdp_acip_setup, setup_pci}
use rucoonos.Hardware.Instance.Devices.{devices_empty}
use rucoonos.Hardware.Memory
use rucoonos.Hardware.Memory.{FrameAllocator, usable_frames}
use rucoonos.Hardware.Memory.Heap.{page_range, AreDistinct, HasFrames, Maps, init_heap-returned}
use rucoonos.Net.Extension.Statics.{call_once}
use rucoonos.Hardware.Random
use rucoonos.Hardware.Random.Bounds.{IsValid}
use rucoonos.Hardware.Boot.{
  Hardware, BootInfo, Statics, basic_init, video_init, draw, expected, memory_setup, finished, init,
}
use rucoonos.Screen
use rucoonos.Screen.{Color, FrameBufferInfo}

-- Nothing has been set up.
abbrev pub start : {M : Type 0} → Statics M
start = record {
  memory_mapping = none;
  kernel_instance = none;
  info = none;
  buffer = none;
  calls = [];
}

-- What a drawing does where the boot loader gave this frame buffer.
abbrev pub Draws : {M : Type 0} → Option (FrameBufferInfo × Bytes) → Statics M → Type 0
Draws none s = (profile : Profile) (x y : ℕ) (color : Color) → draw profile s x y color ≡ returned s
Draws (some (info, buffer)) s =
    (profile : Profile) (x y : ℕ) (color : Color)
    → draw profile s x y color ≡ (
        Screen.draw profile info x y color buffer then λ b. returned (record s { buffer = some b }))

-- The kernel's instance, which has no device, its table of pages, its generator of random numbers and its
-- frame buffer are there.
pub record IsReady {M : Type 0} (boot_info : BootInfo) (s : Statics M) : Type 0 where
  pub hardware : Hardware
  pub mapper : M
  pub instance_set : s.kernel_instance ≡ some hardware
  pub mapper_set : s.memory_mapping ≡ some mapper
  pub no_devices : hardware.devices ≡ []
  pub same_offset : hardware.memory_offset ≡ boot_info.physical_memory_offset
  pub rng_valid : IsValid hardware.rng
  pub draws : Draws boot_info.framebuffer s

module _ {M : Type 0} where
  -- The statics after the frame buffer is set up.
  abbrev video_set : Option (FrameBufferInfo × Bytes) → Statics M
  video_set framebuffer = video_init framebuffer (basic_init start)

  video_set-none :
      (framebuffer : Option (FrameBufferInfo × Bytes))
      → ((video_set framebuffer).kernel_instance ≡ none)
        × ((video_set framebuffer).memory_mapping ≡ none)
  unfolding video_init basic_init
  video_set-none none = (refl, refl)
  video_set-none (some (info, buffer)) = (refl, refl)

  video_set-Draws :
      (framebuffer : Option (FrameBufferInfo × Bytes)) (mapper : Option M)
      (hardware : Option Hardware)
      → Draws framebuffer
          (record (video_set framebuffer) { memory_mapping = mapper; kernel_instance = hardware })
  unfolding video_init basic_init draw
  video_set-Draws none mapper hardware = λ profile x y color. refl
  video_set-Draws (some (info, buffer)) mapper hardware = λ profile x y color. refl

module _ {M E : Type 0} (frame_allocation_failed : E)
    (map_to : M → ℕ → ℕ → FrameAllocator → E ⊎ (M × FrameAllocator)) (page_of frame_of : ℕ → ℕ)
    (range_inclusive : ℕ → ℕ → List ℕ) (page_table : ℕ → M) (memory : ℕ → ℕ)
    (is_utf8 : Bytes → Bool) (profile : Profile) (config : ℕ → ℕ) where
  abbrev pub init_with : BootInfo → Statics M → Exec (Statics M)
  init_with =
      init frame_allocation_failed map_to page_of frame_of range_inclusive page_table memory is_utf8
        profile config

  -- What `init` does, given the offset.
  abbrev with_offset : BootInfo → Statics M → Option ℕ → Exec (Statics M)
  with_offset boot_info s offset =
      rsdp_acip_setup memory is_utf8 profile boot_info.rsdp_addr offset then λ rsdt.
      memory_setup frame_allocation_failed map_to page_of frame_of range_inclusive page_table offset
        boot_info.memory_regions
      then λ mapper.
          finished frame_allocation_failed map_to page_of frame_of range_inclusive page_table memory
            is_utf8 profile config boot_info rsdt mapper
            (video_init boot_info.framebuffer (basic_init s))

  without_offset :
      (boot_info : BootInfo) (s : Statics M) (address : Option ℕ)
      → with_offset (record boot_info { rsdp_addr = address }) s none ≡ panicked
  unfolding memory_setup rsdp_acip_setup
  without_offset boot_info s none = refl
  without_offset boot_info s (some address) = refl

  -- Without the offset of the physical memory, the set-up panics, whatever else the boot loader gives.
  init-panicked :
      (boot_info : BootInfo) (s : Statics M)
      → boot_info.physical_memory_offset ≡ none
      → init_with boot_info s ≡ panicked
  unfolding init
  init-panicked boot_info s e =
      ap (with_offset boot_info s) e ∙ without_offset boot_info s boot_info.rsdp_addr

  finished-IsReady :
      (boot_info : BootInfo) (rsdt : Option ((SdtHeader × RsdtIter) × OffsetMapper)) (mapper : M)
      → (s : Statics M) × (finished frame_allocation_failed map_to page_of frame_of range_inclusive
            page_table memory is_utf8 profile config boot_info rsdt mapper
            (video_set boot_info.framebuffer)
          ≡ returned s)
        × IsReady boot_info s
  unfolding finished Random.new
  finished-IsReady boot_info rsdt mapper =
      let (e, q) = video_set-none {M = M} boot_info.framebuffer in
      let hardware : Hardware = record {
        rsdt = rsdt;
        memory_offset = boot_info.physical_memory_offset;
        devices = setup_pci config boot_info.physical_memory_offset;
        rng = record { x = 239812446; y = 1837621879; z = 512893; c = 123873267123 };
      } in
      (
        _,
        refl,
        record {
          hardware = hardware;
          mapper = mapper;
          instance_set = ap (λ o. call_once o hardware) e;
          mapper_set = ap (λ o. call_once o mapper) q;
          no_devices = devices_empty config boot_info.physical_memory_offset;
          same_offset = refl;
          rng_valid = record { z = omega arith; c = omega arith };
          draws = video_set-Draws boot_info.framebuffer _ _;
        },
      )

  -- With the offset of the physical memory, no tables of the firmware or ones that can be loaded, a mapper that
  -- maps a page that is free with at most three frames of its own, and different pages for the heap that are
  -- free with four frames for each, the set-up returns: the kernel's instance is there, with no device
  -- whatever stands on the bus, with the offset and with a valid generator of random numbers, the table of
  -- pages is kept, and whatever is drawn goes to the frame buffer of the boot loader, or nowhere if there is
  -- none.
  pub init-IsReady :
      (boot_info : BootInfo) (offset : ℕ) (rsdt : Option ((SdtHeader × RsdtIter) × OffsetMapper))
      (IsFree : M → ℕ → Type 0)
      → boot_info.physical_memory_offset ≡ some offset
      → rsdp_acip_setup memory is_utf8 profile boot_info.rsdp_addr (some offset) ≡ returned rsdt
      → Maps frame_allocation_failed map_to page_of frame_of range_inclusive IsFree
      → let pages = page_range frame_allocation_failed map_to page_of frame_of range_inclusive in
        AreDistinct pages
        → All (IsFree (page_table offset)) pages
        → HasFrames frame_allocation_failed map_to page_of frame_of range_inclusive
            (4 * length pages)
            (Memory.init boot_info.memory_regions)
        → (s : Statics M) × (init_with boot_info start ≡ returned s) × IsReady boot_info s
  unfolding init memory_setup expected Memory.init
  init-IsReady boot_info offset rsdt IsFree some_offset loaded maps distinct free left =
      let (m, _, e) =
        init_heap-returned frame_allocation_failed map_to page_of frame_of range_inclusive IsFree
          (page_table offset) (Memory.init boot_info.memory_regions) maps distinct free left in
      let (s, r, h) = finished-IsReady boot_info rsdt m in
      (
        s,
        ap (with_offset boot_info start) some_offset
            ∙ ap
                (λ o. o then λ rsdt.
                  memory_setup frame_allocation_failed map_to page_of frame_of range_inclusive
                    page_table (some offset) boot_info.memory_regions
                  then λ mapper.
                      finished frame_allocation_failed map_to page_of frame_of range_inclusive
                        page_table memory is_utf8 profile config boot_info rsdt mapper
                        (video_set boot_info.framebuffer))
                loaded
            ∙ ap
                (λ o.
                  expected frame_allocation_failed map_to page_of frame_of range_inclusive
                    page_table o
                  then λ mapper.
                      finished frame_allocation_failed map_to page_of frame_of range_inclusive
                        page_table memory is_utf8 profile config boot_info rsdt mapper
                        (video_set boot_info.framebuffer))
                e
            ∙ r,
        h,
      )
