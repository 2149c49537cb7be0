-- ===== src/Boot/Copies.antt =====
-- What firmware/main.c refuses, and the copy of the device tree.
use zstage.Base.{ℕ, ◌+◌, ◌≤◌, ◌≡◌, ◌≢◌, ◌⊎◌, refl, true, false, ◌||◌, not, ◌==◌, List, arith, pos}
use zstage.Memory.{Memory, IsBytes}
use zstage.CString.{memcpy}
use zstage.CString.Copy.{moved, memcpy-moved}
use zstage.Machine.{Machine, ok, stop, hung}
use zstage.Fdt.{enosys}
use zstage.Boot.{
  ImageHeader, PayloadBlob, Platform, image_magic, image_version, fdt_magic, zstage_hang,
  platform_prepare_fdt, zstage_main,
}

-- A header with another magic or version hangs the loader at once: nothing was printed, copied or
-- initialised.
pub zstage_main_refused :
    (p : Platform) (boot_arg1 : ℕ) (hdr : ImageHeader) (blobs : List PayloadBlob) (m : Machine)
    → (hdr.magic ≢ image_magic) ⊎ (hdr.version ≢ image_version)
    → zstage_main p boot_arg1 hdr blobs m ≡ stop hung m
unfolding zstage_main zstage_hang
zstage_main_refused p boot_arg1 hdr blobs m bad =
    let refused : (not (hdr.magic == image_magic) || not (hdr.version == image_version)) ≡ true =
      ground arith in
    rw refused refl

-- Where the device tree has the magic of one and the target does not begin inside it,
-- `platform_prepare_fdt` copies `totalsize` bytes of it to `next_fdt_addr` as they were, changes
-- no other byte, and returns 0.
pub platform_prepare_fdt-moved :
    (p : Platform) (boot_arg1 : ℕ) (hdr : ImageHeader) (m : Machine)
    → IsBytes m.memory
    → (p.libfdt m.memory boot_arg1).magic ≡ fdt_magic
    → (hdr.next_fdt_addr ≤ boot_arg1)
      ⊎ (boot_arg1 + (p.libfdt m.memory boot_arg1).totalsize ≤ hdr.next_fdt_addr)
    → (memory' : Memory) × (platform_prepare_fdt p boot_arg1 hdr m
        ≡ ok (pos 0) (record m { memory = memory' }))
      × ((q : ℕ)
          → memory' q
            ≡ moved m.memory hdr.next_fdt_addr boot_arg1 (p.libfdt m.memory boot_arg1).totalsize q)
unfolding platform_prepare_fdt
platform_prepare_fdt-moved p boot_arg1 hdr m b magic apart =
    let size = (p.libfdt m.memory boot_arg1).totalsize in
    (
      memcpy m.memory hdr.next_fdt_addr boot_arg1 size,
      rw magic refl,
      λ q. memcpy-moved size m.memory hdr.next_fdt_addr boot_arg1 q b apart,
    )

-- With another magic it returns -ENOSYS and copies nothing.
pub platform_prepare_fdt_refused :
    (p : Platform) (boot_arg1 : ℕ) (hdr : ImageHeader) (m : Machine)
    → (p.libfdt m.memory boot_arg1).magic ≢ fdt_magic
    → platform_prepare_fdt p boot_arg1 hdr m ≡ ok enosys m
unfolding platform_prepare_fdt
platform_prepare_fdt_refused p boot_arg1 hdr m h =
    let other : ((p.libfdt m.memory boot_arg1).magic == fdt_magic) ≡ false = ground arith in
    rw other refl
