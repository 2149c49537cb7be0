-- ===== src/Boot/Debugger.antt =====
-- A run of zstage_main in firmware/main.c under a debugger, with semihosting as the console.
use zstage.Base.{ℕ, ◌≡◌, refl, ◌∙◌, true, none, some, List, pos, codes}
use zstage.Memory.{Memory, IsBytes}
use zstage.Machine.{Machine, semihost_console, ok}
use zstage.Serial.Probe.{console_devices}
use zstage.Serial.Probe.Quiet.{nputs-semihosting}
use zstage.Serial.Semihosting.Debugger.{semihosting_puts-IsTotal, semihosting_serial_init-console}
use zstage.Boot.{
  Platform, ImageHeader, PayloadBlob, fdt_magic, image_magic, image_version, platform_stdio_init,
  zstage_console_init, zstage_main,
}
use zstage.Boot.Effect.{Agree, Speaker, IsSpeaking}
use zstage.Boot.Steps.{devices}
use zstage.Boot.Plan.{IsLiteral, CanCopy, CanCopyAll, with_blobs, booted}
use zstage.Boot.Run.{zstage_main-booted}

semihosting : Speaker
semihosting = record { device = semihost_console; live = λ uart. Unit }

semihosting-IsSpeaking : (p : Platform) → IsSpeaking (devices p semihosting) semihosting
unfolding semihosting
semihosting-IsSpeaking p = record {
  speaks = λ str len m console heard.
      let (u, m', ran, (mem, con)) = (semihosting_puts-IsTotal p.outside str len).returns m in
      (m', nputs-semihosting p.outside p.tohost p.fromhost str len m console ∙ ran, mem, con, tt);
}

init-console :
    (p : Platform) (boot_arg1 : ℕ) (m : Machine)
    → p.outside.debugger ≡ true
    → m.semihosting.enabled ≡ true
    → m.console_dev ≡ none
    → (m' : Machine) × (zstage_console_init p boot_arg1 m ≡ ok (pos 0) m')
      × (m'.memory ≡ m.memory)
      × (m'.console_dev ≡ some semihost_console)
unfolding zstage_console_init platform_stdio_init
init-console p boot_arg1 m debugger on free =
    let (m', ran, mem, con) = semihosting_serial_init-console p.outside m debugger on free in
    (m', rw ran refl, mem, con)

-- Under a debugger, with semihosting not ruled out and no console yet: from a memory of bytes, a
-- header of this image, three literals that are where they are said to be, a device tree with its
-- magic that libfdt reads alike whatever print's buffer holds, sources of all copies outside of
-- that buffer, no copy that begins inside its source, and 64-bit addresses and sizes,
-- `zstage_main` returns. Then the blobs up to the one of size 0, the device tree and the next stage
-- were moved to their places, one after the other, no other byte was changed but in print's
-- buffer, and semihosting is the console.
pub zstage_main-debugger :
    (p : Platform) (boot_arg1 : ℕ) (hdr : ImageHeader) (blobs : List PayloadBlob) (m : Machine)
    → p.outside.debugger ≡ true
    → m.semihosting.enabled ≡ true
    → m.console_dev ≡ none
    → hdr.magic ≡ image_magic
    → hdr.version ≡ image_version
    → IsBytes m.memory
    → IsLiteral p (codes "blob")
    → IsLiteral p (codes "next stage")
    → IsLiteral p (codes "semihosting")
    → CanCopyAll p.tbuf blobs
    → ((m' : Memory)
        → Agree p.tbuf m' (with_blobs m.memory blobs)
        → p.libfdt m' boot_arg1 ≡ p.libfdt (with_blobs m.memory blobs) boot_arg1)
    → (p.libfdt (with_blobs m.memory blobs) boot_arg1).magic ≡ fdt_magic
    → CanCopy p.tbuf hdr.next_fdt_addr boot_arg1
        (p.libfdt (with_blobs m.memory blobs) boot_arg1).totalsize
    → CanCopy p.tbuf hdr.next_run_addr hdr.next_load_addr hdr.next_size
    → (m' : Machine) × (zstage_main p boot_arg1 hdr blobs m ≡ ok tt m')
      × Agree p.tbuf m'.memory (booted p boot_arg1 hdr blobs m.memory)
      × (m'.console_dev ≡ some semihost_console)
unfolding console_devices semihosting
zstage_main-debugger p boot_arg1 hdr blobs m debugger on free magic version b blob_lit next_lit
      name_lit can settled fdt can_fdt can_next =
    let (m1, init, kept, console) = init-console p boot_arg1 m debugger on free in
    zstage_main-booted p semihosting (semihosting-IsSpeaking p) boot_arg1 hdr blobs m m1 magic
      version init kept console tt b blob_lit next_lit name_lit can settled fdt can_fdt can_next
