-- ===== src/Boot/Stdout.antt =====
-- A run of zstage_main in firmware/main.c with the 8250 UART of the device tree as the console.
use zstage.Base.{ℕ, ◌≡◌, refl, true, false, none, some, List, pos, codes}
use zstage.Memory.{Memory, IsBytes}
use zstage.Machine.{Machine, uart8250_console, uart8250_driver, ok}
use zstage.Fdt.Cells.{PlatformUartData}
use zstage.Serial.Probe.{console_devices}
use zstage.Serial.Probe.Quiet.{nputs-uart8250_returns}
use zstage.Serial.Probe.Stdout.{IsUartAt, fdt_serial_init-chosen}
use zstage.Serial.Semihosting.Debugger.{semihosting_serial_init-refused}
use zstage.Serial.Uart8250.Live.{IsResponsive}
use zstage.Serial.Uart8250.Start.{node_uart}
use zstage.Boot.{
  Platform, ImageHeader, PayloadBlob, fdt_magic, image_magic, image_version, platform_stdio_init,
  zstage_console_init, zstage_main,
}
use zstage.Boot.Effect.{Agree, Speaker, IsSpeaking}
use zstage.Boot.Steps.{devices}
use zstage.Boot.Plan.{IsLiteral, CanCopy, CanCopyAll, with_blobs, booted}
use zstage.Boot.Run.{zstage_main-booted}

uart8250 : Platform → Speaker
uart8250 p = record { device = uart8250_console; live = IsResponsive p.outside }

uart8250-IsSpeaking : (p : Platform) → IsSpeaking (devices p (uart8250 p)) (uart8250 p)
unfolding uart8250
uart8250-IsSpeaking p = record {
  speaks = λ str len m console live.
      let (trace', ran) =
        nputs-uart8250_returns p.outside p.tohost p.fromhost str len m console live in
      (record m { trace = trace' }, ran, refl, refl, live);
}

module _ (p : Platform) (boot_arg1 nodeoff d : ℕ) (compatible : List ℕ) (uart : PlatformUartData)
    (m : Machine) (debugger : p.outside.debugger ≡ false)
    (first : m.semihosting.try_semihosting ≡ true) (free : m.console_dev ≡ none)
    (at : IsUartAt
      (p.libfdt m.memory boot_arg1)
      p.depth
      p.stack_addr
      p.stack_size
      nodeoff
      d
      compatible
      uart) where
  init-console :
      (m' : Machine) × (zstage_console_init p boot_arg1 m ≡ ok (pos 0) m')
      × (m'.memory ≡ m.memory)
      × (m'.console_dev ≡ some uart8250_console)
      × (m'.uart8250 ≡ node_uart uart)
  unfolding zstage_console_init platform_stdio_init
  init-console =
      let (semihosting', refused) = semihosting_serial_init-refused p.outside m debugger first in
      let m1 = record m { semihosting = semihosting' } in
      let (trace', ran) =
        fdt_serial_init-chosen p.outside (p.libfdt m.memory boot_arg1) p.depth p.stack_addr
          p.stack_size nodeoff d compatible uart at m1 free in
      let m2 = record m1 {
        uart8250 = node_uart uart;
        console_dev = some uart8250_console;
        trace = trace';
        current_driver = some uart8250_driver;
      } in
      (m2, rw refused ran, refl, refl, refl)

  -- The image is not run under a debugger, and semihosting was not tried; no console is set, and
  -- `stdout-path` of the device tree leads to an 8250 UART that no Cadence driver
  -- matches, with a usable node and a divisor; with its registers as
  -- the tree says, it takes each character within the rounds of a wait. Then from a memory of bytes, a
  -- header of this image, three literals that are where they are said to be, a device tree with its
  -- magic that libfdt reads alike whatever print's buffer holds, sources of all copies outside of
  -- that buffer, no copy that begins inside its source, and 64-bit addresses and sizes,
  -- `zstage_main` returns: the blobs up to the one of size 0, the device tree and the next stage were
  -- moved to their places, one after the other, no other byte was changed but in print's buffer, and
  -- the 8250 UART is the console.
  pub zstage_main-uart8250 :
      (hdr : ImageHeader) (blobs : List PayloadBlob)
      → IsResponsive p.outside (node_uart uart)
      → hdr.magic ≡ image_magic
      → hdr.version ≡ image_version
      → IsBytes m.memory
      → IsLiteral p (codes "blob")
      → IsLiteral p (codes "next stage")
      → IsLiteral p (codes "uart8250")
      → CanCopyAll p.tbuf blobs
      → ((m' : Memory)
          → Agree p.tbuf m' (with_blobs m.memory blobs)
          → p.libfdt m' boot_arg1 ≡ p.libfdt (with_blobs m.memory blobs) boot_arg1)
      → (p.libfdt (with_blobs m.memory blobs) boot_arg1).magic ≡ fdt_magic
      → CanCopy p.tbuf hdr.next_fdt_addr boot_arg1
          (p.libfdt (with_blobs m.memory blobs) boot_arg1).totalsize
      → CanCopy p.tbuf hdr.next_run_addr hdr.next_load_addr hdr.next_size
      → (m' : Machine) × (zstage_main p boot_arg1 hdr blobs m ≡ ok tt m')
        × Agree p.tbuf m'.memory (booted p boot_arg1 hdr blobs m.memory)
        × (m'.console_dev ≡ some uart8250_console)
  unfolding console_devices uart8250
  zstage_main-uart8250 hdr blobs live magic version b blob_lit next_lit name_lit can settled fdt
        can_fdt can_next =
      let (m1, init, kept, console, same_uart) = init-console in
      zstage_main-booted p (uart8250 p) (uart8250-IsSpeaking p) boot_arg1 hdr blobs m m1 magic
        version init kept console (rw same_uart live) b blob_lit next_lit name_lit can settled fdt
        can_fdt can_next
