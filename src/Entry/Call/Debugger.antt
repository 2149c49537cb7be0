-- ===== src/Entry/Call/Debugger.antt =====
-- The call of zstage_main by firmware/head.S under a debugger.
use zstage.Base.{
  ℕ, ◌+◌, ◌^◌, ◌<◌, ◌≤◌, ◌≡◌, ◌⊎◌, refl, ◌∙◌, Bool, true, false, none, some, List, length, codes,
}
use zstage.Memory.{Memory, IsBytes}
use zstage.CString.Copy.{within}
use zstage.Machine.{Machine, ok, semihost_console}
use zstage.Boot.{Platform, PayloadBlob, fdt_magic, image_magic, image_version}
use zstage.Boot.Reread.{IsRead, IsUntouched}
use zstage.Boot.Effect.{Agree, IsApart}
use zstage.Boot.Plan.{IsLiteral, CanCopy, CanCopyAll, with_blobs, booted}
use zstage.Boot.Debugger.{zstage_main-debugger}
use zstage.Entry.{Image, reg_l, la}
use zstage.Entry.Call.{read_header, read_blobs, call_main}
use zstage.Entry.Call.Jumps.{call_main-jumps}

-- Under a debugger, with semihosting not ruled out and no console yet, and the entry code at `run`:
-- where the header at `run` is of this image, the table of blobs behind it ends within the fuel, and
-- memory, literals, device tree and copies are as a boot needs them, no byte of the header and of the
-- table lies in print's buffer or in the target of a copy, and the spin word lies behind the header's
-- two words for the jump, the call of zstage_main returns and the boot hart jumps to the next_run_addr
-- of the header as it was before the call, with its hart id and the header's next_fdt_addr. In memory,
-- all is in its place but for print's buffer and the spin word, and with `ZSTAGE_NO_SPIN` the spin word
-- is the next_run_addr too.
pub call_main-debugger :
    (p : Platform) (img : Image) (no_spin : Bool) (fuel hartid run a0 : ℕ)
    (blobs : List PayloadBlob) (m : Machine)
    → p.outside.debugger ≡ true
    → m.semihosting.enabled ≡ true
    → m.console_dev ≡ none
    → (read_header m.memory run).magic ≡ image_magic
    → (read_header m.memory run).version ≡ image_version
    → read_blobs fuel m.memory (la run img.blob_table) ≡ some blobs
    → IsBytes m.memory
    → IsLiteral p (codes "blob")
    → IsLiteral p (codes "next stage")
    → IsLiteral p (codes "semihosting")
    → CanCopyAll p.tbuf blobs
    → ((m' : Memory)
        → Agree p.tbuf m' (with_blobs m.memory blobs)
        → p.libfdt m' a0 ≡ p.libfdt (with_blobs m.memory blobs) a0)
    → (p.libfdt (with_blobs m.memory blobs) a0).magic ≡ fdt_magic
    → CanCopy p.tbuf
        (read_header m.memory run).next_fdt_addr
        a0
        (p.libfdt (with_blobs m.memory blobs) a0).totalsize
    → CanCopy p.tbuf
        (read_header m.memory run).next_run_addr
        (read_header m.memory run).next_load_addr
        (read_header m.memory run).next_size
    → ((q : ℕ)
        → IsRead run (la run img.blob_table) (length blobs) q
        → IsUntouched p a0 (read_header m.memory run) blobs q)
    → 96 ≤ img.spin_addr
    → run + img.spin_addr + 8 < 2 ^ 63
    → (m' : Machine) × (call_main p img no_spin fuel hartid (record { run = run; a0 = a0 }) m
        ≡ ok
            (record {
              pc = (read_header m.memory run).next_run_addr;
              a0 = hartid;
              a1 = (read_header m.memory run).next_fdt_addr;
            })
            m')
      × ((q : ℕ)
          → IsApart p.tbuf q 1
          → within (run + img.spin_addr) 8 q ≡ false
          → m'.memory q ≡ booted p a0 (read_header m.memory run) blobs m.memory q)
      × ((no_spin ≡ false)
          ⊎ (reg_l m'.memory (run + img.spin_addr) ≡ (read_header m.memory run).next_run_addr))
      × (m'.console_dev ≡ some semihost_console)
call_main-debugger p img no_spin fuel hartid run a0 blobs m debugger on free magic version table b
      blob_lit next_lit name_lit can settled fdt can_fdt can_next untouched behind fits =
    let (m1, ran, there, console) =
      zstage_main-debugger p a0 (read_header m.memory run) blobs m debugger on free magic version b
        blob_lit next_lit name_lit can settled fdt can_fdt can_next in
    let (m', jumps, left, released, same) =
      call_main-jumps p img no_spin fuel hartid run a0 (read_header m.memory run) blobs m m1 refl b
        table ran there untouched behind fits in
    (m', jumps, left, released, same ∙ console)
