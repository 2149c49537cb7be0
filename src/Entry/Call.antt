-- ===== src/Entry/Call.antt =====
-- The boot hart in firmware/head.S from `_relocate_done` on: the call of zstage_main, whose header
-- and table of blobs stand in the image, and the jump to the next stage.
pub mod Prepared
pub mod BootHart
pub mod Jumps
pub mod Debugger
pub mod Firmware
use zstage.Base.{
  ℕ, zero, suc, ◌+◌, Bool, false, none, List, [], ◌∷◌, ◌==◌, if◌then◌else◌, Option, some,
}
use zstage.Memory.{Memory}
use zstage.Machine.{Machine, Cmd, pure, halt, waiting, get, put, ◌>>=◌, ◌>>◌, and_then}
use zstage.Boot.{Platform}
use zstage.Boot.InMemory.{zstage_main_at}
unfoldable pub use zstage.Boot.InMemory.{words, read_header, read_blobs}
use zstage.Entry.{
  Image, load_bytes, reg_l, add, sub, la, load, save, bss_zero, relocate, header_image_run_addr,
}

-- The variables of the program that lie in .bss, set to zero with it.
abbrev pub cleared : Machine → Machine
cleared m = record m {
  console_dev = none;
  uart8250 = record { base = 0; in_freq = 0; baudrate = 0; reg_width = 0; reg_shift = 0 };
  cadence = record { base = 0; in_freq = 0; baudrate = 0 };
  htif = record { fromhost = 0; tohost = 0; custom = false; console_buf = 0 };
}

abbrev pub header_next_run_addr : ℕ
header_next_run_addr = 80

abbrev pub header_next_fdt_addr : ℕ
header_next_fdt_addr = 88

-- Where the code runs, and `_zstage_boot_arg1` in a0.
pub record Call : Type 0 where
  pub run : ℕ
  pub a0 : ℕ

-- From `_relocate_done` to the call.
pub prepare : Image → (rounds run a1 : ℕ) → Cmd Call
unfolding load save bss_zero
prepare img rounds run a1 = do
  t1 ← load (la run header_image_run_addr)
  t2 ← load (la run img.load_start)
  save (add (sub (la run img.boot_status) t1) t2) 1
  save (la run img.boot_arg1) a1
  bss_zero rounds (la run img.bss_start) (la run img.bss_end)
  m ← get
  put (cleared m)
  a0 ← load (la run img.boot_arg1)
  pure (record { run = run; a0 = a0 })

-- The hart that won the lottery, which runs at `base`, up to the call of zstage_main.
pub boot_hart : Image → (rounds base a1 : ℕ) → Cmd Call
unfolding save relocate prepare
boot_hart img rounds base a1 = do
  save (la base img.load_start) base
  pc ← relocate img rounds base
  prepare img rounds (sub pc img.relocate_done) a1

-- The registers at the jump to the next stage.
pub record Jump : Type 0 where
  pub pc : ℕ
  pub a0 : ℕ
  pub a1 : ℕ

-- From the call of zstage_main to the jump.
pub call_main : Platform → Image → (no_spin : Bool) → (fuel hartid : ℕ) → Call → Cmd Jump
unfolding load save
call_main p img no_spin fuel hartid call = do
  zstage_main_at p fuel call.a0 (la call.run 0) (la call.run img.blob_table)
  t1 ← load (la call.run header_next_run_addr)
  if no_spin then save (la call.run img.spin_addr) t1 else pure tt
  a1 ← load (la call.run header_next_fdt_addr)
  t0 ← load (la call.run header_next_run_addr)
  pure (record { pc = t0; a0 = hartid; a1 = a1 })

-- The boot hart from the lottery to the jump.
pub firmware : Platform → Image → (no_spin : Bool) → (fuel rounds hartid base a1 : ℕ) → Cmd Jump
firmware p img no_spin fuel rounds hartid base a1 =
    boot_hart img rounds base a1 >>= λ call. call_main p img no_spin fuel hartid call
