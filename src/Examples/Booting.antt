-- ===== src/Examples/Booting.antt =====
-- A boot at a small input: one blob, the device tree and the next stage.
use zstage.Base.{
  ℕ, ℤ, is_zero, ◌≡◌, ◌==◌, refl, true, none, some, List, [], ◌∷◌, arith, codes, length, inl, inr,
  if◌then◌else◌,
}
use zstage.Machine.{Machine, semihost_console, ok}
use zstage.Boot.{
  ImageHeader, PayloadBlob, Platform, image_magic, image_version, zstage_console_init, zstage_main,
}
use zstage.Machine.Keeps.{machine_of}
use zstage.Boot.Frame.{zstage_main-frame}
use zstage.Boot.Checks.{HadTree, zstage_main-checked}
use zstage.Boot.Effect.{Agree}
use zstage.Boot.Plan.{booted, CanCopy, CanCopyAll}
use zstage.Boot.Debugger.{zstage_main-debugger}
use zstage.Examples.{outside, machine, platform, texts}
use zstage.Examples.Strings.{texts-IsBytes}

-- A literal is at the address that is its length.
abbrev pub literals : ℕ → List ℕ
literals a =
    if a == 4
    then codes "blob"
    else if a == 10
    then codes "next stage"
    else if a == 8
    then codes "uart8250"
    else if a == 12
    then codes "semihosting"
    else []

abbrev pub debugged : Platform
debugged = record platform {
  outside = record outside { debugger = true };
  string_at = literals;
  literal = λ s. if length s == 11 then 12 else length s;
}

abbrev pub fresh : Machine
fresh = record machine { console_dev = none }

abbrev pub image : ImageHeader
image = record {
  jump_insn = 0x6f;
  magic = image_magic;
  version = image_version;
  reserved1 = 0;
  image_run_addr = 0;
  image_size = 0;
  image_spin_addr = 0;
  image_nmivect_addr = 0;
  image_nmivect_size = 0;
  image_platdata_addr = 0;
  image_platdata_size = 0;
  next_load_addr = 0x100;
  next_run_addr = 0x40;
  next_fdt_addr = 0x60;
  next_size = 16;
  reserved2 = [];
}

abbrev pub blobs : List PayloadBlob
blobs =
    record { src_addr = 10; dst_addr = 0x100; size = 4; reserved = 0 }
    ∷ record { src_addr = 0; dst_addr = 0; size = 0; reserved = 0 }
    ∷ []

pub can_blobs : CanCopyAll 0x800 blobs
can_blobs = (
  record {
    apart = inl (omega arith);
    order = inr (omega arith);
    dest_word = omega arith;
    src_word = omega arith;
    count_word = omega arith;
  },
  (
    record {
      apart = inl (omega arith);
      order = inl (omega arith);
      dest_word = omega arith;
      src_word = omega arith;
      count_word = omega arith;
    },
    tt,
  ),
)

pub can_fdt : CanCopy 0x800 0x60 0x200 4
can_fdt = record {
  apart = inl (omega arith);
  order = inl (omega arith);
  dest_word = omega arith;
  src_word = omega arith;
  count_word = omega arith;
}

pub can_next : CanCopy 0x800 0x40 0x100 16
can_next = record {
  apart = inl (omega arith);
  order = inl (omega arith);
  dest_word = omega arith;
  src_word = omega arith;
  count_word = omega arith;
}

zstage_main-debugger_example :
    (m' : Machine) × (zstage_main debugged 0x200 image blobs fresh ≡ ok tt m')
    × Agree 0x800 m'.memory (booted debugged 0x200 image blobs texts)
    × (m'.console_dev ≡ some semihost_console)
zstage_main-debugger_example =
    zstage_main-debugger debugged 0x200 image blobs fresh refl refl refl refl refl texts-IsBytes
      (refl, omega arith) (refl, omega arith) (refl, omega arith) can_blobs (λ m' same. refl) refl
      can_fdt can_next

-- A byte that no part of this boot writes.
zstage_main-frame_example :
    (machine_of fresh (zstage_main debugged 0x200 image blobs fresh)).memory 0x500 ≡ texts 0x500
zstage_main-frame_example =
    zstage_main-frame debugged 0x500 (inl (omega arith)) 0x200 image blobs
      (inr (inr (omega arith), inl refl)) (λ memory. inr (omega arith)) (inr (inr (omega arith)))
      fresh

-- The boot above, as the machine that it returns.
returned : (m' : Machine) × (zstage_main debugged 0x200 image blobs fresh ≡ ok tt m')
returned =
    let (m', ran, memory, console) =
      zstage_main-debugger debugged 0x200 image blobs fresh refl refl refl refl refl texts-IsBytes
        (refl, omega arith) (refl, omega arith) (refl, omega arith) can_blobs (λ m' same. refl) refl
        can_fdt can_next in
    (m', ran)

zstage_main-checked_example :
    (image.magic ≡ image_magic)
    × (image.version ≡ image_version)
    × ((rc : ℤ) × (m1 : Machine) × (zstage_console_init debugged 0x200 fresh ≡ ok rc m1)
        × (is_zero rc ≡ true))
    × HadTree debugged 0x200 image blobs fresh
zstage_main-checked_example =
    zstage_main-checked debugged 0x200 image blobs fresh returned.0 returned.1
