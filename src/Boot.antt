-- ===== src/Boot.antt =====
-- firmware/main.c, platform/generic/platform.c, and the structures of image_header.h and
-- payload_blob.h. Here the header and the table of blobs are given by their contents, as they are at
-- the call; InMemory has them in the memory that the copies write, and Reread compares the two. Of the banner, the version line of a build with no
-- ZSTAGE_VERSION_GIT, ZSTAGE_BUILD_TIME_STAMP and ZSTAGE_BUILD_COMPILER_VERSION is modelled.
pub mod Copies
pub mod Lines
pub mod Effect
pub mod Steps
pub mod Plan
pub mod Run
pub mod Debugger
pub mod Stdout
pub mod Frame
pub mod InMemory
pub mod Reread
pub mod Checks
use zstage.Base.{
  ℕ, ◌+◌, ◌-◌, ◌*◌, ◌%◌, ◌^◌, Bool, true, false, not, ◌&&◌, ◌||◌, Option, none, some, List, [], ◌∷◌,
  ◌++◌, ◌==◌, if◌then◌else◌, ℤ, pos, negsuc, is_zero, codes,
}
use zstage.Memory.{Memory}
use zstage.CString.{memcpy}
use zstage.Machine.{
  Outside, Device, cadence_console, uart8250_console, htif_console, semihost_console, Machine, Cmd,
  pure, halt, hung, get, put, ◌>>=◌, ◌>>◌, and_then,
}
use zstage.Console.{Devices, console_get_device}
use zstage.Format.Print.{printf}
use zstage.Fdt.{Tree, enosys}
use zstage.Serial.Semihosting.{semihosting_serial_init}
use zstage.Serial.Probe.{console_devices, fdt_serial_init}

pub record ImageHeader : Type 0 where
  pub jump_insn : ℕ
  pub magic : ℕ
  pub version : ℕ
  pub reserved1 : ℕ
  pub image_run_addr : ℕ
  pub image_size : ℕ
  pub image_spin_addr : ℕ
  pub image_nmivect_addr : ℕ
  pub image_nmivect_size : ℕ
  pub image_platdata_addr : ℕ
  pub image_platdata_size : ℕ
  pub next_load_addr : ℕ
  pub next_run_addr : ℕ
  pub next_fdt_addr : ℕ
  pub next_size : ℕ
  pub reserved2 : List ℕ

pub record PayloadBlob : Type 0 where
  pub src_addr : ℕ
  pub dst_addr : ℕ
  pub size : ℕ
  pub reserved : ℕ

abbrev pub image_magic : ℕ
image_magic = 0x6774737a

-- `ZSTAGE_IMAGE_MKVERSION(1, 0)`
abbrev pub image_version : ℕ
image_version = 1 * 2 ^ 16 + 0

abbrev pub fdt_magic : ℕ
fdt_magic = 0xd00dfeed

abbrev pub version_major : ℕ
version_major = 0

abbrev pub version_minor : ℕ
version_minor = 1

pub zstage_hang : {A : Type 0} → Cmd A
zstage_hang = halt hung

-- An `int` in its slot of the `va_list`.
abbrev pub to_word : ℤ → ℕ
to_word (pos n) = n % 2 ^ 64
to_word (negsuc n) = 2 ^ 64 - 1 - n % 2 ^ 64

pub copy : (dest src count : ℕ) → Cmd (Unit {0})
copy dest src count = do m ← get; put (record m { memory = memcpy m.memory dest src count })

-- What the code takes from outside: the hardware, libfdt on the memory as it stands, the places of
-- `tohost`, `fromhost`, of print's buffer and of the string literals, what is on the stack, and
-- fuel for the walk to the root of the tree.
pub record Platform : Type 0 where
  pub outside : Outside
  pub libfdt : Memory → (fdt : ℕ) → Tree
  pub tohost : ℕ
  pub fromhost : ℕ
  pub tbuf : ℕ
  pub string_at : ℕ → List ℕ
  pub literal : List ℕ → ℕ
  pub stack_addr : ℕ
  pub stack_size : ℕ
  pub depth : ℕ

module _ (p : Platform) where
  abbrev pub device_name : Device → List ℕ
  device_name d = (console_devices p.outside p.tohost p.fromhost d).name

  pub say : (format : List ℕ) (args : List ℕ) → Cmd (Unit {0})
  say format args = do
    pc ← printf p.string_at (console_devices p.outside p.tohost p.fromhost) p.tbuf format args
    pure tt

  pub platform_early_init : (boot_arg1 : ℕ) → Cmd ℤ
  platform_early_init boot_arg1 = pure (pos 0)

  pub platform_stdio_init : (boot_arg1 : ℕ) → Cmd ℤ
  platform_stdio_init boot_arg1 = do
    rc ← semihosting_serial_init p.outside
    m ← get
    if is_zero rc
        then pure (pos 0)
        else fdt_serial_init p.outside p.depth p.stack_addr p.stack_size
            (p.libfdt m.memory boot_arg1)

  pub platform_prepare_fdt : (boot_arg1 : ℕ) → ImageHeader → Cmd ℤ
  unfolding copy
  platform_prepare_fdt boot_arg1 hdr = do
    m ← get
    let fdt = p.libfdt m.memory boot_arg1
    if not (fdt.magic == fdt_magic)
        then pure enosys
        else (do copy hdr.next_fdt_addr boot_arg1 fdt.totalsize; pure (pos 0))

  pub platform_final_init : (boot_arg1 : ℕ) → Cmd ℤ
  platform_final_init boot_arg1 = pure (pos 0)

  pub zstage_console_init : (boot_arg1 : ℕ) → Cmd ℤ
  unfolding platform_stdio_init
  zstage_console_init boot_arg1 = platform_stdio_init boot_arg1

  -- `printf` with an error code, then `zstage_hang`.
  hang_with : (format : List ℕ) (rc : ℤ) → Cmd (Unit {0})
  unfolding say zstage_hang
  hang_with format rc = say format (to_word rc ∷ []) >> zstage_hang

  pub check : ℤ → (format : List ℕ) → Cmd (Unit {0})
  unfolding hang_with
  check rc format = if is_zero rc then pure tt else hang_with format rc

  pub say_copying : (what : List ℕ) (size dest src : ℕ) → Cmd (Unit {0})
  unfolding say
  say_copying what size dest src =
      say (codes "zstage: copying %s (%lu bytes) to 0x%lx from 0x%lx\n")
        (p.literal what ∷ size ∷ dest ∷ src ∷ [])

  -- `while (blobs->size) { … blobs++; }`: the table ends at a blob of size 0.
  pub copy_blobs : List PayloadBlob → Cmd (Unit {0})
  unfolding say_copying copy
  copy_blobs [] = pure tt
  copy_blobs (blob ∷ blobs) =
      let rest = copy_blobs blobs in
      if blob.size == 0 then pure tt else (do
        say_copying (codes "blob") blob.size blob.dst_addr blob.src_addr
        copy blob.dst_addr blob.src_addr blob.size
        rest)

  pub copy_next_stage : ImageHeader → Cmd (Unit {0})
  unfolding say_copying copy
  copy_next_stage hdr = if hdr.next_load_addr == hdr.next_run_addr then pure tt else (do
    say_copying (codes "next stage") hdr.next_size hdr.next_run_addr hdr.next_load_addr
    copy hdr.next_run_addr hdr.next_load_addr hdr.next_size)

  pub say_console : Cmd (Unit {0})
  unfolding say
  say_console = do
    cdev ← console_get_device
    say (codes "zstage: console device %s\n")
        (p.literal (elim cdev [ none ↦ codes "---" | some d ↦ device_name d ]) ∷ [])

  -- `zstage_main` behind the check of the header and the console's init.
  pub boot : (boot_arg1 : ℕ) → ImageHeader → List PayloadBlob → Cmd (Unit {0})
  unfolding check say_console copy_blobs copy_next_stage
  boot boot_arg1 hdr blobs = do
    say (codes "\nVentana zStage v%d.%d\n") (version_major ∷ version_minor ∷ [])
    rc ← platform_early_init boot_arg1
    check rc (codes "zstage: platform early init failed (error %d)\n")
    say_console
    copy_blobs blobs
    say (codes "zstage: setup platform FDT at 0x%lx\n") (hdr.next_fdt_addr ∷ [])
    rc ← platform_prepare_fdt boot_arg1 hdr
    check rc (codes "zstage: platform FDT prepare failed (error %d)\n")
    copy_next_stage hdr
    say (codes "zstage: next booting stage at 0x%lx (%lu bytes)\n")
        (hdr.next_run_addr ∷ hdr.next_size ∷ [])
    rc ← platform_final_init boot_arg1
    check rc (codes "zstage: platform final init failed (error %d)\n")
    say (codes "zstage: jumping to next booting stage\n") []

  pub zstage_main : (boot_arg1 : ℕ) → ImageHeader → List PayloadBlob → Cmd (Unit {0})
  zstage_main boot_arg1 hdr blobs =
      if not (hdr.magic == image_magic) || not (hdr.version == image_version)
      then zstage_hang
      else (do
        rc ← zstage_console_init boot_arg1
        if is_zero rc then boot boot_arg1 hdr blobs else zstage_hang)
