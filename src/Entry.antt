-- ===== src/Entry.antt =====
-- firmware/head.S on RV64. A register holds a 64-bit word; `blt`, `bge` and `ble` compare words as
-- signed. The addresses of labels are offsets from `_start`, to which `la` adds the address at which
-- the code runs. `call` of the weak `_zstate_platform_hart_init` returns at once.
pub mod Words
pub mod Data
pub mod Loops
pub mod InUse
pub mod Relocate
pub mod Harts
pub mod Call
use zstage.Base.{
  ℕ, zero, suc, ◌+◌, ◌-◌, ◌*◌, ◌/◌, ◌%◌, ◌^◌, Bool, true, false, not, ◌&&◌, ◌||◌, ◌==◌, ltb,
  if◌then◌else◌,
}
use zstage.Memory.{Memory, store}
use zstage.Machine.{Machine, Cmd, pure, halt, hung, waiting, get, put, ◌>>=◌, ◌>>◌, and_then}

-- `n` bytes at `p`, the low one first, and a store of them.
unfoldable pub load_bytes : (n : ℕ) → Memory → (p : ℕ) → ℕ
load_bytes zero m p = 0
load_bytes (suc n) m p = m p + 2 ^ 8 * load_bytes n m (p + 1)

unfoldable pub store_bytes : (n : ℕ) → Memory → (p v : ℕ) → Memory
store_bytes zero m p v = m
store_bytes (suc n) m p v = store_bytes n (store m p v) (p + 1) (v / 2 ^ 8)

-- `__SIZEOF_POINTER__`
abbrev pub sizeof_pointer : ℕ
sizeof_pointer = 8

-- `REG_L` and `REG_S`
abbrev pub reg_l : Memory → (p : ℕ) → ℕ
reg_l = load_bytes 8

abbrev pub reg_s : Memory → (p v : ℕ) → Memory
reg_s = store_bytes 8

abbrev pub add : (a b : ℕ) → ℕ
add a b = (a + b) % 2 ^ 64

abbrev pub sub : (a b : ℕ) → ℕ
sub a b = (a + 2 ^ 64 - b) % 2 ^ 64

-- `blt`: as signed words.
unfoldable pub blt : (a b : ℕ) → Bool
blt a b = ltb ((a + 2 ^ 63) % 2 ^ 64) ((b + 2 ^ 63) % 2 ^ 64)

unfoldable pub bge : (a b : ℕ) → Bool
unfolding blt
bge a b = not (blt a b)

unfoldable pub ble : (a b : ℕ) → Bool
unfolding blt
ble a b = not (blt b a)

-- Whether `BRANGE` jumps.
unfoldable pub brange : (start_reg end_reg check_reg : ℕ) → Bool
unfolding blt bge
brange start_reg end_reg check_reg = not (blt check_reg start_reg) && not (bge check_reg end_reg)

-- The labels, as offsets from `_start`.
pub record Image : Type 0 where
  pub relocate_lottery : ℕ
  pub load_start : ℕ
  pub boot_arg1 : ℕ
  pub boot_status : ℕ
  pub spin_addr : ℕ
  pub relocate : ℕ
  pub relocate_done : ℕ
  pub bss_start : ℕ
  pub bss_end : ℕ
  pub blob_table : ℕ

-- `_zstage_header_image_run_addr` and `_zstage_header_image_size`
abbrev pub header_image_run_addr : ℕ
header_image_run_addr = 16

abbrev pub header_image_size : ℕ
header_image_size = 24

pub load : (p : ℕ) → Cmd ℕ
load p = do m ← get; pure (reg_l m.memory p)

pub save : (p v : ℕ) → Cmd (Unit {0})
save p v = do m ← get; put (record m { memory = reg_s m.memory p v })

-- `_relocate_copy_to_lower_loop`, `_relocate_copy_to_upper_loop` and `_bss_zero`: the rounds are fuel.
pub copy_to_lower : (rounds t0 t1 t2 : ℕ) → Cmd (Unit {0})
unfolding load save blt
copy_to_lower zero t0 t1 t2 = halt waiting
copy_to_lower (suc rounds) t0 t1 t2 = do
  t3 ← load t2
  save t0 t3
  if blt (add t0 sizeof_pointer) t1
      then copy_to_lower rounds (add t0 sizeof_pointer) t1 (add t2 sizeof_pointer)
      else pure tt

pub copy_to_upper : (rounds t0 t1 t3 : ℕ) → Cmd (Unit {0})
unfolding load save blt
copy_to_upper zero t0 t1 t3 = halt waiting
copy_to_upper (suc rounds) t0 t1 t3 = do
  t2 ← load (sub t3 sizeof_pointer)
  save (sub t1 sizeof_pointer) t2
  if blt t0 (sub t1 sizeof_pointer)
      then copy_to_upper rounds t0 (sub t1 sizeof_pointer) (sub t3 sizeof_pointer)
      else pure tt

pub bss_zero : (rounds t1 t2 : ℕ) → Cmd (Unit {0})
unfolding save blt
bss_zero zero t1 t2 = halt waiting
bss_zero (suc rounds) t1 t2 = do
  save t1 0
  if blt (add t1 sizeof_pointer) t2 then bss_zero rounds (add t1 sizeof_pointer) t2 else pure tt

-- `la`, where the code runs at `base`.
abbrev pub la : (base label : ℕ) → ℕ
la base label = add base label

-- The five `BRANGE`s of a copy, for the part from `first` to `last` that is both read and written,
-- where the copy starts from `from`.
unfoldable pub is_in_use : Image → (base first last from : ℕ) → Bool
unfolding brange
is_in_use img base first last from =
    brange first last (la base img.relocate_lottery)
    || (brange first last (la base img.boot_status)
        || (brange first last (la base img.relocate)
            || (brange first last (la base img.relocate_done)
                || brange (la base img.relocate) (la base img.relocate_done) from)))

-- From `_relocate` on; the result is where the code goes on, which is `_relocate_done` of the copy.
pub relocate : Image → (rounds base : ℕ) → Cmd ℕ
unfolding load copy_to_lower copy_to_upper blt ble is_in_use
relocate img rounds base = do
  t0 ← load (la base header_image_run_addr)
  t1 ← load (la base header_image_size)
  t2 ← load (la base img.load_start)
  if t0 == t2
      then pure (la base img.relocate_done)
      else if blt t2 t0
      then (if not (ble (add t2 t1) t0) && is_in_use img base t0 (add t2 t1) t0
          then halt hung
          else (do
            copy_to_upper rounds t0 (add t1 t0) (add t2 t1)
            pure (add (sub (la base img.relocate_done) t2) t0)))
      else if not (ble (add t1 t0) t2) && is_in_use img base t2 (add t1 t0) t2
      then halt hung
      else (do
        copy_to_lower rounds t0 (add t1 t0) t2
        pure (add (sub (la base img.relocate_done) t2) t0))
