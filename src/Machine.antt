-- ===== src/Machine.antt =====
-- The state of the firmware and the runs of its functions. The record `Machine` holds the memory,
-- the static variables of firmware/console.c and of the drivers in firmware/serial, and the trace
-- of what left the core: volatile accesses and semihosting calls, latest first. What the hardware
-- and the host answer is not code of the repository: it is a value of `Outside`.
pub mod Laws
pub mod Keeps
pub mod Total
pub mod KeepsDriver
pub mod Spares
pub mod Chooses
use zstage.Base.{ℕ, Bool, Option, List, ◌∷◌, ℤ}
use zstage.Memory.{Memory}

-- The `zstage_console_device` structures of the drivers.
pub data Device : Type 0 where
  cadence_console uart8250_console htif_console semihost_console : Device

-- The entries of `serial_drivers` in firmware/serial/fdt_serial.c.
pub data Driver : Type 0 where
  cadence_driver uart8250_driver htif_driver : Driver

-- The fences that riscv_io.h uses: `fence i,r` and `fence w,o`.
pub data Fence : Type 0 where
  i_r w_o : Fence

-- A volatile access has its width in bytes.
pub data Event : Type 0 where
  read : (width addr value : ℕ) → Event
  write : (width addr value : ℕ) → Event
  fence : Fence → Event
  semihost : (sysnum : ℕ) (param : List ℕ) (result : ℤ) → Event

pub record Uart8250 : Type 0 where
  pub base : ℕ
  pub in_freq : ℕ
  pub baudrate : ℕ
  pub reg_width : ℕ
  pub reg_shift : ℕ

pub record Cadence : Type 0 where
  pub base : ℕ
  pub in_freq : ℕ
  pub baudrate : ℕ

pub record Htif : Type 0 where
  pub fromhost : ℕ
  pub tohost : ℕ
  pub custom : Bool
  pub console_buf : ℕ

pub record Semihosting : Type 0 where
  pub enabled : Bool
  pub try_semihosting : Bool
  pub outfd : ℤ

pub record Machine : Type 0 where
  pub memory : Memory
  pub trace : List Event
  pub console_dev : Option Device
  pub current_driver : Option Driver
  pub uart8250 : Uart8250
  pub cadence : Cadence
  pub htif : Htif
  pub semihosting : Semihosting

-- Why a run does not return: C leaves its behaviour undefined, `__builtin_trap`, `zstage_hang`,
-- or a loop that has not ended within the rounds that it was given.
pub data Stop : Type 0 where
  undefined trapped hung waiting : Stop

pub data Run (A : Type 0) : Type 0 where
  ok : A → Machine → Run A
  stop : Stop → Machine → Run A

abbrev pub Cmd : Type 0 → Type 0
Cmd A = Machine → Run A

abbrev pub pure : {A : Type 0} → A → Cmd A
pure = ok

abbrev pub halt : {A : Type 0} → Stop → Cmd A
halt = stop

module _ {A B : Type 0} where
  abbrev pub and_then : Run A → (A → Cmd B) → Run B
  and_then (ok a m) k = k a m
  and_then (stop s m) k = stop s m

  infixl 5 ◌>>=◌ ◌>>◌
  abbrev pub ◌>>=◌ : Cmd A → (A → Cmd B) → Cmd B
  c >>= k = λ m. and_then (c m) k

  abbrev pub ◌>>◌ : Cmd A → Cmd B → Cmd B
  c >> d = c >>= λ _. d

abbrev pub get : Cmd Machine
get m = ok m m

abbrev pub put : Machine → Cmd (Unit {0})
put m _ = ok tt m

abbrev pub emit : Event → Cmd (Unit {0})
emit e m = ok tt (record m { trace = e ∷ m.trace })

-- What the hardware answers to a volatile read and the host to a semihosting call, by what
-- happened before; and the number of rounds that a wait for either is given.
pub record Outside : Type 0 where
  pub answer : List Event → (width addr : ℕ) → ℕ
  pub trap : List Event → (sysnum : ℕ) → List ℕ → ℤ
  pub debugger : Bool
  pub patience : ℕ
