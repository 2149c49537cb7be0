-- ===== src/Serial/Uart8250.antt =====
-- firmware/serial/uart8250.c and its glue to the device tree, fdt_serial_uart8250.c. `u32`
-- arithmetic wraps.
pub mod Quiet
pub mod Ready
pub mod Live
pub mod Init
pub mod Access
pub mod Registers
pub mod Start
use Prim.Native.Nat.{bit_and}
use zstage.Base.{
  ℕ, ◌+◌, ◌*◌, ◌/◌, ◌%◌, ◌^◌, Bool, true, false, Option, none, some, List, [], ◌∷◌, ◌==◌,
  if◌then◌else◌, ℤ, pos, codes,
}
use zstage.Machine.{
  Outside, uart8250_console, Uart8250, Cmd, pure, halt, undefined, get, put, ◌>>=◌, ◌>>◌, and_then,
}
use zstage.Console.{ConsoleDevice, console_set_device}
use zstage.Fdt.{Tree, MatchTable}
use zstage.Serial.Node.{FdtSerial, with_uart}
use zstage.Serial.Mmio.{readb, readw, readl, writeb, writew, writel, wait_while}

abbrev uart_rbr_offset : ℕ
uart_rbr_offset = 0

abbrev pub uart_thr_offset : ℕ
uart_thr_offset = 0

abbrev uart_dll_offset : ℕ
uart_dll_offset = 0

abbrev uart_ier_offset : ℕ
uart_ier_offset = 1

abbrev uart_dlm_offset : ℕ
uart_dlm_offset = 1

abbrev uart_fcr_offset : ℕ
uart_fcr_offset = 2

abbrev uart_lcr_offset : ℕ
uart_lcr_offset = 3

abbrev uart_mcr_offset : ℕ
uart_mcr_offset = 4

abbrev pub uart_lsr_offset : ℕ
uart_lsr_offset = 5

abbrev uart_scr_offset : ℕ
uart_scr_offset = 7

abbrev pub uart_lsr_thre : ℕ
uart_lsr_thre = 0x20

-- `u32 offset = num << uart8250_reg_shift;`, where the shift is less than 32.
pub reg_addr : Uart8250 → (num : ℕ) → ℕ
reg_addr u num = u.base + (num * 2 ^ u.reg_shift) % 2 ^ 32

pub set_reg : (num val : ℕ) → Cmd (Unit {0})
unfolding reg_addr
set_reg num val = do
  m ← get
  let addr = reg_addr m.uart8250 num
  if m.uart8250.reg_width == 1
      then writeb val addr
      else if m.uart8250.reg_width == 2
      then writew val addr
      else writel val addr

-- The divisor of the clock, a `u16`, from `u32` arguments; `none` for a division by zero.
unfoldable pub bdiv : (in_freq baudrate : ℕ) → Option ℕ
bdiv in_freq baudrate =
    let d = (16 * baudrate) % 2 ^ 32 in if d == 0 then none else some (in_freq / d % 2 ^ 16)

-- `if (bdiv) { … }`: the divisor latch.
pub set_divisor : (d : ℕ) → Cmd (Unit {0})
unfolding set_reg
set_divisor d = if d == 0 then pure tt else (do
  set_reg uart_dll_offset (bit_and d 0xff)
  set_reg uart_dlm_offset (bit_and (d / 2 ^ 8) 0xff))

module _ (env : Outside) where
  pub get_reg : (num : ℕ) → Cmd ℕ
  unfolding reg_addr
  get_reg num = do
    m ← get
    let addr = reg_addr m.uart8250 num
    if m.uart8250.reg_width == 1
        then readb env addr
        else if m.uart8250.reg_width == 2
        then readw env addr
        else readl env addr

  pub uart8250_putc : (ch : ℕ) → Cmd (Unit {0})
  unfolding get_reg set_reg
  uart8250_putc ch = do
    wait_while env env.patience
        (do lsr ← get_reg uart_lsr_offset; pure (bit_and lsr uart_lsr_thre == 0))
    set_reg uart_thr_offset ch

  pub uart8250_init : (base in_freq baudrate reg_shift reg_width : ℕ) → Cmd ℤ
  unfolding get_reg set_reg bdiv set_divisor
  uart8250_init base in_freq baudrate reg_shift reg_width = do
    m ← get
    put (record m {
      uart8250 = record {
        base = base;
        in_freq = in_freq;
        baudrate = baudrate;
        reg_width = reg_width;
        reg_shift = reg_shift;
      };
    })
    elim (bdiv in_freq baudrate) [
      | none ↦ halt undefined
      | some d ↦ do
        set_reg uart_ier_offset 0x00
        set_reg uart_lcr_offset 0x80
        set_divisor d
        set_reg uart_lcr_offset 0x03
        set_reg uart_fcr_offset 0x01
        set_reg uart_mcr_offset 0x00
        lsr ← get_reg uart_lsr_offset
        rbr ← get_reg uart_rbr_offset
        set_reg uart_scr_offset 0x00
        console_set_device (some uart8250_console)
        pure (pos 0)
    ]

  -- The arguments of `uart8250_init` are cut to `u32`.
  pub serial_uart8250_init : (fuel stack_addr stack_size : ℕ) → Tree → (nodeoff : ℤ) → Cmd ℤ
  unfolding uart8250_init with_uart
  serial_uart8250_init fuel stack_addr stack_size t nodeoff =
      with_uart fuel stack_addr stack_size t nodeoff (λ uart.
        uart8250_init uart.addr (uart.freq % 2 ^ 32) (uart.baud % 2 ^ 32) (uart.reg_shift % 2 ^ 32)
          (uart.reg_io_width % 2 ^ 32))

unfoldable pub serial_uart8250_match : MatchTable
serial_uart8250_match = codes "ns16550" ∷ codes "ns16550a" ∷ codes "snps,dw-apb-uart" ∷ []

abbrev pub fdt_serial_uart8250 : Outside → (fuel stack_addr stack_size : ℕ) → FdtSerial
fdt_serial_uart8250 env fuel stack_addr stack_size = record {
  match_table = serial_uart8250_match;
  init = serial_uart8250_init env fuel stack_addr stack_size;
}

abbrev pub uart8250_console_device : Outside → ConsoleDevice
uart8250_console_device env = record {
  name = codes "uart8250";
  console_putc = some (uart8250_putc env);
  console_puts = none;
}
