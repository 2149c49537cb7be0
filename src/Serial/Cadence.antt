-- ===== src/Serial/Cadence.antt =====
-- firmware/serial/cadence-uart.c and its glue to the device tree, fdt_serial_cadence.c.
pub mod Quiet
pub mod Divisor
pub mod Ready
pub mod Init
use Prim.Native.Nat.{bit_and, bit_or}
use zstage.Base.{
  ℕ, ◌+◌, ◌-◌, ◌/◌, ◌%◌, ◌^◌, Bool, true, false, not, ◌&&◌, Option, none, some, List, [], ◌∷◌, ◌==◌,
  if◌then◌else◌, ℤ, pos, codes,
}
use zstage.Machine.{Outside, cadence_console, Cmd, pure, get, put, ◌>>=◌, ◌>>◌, and_then}
use zstage.Console.{ConsoleDevice, console_set_device}
use zstage.Fdt.{Tree, MatchTable}
use zstage.Serial.Node.{FdtSerial, with_uart}
use zstage.Serial.Mmio.{readl, writel, wait_while}

abbrev uart_reg_ctrl : ℕ
uart_reg_ctrl = 0x00

abbrev uart_reg_mode : ℕ
uart_reg_mode = 0x04

abbrev uart_reg_idr : ℕ
uart_reg_idr = 0x0c

abbrev uart_reg_brgr : ℕ
uart_reg_brgr = 0x18

abbrev pub uart_reg_csr : ℕ
uart_reg_csr = 0x2c

abbrev pub uart_reg_rfifo_tfifo : ℕ
uart_reg_rfifo_tfifo = 0x30

abbrev uart_reg_bdivr : ℕ
uart_reg_bdivr = 0x34

abbrev uart_ctrl_rxres : ℕ
uart_ctrl_rxres = 0x01

abbrev uart_ctrl_txres : ℕ
uart_ctrl_txres = 0x02

abbrev uart_ctrl_rxen : ℕ
uart_ctrl_rxen = 0x04

abbrev uart_ctrl_rxdis : ℕ
uart_ctrl_rxdis = 0x08

abbrev uart_ctrl_txen : ℕ
uart_ctrl_txen = 0x10

abbrev uart_ctrl_txdis : ℕ
uart_ctrl_txdis = 0x20

abbrev uart_mode_par_none : ℕ
uart_mode_par_none = 0x20

abbrev uart_brgr_cd_clkdivisor : ℕ
uart_brgr_cd_clkdivisor = 0x01

abbrev pub uart_csr_tful : ℕ
uart_csr_tful = 0x10

-- The sum is of `uint64_t`; the result is cut to `unsigned int`.
pub uart_min_clk_divisor : (in_freq max_target_hz : ℕ) → ℕ
uart_min_clk_divisor in_freq max_target_hz =
    let quotient = ((in_freq + max_target_hz - 1) % 2 ^ 64) / max_target_hz in
    if quotient == 0 then 0 else (quotient - 1) % 2 ^ 32

pub set_reg : (offset val : ℕ) → Cmd (Unit {0})
set_reg offset val = do m ← get; writel val (m.cadence.base + offset)

pub cadence_uart_init : (base in_freq baudrate : ℕ) → Cmd ℤ
unfolding set_reg
cadence_uart_init base in_freq baudrate = do
  m ← get
  put (record m { cadence = record { base = base; in_freq = in_freq; baudrate = baudrate } })
  set_reg uart_reg_idr 0xffff_ffff
  set_reg uart_reg_ctrl (bit_or uart_ctrl_rxdis uart_ctrl_txdis)
  if not (in_freq == 0) && not (baudrate == 0)
      then (do
        set_reg uart_reg_brgr uart_brgr_cd_clkdivisor
        set_reg uart_reg_bdivr (uart_min_clk_divisor in_freq baudrate))
      else pure tt
  set_reg uart_reg_ctrl
      (bit_or uart_ctrl_rxres (bit_or uart_ctrl_txres (bit_or uart_ctrl_rxen uart_ctrl_txen)))
  set_reg uart_reg_mode uart_mode_par_none
  console_set_device (some cadence_console)
  pure (pos 0)

-- The arguments of `cadence_uart_init` are cut to `u32`.
pub serial_cadence_init : (fuel stack_addr stack_size : ℕ) → Tree → (nodeoff : ℤ) → Cmd ℤ
unfolding cadence_uart_init with_uart
serial_cadence_init fuel stack_addr stack_size t nodeoff =
    with_uart fuel stack_addr stack_size t nodeoff
      (λ uart. cadence_uart_init uart.addr (uart.freq % 2 ^ 32) (uart.baud % 2 ^ 32))

unfoldable pub serial_cadence_match : MatchTable
serial_cadence_match = codes "cdns,uart-r1p12" ∷ codes "starfive,jh8100-uart" ∷ []

abbrev pub fdt_serial_cadence : (fuel stack_addr stack_size : ℕ) → FdtSerial
fdt_serial_cadence fuel stack_addr stack_size = record {
  match_table = serial_cadence_match;
  init = serial_cadence_init fuel stack_addr stack_size;
}

module _ (env : Outside) where
  get_reg : (offset : ℕ) → Cmd ℕ
  get_reg offset = do m ← get; readl env (m.cadence.base + offset)

  pub cadence_uart_putc : (ch : ℕ) → Cmd (Unit {0})
  unfolding get_reg set_reg
  cadence_uart_putc ch = do
    wait_while env env.patience
        (do csr ← get_reg uart_reg_csr; pure (not (bit_and csr uart_csr_tful == 0)))
    set_reg uart_reg_rfifo_tfifo ch

abbrev pub cadence_console_device : Outside → ConsoleDevice
cadence_console_device env = record {
  name = codes "cadence_uart";
  console_putc = some (cadence_uart_putc env);
  console_puts = none;
}
