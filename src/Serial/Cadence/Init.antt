-- ===== src/Serial/Cadence/Init.antt =====
-- cadence_uart_init of firmware/serial/cadence-uart.c leaves the memory alone, and the choice of the driver to
-- its caller; where no console device was chosen, it chooses its own exactly if it returns 0.
use zstage.Base.{ℤ, ℕ, ◌+◌, refl, if◌then◌else◌, not, ◌&&◌, ◌==◌, ◌%◌, ◌^◌}
use zstage.Machine.{cadence_console, pure, ◌>>◌, get}
use zstage.Machine.Keeps.{Keeps, pure-Keeps, bind-Keeps, if-Keeps}
use zstage.Machine.Chooses.{Chooses, set-Chooses, then-Chooses}
use zstage.Machine.KeepsDriver.{
  KeepsDriver, bind-KeepsDriver, then-KeepsDriver, if-KeepsDriver, set-KeepsDriver, get-KeepsDriver,
  pure-KeepsDriver,
}
use zstage.Console.Wire.{console_set_device-KeepsDriver, console_set_device-Chooses}
use zstage.Fdt.{Tree}
use zstage.Serial.Node.{with_uart-KeepsDriver, with_uart-Chooses}
use zstage.Serial.Mmio.{writel}
use zstage.Serial.Cadence.Quiet.{set_reg-Keeps}
use zstage.Serial.Cadence.{uart_min_clk_divisor, set_reg, cadence_uart_init, serial_cadence_init}

set_reg-KeepsDriver : (offset val : ℕ) → KeepsDriver (set_reg offset val)
unfolding set_reg writel
set_reg-KeepsDriver offset val =
    bind-KeepsDriver get (λ m. writel val (m.cadence.base + offset)) get-KeepsDriver
      (λ m. record { kept = λ m'. (refl, refl) })

cadence_uart_init-KeepsDriver :
    (base in_freq baudrate : ℕ) → KeepsDriver (cadence_uart_init base in_freq baudrate)
unfolding cadence_uart_init
cadence_uart_init-KeepsDriver base in_freq baudrate =
    set-KeepsDriver (λ m. (refl, refl))
      (λ m. then-KeepsDriver (set_reg-KeepsDriver _ _) (
        then-KeepsDriver (set_reg-KeepsDriver _ _) (
          then-KeepsDriver
            (if-KeepsDriver (not (in_freq == 0) && not (baudrate == 0)) _ _
              (then-KeepsDriver (set_reg-KeepsDriver _ _) (set_reg-KeepsDriver _ _))
              (pure-KeepsDriver tt))
            (then-KeepsDriver (set_reg-KeepsDriver _ _) (
              then-KeepsDriver (set_reg-KeepsDriver _ _) (
                then-KeepsDriver (console_set_device-KeepsDriver cadence_console)
                  (pure-KeepsDriver _)))))))

pub serial_cadence_init-KeepsDriver :
    (fuel stack_addr stack_size : ℕ) (t : Tree) (nodeoff : ℤ)
    → KeepsDriver (serial_cadence_init fuel stack_addr stack_size t nodeoff)
unfolding serial_cadence_init
serial_cadence_init-KeepsDriver fuel stack_addr stack_size t nodeoff =
    with_uart-KeepsDriver fuel stack_addr stack_size t nodeoff _
      (λ uart. cadence_uart_init-KeepsDriver uart.addr (uart.freq % 2 ^ 32) (uart.baud % 2 ^ 32))

set_divisor-Keeps :
    (in_freq baudrate : ℕ)
    → Keeps (
        if not (in_freq == 0) && not (baudrate == 0)
        then (set_reg 0x18 1 >> set_reg 0x34 (uart_min_clk_divisor in_freq baudrate))
        else pure tt)
set_divisor-Keeps in_freq baudrate =
    if-Keeps (not (in_freq == 0) && not (baudrate == 0)) _ _
      (bind-Keeps (set_reg 0x18 1) _ (set_reg-Keeps _ _) (λ u. set_reg-Keeps _ _)) (pure-Keeps tt)

cadence_uart_init-Chooses :
    (base in_freq baudrate : ℕ) → Chooses cadence_console (cadence_uart_init base in_freq baudrate)
unfolding cadence_uart_init
cadence_uart_init-Chooses base in_freq baudrate =
    set-Chooses (λ m. refl)
      (λ m. then-Chooses (set_reg-Keeps _ _) (
        then-Chooses (set_reg-Keeps _ _) (
          then-Chooses (set_divisor-Keeps in_freq baudrate) (
            then-Chooses (set_reg-Keeps _ _)
              (then-Chooses (set_reg-Keeps _ _) (console_set_device-Chooses cadence_console))))))

pub serial_cadence_init-Chooses :
    (fuel stack_addr stack_size : ℕ) (t : Tree) (nodeoff : ℤ)
    → Chooses cadence_console (serial_cadence_init fuel stack_addr stack_size t nodeoff)
unfolding serial_cadence_init
serial_cadence_init-Chooses fuel stack_addr stack_size t nodeoff =
    with_uart-Chooses fuel stack_addr stack_size t nodeoff _
      (λ uart. cadence_uart_init-Chooses uart.addr (uart.freq % 2 ^ 32) (uart.baud % 2 ^ 32))
