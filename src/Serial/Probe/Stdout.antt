-- ===== src/Serial/Probe/Stdout.antt =====
-- fdt_serial_init of firmware/serial/fdt_serial.c where `stdout-path` leads to an 8250 UART.
use zstage.Base.{ℕ, ◌%◌, ◌^◌, ◌≡◌, refl, none, some, List, pos}
use zstage.Machine.{Outside, Event, Machine, uart8250_console, uart8250_driver, ok}
use zstage.Fdt.{Tree, fdt_match_node}
use zstage.Fdt.Cells.{PlatformUartData, fdt_parse_uart_node}
use zstage.Serial.Uart8250.{bdiv, serial_uart8250_match}
use zstage.Serial.Cadence.{serial_cadence_match}
use zstage.Serial.Uart8250.Start.{node_uart, serial_uart8250_init-starts}
use zstage.Serial.Probe.{stdout_node, stdout_loop, try_driver, serial_drivers, fdt_serial_init}

-- `stdout-path` leads to a node that is no Cadence UART but an 8250, with an address and the other
-- values of `uart` and the divisor `d`.
pub record IsUartAt (t : Tree) (fuel stack_addr stack_size nodeoff d : ℕ) (compatible : List ℕ)
    (uart : PlatformUartData) : Type 0 where
  pub stdout : stdout_node t ≡ pos nodeoff
  pub no_cadence : fdt_match_node (some t) (pos nodeoff) (some serial_cadence_match) ≡ none
  pub matched : fdt_match_node (some t) (pos nodeoff) (some serial_uart8250_match) ≡ some compatible
  pub parsed :
      fdt_parse_uart_node fuel (some t) (pos nodeoff) stack_addr stack_size ≡ some (some uart)
  pub divides : bdiv (uart.freq % 2 ^ 32) (uart.baud % 2 ^ 32) ≡ some d

module _ (env : Outside) (t : Tree) (fuel stack_addr stack_size nodeoff d : ℕ) (compatible : List ℕ)
    (uart : PlatformUartData) (at : IsUartAt t fuel stack_addr stack_size nodeoff d compatible uart)
    (m : Machine) (free : m.console_dev ≡ none) where
  abbrev pub chosen : List Event → Machine
  chosen trace' = record m {
    uart8250 = node_uart uart;
    console_dev = some uart8250_console;
    trace = trace';
    current_driver = some uart8250_driver;
  }

  loop-chosen :
      (trace' : List Event) × (stdout_loop env fuel stack_addr stack_size t
          (pos nodeoff)
          serial_drivers
          m
        ≡ ok none (chosen trace'))
  unfolding stdout_loop serial_drivers try_driver
  loop-chosen =
      let (trace', ran) =
        serial_uart8250_init-starts env fuel stack_addr stack_size t (pos nodeoff) uart d m free
          at.parsed at.divides in
      (trace', rw (at.no_cadence, at.matched) (rw ran refl))

  pub fdt_serial_init-chosen :
      (trace' : List Event) × (fdt_serial_init env fuel stack_addr stack_size t m
        ≡ ok (pos 0) (chosen trace'))
  unfolding fdt_serial_init
  fdt_serial_init-chosen = let (trace', ran) = loop-chosen in (trace', rw at.stdout (rw ran refl))
