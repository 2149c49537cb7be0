-- ===== src/Serial/Node.antt =====
-- include/zstage/serial/fdt_serial.h, and what the drivers for UARTs do first with their node.
use zstage.Base.{◌≡◌, refl, ℕ, none, some, ℤ}
use zstage.Machine.{Device, Cmd, pure, halt, waiting}
use zstage.Machine.KeepsDriver.{KeepsDriver, Option-KeepsDriver, pure-KeepsDriver, halt-KeepsDriver}
use zstage.Machine.Chooses.{Chooses, Option-Chooses, halt-Chooses, refuse-Chooses}
use zstage.Fdt.{Tree, MatchTable, enodev}
use zstage.Fdt.Cells.{PlatformUartData, fdt_parse_uart_node}

-- `struct fdt_serial`; no `init` of the drivers reads the match that it is given.
pub record FdtSerial : Type 0 where
  pub match_table : MatchTable
  pub init : Tree → (nodeoff : ℤ) → Cmd ℤ

-- `rc = fdt_parse_uart_node(fdt, nodeoff, &uart); if (rc) return rc;` and `init` behind it.
-- `stack_addr` and `stack_size` are what `fdt_parse_uart_node` finds in its two variables.
unfoldable pub with_uart :
    (fuel stack_addr stack_size : ℕ)
    → Tree
    → (nodeoff : ℤ) → (init : PlatformUartData → Cmd ℤ) → Cmd ℤ
with_uart fuel stack_addr stack_size t nodeoff init =
    elim (fdt_parse_uart_node fuel (some t) nodeoff stack_addr stack_size) [
      | none ↦ halt waiting
      | some none ↦ pure enodev
      | some (some uart) ↦ init uart
    ]

pub with_uart-parsed :
    (fuel stack_addr stack_size : ℕ) (t : Tree) (nodeoff : ℤ) (init : PlatformUartData → Cmd ℤ)
    (uart : PlatformUartData)
    → fdt_parse_uart_node fuel (some t) nodeoff stack_addr stack_size ≡ some (some uart)
    → with_uart fuel stack_addr stack_size t nodeoff init ≡ init uart
unfolding with_uart
with_uart-parsed fuel stack_addr stack_size t nodeoff init uart parsed = rw (with_uart, parsed) refl

pub with_uart-KeepsDriver :
    (fuel stack_addr stack_size : ℕ) (t : Tree) (nodeoff : ℤ) (f : PlatformUartData → Cmd ℤ)
    → ((uart : PlatformUartData) → KeepsDriver (f uart))
    → KeepsDriver (with_uart fuel stack_addr stack_size t nodeoff f)
unfolding with_uart
with_uart-KeepsDriver fuel stack_addr stack_size t nodeoff f h =
    Option-KeepsDriver (fdt_parse_uart_node fuel (some t) nodeoff stack_addr stack_size)
      (halt-KeepsDriver waiting) (λ parsed. Option-KeepsDriver parsed (pure-KeepsDriver enodev) h)

pub with_uart-Chooses :
    {d : Device} (fuel stack_addr stack_size : ℕ) (t : Tree) (nodeoff : ℤ)
    (f : PlatformUartData → Cmd ℤ)
    → ((uart : PlatformUartData) → Chooses d (f uart))
    → Chooses d (with_uart fuel stack_addr stack_size t nodeoff f)
unfolding with_uart
with_uart-Chooses fuel stack_addr stack_size t nodeoff f h =
    Option-Chooses (fdt_parse_uart_node fuel (some t) nodeoff stack_addr stack_size)
      (halt-Chooses waiting) (λ parsed. Option-Chooses parsed (refuse-Chooses enodev refl) h)
