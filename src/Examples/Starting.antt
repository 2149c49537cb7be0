-- ===== src/Examples/Starting.antt =====
-- A boot without a debugger, with the UART of a small device tree.
use zstage.Base.{
  List, [], ℕ, ◌≡◌, ◌==◌, refl, none, some, arith, codes, length, pos, negsuc, is_zero,
  if◌then◌else◌,
}
use zstage.Machine.{Event, Machine, uart8250_console, ok}
use zstage.Fdt.{Tree, fdt_match_node, match_loop}
use zstage.Fdt.Cells.{
  PlatformUartData, fdt_parse_uart_node, fdt_get_node_addr_size, translate_loop, read_cells,
  fdt_translate_address,
}
use zstage.Serial.Uart8250.{uart8250_init, bdiv, serial_uart8250_match}
use zstage.Serial.Cadence.{serial_cadence_match}
use zstage.Serial.Uart8250.Live.{IsResponsive}
use zstage.Serial.Uart8250.Start.{node_uart, uart_of, configured, uart8250_init-configured}
use zstage.Serial.Uart8250.Registers.{Registers, replay}
use zstage.Serial.Probe.{stdout_node}
use zstage.Serial.Probe.Stdout.{IsUartAt}
use zstage.Boot.{Platform, zstage_main}
use zstage.Boot.Effect.{Agree}
use zstage.Boot.Plan.{booted}
use zstage.Boot.Stdout.{zstage_main-uart8250}
use zstage.Examples.{outside, platform, texts, tree}
use zstage.Examples.Strings.{texts-IsBytes}
use zstage.Examples.Booting.{literals, fresh, image, blobs, can_blobs, can_fdt, can_next}

-- One node below the root, an ns16550 at 0x1000 with a clock of 1.8432 MHz; a name is told by its length.
abbrev value : (length_name i : ℕ) → ℕ
value length_name i =
    if length_name == length (codes "clock-frequency")
    then 1843200
    else if length_name == length (codes "current-speed")
    then 115200
    else if length_name == length (codes "reg-shift")
    then 0
    else if length_name == length (codes "reg-io-width")
    then 1
    else if i == 0
    then 0x1000
    else 0x100

abbrev one_uart : Tree
one_uart = record tree {
  node_check_compatible = λ nodeoff compatible.
      if length compatible == length (codes "ns16550") then pos 0 else negsuc 0;
  parent_offset = λ nodeoff. if is_zero nodeoff then negsuc 0 else pos 0;
  getprop = λ nodeoff name.
      if length name == length (codes "ranges")
      then none
      else some (record { len = 8; cell = λ i. value (length name) i; string = codes "/uart" });
}

abbrev bare : Platform
bare = record platform {
  libfdt = λ m fdt. one_uart;
  string_at = literals;
  literal = λ s. if length s == 11 then 12 else length s;
}

abbrev uart : PlatformUartData
uart = record { addr = 0x1000; freq = 1843200; baud = 115200; reg_shift = 0; reg_io_width = 1 }

uart-IsUartAt : IsUartAt one_uart 5 0 0 4 1 (codes "ns16550") uart
unfolding stdout_node fdt_translate_address fdt_match_node match_loop serial_cadence_match
    serial_uart8250_match bdiv fdt_parse_uart_node fdt_get_node_addr_size translate_loop read_cells
uart-IsUartAt = record {
  stdout = refl;
  no_cadence = refl;
  matched = refl;
  parsed = refl;
  divides = refl;
}

uart-IsResponsive : IsResponsive outside (node_uart uart)
uart-IsResponsive m same = (0, omega arith, rw same (ground arith))

zstage_main-uart8250_example :
    (m' : Machine) × (zstage_main bare 0x200 image blobs fresh ≡ ok tt m')
    × Agree 0x800 m'.memory (booted bare 0x200 image blobs texts)
    × (m'.console_dev ≡ some uart8250_console)
zstage_main-uart8250_example =
    zstage_main-uart8250 bare 0x200 4 1 (codes "ns16550") uart fresh refl refl refl uart-IsUartAt
      image blobs uart-IsResponsive refl refl texts-IsBytes (refl, omega arith) (refl, omega arith)
      (refl, omega arith) can_blobs (λ m' same. refl) refl can_fdt can_next

-- The registers at reset.
abbrev reset : Registers
reset = record {
  ier = 0;
  fcr = 0;
  lcr = 0;
  mcr = 0;
  scr = 0;
  divisor_low = 0;
  divisor_high = 0;
  sent = [];
}

uart8250_init-configured_example :
    (trace' : List Event) × (uart8250_init outside 0x1000 1843200 115200 0 1 fresh
      ≡ ok (pos 0) (record fresh {
        uart8250 = uart_of 0x1000 1843200 115200 0 1;
        console_dev = some uart8250_console;
        trace = trace';
      }))
    × (replay (uart_of 0x1000 1843200 115200 0 1) reset trace' ≡ configured 1 reset)
unfolding bdiv replay
uart8250_init-configured_example =
    uart8250_init-configured outside 0x1000 1843200 115200 0 1 1 fresh reset refl refl (omega arith)
      refl
