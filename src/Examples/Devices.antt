-- ===== src/Examples/Devices.antt =====
-- The drivers, the device tree and the boot at small inputs.
use Prim.Native.Nat.{bit_and}
use zstage.Base.{
  ◌≢◌, sub_ℕ, ◌==◌, if◌then◌else◌, ℕ, ◌+◌, ◌*◌, ◌<◌, ◌≡◌, ◌≤◌, ◌⊎◌, refl, none, some, List, [], ◌∷◌,
  arith, codes, pos, negsuc,
}
use zstage.Machine.{i_r, w_o, Event, stop, waiting, ok}
use zstage.Console.{nputs}
use zstage.Serial.Uart8250.{uart8250_putc, uart_lsr_thre}
use zstage.Serial.Uart8250.Ready.{thr_write, lsr_read, uart8250_putc-ready}
use zstage.Serial.Cadence.{uart_min_clk_divisor}
use zstage.Serial.Cadence.Divisor.{uart_min_clk_divisor-least}
use zstage.Serial.Probe.{console_devices}
use zstage.Serial.Probe.Quiet.{nputs-uart8250_returns}
use zstage.Fdt.{Tree, Property, fdt_find_match, fdt_parse_phandle_with_args}
use zstage.Fdt.Lookup.{IsSearch, has_node, fdt_find_match-IsSearch}
use zstage.Fdt.Phandle.{AreInBounds, fdt_parse_phandle_with_args-AreInBounds}
use zstage.Fdt.Cells.{
  PlatformUartData, fdt_parse_uart_node, AddrSize, to_nat, fdt_translate_address,
  fdt_get_node_addr_size, translate_window, read_cells,
}
use zstage.Fdt.Cells.Depth.{Returns, fdt_get_node_addr_size-Returns, fdt_get_node_addr_size_refused}
use zstage.Serial.Htif.{tohost_cmd, fromhost_dev, fromhost_cmd, fromhost_data}
use zstage.Serial.Uart8250.Live.{IsResponsive}
use zstage.Serial.Htif.Fields.{tohost_cmd-fields}
use zstage.Fdt.Cells.Uart.{IsUsable, IsUart, fdt_parse_uart_node-IsUsable}
use zstage.Examples.{outside, machine, tree}

uart_min_clk_divisor-least_example :
    (1843200 ≤ 115200 * (uart_min_clk_divisor 1843200 115200 + 1))
    × ((uart_min_clk_divisor 1843200 115200 ≡ 0)
        ⊎ (115200 * uart_min_clk_divisor 1843200 115200 < 1843200))
uart_min_clk_divisor-least_example =
    uart_min_clk_divisor-least 1843200 115200 (omega arith) (omega arith) (omega arith)

fdt_find_match-IsSearch_example :
    IsSearch
      (has_node tree (negsuc 0))
      (codes "ns16550" ∷ [])
      (fdt_find_match (some tree) (negsuc 0) (some (codes "ns16550" ∷ []))).1
    × ((c : List ℕ)
        → (fdt_find_match (some tree) (negsuc 0) (some (codes "ns16550" ∷ []))).1 ≡ some c
        → (fdt_find_match (some tree) (negsuc 0) (some (codes "ns16550" ∷ []))).0 ≡ pos 8)
    × ((fdt_find_match (some tree) (negsuc 0) (some (codes "ns16550" ∷ []))).1 ≡ none
        → (fdt_find_match (some tree) (negsuc 0) (some (codes "ns16550" ∷ []))).0 ≡ negsuc 8)
fdt_find_match-IsSearch_example = fdt_find_match-IsSearch tree (negsuc 0) (codes "ns16550" ∷ [])

fdt_parse_phandle_with_args-AreInBounds_example :
    AreInBounds
      (λ i. 1)
      0
      3
      (fdt_parse_phandle_with_args (some tree) (pos 8) (codes "clocks") (codes "#clock-cells") 0).1
fdt_parse_phandle_with_args-AreInBounds_example =
    fdt_parse_phandle_with_args-AreInBounds tree (pos 8) (codes "clocks") (codes "#clock-cells") 0
      (record { len = 12; cell = λ i. 1; string = [] }) refl refl

-- A node at 8 below one at 3, whose window of `ranges` is empty.
abbrev window_cells : Property
window_cells = record { len = 12; cell = λ i. if i == 2 then 0 else 1; string = [] }

abbrev empty_window : Tree
empty_window = record tree {
  getprop = λ nodeoff name. some window_cells;
  parent_offset = λ nodeoff. sub_ℕ (to_nat nodeoff) 5;
}

fdt_get_node_addr_size-Returns_example :
    Returns
      (some 7)
      none
      (fdt_get_node_addr_size 2 (some empty_window) (pos 8) (pos 0) (some 7) none)
fdt_get_node_addr_size-Returns_example =
    fdt_get_node_addr_size-Returns 1 2 empty_window (pos 8) (pos 0) (some 7) none refl (omega arith)

fdt_get_node_addr_size_refused_example :
    (r : AddrSize) × (fdt_get_node_addr_size 2 (some empty_window) (pos 8) (pos 0) (some 7) none
      ≡ some r)
    × (r.rc ≡ pos 0)
    × (r.addr ≡ some 7)
unfolding fdt_translate_address translate_window read_cells
fdt_get_node_addr_size_refused_example =
    fdt_get_node_addr_size_refused 1 empty_window (pos 8) (pos 0) window_cells 7 none refl refl
      (omega arith) refl refl (omega arith) refl

uart8250_putc-ready_example :
    ((lsr : ℕ) × (older : List Event) × (uart8250_putc outside b'a' machine
        ≡ ok tt (record machine {
          trace =
              thr_write machine b'a'
              ∷ Event.fence w_o
              ∷ Event.fence i_r
              ∷ lsr_read machine lsr
              ∷ older;
        }))
      × (bit_and lsr uart_lsr_thre ≢ 0))
    ⊎ ((trace' : List Event) × (uart8250_putc outside b'a' machine
          ≡ stop waiting (record machine { trace = trace' })))
uart8250_putc-ready_example = uart8250_putc-ready outside b'a' machine

outside-IsResponsive : IsResponsive outside machine.uart8250
outside-IsResponsive m same = (0, omega arith, rw same (ground arith))

nputs-uart8250_returns_example :
    (trace' : List Event) × (nputs (console_devices outside 0x2000 0x2008) 10 4 machine
      ≡ ok tt (record machine { trace = trace' }))
nputs-uart8250_returns_example =
    nputs-uart8250_returns outside 0x2000 0x2008 10 4 machine refl outside-IsResponsive

tohost_cmd-fields_example :
    (fromhost_dev (tohost_cmd 1 1 b'a') ≡ 1)
    × (fromhost_cmd (tohost_cmd 1 1 b'a') ≡ 1)
    × (fromhost_data (tohost_cmd 1 1 b'a') ≡ b'a')
tohost_cmd-fields_example = tohost_cmd-fields 1 1 b'a' (omega arith) (omega arith) (omega arith)

fdt_parse_uart_node-IsUsable_example :
    (r : AddrSize) × (fdt_get_node_addr_size 2 (some empty_window) (pos 8) (pos 0) (some 7) (some 7)
      ≡ some r)
    × (((fdt_parse_uart_node 2 (some empty_window) (pos 8) 7 7 ≡ some none)
          × ¬ ((addr : ℕ) × (size : ℕ) × IsUsable (pos 8) r addr size))
        ⊎ ((uart : PlatformUartData) × (size : ℕ) × (fdt_parse_uart_node 2
                (some empty_window)
                (pos 8)
                7
                7
              ≡ some (some uart))
            × IsUsable (pos 8) r uart.addr size
            × IsUart empty_window (pos 8) uart))
fdt_parse_uart_node-IsUsable_example =
    fdt_parse_uart_node-IsUsable 1 2 empty_window (pos 8) 7 7 refl (omega arith)
