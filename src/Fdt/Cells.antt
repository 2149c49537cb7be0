-- ===== src/Fdt/Cells.antt =====
-- The addresses of a node in firmware/fdt/fdt_helper.c, and what is parsed from them.
pub mod Address
pub mod Depth
pub mod Uart
use zstage.Base.{
  ℕ, zero, suc, ◌+◌, ◌-◌, ◌*◌, ◌/◌, ◌%◌, ◌^◌, Bool, true, false, not, ◌&&◌, ◌||◌, Option, none,
  some, List, [], ◌∷◌, ◌==◌, ltb, leb, if◌then◌else◌, ℤ, pos, negsuc, minus, is_negative, is_zero,
  codes,
}
use zstage.Fdt.{Tree, Property, einval, enodev}

-- The number that an `int` holds once it is known not to be negative.
abbrev pub to_nat : ℤ → ℕ
to_nat (pos n) = n
to_nat (negsuc n) = 0

-- `v = (v << 32) | fdt32_to_cpu(*p++);` for `n` cells from `p` on, on a `u64`.
unfoldable pub read_cells : (cell : ℕ → ℕ) (p n v : ℕ) → ℕ
read_cells cell p zero v = v
read_cells cell p (suc n) v = read_cells cell (p + 1) n ((v * 2 ^ 32) % 2 ^ 64 + cell p % 2 ^ 32)

-- The window of `ranges` at the start of the property.
unfoldable pub translate_window : (cell : ℕ → ℕ) (cell_addr cell_size reg : ℕ) → Option ℕ
unfolding read_cells
translate_window cell cell_addr cell_size reg =
    let caddr = read_cells cell 0 cell_addr 0 in
    let paddr = read_cells cell cell_addr cell_addr 0 in
    let rsize = read_cells cell (cell_addr + cell_addr) cell_size 0 in
    if ltb reg caddr || leb ((reg + rsize) % 2 ^ 64) caddr
    then none
    else some ((paddr + (reg - caddr)) % 2 ^ 64)

-- The result is the error code, or what is written to `*addr`.
unfoldable pub fdt_translate_address : Tree → (reg : ℕ) (parent : ℤ) → Option ℕ
unfolding translate_window
fdt_translate_address t reg parent =
    let cell_addr = t.address_cells parent in
    let cell_size = t.size_cells parent in
    if leb (to_nat cell_addr) 0
    then none
    else if is_negative cell_size
    then none
    else elim (t.getprop parent (codes "ranges")) [
      | none ↦ some reg
      | some ranges ↦
          if ltb 0 ranges.len
          then translate_window ranges.cell (to_nat cell_addr) (to_nat cell_size) reg
          else some reg
    ]

-- The `do … while (1)` over the parents: `addr` is `*addr`. Fuel bounds the depth of the tree.
unfoldable pub translate_loop : (fuel : ℕ) → Tree → (parent : ℤ) (temp addr : ℕ) → Option ℕ
translate_loop zero t parent temp addr = none
translate_loop (suc fuel) t parent temp addr =
    let up = λ (a : ℕ). translate_loop fuel t (t.parent_offset parent) a a in
    if is_negative parent
    then some addr
    else elim (fdt_translate_address t temp parent) [ none ↦ some addr | some a ↦ up a ]

-- What a call returns, with `*addr` and `*size` afterwards; `none` for NULL.
pub record AddrSize : Type 0 where
  pub rc : ℤ
  pub addr : Option ℕ
  pub size : Option ℕ

-- The successful end: `*addr` as it is now, and the size where it is asked for.
abbrev with_size : (cell : ℕ → ℕ) (prop_size cell_size : ℕ) (size addr : Option ℕ) → AddrSize
with_size cell prop_size cell_size none addr = record { rc = pos 0; addr = addr; size = none }
with_size cell prop_size cell_size (some old) addr = record {
  rc = pos 0;
  addr = addr;
  size = some (read_cells cell prop_size cell_size 0);
}

abbrev failed : (addr size : Option ℕ) (rc : ℤ) → Option AddrSize
failed addr size rc = some (record { rc = rc; addr = addr; size = size })

-- The outer `Option` is the fuel.
unfoldable pub fdt_get_node_addr_size :
    (fuel : ℕ) → Option Tree → (node index : ℤ) (addr size : Option ℕ) → Option AddrSize
unfolding translate_loop
fdt_get_node_addr_size fuel none node index addr size =
    some (record { rc = einval; addr = addr; size = size })
fdt_get_node_addr_size fuel (some t) node index addr size =
    let fail = failed addr size in
    let parent = t.parent_offset node in
    let cell_addr = to_nat (t.address_cells parent) in
    let cell_size = to_nat (t.size_cells parent) in
    let first = to_nat index * (cell_addr + cell_size) in
    if is_negative node || is_negative index
    then fail einval
    else if is_negative parent
    then fail parent
    else if leb cell_addr 0
    then fail enodev
    else if is_negative (t.size_cells parent)
    then fail enodev
    else elim (t.getprop node (codes "reg")) [
      | none ↦ fail enodev
      | some prop ↦
          let sizes = with_size prop.cell (first + cell_addr) cell_size size in
          if leb (prop.len / 4) first then fail einval else elim addr [
            | none ↦ some (sizes none)
            | some old ↦
                elim (translate_loop fuel t parent (read_cells prop.cell first cell_addr 0) old) [
                  | none ↦ none
                  | some a ↦ some (sizes (some a))
                ]
          ]
    ]

-- The result is the error code and `*addr`.
pub fdt_parse_compat_addr :
    (fuel : ℕ) → Tree → (addr : Option ℕ) (compatible : List ℕ) → Option (ℤ × Option ℕ)
fdt_parse_compat_addr fuel t addr compatible =
    let nodeoffset = t.node_offset_by_compatible (negsuc 0) compatible in
    if is_negative nodeoffset
    then some (nodeoffset, addr)
    else elim (fdt_get_node_addr_size fuel (some t) nodeoffset (pos 0) addr none) [
      | none ↦ none
      | some r ↦ some (elim r.addr [
        | none ↦ (enodev, none)
        | some a ↦ (if is_negative r.rc then enodev else pos 0, some a)
      ])
    ]

pub record PlatformUartData : Type 0 where
  pub addr : ℕ
  pub freq : ℕ
  pub baud : ℕ
  pub reg_shift : ℕ
  pub reg_io_width : ℕ

abbrev pub default_uart_freq : ℕ
default_uart_freq = 0

abbrev pub default_uart_baud : ℕ
default_uart_baud = 115200

abbrev pub default_uart_reg_shift : ℕ
default_uart_reg_shift = 0

abbrev pub default_uart_reg_io_width : ℕ
default_uart_reg_io_width = 1

-- `if (len > 0 && val) … = fdt32_to_cpu(*val); else … = default;`
abbrev pub cell_or : Tree → ℤ → List ℕ → (default : ℕ) → ℕ
cell_or t nodeoffset name default = elim (t.getprop nodeoffset name) [
  | none ↦ default
  | some val ↦ if ltb 0 val.len then val.cell 0 else default
]

-- `reg_addr` and `reg_size` hold on entry what stood on the stack. On success the result is the
-- data; the outer `Option` is the fuel.
unfoldable pub fdt_parse_uart_node :
    (fuel : ℕ)
    → Option Tree
    → (nodeoffset : ℤ) (reg_addr reg_size : ℕ) → Option (Option PlatformUartData)
fdt_parse_uart_node fuel none nodeoffset reg_addr reg_size = some none
fdt_parse_uart_node fuel (some t) nodeoffset reg_addr reg_size =
    elim (fdt_get_node_addr_size fuel (some t) nodeoffset (pos 0) (some reg_addr) (some reg_size)) [
      | none ↦ none
      | some r ↦ elim r.addr [
        | none ↦ some none
        | some a ↦ elim r.size [
          | none ↦ some none
          | some s ↦
              if is_negative nodeoffset || (is_negative r.rc || (a == 0) || (s == 0))
              then some none
              else some (
                  some (record {
                    addr = a;
                    freq = cell_or t nodeoffset (codes "clock-frequency") default_uart_freq;
                    baud = cell_or t nodeoffset (codes "current-speed") default_uart_baud;
                    reg_shift = cell_or t nodeoffset (codes "reg-shift") default_uart_reg_shift;
                    reg_io_width =
                        cell_or t nodeoffset (codes "reg-io-width") default_uart_reg_io_width;
                  }))
        ]
      ]
    ]
