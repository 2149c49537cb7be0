-- ===== src/Fdt/Cells/Uart.antt =====
-- What fdt_parse_uart_node of firmware/fdt/fdt_helper.c accepts.
use zstage.Base.{
  List, ltb, sym, ℕ, ◌<◌, ◌≡◌, ◌≢◌, ◌⊎◌, inl, inr, refl, ◌∙◌, true, false, ◌||◌, ◌==◌, none, some,
  Option-cases, Bool-cases, arith, ℤ, pos, is_negative, codes,
}
use zstage.Fdt.{Tree, Property}
use zstage.Fdt.Cells.{
  AddrSize, PlatformUartData, fdt_get_node_addr_size, fdt_parse_uart_node, cell_or,
}
use zstage.Fdt.Cells.Depth.{ancestor, fdt_get_node_addr_size-Returns}

-- The number of a property with a default: its first cell, where it has bytes.
pub data HasCell (t : Tree) (node : ℤ) (name : List ℕ) (default : ℕ) : ℕ → Type 0 where
  absent : t.getprop node name ≡ none → HasCell t node name default default
  empty :
      {val : Property}
      → t.getprop node name ≡ some val
      → val.len ≡ 0
      → HasCell t node name default default
  given :
      {val : Property}
      → t.getprop node name ≡ some val
      → 0 < val.len
      → HasCell t node name default (val.cell 0)

cell_or-HasCell :
    (t : Tree) (node : ℤ) (name : List ℕ) (default : ℕ)
    → HasCell t node name default (cell_or t node name default)
cell_or-HasCell t node name default = elim (Option-cases (t.getprop node name)) [
  | inl missing ↦ rw (cell_or, missing) (absent missing)
  | inr (val, found) ↦
      rw (cell_or, found)
        (elim (Bool-cases (ltb 0 val.len)) [
          | inl some_bytes ↦ rw some_bytes (given found (ground arith))
          | inr no_bytes ↦ rw no_bytes (empty found (ground arith))
        ])
]

-- The answer of `fdt_get_node_addr_size` for the node is an address and a size that can be used.
pub record IsUsable (node : ℤ) (r : AddrSize) (addr size : ℕ) : Type 0 where
  pub has_node : is_negative node ≡ false
  pub answered : is_negative r.rc ≡ false
  pub is_addr : r.addr ≡ some addr
  pub is_size : r.size ≡ some size
  pub some_addr : addr ≢ 0
  pub some_size : size ≢ 0

IsUsable-taken :
    (node : ℤ) (r : AddrSize) (b c a s : ℕ)
    → IsUsable node r b c
    → r.addr ≡ some a
    → r.size ≡ some s
    → is_negative node || (is_negative r.rc || (a == 0) || (s == 0)) ≡ false
IsUsable-taken node r b c a s u has_addr has_size =
    let same_addr : some b ≡ some a = sym u.is_addr ∙ has_addr in
    let same_size : some c ≡ some s = sym u.is_size ∙ has_size in
    let has_node = u.has_node in
    let answered = u.answered in
    let some_addr = u.some_addr in let some_size = u.some_size in ground arith

-- The numbers in the data of a UART are those of its properties, with their defaults.
pub record IsUart (t : Tree) (node : ℤ) (uart : PlatformUartData) : Type 0 where
  pub is_freq : HasCell t node (codes "clock-frequency") 0 uart.freq
  pub is_baud : HasCell t node (codes "current-speed") 115200 uart.baud
  pub is_shift : HasCell t node (codes "reg-shift") 0 uart.reg_shift
  pub is_width : HasCell t node (codes "reg-io-width") 1 uart.reg_io_width

-- With more fuel than the parent has steps to the root, `fdt_parse_uart_node` returns. It takes the
-- node just where the node has an offset and `fdt_get_node_addr_size` gives it, with no error, an
-- address and a size that are not 0; then the address is that one, and the frequency, the baud rate
-- and the register layout are the first cells of their properties, or 0, 115200, 0 and 1 where a
-- property is missing or empty.
pub fdt_parse_uart_node-IsUsable :
    (n fuel : ℕ) (t : Tree) (nodeoffset : ℤ) (reg_addr reg_size : ℕ)
    → is_negative (ancestor t n (t.parent_offset nodeoffset)) ≡ true
    → n < fuel
    → (r : AddrSize) × (fdt_get_node_addr_size fuel
          (some t)
          nodeoffset
          (pos 0)
          (some reg_addr)
          (some reg_size)
        ≡ some r)
      × (((fdt_parse_uart_node fuel (some t) nodeoffset reg_addr reg_size ≡ some none)
            × ¬ ((addr : ℕ) × (size : ℕ) × IsUsable nodeoffset r addr size))
          ⊎ ((uart : PlatformUartData) × (size : ℕ) × (fdt_parse_uart_node fuel
                  (some t)
                  nodeoffset
                  reg_addr
                  reg_size
                ≡ some (some uart))
              × IsUsable nodeoffset r uart.addr size
              × IsUart t nodeoffset uart))
unfolding fdt_parse_uart_node
fdt_parse_uart_node-IsUsable n fuel t nodeoffset reg_addr reg_size root h =
    let (r, found, end) =
      fdt_get_node_addr_size-Returns n fuel t nodeoffset (pos 0) (some reg_addr) (some reg_size)
        root h in
    (
      r,
      found,
      elim (Option-cases r.addr) [
        | inl no_addr ↦
            inl (
              rw (fdt_parse_uart_node, found, no_addr) refl,
              λ (a, s, u). let bad = u.is_addr in cc,
            )
        | inr (a, has_addr) ↦ elim (Option-cases r.size) [
          | inl no_size ↦ inl (
            rw (fdt_parse_uart_node, found, has_addr, no_size) refl,
            λ (b, s, u). let bad = u.is_size in cc,
          )
          | inr (s, has_size) ↦
              elim (Bool-cases
                (is_negative nodeoffset || (is_negative r.rc || (a == 0) || (s == 0)))) [
                  | inl refused ↦ inl (
                    rw (fdt_parse_uart_node, found, has_addr, has_size, refused) refl,
                    λ (b, c, u).
                        let bad = IsUsable-taken nodeoffset r b c a s u has_addr has_size in cc,
                  )
                  | inr accepted ↦ inr (
                    record {
                      addr = a;
                      freq = cell_or t nodeoffset (codes "clock-frequency") 0;
                      baud = cell_or t nodeoffset (codes "current-speed") 115200;
                      reg_shift = cell_or t nodeoffset (codes "reg-shift") 0;
                      reg_io_width = cell_or t nodeoffset (codes "reg-io-width") 1;
                    },
                    s,
                    rw (fdt_parse_uart_node, found, has_addr, has_size, accepted) refl,
                    record {
                      has_node = ground arith;
                      answered = ground arith;
                      is_addr = has_addr;
                      is_size = has_size;
                      some_addr = ground arith;
                      some_size = ground arith;
                    },
                    record {
                      is_freq = cell_or-HasCell t nodeoffset _ 0;
                      is_baud = cell_or-HasCell t nodeoffset _ 115200;
                      is_shift = cell_or-HasCell t nodeoffset _ 0;
                      is_width = cell_or-HasCell t nodeoffset _ 1;
                    },
                  )
                ]
        ]
      ],
    )
