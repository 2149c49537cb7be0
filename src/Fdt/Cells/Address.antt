-- ===== src/Fdt/Cells/Address.antt =====
-- The arithmetic of the addresses in firmware/fdt/fdt_helper.c.
use zstage.Base.{ℕ, zero, suc, ◌+◌, ◌-◌, ◌*◌, ◌%◌, ◌^◌, ◌<◌, ◌≤◌, ◌≡◌, some, arith}
use zstage.Fdt.Cells.{read_cells, translate_window}

read_cells-lt : (cell : ℕ → ℕ) (p n v : ℕ) → v < 2 ^ 64 → read_cells cell p n v < 2 ^ 64
unfolding read_cells
read_cells-lt cell p zero v h = h
read_cells-lt cell p (suc n) v h = read_cells-lt cell (p + 1) n _ (omega arith)

-- Two cells are one 64-bit number, the first its upper half; a cell before them is lost.
pub read_cells_two :
    (cell : ℕ → ℕ) (p v : ℕ)
    → read_cells cell p 2 v ≡ cell p % 2 ^ 32 * 2 ^ 32 + cell (p + 1) % 2 ^ 32
unfolding read_cells
read_cells_two cell p v = omega arith

module _ (cell : ℕ → ℕ) (cell_addr cell_size reg : ℕ) where
  abbrev child : ℕ
  child = read_cells cell 0 cell_addr 0

  abbrev parent : ℕ
  parent = read_cells cell cell_addr cell_addr 0

  abbrev window : ℕ
  window = read_cells cell (cell_addr + cell_addr) cell_size 0

  -- An address inside the window of `ranges` is moved by the distance of the two bases, where no
  -- sum passes 2^64.
  pub translate_window_inside :
      child ≤ reg
      → reg < child + window
      → reg + window < 2 ^ 64
      → parent + (reg - child) < 2 ^ 64
      → translate_window cell cell_addr cell_size reg ≡ some (parent + (reg - child))
  unfolding translate_window
  translate_window_inside low high fits sum = ground arith

  -- An address other than 0 behind the end of the window is not refused where it lies above `child`
  -- less the window's size: it is moved like one inside, where no sum passes 2^64.
  pub translate_window_behind :
      child + window ≤ reg
      → 0 < reg
      → child < reg + window
      → reg + window < 2 ^ 64
      → parent + (reg - child) < 2 ^ 64
      → translate_window cell cell_addr cell_size reg ≡ some (parent + (reg - child))
  unfolding translate_window
  translate_window_behind low some_reg high fits sum = ground arith
