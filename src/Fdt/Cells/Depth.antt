-- ===== src/Fdt/Cells/Depth.antt =====
-- The walk to the root of the device tree in firmware/fdt/fdt_helper.c.
use zstage.Base.{
  ℕ, zero, suc, ◌+◌, ◌*◌, ◌/◌, ◌<◌, ◌≡◌, ◌⊎◌, inl, inr, refl, Bool, true, false, ◌||◌, Option, none,
  some, arith, leb, if◌then◌else◌, Bool-cases, Option-cases, ℤ, pos, is_negative, codes,
}
use zstage.Fdt.{Tree, Property, einval, enodev}
use zstage.Fdt.Cells.{
  AddrSize, to_nat, read_cells, fdt_translate_address, translate_loop, fdt_get_node_addr_size,
  with_size, failed,
}

-- The node `n` steps nearer to the root, with what libfdt tells behind the root.
abbrev pub ancestor : Tree → (n : ℕ) (node : ℤ) → ℤ
ancestor t zero node = node
ancestor t (suc n) node = ancestor t n (t.parent_offset node)

-- With more fuel than steps to the root, the walk ends.
translate_loop-returns :
    (n fuel : ℕ) (t : Tree) (parent : ℤ) (temp addr : ℕ)
    → is_negative (ancestor t n parent) ≡ true
    → n < fuel
    → (a : ℕ) × (translate_loop fuel t parent temp addr ≡ some a)
unfolding translate_loop
translate_loop-returns n zero t parent temp addr root h = absurd (omega arith)
translate_loop-returns zero (suc fuel) t parent temp addr root h = (addr, rw root refl)
translate_loop-returns (suc n) (suc fuel) t parent temp addr root h =
    elim (Bool-cases (is_negative parent)) [
      | inl negative ↦ (addr, rw negative refl)
      | inr inner ↦ elim (Option-cases (fdt_translate_address t temp parent)) [
        | inl refused ↦ (addr, rw inner (rw refused refl))
        | inr (b, reached) ↦
            let (a, walked) =
              translate_loop-returns n fuel t (t.parent_offset parent) b b root (omega arith) in
            (a, rw inner (rw reached walked))
      ]
    ]

-- The call returns, with 0 or with `*addr` and `*size` as they were.
abbrev pub Returns : (addr size : Option ℕ) → Option AddrSize → Type 0
Returns addr size found =
    (r : AddrSize) × (found ≡ some r) × ((r.rc ≡ pos 0) ⊎ ((r.addr ≡ addr) × (r.size ≡ size)))

module _ (addr size : Option ℕ) where
  if-Returns :
      (b : Bool) (c d : Option AddrSize)
      → Returns addr size c
      → Returns addr size d
      → Returns addr size (if b then c else d)
  if-Returns true c d h k = h
  if-Returns false c d h k = k

  elim-Returns :
      {A : Type 0} (o : Option A) (c : Option AddrSize) (k : A → Option AddrSize)
      → Returns addr size c
      → ((a : A) → Returns addr size (k a))
      → Returns addr size (elim o [ none ↦ c | some a ↦ k a ])
  elim-Returns none c k h hk = h
  elim-Returns (some a) c k h hk = hk a

  failed-Returns : (rc : ℤ) → Returns addr size (failed addr size rc)
  failed-Returns rc = (record { rc = rc; addr = addr; size = size }, refl, inr (refl, refl))

with_size-rc :
    (cell : ℕ → ℕ) (prop_size cell_size : ℕ) (size addr : Option ℕ)
    → (with_size cell prop_size cell_size size addr).rc ≡ pos 0
with_size-rc cell prop_size cell_size none addr = refl
with_size-rc cell prop_size cell_size (some old) addr = refl

with_size-addr :
    (cell : ℕ → ℕ) (prop_size cell_size : ℕ) (size addr : Option ℕ)
    → (with_size cell prop_size cell_size size addr).addr ≡ addr
with_size-addr cell prop_size cell_size none addr = refl
with_size-addr cell prop_size cell_size (some old) addr = refl

-- Where the cells of `reg` for `index` begin.
abbrev pub first_cell : Tree → (node index : ℤ) → ℕ
first_cell t node index =
    to_nat index
    * (to_nat (t.address_cells (t.parent_offset node))
        + to_nat (t.size_cells (t.parent_offset node)))

-- With more fuel than the parent has steps to the root, `fdt_get_node_addr_size` returns, and what
-- it returns is 0, or an error code with `*addr` and `*size` as they were.
pub fdt_get_node_addr_size-Returns :
    (n fuel : ℕ) (t : Tree) (node index : ℤ) (addr size : Option ℕ)
    → is_negative (ancestor t n (t.parent_offset node)) ≡ true
    → n < fuel
    → Returns addr size (fdt_get_node_addr_size fuel (some t) node index addr size)
unfolding fdt_get_node_addr_size
fdt_get_node_addr_size-Returns n fuel t node index addr size root h =
    let fail = failed-Returns addr size in
    let parent = t.parent_offset node in
    let cell_addr = to_nat (t.address_cells parent) in
    let cell_size = to_nat (t.size_cells parent) in
    let first = to_nat index * (cell_addr + cell_size) in
    if-Returns addr size (is_negative node || is_negative index) _ _ (fail einval) (
      if-Returns addr size (is_negative parent) _ _ (fail parent) (
        if-Returns addr size (leb cell_addr 0) _ _ (fail enodev) (
          if-Returns addr size (is_negative (t.size_cells parent)) _ _ (fail enodev) (
            elim-Returns addr size (t.getprop node (codes "reg")) _ _ (fail enodev) λ prop.
              let done : (a : Option ℕ)
                  → Returns addr size
                      (some (with_size prop.cell (first + cell_addr) cell_size size a)) =
                λ a. (_, refl, inl (with_size-rc prop.cell _ cell_size size a)) in
              if-Returns addr size (leb (prop.len / 4) first) _ _ (fail einval) (
                elim-Returns addr size addr _ _ (done none) λ old.
                  let (a, walked) =
                    translate_loop-returns n fuel t parent (read_cells prop.cell first cell_addr 0)
                      old root h in
                  rw walked (done (some a)))))))

-- Where the parent's `ranges` refuse the address of a node that has one at `index`,
-- `fdt_get_node_addr_size` returns 0 all the same and leaves `*addr` as it was.
pub fdt_get_node_addr_size_refused :
    (fuel : ℕ) (t : Tree) (node index : ℤ) (prop : Property) (old : ℕ) (size : Option ℕ)
    → is_negative node || is_negative index ≡ false
    → is_negative (t.parent_offset node) ≡ false
    → 0 < to_nat (t.address_cells (t.parent_offset node))
    → is_negative (t.size_cells (t.parent_offset node)) ≡ false
    → t.getprop node (codes "reg") ≡ some prop
    → first_cell t node index < prop.len / 4
    → fdt_translate_address t
        (read_cells prop.cell
          (first_cell t node index)
          (to_nat (t.address_cells (t.parent_offset node)))
          0)
        (t.parent_offset node)
      ≡ none
    → (r : AddrSize) × (fdt_get_node_addr_size (suc fuel) (some t) node index (some old) size
        ≡ some r)
      × (r.rc ≡ pos 0)
      × (r.addr ≡ some old)
unfolding fdt_get_node_addr_size translate_loop
fdt_get_node_addr_size_refused fuel t node index prop old size here inner addressed sized reg room
      refused =
    let some_cells : leb (to_nat (t.address_cells (t.parent_offset node))) 0 ≡ false =
      ground arith in
    let in_prop : leb (prop.len / 4) (first_cell t node index) ≡ false = ground arith in
    (
      with_size prop.cell
          (first_cell t node index + to_nat (t.address_cells (t.parent_offset node)))
          (to_nat (t.size_cells (t.parent_offset node))) size (some old),
      rw (here, inner, some_cells, sized, reg, in_prop, inner, refused) refl,
      with_size-rc prop.cell _ _ size (some old),
      with_size-addr prop.cell _ _ size (some old),
    )
