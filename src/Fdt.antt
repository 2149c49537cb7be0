-- ===== src/Fdt.antt =====
-- firmware/fdt/fdt_helper.c. libfdt is third-party code: what it answers about one device tree
-- is a value of `Tree`. A `void *fdt` is an `Option Tree`, `none` for NULL. A pointer that a
-- function may write through is given by the value that it points at, `none` for NULL, and the
-- new value is returned. Offsets and error codes are integers; `u64` sums wrap.
pub mod Cells
pub mod Lookup
pub mod Phandle
use zstage.Base.{
  ℕ, zero, suc, ◌+◌, ◌-◌, ◌*◌, ◌/◌, ◌%◌, ◌^◌, Bool, true, false, not, ◌&&◌, ◌||◌, Option, none,
  some, List, [], ◌∷◌, ◌==◌, ltb, leb, if◌then◌else◌, ℤ, pos, negsuc, minus, is_negative, is_zero,
}

-- include/zstage/error.h
abbrev pub einval : ℤ
einval = minus 3

abbrev pub enodev : ℤ
enodev = minus 9

abbrev pub enosys : ℤ
enosys = minus 10

abbrev pub eio : ℤ
eio = minus 12

abbrev pub enoent : ℤ
enoent = minus 18

-- A property as `fdt_getprop` gives it: its length in bytes, the 32-bit cells from its start on
-- (`fdt32_to_cpu` of each; the code may read past the length), and its start read as a string.
pub record Property : Type 0 where
  pub len : ℕ
  pub cell : ℕ → ℕ
  pub string : List ℕ

-- The functions of libfdt that the program calls, on one tree.
pub record Tree : Type 0 where
  pub node_check_compatible : ℤ → List ℕ → ℤ
  pub node_offset_by_compatible : ℤ → List ℕ → ℤ
  pub node_offset_by_phandle : ℕ → ℤ
  pub getprop : ℤ → List ℕ → Option Property
  pub address_cells : ℤ → ℤ
  pub size_cells : ℤ → ℤ
  pub parent_offset : ℤ → ℤ
  pub path_offset : List ℕ → ℤ
  pub path_offset_namelen : List ℕ → ℕ → ℤ
  pub magic : ℕ
  pub totalsize : ℕ

-- A `struct fdt_match` table up to its NULL entry; a match is the entry's string.
abbrev pub MatchTable : Type 0
MatchTable = List (List ℕ)

unfoldable pub match_loop : Tree → (nodeoff : ℤ) → MatchTable → Option (List ℕ)
match_loop t nodeoff [] = none
match_loop t nodeoff (compatible ∷ table) =
    let next = match_loop t nodeoff table in
    if is_zero (t.node_check_compatible nodeoff compatible) then some compatible else next

unfoldable pub fdt_match_node : Option Tree → (nodeoff : ℤ) → Option MatchTable → Option (List ℕ)
unfolding match_loop
fdt_match_node none nodeoff table = none
fdt_match_node (some t) nodeoff none = none
fdt_match_node (some t) nodeoff (some table) =
    if is_negative nodeoff then none else match_loop t nodeoff table

find_loop : Tree → (startoff : ℤ) → MatchTable → ℤ × Option (List ℕ)
find_loop t startoff [] = (enodev, none)
find_loop t startoff (compatible ∷ table) =
    let next = find_loop t startoff table in
    let nodeoff = t.node_offset_by_compatible startoff compatible in
    if not (is_negative nodeoff) then (nodeoff, some compatible) else next

-- The second part of the result is what is written to `*out_match`.
pub fdt_find_match : Option Tree → (startoff : ℤ) → Option MatchTable → ℤ × Option (List ℕ)
unfolding find_loop
fdt_find_match none startoff table = (enodev, none)
fdt_find_match (some t) startoff none = (enodev, none)
fdt_find_match (some t) startoff (some table) = find_loop t startoff table

abbrev pub fdt_max_phandle_args : ℕ
fdt_max_phandle_args = 16

pub record PhandleArgs : Type 0 where
  pub node_offset : ℤ
  pub args_count : ℕ
  pub args : List ℕ

-- `for (i = 0; i < pcells; i++) out_args->args[i] = fdt32_to_cpu(list[i]);`
pub cells_from : (cell : ℕ → ℕ) → (list n : ℕ) → List ℕ
cells_from cell list zero = []
cells_from cell list (suc n) = cell list ∷ cells_from cell (list + 1) n

-- The loop over the cells from `list` to `list_end`; each round takes a cell or more.
phandle_loop :
    (fuel : ℕ)
    → Tree
    → (cell : ℕ → ℕ) (list list_end : ℕ) (cells_prop : List ℕ) (index : ℕ) → ℤ × Option PhandleArgs
phandle_loop zero t cell list list_end cells_prop index = (enoent, none)
phandle_loop (suc fuel) t cell list list_end cells_prop index =
    let pnodeoff = t.node_offset_by_phandle (cell list) in
    let next = λ (pcells : ℕ).
      phandle_loop fuel t cell (list + 1 + pcells) list_end cells_prop (index - 1) in
    if not (ltb list list_end)
    then (enoent, none)
    else if is_negative pnodeoff
    then (pnodeoff, none)
    else elim (t.getprop pnodeoff cells_prop) [
      | none ↦ (enoent, none)
      | some val ↦
          let pcells = val.cell 0 in
          if ltb fdt_max_phandle_args pcells
          then (einval, none)
          else if ltb list_end (list + 1 + pcells)
          then (enoent, none)
          else elim (ltb 0 index) [
            | true ↦ next pcells
            | false ↦ (
              pos 0,
              some (record {
                node_offset = pnodeoff;
                args_count = pcells;
                args = cells_from cell (list + 1) pcells;
              }),
            )
          ]
    ]

-- `index` is read as a count, since a negative one acts as 0. The rounds are one more than the
-- property has cells.
pub fdt_parse_phandle_with_args :
    Option Tree → (nodeoff : ℤ) (prop cells_prop : List ℕ) (index : ℕ) → ℤ × Option PhandleArgs
unfolding cells_from phandle_loop
fdt_parse_phandle_with_args none nodeoff prop cells_prop index = (einval, none)
fdt_parse_phandle_with_args (some t) nodeoff prop cells_prop index =
    if is_negative nodeoff then (einval, none) else elim (t.getprop nodeoff prop) [
      | none ↦ (enoent, none)
      | some list ↦ phandle_loop (list.len / 4 + 1) t list.cell 0 (list.len / 4) cells_prop index
    ]
