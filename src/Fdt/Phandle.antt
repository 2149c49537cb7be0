-- ===== src/Fdt/Phandle.antt =====
-- The arguments behind a phandle in firmware/fdt/fdt_helper.c.
use zstage.Base.{
  ℕ, zero, suc, ◌+◌, ◌-◌, ◌/◌, ◌<◌, ◌≤◌, ◌≡◌, refl, false, Option, none, some, List, ltb, arith, ℤ,
  is_negative, Option-cases, Bool-cases, inl, inr,
}
use zstage.Fdt.{
  Tree, Property, PhandleArgs, cells_from, phandle_loop, fdt_parse_phandle_with_args,
  fdt_max_phandle_args,
}

-- What `fdt_parse_phandle_with_args` returns is in bounds: at most 16 arguments, as many as the
-- count says, each a cell of the list behind `list` and before its end.
pub record IsInBounds (cell : ℕ → ℕ) (list list_end : ℕ) (r : PhandleArgs) : Type 0 where
  pub few : r.args_count ≤ fdt_max_phandle_args
  pub from : ℕ
  pub behind : list ≤ from
  pub fits : from + r.args_count ≤ list_end
  pub args : r.args ≡ cells_from cell from r.args_count

abbrev pub AreInBounds : (ℕ → ℕ) → ℕ → ℕ → Option PhandleArgs → Type 0
AreInBounds cell list list_end none = Unit {0}
AreInBounds cell list list_end (some r) = IsInBounds cell list list_end r

AreInBounds-weaken :
    (cell : ℕ → ℕ) (list list' list_end : ℕ) (o : Option PhandleArgs)
    → list ≤ list'
    → AreInBounds cell list' list_end o
    → AreInBounds cell list list_end o
AreInBounds-weaken cell list list' list_end none h b = tt
AreInBounds-weaken cell list list' list_end (some r) h b = record {
  few = b.few;
  from = b.from;
  behind = omega (arith, b.behind);
  fits = b.fits;
  args = b.args;
}

module _ (t : Tree) (cell : ℕ → ℕ) (list_end : ℕ) (cells_prop : List ℕ) where
  phandle_loop-AreInBounds :
      (fuel list index : ℕ)
      → AreInBounds cell list list_end (phandle_loop fuel t cell list list_end cells_prop index).1
  unfolding phandle_loop
  phandle_loop-AreInBounds zero list index = tt
  phandle_loop-AreInBounds (suc fuel) list index = elim (Bool-cases (ltb list list_end)) [
    | inr over ↦ rw (phandle_loop, over) tt
    | inl more ↦ elim (Bool-cases (is_negative (t.node_offset_by_phandle (cell list)))) [
      | inl bad ↦ rw (phandle_loop, more, bad) tt
      | inr good ↦
          elim (Option-cases (t.getprop (t.node_offset_by_phandle (cell list)) cells_prop)) [
            | inl e ↦ rw (phandle_loop, more, good, e) tt
            | inr (val, e) ↦ elim (Bool-cases (ltb fdt_max_phandle_args (val.cell 0))) [
              | inl many ↦ rw (phandle_loop, more, good, e, many) tt
              | inr few ↦ elim (Bool-cases (ltb list_end (list + 1 + val.cell 0))) [
                | inl long ↦ rw (phandle_loop, more, good, e, few, long) tt
                | inr fits ↦ elim (Bool-cases (ltb 0 index)) [
                  | inl later ↦
                      rw (phandle_loop, more, good, e, few, fits, later)
                        (AreInBounds-weaken cell list (list + 1 + val.cell 0) list_end _
                          (omega arith)
                          (phandle_loop-AreInBounds fuel (list + 1 + val.cell 0) (index - 1)))
                  | inr here ↦
                      rw (phandle_loop, more, good, e, few, fits, here)
                        (record {
                          few = ground arith;
                          from = list + 1;
                          behind = omega arith;
                          fits = ground arith;
                          args = refl;
                        })
                ]
              ]
            ]
          ]
    ]
  ]

-- Where a node has the property `prop`, the arguments that `fdt_parse_phandle_with_args` finds are
-- at most 16, as many as it counts, and cells of the property, within its length.
pub fdt_parse_phandle_with_args-AreInBounds :
    (t : Tree) (nodeoff : ℤ) (prop cells_prop : List ℕ) (index : ℕ) (list : Property)
    → is_negative nodeoff ≡ false
    → t.getprop nodeoff prop ≡ some list
    → AreInBounds list.cell 0
        (list.len / 4)
        (fdt_parse_phandle_with_args (some t) nodeoff prop cells_prop index).1
unfolding fdt_parse_phandle_with_args
fdt_parse_phandle_with_args-AreInBounds t nodeoff prop cells_prop index list h e =
    rw (h, fdt_parse_phandle_with_args, e)
      (phandle_loop-AreInBounds t list.cell (list.len / 4) cells_prop (list.len / 4 + 1) 0 index)

-- More rounds than cells are left make no difference: the loop over the property never ends for
-- want of rounds.
phandle_loop_rounds :
    (t : Tree) (cell : ℕ → ℕ) (list_end : ℕ) (cells_prop : List ℕ) (f g list index : ℕ)
    → list_end < list + f
    → list_end < list + g
    → phandle_loop f t cell list list_end cells_prop index
      ≡ phandle_loop g t cell list list_end cells_prop index
unfolding phandle_loop
phandle_loop_rounds t cell list_end cells_prop zero zero list index h k = refl
phandle_loop_rounds t cell list_end cells_prop zero (suc g) list index h k = ground arith
phandle_loop_rounds t cell list_end cells_prop (suc f) zero list index h k = ground arith
phandle_loop_rounds t cell list_end cells_prop (suc f) (suc g) list index h k =
    elim (Option-cases (t.getprop (t.node_offset_by_phandle (cell list)) cells_prop)) [
      | inl e ↦ rw (phandle_loop, e) refl
      | inr (val, e) ↦
          let later =
            phandle_loop_rounds t cell list_end cells_prop f g (list + 1 + val.cell 0) (index - 1)
              (omega arith) (omega arith) in
          rw (phandle_loop, e) (ground arith)
    ]
