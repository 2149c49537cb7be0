-- ===== src/Fdt/Lookup.antt =====
-- What the searches of firmware/fdt/fdt_helper.c find.
use zstage.Base.{
  ℕ, ◌≡◌, refl, Bool, true, false, not, Option, none, some, List, [], ◌∷◌, ◌++◌, arith, ℤ,
  is_negative, is_zero, Bool-cases, inl, inr,
}
use zstage.Fdt.{Tree, MatchTable, enodev, match_loop, fdt_match_node, find_loop, fdt_find_match}

abbrev pub AllFail : (List ℕ → Bool) → MatchTable → Type 0
AllFail passes [] = Unit {0}
AllFail passes (c ∷ table) = (passes c ≡ false) × AllFail passes table

-- The entry is the first of the table that passes.
pub record IsFirst (passes : List ℕ → Bool) (table : MatchTable) (c : List ℕ) : Type 0 where
  pub before : MatchTable
  pub after : MatchTable
  pub splits : table ≡ before ++ (c ∷ after)
  pub fail : AllFail passes before
  pub pass : passes c ≡ true

-- The answer of a search: the first entry that passes, or none where all fail.
abbrev pub IsSearch : (List ℕ → Bool) → MatchTable → Option (List ℕ) → Type 0
IsSearch passes table none = AllFail passes table
IsSearch passes table (some c) = IsFirst passes table c

IsFirst-cons :
    (passes : List ℕ → Bool) (table : MatchTable) (c d : List ℕ)
    → passes d ≡ false
    → IsFirst passes table c
    → IsFirst passes (d ∷ table) c
IsFirst-cons passes table c d miss f = record {
  before = d ∷ f.before;
  after = f.after;
  splits = rw f.splits;
  fail = (miss, f.fail);
  pass = f.pass;
}

IsSearch-cons :
    (passes : List ℕ → Bool) (table : MatchTable) (d : List ℕ) (r : Option (List ℕ))
    → passes d ≡ false
    → IsSearch passes table r
    → IsSearch passes (d ∷ table) r
IsSearch-cons passes table d none miss s = (miss, s)
IsSearch-cons passes table d (some c) miss s = IsFirst-cons passes table c d miss s

IsSearch-here :
    (passes : List ℕ → Bool) (table : MatchTable) (d : List ℕ)
    → passes d ≡ true
    → IsSearch passes (d ∷ table) (some d)
IsSearch-here passes table d hit = record {
  before = [];
  after = table;
  splits = refl;
  fail = tt;
  pass = hit;
}

module _ (t : Tree) where
  abbrev pub compatible_with : (nodeoff : ℤ) → List ℕ → Bool
  compatible_with nodeoff c = is_zero (t.node_check_compatible nodeoff c)

  abbrev pub has_node : (startoff : ℤ) → List ℕ → Bool
  has_node startoff c = not (is_negative (t.node_offset_by_compatible startoff c))

  match_loop-IsSearch :
      (nodeoff : ℤ) (table : MatchTable)
      → IsSearch (compatible_with nodeoff) table (match_loop t nodeoff table)
  unfolding match_loop
  match_loop-IsSearch nodeoff [] = tt
  match_loop-IsSearch nodeoff (c ∷ table) = elim (Bool-cases (compatible_with nodeoff c)) [
    | inl hit ↦ rw (match_loop, hit) (IsSearch-here (compatible_with nodeoff) table c hit)
    | inr miss ↦
        rw (match_loop, miss)
          (IsSearch-cons (compatible_with nodeoff) table c _ miss
            (match_loop-IsSearch nodeoff table))
  ]

  -- `fdt_match_node` at a node gives the first entry of the table that the node is compatible
  -- with, and none only where it is compatible with none.
  pub fdt_match_node-IsSearch :
      (nodeoff : ℤ) (table : MatchTable)
      → is_negative nodeoff ≡ false
      → IsSearch (compatible_with nodeoff) table (fdt_match_node (some t) nodeoff (some table))
  unfolding fdt_match_node
  fdt_match_node-IsSearch nodeoff table h = rw h (match_loop-IsSearch nodeoff table)

  find_loop-IsSearch :
      (startoff : ℤ) (table : MatchTable)
      → IsSearch (has_node startoff) table (find_loop t startoff table).1
  unfolding find_loop
  find_loop-IsSearch startoff [] = tt
  find_loop-IsSearch startoff (c ∷ table) = elim (Bool-cases (has_node startoff c)) [
    | inl hit ↦ rw (find_loop, hit) (IsSearch-here (has_node startoff) table c hit)
    | inr miss ↦
        rw (find_loop, miss)
          (IsSearch-cons (has_node startoff) table c _ miss (find_loop-IsSearch startoff table))
  ]

  find_loop-offset :
      (startoff : ℤ) (table : MatchTable) (c : List ℕ)
      → (find_loop t startoff table).1 ≡ some c
      → (find_loop t startoff table).0 ≡ t.node_offset_by_compatible startoff c
  unfolding find_loop
  find_loop-offset startoff [] c e = cc
  find_loop-offset startoff (d ∷ table) c e = ground (arith, find_loop-offset startoff table c)

  find_loop-none :
      (startoff : ℤ) (table : MatchTable)
      → (find_loop t startoff table).1 ≡ none
      → (find_loop t startoff table).0 ≡ enodev
  unfolding find_loop
  find_loop-none startoff [] e = refl
  find_loop-none startoff (d ∷ table) e = ground (arith, find_loop-none startoff table)

  -- `fdt_find_match` gives the first entry of the table that some node behind `startoff` is
  -- compatible with, and returns that node; where there is none it returns -ENODEV.
  pub fdt_find_match-IsSearch :
      (startoff : ℤ) (table : MatchTable)
      → IsSearch (has_node startoff) table (fdt_find_match (some t) startoff (some table)).1
        × ((c : List ℕ)
            → (fdt_find_match (some t) startoff (some table)).1 ≡ some c
            → (fdt_find_match (some t) startoff (some table)).0
              ≡ t.node_offset_by_compatible startoff c)
        × ((fdt_find_match (some t) startoff (some table)).1 ≡ none
            → (fdt_find_match (some t) startoff (some table)).0 ≡ enodev)
  unfolding fdt_find_match
  fdt_find_match-IsSearch startoff table = (
    find_loop-IsSearch startoff table,
    find_loop-offset startoff table,
    find_loop-none startoff table,
  )
