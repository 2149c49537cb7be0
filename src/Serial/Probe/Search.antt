-- ===== src/Serial/Probe/Search.antt =====
-- Which drivers fdt_serial_init of firmware/serial/fdt_serial.c tries, at which nodes, and what comes
-- of it.
use zstage.Base.{
  ℕ, ◌≡◌, refl, sym, ap, ◌∙◌, true, false, none, some, Option, List, [], ◌∷◌, ◌++◌, ℤ, pos, negsuc,
  is_negative, is_zero, if◌then◌else◌, Bool-cases, Option-cases, inl, inr, arith,
}
use zstage.Machine.{
  Outside, Driver, cadence_driver, uart8250_driver, htif_driver, Machine, Run, Cmd, Stop, ok, stop,
  pure, and_then,
}
use zstage.Machine.Keeps.{machine_of, machine_of_same}
use zstage.Machine.Laws.{Run-cases}
use zstage.Machine.KeepsDriver.{KeepsDriver}
use zstage.Fdt.{Tree, MatchTable, enodev, fdt_match_node, fdt_find_match}
use zstage.Serial.Cadence.Init.{serial_cadence_init-KeepsDriver}
use zstage.Serial.Uart8250.Init.{serial_uart8250_init-KeepsDriver}
use zstage.Serial.Htif.Init.{serial_htif_init-KeepsDriver}
use zstage.Serial.Probe.{
  fdt_serial, serial_drivers, stdout_node, is_enodev, try_driver, stdout_loop, all_nodes_loop,
  returned, fdt_serial_init,
}

-- A driver and the node that it is to be set up with.
abbrev pub Candidate : Type 0
Candidate = Driver × ℤ

is_enodev-eq : (rc : ℤ) → is_enodev rc ≡ true → rc ≡ enodev
is_enodev-eq (pos n) h = cc
is_enodev-eq (negsuc n) h = ap negsuc (ground arith)

is_zero-eq : (rc : ℤ) → is_zero rc ≡ true → rc ≡ pos 0
is_zero-eq (pos n) h = ap pos (ground arith)
is_zero-eq (negsuc n) h = cc

module _ (env : Outside) (fuel stack_addr stack_size : ℕ) (t : Tree) where
  abbrev match_table : Driver → MatchTable
  match_table drv = (fdt_serial env fuel stack_addr stack_size drv).match_table

  -- The drivers that match a node, each with that node; none where there is no node.
  pub matching : (nodeoff : ℤ) → List Driver → List Candidate
  matching nodeoff [] = []
  matching nodeoff (drv ∷ drivers) =
      let rest = matching nodeoff drivers in
      if is_negative nodeoff
      then []
      else elim (fdt_match_node (some t) nodeoff (some (match_table drv))) [
        | none ↦ rest
        | some compatible ↦ (drv, nodeoff) ∷ rest
      ]

  -- The drivers that some node of the tree matches, each with the node that is found for it.
  pub findable : List Driver → List Candidate
  findable [] = []
  findable (drv ∷ drivers) =
      let rest = findable drivers in
      let nodeoff = (fdt_find_match (some t) (negsuc 0) (some (match_table drv))).0 in
      if is_negative nodeoff then rest else (drv, nodeoff) ∷ rest

  -- The drivers in the order of `serial_drivers`, at the node of `stdout-path` first.
  abbrev pub candidates : List Candidate
  candidates = matching (stdout_node t) serial_drivers ++ findable serial_drivers

  abbrev pub init : Candidate → Cmd ℤ
  init (drv, nodeoff) = (fdt_serial env fuel stack_addr stack_size drv).init t nodeoff

  -- From a machine, how the search over the candidates ends: a candidate that declines with
  -- -ENODEV is passed over, the first that does not decides, and where all decline there is no
  -- driver and no error.
  pub data Search : List Candidate → Machine → Run ℤ → Type 0 where
    exhausted : {m : Machine} → Search [] m (ok (pos 0) m)
    declined :
        (c : Candidate) {rest : List Candidate} {m m1 : Machine} {r : Run ℤ}
        → init c m ≡ ok enodev m1
        → Search rest m1 r
        → Search (c ∷ rest) m r
    taken :
        (c : Candidate) {rest : List Candidate} {m m1 : Machine}
        → init c m ≡ ok (pos 0) m1
        → Search (c ∷ rest) m (ok (pos 0) (record m1 { current_driver = some c.0 }))
    refused :
        (c : Candidate) (rc : ℤ) {rest : List Candidate} {m m1 : Machine}
        → init c m ≡ ok rc m1
        → is_zero rc ≡ false
        → is_enodev rc ≡ false
        → Search (c ∷ rest) m (ok rc m1)
    stopped :
        (c : Candidate) (s : Stop) {rest : List Candidate} {m m1 : Machine}
        → init c m ≡ stop s m1
        → Search (c ∷ rest) m (stop s m1)

  pub init-KeepsDriver : (c : Candidate) → KeepsDriver (init c)
  init-KeepsDriver (cadence_driver, nodeoff) =
      serial_cadence_init-KeepsDriver fuel stack_addr stack_size t nodeoff
  init-KeepsDriver (uart8250_driver, nodeoff) =
      serial_uart8250_init-KeepsDriver env fuel stack_addr stack_size t nodeoff
  init-KeepsDriver (htif_driver, nodeoff) = serial_htif_init-KeepsDriver fuel t nodeoff

  init-memory :
      (c : Candidate) (m : Machine) {r : Run ℤ} → init c m ≡ r → (machine_of m r).memory ≡ m.memory
  init-memory c m ran = (λ i. (machine_of m (sym ran i)).memory) ∙ ((init-KeepsDriver c).kept m).0

  -- What follows a loop: it passes an early return on, and does no more once there is a driver.
  record Follows (k : Option ℤ → Cmd ℤ) : Type 0 where
    early : (rc : ℤ) (m : Machine) → k (some rc) m ≡ ok rc m
    driven : (drv : Driver) (m : Machine) → m.current_driver ≡ some drv → k none m ≡ ok (pos 0) m

  try_driver-Search :
      (c : Candidate) (rest : List Candidate) (after : Cmd (Option ℤ)) (k : Option ℤ → Cmd ℤ)
      (m : Machine)
      → Follows k
      → m.current_driver ≡ none
      → ((m1 : Machine) → m1.current_driver ≡ none → Search rest m1 (and_then (after m1) k))
      → Search
          (c ∷ rest)
          m
          (and_then (try_driver env fuel stack_addr stack_size c.0 t c.1 after m) k)
  unfolding try_driver
  try_driver-Search c rest after k m f free h = elim (Run-cases (init c m)) [
    | inl (rc, m1, ran) ↦ elim (Bool-cases (is_enodev rc)) [
      | inl no_device ↦
          rw (try_driver, ran, no_device)
            (declined c (ran ∙ ap (λ x. ok x m1) (is_enodev-eq rc no_device)) (
              h m1 (
                (λ i. (machine_of m (sym ran i)).current_driver)
                ∙ ((init-KeepsDriver c).kept m).1
                ∙ free)))
      | inr tried ↦ elim (Bool-cases (is_zero rc)) [
        | inl ready ↦
            rw
              (
                try_driver,
                ran,
                tried,
                ready,
                f.driven c.0 (record m1 { current_driver = some c.0 }) refl,
              )
              (taken c (ran ∙ ap (λ x. ok x m1) (is_zero-eq rc ready)))
        | inr error ↦
            rw (try_driver, ran, tried, error, f.early rc m1) (refused c rc ran error tried)
      ]
    ]
    | inr (s, m1, ran) ↦ rw (try_driver, ran) (stopped c s ran)
  ]

  stdout_loop-Search :
      (nodeoff : ℤ) (drivers : List Driver) (rest : List Candidate) (k : Option ℤ → Cmd ℤ)
      (m : Machine)
      → Follows k
      → ((m1 : Machine) → m1.current_driver ≡ none → Search rest m1 (k none m1))
      → m.current_driver ≡ none
      → Search
          (matching nodeoff drivers ++ rest)
          m
          (and_then (stdout_loop env fuel stack_addr stack_size t nodeoff drivers m) k)
  unfolding stdout_loop matching
  stdout_loop-Search nodeoff [] rest k m f h free = h m free
  stdout_loop-Search nodeoff (drv ∷ drivers) rest k m f h free =
      elim (Bool-cases (is_negative nodeoff)) [
        | inl nowhere ↦ rw (matching, stdout_loop, nowhere) (h m free)
        | inr node ↦
            elim (Option-cases (fdt_match_node (some t) nodeoff (some (match_table drv)))) [
              | inl other ↦
                  rw (matching, stdout_loop, node, other)
                    (stdout_loop-Search nodeoff drivers rest k m f h free)
              | inr (compatible, found) ↦
                  rw (matching, stdout_loop, node, found)
                    (try_driver-Search (drv, nodeoff) _ _ k m f free
                      (λ m1 free1. stdout_loop-Search nodeoff drivers rest k m1 f h free1))
            ]
      ]

  all_nodes_loop-Search :
      (drivers : List Driver) (k : Option ℤ → Cmd ℤ) (m : Machine)
      → Follows k
      → ((m1 : Machine) → k none m1 ≡ ok (pos 0) m1)
      → m.current_driver ≡ none
      → Search
          (findable drivers)
          m
          (and_then (all_nodes_loop env fuel stack_addr stack_size t drivers m) k)
  unfolding all_nodes_loop findable
  all_nodes_loop-Search [] k m f h free = rw (h m) exhausted
  all_nodes_loop-Search (drv ∷ drivers) k m f h free =
      elim (Bool-cases
        (is_negative (fdt_find_match (some t) (negsuc 0) (some (match_table drv))).0)) [
          | inl nowhere ↦
              rw (findable, all_nodes_loop, nowhere) (all_nodes_loop-Search drivers k m f h free)
          | inr node ↦
              rw (findable, all_nodes_loop, node)
                (try_driver-Search (drv, _) _ _ k m f free
                  (λ m1 free1. all_nodes_loop-Search drivers k m1 f h free1))
        ]

  Search-memory :
      {cs : List Candidate} {m : Machine} {r : Run ℤ}
      → Search cs m r
      → (machine_of m r).memory ≡ m.memory
  Search-memory exhausted = refl
  Search-memory {m} {r} (declined c {m1} ran s) =
      (λ i. (machine_of_same m m1 r i).memory) ∙ Search-memory s ∙ init-memory c m ran
  Search-memory {m} (taken c ran) = init-memory c m ran
  Search-memory {m} (refused c rc ran error tried) = init-memory c m ran
  Search-memory {m} (stopped c s ran) = init-memory c m ran

  candidates-Search :
      (m : Machine)
      → m.current_driver ≡ none
      → Search candidates m (fdt_serial_init env fuel stack_addr stack_size t m)
  unfolding fdt_serial_init
  candidates-Search m free =
      stdout_loop-Search (stdout_node t) serial_drivers (findable serial_drivers) _ m
        (record { early = λ rc m1. refl; driven = λ drv m1 chosen. rw chosen refl })
        (λ m1 free1. rw free1 (
          all_nodes_loop-Search serial_drivers
            (λ late. pure (returned env fuel stack_addr stack_size late))
            (record m1 { current_driver = none })
            (record { early = λ rc m2. refl; driven = λ drv m2 chosen. refl }) (λ m2. refl) refl))
        free

  -- Where no driver was chosen before, `fdt_serial_init` is one search over the candidates: the
  -- drivers that match the node of `stdout-path`, and behind them the drivers that match any node,
  -- with that node. One that answers -ENODEV is passed over, the first that does not is chosen, or
  -- its error is returned, and where none is left the result is 0 with no driver chosen. However it
  -- ends, the memory is not changed.
  pub fdt_serial_init-Search :
      (m : Machine)
      → m.current_driver ≡ none
      → Search candidates m (fdt_serial_init env fuel stack_addr stack_size t m)
        × ((machine_of m (fdt_serial_init env fuel stack_addr stack_size t m)).memory ≡ m.memory)
  fdt_serial_init-Search m free =
      let search = candidates-Search m free in (search, Search-memory search)
