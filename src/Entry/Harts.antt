-- ===== src/Entry/Harts.antt =====
-- The harts that enter firmware/head.S together, a shared access at a time, in any order. The
-- memory is given by the words that they share: the lottery and the boot status of the loaded
-- image, the spin address of the copy, whether the copy is complete, and whether zstage_main has
-- returned. Accesses take effect in the order of the steps.
pub mod Phases
pub mod Invariant
pub mod Safety
use zstage.Base.{ℕ, zero, suc, ◌+◌, ◌%◌, ◌^◌, ◌<◌, ◌≡◌, ◌≢◌, Bool, true, false, ◌==◌, if◌then◌else◌}
use zstage.Entry.{blt}

-- `ZSTAGE_NO_SPIN`, whether the load address is another than the run address, and the address of
-- the next stage.
pub record Config : Type 0 where
  pub no_spin : Bool
  pub relocates : Bool
  pub next_run_addr : ℕ

-- Where a hart stands: the boot hart comes from `relocating` to `entered`, the others go through
-- `waiting` and `spinning`.
pub data Pc : Type 0 where
  start : Pc  -- `_start_real`, before the lottery
  relocating : Pc  -- `_relocate`
  relocated : Pc  -- `_relocate_done`
  marked : Pc  -- before the call of zstage_main
  in_main : Pc
  returned : Pc  -- behind the call
  released : Pc  -- before the jump to the next stage
  entered : Pc  -- in the next stage
  waiting : Pc  -- `_wait_relocate_copy_done`
  spinning : Pc  -- `_secondary_spin_loop`
  jumped : (addr : ℕ) → Pc
  hung : Pc  -- `_start_hang` or zstage_hang

pub record Shared : Type 0 where
  pub lottery : ℕ
  pub boot_status : ℕ
  pub spin_addr : ℕ
  pub copied : Bool
  pub finished : Bool

-- One hart and the shared words, before and after. `amoadd.w` is of a 32-bit word.
pub data Move (c : Config) (m : Shared) : Pc → Shared → Pc → Type 0 where
  win : m.lottery ≡ 0 → Move c m start (record m { lottery = (m.lottery + 1) % 2 ^ 32 }) relocating
  lose :
      m.lottery ≢ 0
      → c.relocates ≡ true
      → Move c m start (record m { lottery = (m.lottery + 1) % 2 ^ 32 }) waiting
  lose_in_place :
      m.lottery ≢ 0
      → c.relocates ≡ false
      → Move c m start (record m { lottery = (m.lottery + 1) % 2 ^ 32 }) spinning
  relocate : Move c m relocating (record m { copied = true }) relocated
  refuse : Move c m relocating m hung
  mark : Move c m relocated (record m { boot_status = 1 }) marked
  call : Move c m marked m in_main
  finish : Move c m in_main (record m { finished = true }) returned
  hang : Move c m in_main m hung
  release : c.no_spin ≡ true → Move c m returned (record m { spin_addr = c.next_run_addr }) released
  leave_spinning : c.no_spin ≡ false → Move c m returned m released
  enter : Move c m released m entered
  wait : blt m.boot_status 1 ≡ true → Move c m waiting m waiting
  go_on : blt m.boot_status 1 ≡ false → Move c m waiting m spinning
  spin : m.spin_addr ≡ 0 → Move c m spinning m spinning
  jump : {addr : ℕ} → m.spin_addr ≡ addr → addr ≢ 0 → Move c m spinning m (jumped addr)

-- The family with another value at `i`.
abbrev pub set_at : {A : Type 0} → (ℕ → A) → (i : ℕ) → A → ℕ → A
set_at f i a j = if i == j then a else f j

pub record System : Type 0 where
  pub shared : Shared
  pub pc : ℕ → Pc

-- One of `n` harts moves, or the next stage, once a hart is in it, sets the spin address where the
-- loader leaves that to it.
pub data Step (c : Config) (n : ℕ) (s : System) : System → Type 0 where
  pick :
      (i : ℕ) {m : Shared} {p : Pc}
      → i < n
      → Move c s.shared (s.pc i) m p
      → Step c n s (record { shared = m; pc = set_at s.pc i p })
  next_stage :
      (i addr : ℕ)
      → c.no_spin ≡ false
      → s.pc i ≡ entered
      → Step c n s (record s { shared = record s.shared { spin_addr = addr } })

-- The image as it is loaded: with nothing to relocate, it is its own copy.
abbrev pub init : Config → System
init c = record {
  shared = record {
    lottery = 0;
    boot_status = 0;
    spin_addr = 0;
    copied = if c.relocates then false else true;
    finished = false;
  };
  pc = λ i. start;
}

pub data Reach (c : Config) (n : ℕ) : System → Type 0 where
  initial : Reach c n (init c)
  later : {s t : System} → Reach c n s → Step c n s t → Reach c n t
