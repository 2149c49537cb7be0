-- ===== src/Entry/Harts/Safety.antt =====
-- What holds in every state that the harts of firmware/head.S reach, and what they can reach.
use zstage.Base.{ℕ, ◌^◌, ◌<◌, ◌≡◌, ◌⊎◌, Bool, true, false}
use zstage.Entry.Harts.{
  Config, Pc, start, waiting, spinning, jumped, Shared, Move, set_at, System, Reach,
}
use zstage.Entry.Harts.Phases.{is_boot, in_copy}
use zstage.Entry.Harts.Invariant.{Reach-Inv}

-- With fewer than 2^32 harts, two are never on the way from the lottery to the next stage as boot
-- hart.
pub Reach-boot_hart :
    {c : Config} {n : ℕ} {s : System}
    → n < 2 ^ 32
    → Reach c n s
    → (i j : ℕ) → is_boot (s.pc i) ≡ true
    → is_boot (s.pc j) ≡ true
    → i ≡ j
Reach-boot_hart few r = (Reach-Inv few r).unique

-- With fewer than 2^32 harts, a hart that runs code of the copy, boot hart or not, does so after
-- the copy is complete.
pub Reach-copied :
    {c : Config} {n : ℕ} {s : System}
    → n < 2 ^ 32
    → Reach c n s
    → (i : ℕ) → in_copy (s.pc i) ≡ true
    → s.shared.copied ≡ true
Reach-copied few r = (Reach-Inv few r).copy

-- With fewer than 2^32 harts, a secondary hart leaves the spin loop only after zstage_main has
-- returned, and where the loader sets the spin address, to the address of the next stage.
pub Reach-jumped :
    {c : Config} {n : ℕ} {s : System}
    → n < 2 ^ 32
    → Reach c n s
    → (i addr : ℕ) → s.pc i ≡ jumped addr
    → (s.shared.finished ≡ true) × ((c.no_spin ≡ false) ⊎ (addr ≡ c.next_run_addr))
Reach-jumped few r = (Reach-Inv few r).jumps

-- A secondary hart on its way, or one that has not drawn yet.
abbrev pub is_secondary : Pc → Bool
is_secondary start = true
is_secondary waiting = true
is_secondary spinning = true
is_secondary p = false

-- Moves of hart `i` alone, one after the other, from one state to another.
pub data Alone (c : Config) (i : ℕ) : System → System → Type 0 where
  rest : {s : System} → Alone c i s s
  turn :
      {s t : System} {m : Shared} {p : Pc}
      → Move c s.shared (s.pc i) m p
      → Alone c i (record { shared = m; pc = set_at s.pc i p }) t
      → Alone c i s t

-- By moves of its own, hart `i` goes from `s` to the next stage at `addr`.
abbrev Jumps : Config → System → (i addr : ℕ) → Type 0
Jumps c s i addr = (t : System) × Alone c i s t × (t.pc i ≡ jumped addr)
