-- ===== src/Entry/Harts/Invariant.antt =====
-- What every step of the harts keeps.
use zstage.Base.{ℕ, ◌+◌, ◌^◌, ◌<◌, ◌≤◌, ◌≡◌, ◌⊎◌, inl, inr, refl, true, false, arith}
use zstage.Entry.{blt}
use zstage.Entry.Harts.{
  Config, Pc, relocating, jumped, Shared, Move, win, lose, lose_in_place, relocate, mark, finish,
  release, leave_spinning, go_on, jump, set_at, System, Step, pick, next_stage, init, Reach,
  initial, later,
}
use zstage.Entry.Harts.Phases.{
  drawn, draws, draws-le, draws-set_at, draws-start, is_boot, in_copy, is_after_main, is_marked,
  is_released,
}

-- The spin address: not set, or set behind zstage_main, and to the next stage by the loader.
abbrev pub IsRelease : Config → Shared → (addr : ℕ) → Type 0
IsRelease c m addr = (m.finished ≡ true) × ((c.no_spin ≡ false) ⊎ (addr ≡ c.next_run_addr))

pub record Inv (c : Config) (n : ℕ) (m : Shared) (pc : ℕ → Pc) : Type 0 where
  pub few : n < 2 ^ 32
  pub tickets : m.lottery ≡ draws n pc
  pub won : (i : ℕ) → is_boot (pc i) ≡ true → 0 < m.lottery
  pub unique : (i j : ℕ) → is_boot (pc i) ≡ true → is_boot (pc j) ≡ true → i ≡ j
  pub in_place : c.relocates ≡ false → m.copied ≡ true
  pub copy : (i : ℕ) → in_copy (pc i) ≡ true → m.copied ≡ true
  pub status : (m.boot_status ≡ 0) ⊎ ((m.boot_status ≡ 1) × (m.copied ≡ true))
  pub after : (i : ℕ) → is_after_main (pc i) ≡ true → m.finished ≡ true
  pub status_set : (i : ℕ) → is_marked (pc i) ≡ true → m.boot_status ≡ 1
  pub spin_set :
      c.no_spin ≡ true → (i : ℕ) → is_released (pc i) ≡ true → m.spin_addr ≡ c.next_run_addr
  pub spin : (m.spin_addr ≡ 0) ⊎ IsRelease c m m.spin_addr
  pub jumps : (i addr : ℕ) → pc i ≡ jumped addr → IsRelease c m addr

module _ {c : Config} {n : ℕ} {m : Shared} {pc : ℕ → Pc} (inv : Inv c n m pc) (i : ℕ)
    (lt : i < n) where
  -- Hart `i` goes from `p` to `p'`.
  record Mover (p p' : Pc) : Type 0 where
    here : pc i ≡ p
    counts : draws n (set_at pc i p') + drawn p ≡ draws n pc + drawn p'
    room : m.lottery + 1 ≤ n + drawn p

  mover : (p' : Pc) → Mover (pc i) p'
  unfolding drawn
  mover p' = record {
    here = refl;
    counts = draws-set_at n pc i p' lt;
    room = omega (
      arith,
      inv.tickets,
      draws-set_at n pc i relocating lt,
      draws-le n (set_at pc i relocating),
    );
  }

  Move-tickets :
      {p p' : Pc} {m' : Shared}
      → Move c m p m' p'
      → Mover p p'
      → m'.lottery ≡ draws n (set_at pc i p')
  unfolding drawn
  Move-tickets (win g) f = omega (arith, g, inv.tickets, inv.few, f.counts, f.room)
  Move-tickets mv f = omega (arith, inv.tickets, inv.few, f.counts, f.room)

  Move-won :
      {p p' : Pc} {m' : Shared}
      → Move c m p m' p'
      → Mover p p'
      → (j : ℕ) → is_boot (set_at pc i p' j) ≡ true
      → 0 < m'.lottery
  unfolding drawn
  Move-won (win g) f j q = omega (arith, g)
  Move-won (lose g r) f j q = omega (arith, inv.few, f.room)
  Move-won (lose_in_place g r) f j q = omega (arith, inv.few, f.room)
  Move-won mv f j q = ground (arith, f.here, inv.won i, inv.won j)

  Move-unique :
      {p p' : Pc} {m' : Shared}
      → Move c m p m' p'
      → Mover p p'
      → (a b : ℕ) → is_boot (set_at pc i p' a) ≡ true
      → is_boot (set_at pc i p' b) ≡ true
      → a ≡ b
  Move-unique (win g) f a b qa qb = ground (arith, g, inv.won a, inv.won b)
  Move-unique mv f a b qa qb =
      ground (arith, f.here, inv.unique a b, inv.unique i a, inv.unique i b)

  Move-in_place :
      {p p' : Pc} {m' : Shared} → Move c m p m' p' → c.relocates ≡ false → m'.copied ≡ true
  Move-in_place relocate r = refl
  Move-in_place mv r = inv.in_place r

  Move-status :
      {p p' : Pc} {m' : Shared}
      → Move c m p m' p'
      → Mover p p'
      → (m'.boot_status ≡ 0) ⊎ ((m'.boot_status ≡ 1) × (m'.copied ≡ true))
  Move-status relocate f = ground (arith, inv.status)
  Move-status mark f = inr (refl, inv.copy i (rw f.here refl))
  Move-status mv f = inv.status

  Move-copy :
      {p p' : Pc} {m' : Shared}
      → Move c m p m' p'
      → Mover p p'
      → (j : ℕ) → in_copy (set_at pc i p' j) ≡ true
      → m'.copied ≡ true
  unfolding blt
  Move-copy relocate f j q = refl
  Move-copy (lose_in_place g r) f j q = inv.in_place r
  Move-copy (go_on g) f j q = ground (arith, g, inv.status)
  Move-copy mv f j q = ground (arith, f.here, inv.copy i, inv.copy j)

  Move-after :
      {p p' : Pc} {m' : Shared}
      → Move c m p m' p'
      → Mover p p'
      → (j : ℕ) → is_after_main (set_at pc i p' j) ≡ true
      → m'.finished ≡ true
  Move-after finish f j q = refl
  Move-after mv f j q = ground (arith, f.here, inv.after i, inv.after j)

  Move-spin :
      {p p' : Pc} {m' : Shared}
      → Move c m p m' p'
      → Mover p p'
      → (m'.spin_addr ≡ 0) ⊎ IsRelease c m' m'.spin_addr
  Move-spin (release g) f = inr (inv.after i (rw f.here refl), inr refl)
  Move-spin finish f = ground (arith, inv.spin)
  Move-spin mv f = inv.spin

  Move-jumps :
      {p p' : Pc} {m' : Shared}
      → Move c m p m' p'
      → Mover p p'
      → (j addr : ℕ) → set_at pc i p' j ≡ jumped addr
      → IsRelease c m' addr
  Move-jumps (jump e g) f j addr q = ground (arith, e, g, inv.spin, inv.jumps j addr)
  Move-jumps mv f j addr q = ground (arith, f.here, inv.jumps i addr, inv.jumps j addr)

  Move-status_set :
      {p p' : Pc} {m' : Shared}
      → Move c m p m' p'
      → Mover p p'
      → (j : ℕ) → is_marked (set_at pc i p' j) ≡ true
      → m'.boot_status ≡ 1
  Move-status_set mark f j q = refl
  Move-status_set mv f j q = ground (arith, f.here, inv.status_set i, inv.status_set j)

  Move-spin_set :
      {p p' : Pc} {m' : Shared}
      → Move c m p m' p'
      → Mover p p'
      → c.no_spin ≡ true
      → (j : ℕ) → is_released (set_at pc i p' j) ≡ true
      → m'.spin_addr ≡ c.next_run_addr
  Move-spin_set (release g) f sets j q = refl
  Move-spin_set (leave_spinning g) f sets j q = cc
  Move-spin_set mv f sets j q = ground (arith, f.here, inv.spin_set sets i, inv.spin_set sets j)

  Move-Inv : {p' : Pc} {m' : Shared} → Move c m (pc i) m' p' → Inv c n m' (set_at pc i p')
  Move-Inv {p'} mv =
      let f = mover p' in
      record {
        few = inv.few;
        tickets = Move-tickets mv f;
        won = Move-won mv f;
        unique = Move-unique mv f;
        in_place = Move-in_place mv;
        copy = Move-copy mv f;
        status = Move-status mv f;
        after = Move-after mv f;
        status_set = Move-status_set mv f;
        spin_set = Move-spin_set mv f;
        spin = Move-spin mv f;
        jumps = Move-jumps mv f;
      }

init-Inv : (c : Config) (n : ℕ) → n < 2 ^ 32 → Inv c n (init c).shared (init c).pc
init-Inv c n few = record {
  few = few;
  tickets = omega (arith, draws-start n);
  won = λ i q. cc;
  unique = λ i j q r. cc;
  in_place = λ r. rw r refl;
  copy = λ i q. cc;
  status = inl refl;
  after = λ i q. cc;
  status_set = λ i q. cc;
  spin_set = λ sets i q. cc;
  spin = inl refl;
  jumps = λ i addr q. cc;
}

Step-Inv :
    {c : Config} {n : ℕ} {s t : System}
    → Step c n s t
    → Inv c n s.shared s.pc
    → Inv c n t.shared t.pc
Step-Inv (pick i lt mv) inv = Move-Inv inv i lt mv
Step-Inv (next_stage i addr given here) inv = record {
  few = inv.few;
  tickets = inv.tickets;
  won = inv.won;
  unique = inv.unique;
  in_place = inv.in_place;
  copy = inv.copy;
  status = inv.status;
  after = inv.after;
  status_set = inv.status_set;
  spin_set = λ sets j q. cc;
  spin = inr (inv.after i (rw here refl), inl given);
  jumps = inv.jumps;
}

pub Reach-Inv : {c : Config} {n : ℕ} {s : System} → n < 2 ^ 32 → Reach c n s → Inv c n s.shared s.pc
Reach-Inv {c} {n} few initial = init-Inv c n few
Reach-Inv few (later r st) = Step-Inv st (Reach-Inv few r)
