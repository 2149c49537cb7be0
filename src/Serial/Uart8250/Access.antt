-- ===== src/Serial/Uart8250/Access.antt =====
-- What the register accesses of firmware/serial/uart8250.c leave in the trace.
use zstage.Base.{ℕ, ◌*◌, ◌%◌, ◌^◌, ◌≡◌, refl, ◌==◌, List, ◌∷◌, Bool-cases, inl, inr, if◌then◌else◌}
use zstage.Machine.{i_r, w_o, Outside, Machine, Uart8250, Event, ok}
use zstage.Serial.Mmio.{
  access, raw_writeb, raw_writew, raw_writel, readb, readw, readl, writeb, writew, writel,
}
use zstage.Serial.Uart8250.{reg_addr, get_reg, set_reg}

-- The bytes of an access to a register.
abbrev pub access_width : Uart8250 → ℕ
access_width u = if u.reg_width == 1 then 1 else if u.reg_width == 2 then 2 else 4

-- A value, cut to that width.
abbrev pub cut : Uart8250 → (value : ℕ) → ℕ
cut u value = value % 2 ^ (8 * access_width u)

abbrev pub written : Uart8250 → (num val : ℕ) → List Event → List Event
written u num val t =
    Event.write (access_width u) (reg_addr u num) (cut u val) ∷ Event.fence w_o ∷ t

pub set_reg-written :
    (num val : ℕ) (m : Machine)
    → set_reg num val m ≡ ok tt (record m { trace = written m.uart8250 num val m.trace })
unfolding set_reg writeb writew writel raw_writeb raw_writew raw_writel
set_reg-written num val m = elim (Bool-cases (m.uart8250.reg_width == 1)) [
  | inl one ↦ rw one refl
  | inr more ↦ elim (Bool-cases (m.uart8250.reg_width == 2)) [
    | inl two ↦ rw (more, two) refl
    | inr four ↦ rw (more, four) refl
  ]
]

-- What a register answers.
abbrev pub register_of : Outside → (num : ℕ) → Machine → ℕ
register_of env num m =
    cut m.uart8250 (env.answer m.trace (access_width m.uart8250) (reg_addr m.uart8250 num))

abbrev pub seen : Outside → (num : ℕ) → Machine → Machine
seen env num m = record m {
  trace =
      Event.fence i_r
      ∷ Event.read (access_width m.uart8250) (reg_addr m.uart8250 num) (register_of env num m)
      ∷ m.trace;
}

pub get_reg-seen :
    (env : Outside) (num : ℕ) (m : Machine)
    → get_reg env num m ≡ ok (register_of env num m) (seen env num m)
unfolding get_reg readb readw readl access
get_reg-seen env num m = elim (Bool-cases (m.uart8250.reg_width == 1)) [
  | inl one ↦ rw one refl
  | inr more ↦ elim (Bool-cases (m.uart8250.reg_width == 2)) [
    | inl two ↦ rw (more, two) refl
    | inr four ↦ rw (more, four) refl
  ]
]
