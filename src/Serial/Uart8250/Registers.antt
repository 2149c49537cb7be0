-- ===== src/Serial/Uart8250/Registers.antt =====
-- The registers of an 8250 UART, by what the driver in firmware/serial/uart8250.c has written.
use native.Mathlib.Nat.{mul-le-mul_right}
use zstage.Base.{
  ℕ, zero, suc, ◌+◌, ◌*◌, ◌%◌, ◌^◌, ◌<◌, ◌≤◌, ◌≡◌, ◌⊎◌, refl, ap, ◌∙◌, Bool, true, false, List, [],
  ◌∷◌, ◌==◌, ltb, if◌then◌else◌, Bool-cases, inl, inr, arith,
}
use zstage.Machine.{Outside, Machine, Uart8250, Event, Cmd, ok, pure, ◌>>=◌}
use zstage.Serial.Uart8250.{reg_addr, get_reg, set_reg}
use zstage.Serial.Uart8250.Access.{cut, written, set_reg-written, register_of, seen, get_reg-seen}

-- `divisor_low` and `divisor_high` are the divisor latch; `sent` has what was sent, latest first.
pub record Registers : Type 0 where
  pub ier : ℕ
  pub fcr : ℕ
  pub lcr : ℕ
  pub mcr : ℕ
  pub scr : ℕ
  pub divisor_low : ℕ
  pub divisor_high : ℕ
  pub sent : List ℕ

-- The top bit of the line control gives access to the divisor latch.
abbrev pub has_latch : Registers → Bool
has_latch r = ltb 127 r.lcr

-- What a write of a byte to a register does.
abbrev pub put_register : (num value : ℕ) → Registers → Registers
put_register num value r =
    if num == 0
    then (if has_latch r
        then record r { divisor_low = value }
        else record r { sent = value ∷ r.sent })
    else if num == 1
    then (if has_latch r then record r { divisor_high = value } else record r { ier = value })
    else if num == 2
    then record r { fcr = value }
    else if num == 3
    then record r { lcr = value }
    else if num == 4
    then record r { mcr = value }
    else if num == 7
    then record r { scr = value }
    else r

-- A write to an address, of which the UART takes the low byte.
unfoldable pub on_write : Uart8250 → (addr value : ℕ) → Registers → Registers
on_write u addr value r =
    let put_at = λ (num : ℕ). put_register num (value % 2 ^ 8) r in
    if addr == reg_addr u 0
    then put_at 0
    else if addr == reg_addr u 1
    then put_at 1
    else if addr == reg_addr u 2
    then put_at 2
    else if addr == reg_addr u 3
    then put_at 3
    else if addr == reg_addr u 4
    then put_at 4
    else if addr == reg_addr u 7
    then put_at 7
    else r

-- The registers behind a trace, from what they were in front of it.
unfoldable pub replay : Uart8250 → Registers → List Event → Registers
replay u r [] = r
replay u r (Event.read width addr value ∷ t) = replay u r t
replay u r (Event.write width addr value ∷ t) = on_write u addr value (replay u r t)
replay u r (Event.fence f ∷ t) = replay u r t
replay u r (Event.semihost sysnum param result ∷ t) = replay u r t

-- No two registers share an address.
abbrev pub IsSpaced : Uart8250 → Type 0
IsSpaced u = 7 * 2 ^ u.reg_shift < 2 ^ 32

pow-positive : (n : ℕ) → 0 < 2 ^ n
pow-positive zero = omega arith
pow-positive (suc n) = let half = pow-positive n in omega arith

module _ (u : Uart8250) (spaced : IsSpaced u) where
  -- The address of a register, with no wrap-around.
  reg_addr-straight : (num : ℕ) → num ≤ 7 → reg_addr u num ≡ u.base + num * 2 ^ u.reg_shift
  unfolding reg_addr
  reg_addr-straight num h =
      let below = mul-le-mul_right (2 ^ u.reg_shift) h in
      let small : num * 2 ^ u.reg_shift % 2 ^ 32 ≡ num * 2 ^ u.reg_shift = omega arith in
      ap (λ offset. u.base + offset) small

  -- A register's address is no other register's.
  reg_addr-apart : (i j : ℕ) → i < j → j ≤ 7 → (reg_addr u j == reg_addr u i) ≡ false
  reg_addr-apart i j lt h =
      let more = mul-le-mul_right (2 ^ u.reg_shift) lt in
      let next : suc i * 2 ^ u.reg_shift ≡ i * 2 ^ u.reg_shift + 2 ^ u.reg_shift = omega arith in
      let here : i ≤ 7 = omega arith in
      ground (
        arith,
        pow-positive u.reg_shift,
        reg_addr-straight i here,
        reg_addr-straight j h,
        more,
        next,
      )

  reg_addr-same : (num : ℕ) → (reg_addr u num == reg_addr u num) ≡ true
  reg_addr-same num = ground arith

  -- A write to a register's address is a write to that register.
  on_write-put_register :
      (num value : ℕ) (r : Registers)
      → (num < 5) ⊎ (num ≡ 7)
      → on_write u (reg_addr u num) value r ≡ put_register num (value % 2 ^ 8) r
  unfolding on_write
  on_write-put_register zero value r h = rw (reg_addr-same 0) refl
  on_write-put_register (suc zero) value r h =
      rw (reg_addr-apart 0 1 (omega arith) (omega arith), reg_addr-same 1) refl
  on_write-put_register (suc (suc zero)) value r h =
      rw
        (
          reg_addr-apart 0 2 (omega arith) (omega arith),
          reg_addr-apart 1 2 (omega arith) (omega arith),
          reg_addr-same 2,
        )
        refl
  on_write-put_register (suc (suc (suc zero))) value r h =
      rw
        (
          reg_addr-apart 0 3 (omega arith) (omega arith),
          reg_addr-apart 1 3 (omega arith) (omega arith),
          reg_addr-apart 2 3 (omega arith) (omega arith),
          reg_addr-same 3,
        )
        refl
  on_write-put_register (suc (suc (suc (suc zero)))) value r h =
      rw
        (
          reg_addr-apart 0 4 (omega arith) (omega arith),
          reg_addr-apart 1 4 (omega arith) (omega arith),
          reg_addr-apart 2 4 (omega arith) (omega arith),
          reg_addr-apart 3 4 (omega arith) (omega arith),
          reg_addr-same 4,
        )
        refl
  on_write-put_register (suc (suc (suc (suc (suc n))))) value r h =
      let seven : suc (suc (suc (suc (suc n)))) ≡ 7 = omega arith in
      rw
        (
          seven,
          reg_addr-apart 0 7 (omega arith) (omega arith),
          reg_addr-apart 1 7 (omega arith) (omega arith),
          reg_addr-apart 2 7 (omega arith) (omega arith),
          reg_addr-apart 3 7 (omega arith) (omega arith),
          reg_addr-apart 4 7 (omega arith) (omega arith),
          reg_addr-same 7,
        )
        refl

-- A command that changes nothing but the trace, and the registers of a UART with `u` by `f`.
pub record Drives (u : Uart8250) (f : Registers → Registers) {A : Type 0} (c : Cmd A) : Type 0 where
  pub drives :
      (m : Machine)
      → m.uart8250 ≡ u
      → (a : A) × (trace' : List Event) × (c m ≡ ok a (record m { trace = trace' }))
        × (IsSpaced u → (r : Registers) → replay u r trace' ≡ f (replay u r m.trace))

pub pure-Drives : (u : Uart8250) {A : Type 0} (a : A) → Drives u (λ r. r) (pure a)
pure-Drives u a = record { drives = λ m same. (a, m.trace, refl, λ spaced r. refl) }

pub bind-Drives :
    (u : Uart8250) {f g : Registers → Registers} {A B : Type 0} (c : Cmd A) (k : A → Cmd B)
    → Drives u f c
    → ((a : A) → Drives u g (k a))
    → Drives u (λ r. g (f r)) (c >>= k)
bind-Drives u {f} {g} c k first later = record {
  drives = λ m same.
      let (a, trace1, ran, regs) = first.drives m same in
      let (b, trace2, ran2, regs2) = (later a).drives (record m { trace = trace1 }) same in
      (b, trace2, rw ran ran2, λ spaced r. regs2 spaced r ∙ ap g (regs spaced r));
}

pub if-Drives :
    (u : Uart8250) {f g : Registers → Registers} {A : Type 0} (b : Bool) (c d : Cmd A)
    → Drives u f c
    → Drives u g d
    → Drives u (λ r. if b then f r else g r) (if b then c else d)
if-Drives u true c d h k = h
if-Drives u false c d h k = k

low_byte : (u : Uart8250) (val : ℕ) → cut u val % 2 ^ 8 ≡ val % 2 ^ 8
low_byte u val = elim (Bool-cases (u.reg_width == 1)) [
  | inl one ↦ rw one (omega arith)
  | inr more ↦ elim (Bool-cases (u.reg_width == 2)) [
    | inl two ↦ rw (more, two) (omega arith)
    | inr four ↦ rw (more, four) (omega arith)
  ]
]

pub set_reg-Drives :
    (u : Uart8250) (num val : ℕ)
    → (num < 5) ⊎ (num ≡ 7)
    → Drives u (put_register num (val % 2 ^ 8)) (set_reg num val)
unfolding replay
set_reg-Drives u num val known = record {
  drives = λ m same. (
    tt,
    written u num val m.trace,
    set_reg-written num val m
        ∙ ap (λ v. ok tt (record m { trace = written v num val m.trace })) same,
    λ spaced r.
        on_write-put_register u spaced num (cut u val) (replay u r m.trace) known
        ∙ ap (λ byte. put_register num byte (replay u r m.trace)) (low_byte u val),
  );
}

pub get_reg-Drives : (u : Uart8250) (env : Outside) (num : ℕ) → Drives u (λ r. r) (get_reg env num)
unfolding replay
get_reg-Drives u env num = record {
  drives = λ m same.
      (register_of env num m, (seen env num m).trace, get_reg-seen env num m, λ spaced r. refl);
}
