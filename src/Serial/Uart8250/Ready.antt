-- ===== src/Serial/Uart8250/Ready.antt =====
-- When the putc of firmware/serial/uart8250.c writes.
use Prim.Native.Nat.{bit_and}
use zstage.Base.{
  ℕ, zero, suc, ◌*◌, ◌%◌, ◌^◌, ◌≡◌, ◌≢◌, ◌⊎◌, inl, inr, refl, Bool, ◌==◌, List, ◌∷◌, Bool-cases,
  arith,
}
use zstage.Machine.{i_r, w_o, Outside, Machine, Event, Cmd, ok, stop, waiting, pure, ◌>>=◌}
use zstage.Serial.Mmio.{wait_while}
use zstage.Serial.Uart8250.Access.{access_width, set_reg-written, get_reg-seen}
use zstage.Serial.Uart8250.{
  uart_lsr_offset, uart_thr_offset, uart_lsr_thre, reg_addr, get_reg, set_reg, uart8250_putc,
}

abbrev pub thr_write : Machine → (ch : ℕ) → Event
thr_write m ch =
    let w = access_width m.uart8250 in
    Event.write w (reg_addr m.uart8250 uart_thr_offset) (ch % 2 ^ (8 * w))

abbrev pub lsr_read : Machine → (lsr : ℕ) → Event
lsr_read m lsr = Event.read (access_width m.uart8250) (reg_addr m.uart8250 uart_lsr_offset) lsr

pub set_reg-thr :
    (ch : ℕ) (m : Machine)
    → set_reg uart_thr_offset ch m
      ≡ ok tt (record m { trace = thr_write m ch ∷ Event.fence w_o ∷ m.trace })
set_reg-thr ch m = set_reg-written uart_thr_offset ch m

module _ (env : Outside) where
  abbrev pub lsr_of : Machine → ℕ
  lsr_of m =
      let w = access_width m.uart8250 in
      env.answer m.trace w (reg_addr m.uart8250 uart_lsr_offset) % 2 ^ (8 * w)

  -- The machine behind one poll of the line status.
  abbrev pub polled : Machine → Machine
  polled m = record m { trace = Event.fence i_r ∷ lsr_read m (lsr_of m) ∷ m.trace }

  pub get_reg-lsr : (m : Machine) → get_reg env uart_lsr_offset m ≡ ok (lsr_of m) (polled m)
  get_reg-lsr m = get_reg-seen env uart_lsr_offset m

  abbrev pub is_busy : Cmd Bool
  is_busy = do lsr ← get_reg env uart_lsr_offset; pure (bit_and lsr uart_lsr_thre == 0)

  wait_while-is_busy :
      (rounds : ℕ) (m : Machine)
      → ((lsr : ℕ) × (older : List Event) × (wait_while env rounds is_busy m
            ≡ ok tt (record m { trace = Event.fence i_r ∷ lsr_read m lsr ∷ older }))
          × (bit_and lsr uart_lsr_thre ≢ 0))
        ⊎ ((trace' : List Event) × (wait_while env rounds is_busy m
              ≡ stop waiting (record m { trace = trace' })))
  unfolding wait_while
  wait_while-is_busy zero m = inr (m.trace, refl)
  wait_while-is_busy (suc rounds) m =
      let m' = polled m in
      elim (Bool-cases (bit_and (lsr_of m) uart_lsr_thre == 0)) [
        | inr ready ↦ inl (lsr_of m, m.trace, rw (get_reg-lsr m) (rw ready refl), ground arith)
        | inl busy ↦ elim (wait_while-is_busy rounds m') [
          | inl (lsr', older, done, ready) ↦
              inl (lsr', older, rw (get_reg-lsr m) (rw busy done), ready)
          | inr (trace', out) ↦ inr (trace', rw (get_reg-lsr m) (rw busy out))
        ]
      ]

  -- `uart8250_putc` either returns, and the last that left the core is its write of the character,
  -- behind a read of the line status in which the holding register is empty, with the fences of
  -- both in between and nothing else; or it is still waiting at the end of its rounds. Either way
  -- nothing changed but the trace.
  pub uart8250_putc-ready :
      (ch : ℕ) (m : Machine)
      → ((lsr : ℕ) × (older : List Event) × (uart8250_putc env ch m
            ≡ ok tt (record m {
              trace = thr_write m ch ∷ Event.fence w_o ∷ Event.fence i_r ∷ lsr_read m lsr ∷ older;
            }))
          × (bit_and lsr uart_lsr_thre ≢ 0))
        ⊎ ((trace' : List Event) × (uart8250_putc env ch m
              ≡ stop waiting (record m { trace = trace' })))
  unfolding uart8250_putc
  uart8250_putc-ready ch m = elim (wait_while-is_busy env.patience m) [
    | inl (lsr, older, done, ready) ↦
        let m' = record m { trace = Event.fence i_r ∷ lsr_read m lsr ∷ older } in
        inl (lsr, older, rw done (set_reg-thr ch m'), ready)
    | inr (trace', out) ↦ inr (trace', rw out refl)
  ]
