-- ===== src/Serial/Uart8250/Start.antt =====
-- uart8250_init of firmware/serial/uart8250.c makes the UART the console where its divisor is defined.
use Prim.Native.Nat.{bit_and}
use zstage.Base.{
  ℕ, ◌/◌, ◌%◌, ◌^◌, ◌<◌, ◌⊎◌, inl, inr, arith, Bool-cases, false, if◌then◌else◌, ◌≡◌, refl, ap, ◌∙◌,
  none, some, List, ◌==◌, pos, ℤ,
}
use zstage.Machine.{Outside, Event, Machine, Uart8250, uart8250_console, Cmd, pure, ok, ◌>>=◌, ◌>>◌}
use zstage.Base.Bits.{bit_and_byte}
use zstage.Serial.Uart8250.Registers.{
  Registers, has_latch, put_register, replay, IsSpaced, Drives, pure-Drives, bind-Drives, if-Drives,
  set_reg-Drives, get_reg-Drives,
}
use zstage.Console.Wire.{console_set_device-none}
use zstage.Console.{console_set_device}
use zstage.Fdt.{Tree}
use zstage.Fdt.Cells.{PlatformUartData, fdt_parse_uart_node}
use zstage.Serial.Node.{with_uart-parsed}
use zstage.Serial.Uart8250.{
  set_reg, get_reg, bdiv, set_divisor, uart8250_init, serial_uart8250_init, uart_dll_offset,
  uart_dlm_offset, uart_ier_offset, uart_lcr_offset, uart_fcr_offset, uart_mcr_offset,
  uart_lsr_offset, uart_rbr_offset, uart_scr_offset,
}

-- What `set_divisor` does to the registers.
put_divisor : (d : ℕ) → Registers → Registers
put_divisor d r =
    if d == 0
    then r
    else put_register 1 (bit_and (d / 2 ^ 8) 0xff % 2 ^ 8)
        (put_register 0 (bit_and d 0xff % 2 ^ 8) r)

set_divisor-Drives : (u : Uart8250) (d : ℕ) → Drives u (put_divisor d) (set_divisor d)
unfolding set_divisor put_divisor
set_divisor-Drives u d = if-Drives u (d == 0) _ _ (pure-Drives u tt) (
    bind-Drives u _ _ (set_reg-Drives u uart_dll_offset _ (inl (omega arith)))
      (λ _. set_reg-Drives u uart_dlm_offset _ (inl (omega arith))))

-- From a machine without a console, the run returns 0 and makes the 8250 UART the console; else it
-- changes the trace at most, and the registers by `f`.
record Starts (u : Uart8250) (f : Registers → Registers) (c : Cmd ℤ) : Type 0 where
  pub starts :
      (m : Machine)
      → m.uart8250 ≡ u
      → m.console_dev ≡ none
      → (trace' : List Event) × (c m
          ≡ ok (pos 0) (record m { console_dev = some uart8250_console; trace = trace' }))
        × (IsSpaced u → (r : Registers) → replay u r trace' ≡ f (replay u r m.trace))

bind-Starts :
    (u : Uart8250) {f g : Registers → Registers} {A : Type 0} (c : Cmd A) (k : A → Cmd ℤ)
    → Drives u f c
    → ((a : A) → Starts u g (k a))
    → Starts u (λ r. g (f r)) (c >>= k)
bind-Starts u {f} {g} c k first later = record {
  starts = λ m same free.
      let (a, trace1, ran, regs) = first.drives m same in
      let (trace2, ran2, regs2) = (later a).starts (record m { trace = trace1 }) same free in
      (trace2, rw ran ran2, λ spaced r. regs2 spaced r ∙ ap g (regs spaced r));
}

set_device-Starts :
    (u : Uart8250) → Starts u (λ r. r) (console_set_device (some uart8250_console) >> pure (pos 0))
set_device-Starts u = record {
  starts = λ m same free.
      (m.trace, rw (console_set_device-none uart8250_console m free) refl, λ spaced r. refl);
}

-- The registers that `uart8250_init` writes and reads, in order, and the console that it sets.
configure : Outside → (d : ℕ) → Cmd ℤ
configure env d = do
  set_reg uart_ier_offset 0x00
  set_reg uart_lcr_offset 0x80
  set_divisor d
  set_reg uart_lcr_offset 0x03
  set_reg uart_fcr_offset 0x01
  set_reg uart_mcr_offset 0x00
  lsr ← get_reg env uart_lsr_offset
  rbr ← get_reg env uart_rbr_offset
  set_reg uart_scr_offset 0x00
  console_set_device (some uart8250_console)
  pure (pos 0)

-- The registers behind it: no interrupts, 8 bits without parity and one stop bit, the FIFO on, and
-- the divisor in its latch, where there is one.
abbrev pub configured : (d : ℕ) → Registers → Registers
configured d r = record r {
  ier = 0;
  fcr = 1;
  lcr = 3;
  mcr = 0;
  scr = 0;
  divisor_low = if d == 0 then r.divisor_low else d % 2 ^ 8;
  divisor_high = if d == 0 then r.divisor_high else d / 2 ^ 8 % 2 ^ 8;
}

put_all : (d : ℕ) → Registers → Registers
put_all d r = put_register 7 0 (
    put_register 4 0 (
      put_register 2 1
        (put_register 3 3 (put_divisor d (put_register 3 0x80 (put_register 1 0 r))))))

put_all-configured : (d : ℕ) (r : Registers) → has_latch r ≡ false → put_all d r ≡ configured d r
unfolding put_all put_divisor
put_all-configured d r closed = elim (Bool-cases (d == 0)) [
  | inl off ↦ rw (closed, off) refl
  | inr on ↦
      let low : bit_and d 0xff % 2 ^ 8 ≡ d % 2 ^ 8 = omega (arith, bit_and_byte d) in
      let high : bit_and (d / 2 ^ 8) 0xff % 2 ^ 8 ≡ d / 2 ^ 8 % 2 ^ 8 =
        omega (arith, bit_and_byte (d / 2 ^ 8)) in
      rw (closed, on, low, high) refl
]

configure-Starts : (u : Uart8250) (env : Outside) (d : ℕ) → Starts u (put_all d) (configure env d)
unfolding configure put_all
configure-Starts u env d =
    let set =
      λ (num val : ℕ) (known : (num < 5) ⊎ (num ≡ 7)) (f : Registers → Registers) (k : Cmd ℤ)
          (h : Starts u f k).
        bind-Starts u (set_reg num val) (λ _. k) (set_reg-Drives u num val known) (λ _. h) in
    let low =
      λ (num : ℕ) (small : num < 5) (val : ℕ) (f : Registers → Registers) (k : Cmd ℤ)
          (h : Starts u f k).
        set num val (inl small) f k h in
    low uart_ier_offset (omega arith) _ _ _ (
      low uart_lcr_offset (omega arith) _ _ _ (
        bind-Starts u (set_divisor d) _ (set_divisor-Drives u d) (λ _.
          low uart_lcr_offset (omega arith) _ _ _ (
            low uart_fcr_offset (omega arith) _ _ _ (
              low uart_mcr_offset (omega arith) _ _ _ (
                bind-Starts u (get_reg env uart_lsr_offset) _ (get_reg-Drives u env _) (λ lsr.
                  bind-Starts u (get_reg env uart_rbr_offset) _ (get_reg-Drives u env _)
                    (λ rbr. set uart_scr_offset _ (inr refl) _ _ (set_device-Starts u)))))))))

-- What the driver keeps of its arguments.
abbrev pub uart_of : (base in_freq baudrate reg_shift reg_width : ℕ) → Uart8250
uart_of base in_freq baudrate reg_shift reg_width = record {
  base = base;
  in_freq = in_freq;
  baudrate = baudrate;
  reg_width = reg_width;
  reg_shift = reg_shift;
}

uart8250_init-starts :
    (env : Outside) (base in_freq baudrate reg_shift reg_width d : ℕ) (m : Machine)
    → m.console_dev ≡ none
    → bdiv in_freq baudrate ≡ some d
    → (trace' : List Event) × (uart8250_init env base in_freq baudrate reg_shift reg_width m
        ≡ ok (pos 0) (record m {
          uart8250 = uart_of base in_freq baudrate reg_shift reg_width;
          console_dev = some uart8250_console;
          trace = trace';
        }))
      × (IsSpaced (uart_of base in_freq baudrate reg_shift reg_width)
          → (r : Registers)
          → has_latch (replay (uart_of base in_freq baudrate reg_shift reg_width) r m.trace) ≡ false
          → replay (uart_of base in_freq baudrate reg_shift reg_width) r trace'
            ≡ configured d (replay (uart_of base in_freq baudrate reg_shift reg_width) r m.trace))
unfolding uart8250_init configure
uart8250_init-starts env base in_freq baudrate reg_shift reg_width d m free divides =
    let u = uart_of base in_freq baudrate reg_shift reg_width in
    let m1 = record m { uart8250 = u } in
    let (trace', ran, regs) = (configure-Starts u env d).starts m1 refl free in
    let step : uart8250_init env base in_freq baudrate reg_shift reg_width m ≡ configure env d m1 =
      rw divides refl in
    (
      trace',
      step ∙ ran,
      λ spaced r closed. regs spaced r ∙ put_all-configured d (replay u r m.trace) closed,
    )

-- With no console set, a divisor that is defined, registers of which no two share an address, and
-- the divisor latch closed, `uart8250_init` returns 0. Then the UART is the console, with the
-- arguments as its state; what was written leaves it with no interrupts, 8 bits without parity and
-- one stop bit, the FIFO on, the modem control and scratch registers 0, the divisor in its latch,
-- where it is not 0, and the latch closed; nothing was sent.
pub uart8250_init-configured :
    (env : Outside) (base in_freq baudrate reg_shift reg_width d : ℕ) (m : Machine) (r : Registers)
    → m.console_dev ≡ none
    → bdiv in_freq baudrate ≡ some d
    → IsSpaced (uart_of base in_freq baudrate reg_shift reg_width)
    → has_latch (replay (uart_of base in_freq baudrate reg_shift reg_width) r m.trace) ≡ false
    → (trace' : List Event) × (uart8250_init env base in_freq baudrate reg_shift reg_width m
        ≡ ok (pos 0) (record m {
          uart8250 = uart_of base in_freq baudrate reg_shift reg_width;
          console_dev = some uart8250_console;
          trace = trace';
        }))
      × (replay (uart_of base in_freq baudrate reg_shift reg_width) r trace'
          ≡ configured d (replay (uart_of base in_freq baudrate reg_shift reg_width) r m.trace))
uart8250_init-configured env base in_freq baudrate reg_shift reg_width d m r free divides spaced
      closed =
    let (trace', ran, regs) =
      uart8250_init-starts env base in_freq baudrate reg_shift reg_width d m free divides in
    (trace', ran, regs spaced r closed)

-- The UART of a node, as `uart8250_init` keeps it.
abbrev pub node_uart : PlatformUartData → Uart8250
node_uart uart =
    uart_of uart.addr (uart.freq % 2 ^ 32) (uart.baud % 2 ^ 32) (uart.reg_shift % 2 ^ 32)
      (uart.reg_io_width % 2 ^ 32)

pub serial_uart8250_init-starts :
    (env : Outside) (fuel stack_addr stack_size : ℕ) (t : Tree) (nodeoff : ℤ)
    (uart : PlatformUartData) (d : ℕ) (m : Machine)
    → m.console_dev ≡ none
    → fdt_parse_uart_node fuel (some t) nodeoff stack_addr stack_size ≡ some (some uart)
    → bdiv (uart.freq % 2 ^ 32) (uart.baud % 2 ^ 32) ≡ some d
    → (trace' : List Event) × (serial_uart8250_init env fuel stack_addr stack_size t nodeoff m
        ≡ ok (pos 0) (record m {
          uart8250 = node_uart uart;
          console_dev = some uart8250_console;
          trace = trace';
        }))
unfolding serial_uart8250_init
serial_uart8250_init-starts env fuel stack_addr stack_size t nodeoff uart d m free parsed divides =
    let (trace', ran, regs) =
      uart8250_init-starts env uart.addr (uart.freq % 2 ^ 32) (uart.baud % 2 ^ 32)
        (uart.reg_shift % 2 ^ 32) (uart.reg_io_width % 2 ^ 32) d m free divides in
    (
      trace',
      ap (λ c. c m) (with_uart-parsed fuel stack_addr stack_size t nodeoff _ uart parsed) ∙ ran,
    )
