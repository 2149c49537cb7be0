-- ===== src/Serial/Semihosting/Debugger.antt =====
-- firmware/serial/semihosting.c under a debugger, which answers, so nothing waits; and without one.
use zstage.Base.{
  ℕ, zero, suc, ◌+◌, ◌≡◌, refl, ◌∙◌, ap, true, false, none, some, List, [], ◌∷◌, pos, codes, length,
  is_negative, if◌then◌else◌, Bool-cases, inl, inr, sub_ℕ, minus,
}
use zstage.Memory.{bytes}
use zstage.Machine.{Outside, Machine, Semihosting, semihost, semihost_console, get, emit, ok}
use zstage.Machine.Total.{
  IsTotal, pure-IsTotal, get-IsTotal, emit-IsTotal, bind-IsTotal, if-IsTotal,
}
use zstage.Machine.Keeps.{Same}
use zstage.Console.Wire.{console_set_device-none}
use zstage.Fdt.{eio, enodev}
use zstage.Fdt.Cells.{to_nat}
use zstage.Serial.Semihosting.{
  is_minus_one, is_positive, syserrno, sysopen, syswrite, syswritec, mode_write, trap,
  semihosting_test, semihosting_errno, semihosting_open, semihosting_write, writec_loop,
  semihosting_puts, semihosting_putc, semihosting_serial_init,
}

module _ (env : Outside) where
  trap-IsTotal : (sysnum : ℕ) (param : List ℕ) → IsTotal (trap env sysnum param)
  unfolding trap
  trap-IsTotal sysnum param = bind-IsTotal get _ get-IsTotal (λ m.
      let result = env.trap m.trace sysnum param in
      bind-IsTotal (emit (semihost sysnum param result)) _
        (emit-IsTotal (semihost sysnum param result)) (λ u. pure-IsTotal result))

  semihosting_errno-IsTotal : IsTotal (semihosting_errno env)
  unfolding semihosting_errno
  semihosting_errno-IsTotal =
      bind-IsTotal (trap env syserrno []) _ (trap-IsTotal syserrno [])
        (λ ret. pure-IsTotal (if is_positive ret then minus (to_nat ret) else eio))

  pub semihosting_open-IsTotal :
      (fname : List ℕ) (mode : ℕ) → IsTotal (semihosting_open env fname mode)
  unfolding semihosting_open
  semihosting_open-IsTotal fname mode =
      bind-IsTotal (trap env sysopen (mode ∷ length fname ∷ fname)) _ (trap-IsTotal _ _)
        (λ fd. if-IsTotal (is_minus_one fd) _ _ semihosting_errno-IsTotal (pure-IsTotal fd))

  semihosting_write-IsTotal : (fd memp len : ℕ) → IsTotal (semihosting_write env fd memp len)
  unfolding semihosting_write
  semihosting_write-IsTotal fd memp len = bind-IsTotal get _ get-IsTotal (λ m.
      bind-IsTotal (trap env syswrite (fd ∷ bytes m.memory memp len)) _ (trap-IsTotal _ _) (λ ret.
        if-IsTotal (is_negative ret) _ _ semihosting_errno-IsTotal
          (pure-IsTotal (sub_ℕ len (to_nat ret)))))

  writec_loop-IsTotal : (len str : ℕ) → IsTotal (writec_loop env len str)
  unfolding writec_loop
  writec_loop-IsTotal zero str = pure-IsTotal tt
  writec_loop-IsTotal (suc len) str = bind-IsTotal get _ get-IsTotal (λ m.
      bind-IsTotal (trap env syswritec (m.memory str ∷ [])) _ (trap-IsTotal _ _)
        (λ ret. writec_loop-IsTotal len (str + 1)))

  pub semihosting_puts-IsTotal : (str len : ℕ) → IsTotal (semihosting_puts env str len)
  unfolding semihosting_puts
  semihosting_puts-IsTotal str len = bind-IsTotal get _ get-IsTotal (λ m.
      if-IsTotal (is_negative m.semihosting.outfd) _ _ (writec_loop-IsTotal len str) (
        bind-IsTotal (semihosting_write env (to_nat m.semihosting.outfd) str len) _
          (semihosting_write-IsTotal _ str len) (λ ret. pure-IsTotal tt)))

  semihosting_test-enabled :
      (m : Machine)
      → env.debugger ≡ true
      → m.semihosting.enabled ≡ true
      → (m' : Machine) × (semihosting_test env m ≡ ok true m') × Same m m'
  unfolding semihosting_test trap
  semihosting_test-enabled m debugger on = elim (Bool-cases m.semihosting.try_semihosting) [
    | inr tried ↦
        let same : semihosting_test env m ≡ ok m.semihosting.enabled m = rw tried refl in
        (m, same ∙ ap (λ b. ok b m) on, (refl, refl))
    | inl first ↦
        let m' = record m {
          trace = semihost syserrno [] (env.trap m.trace syserrno []) ∷ m.trace;
          semihosting = record m.semihosting { try_semihosting = false };
        } in
        let probed : semihosting_test env m ≡ ok m.semihosting.enabled m' =
          rw first (rw debugger refl) in
        (m', probed ∙ ap (λ b. ok b m') on, (refl, refl))
  ]

  pub semihosting_putc-IsTotal : (ch : ℕ) → IsTotal (semihosting_putc env ch)
  unfolding semihosting_putc
  semihosting_putc-IsTotal ch =
      bind-IsTotal (trap env syswritec (ch ∷ [])) _ (trap-IsTotal _ _) (λ ret. pure-IsTotal tt)

  -- Under a debugger, with no console yet and semihosting not ruled out, `semihosting_serial_init`
  -- returns 0 and makes semihosting the console; the memory stays as it was.
  pub semihosting_serial_init-console :
      (m : Machine)
      → env.debugger ≡ true
      → m.semihosting.enabled ≡ true
      → m.console_dev ≡ none
      → (m' : Machine) × (semihosting_serial_init env m ≡ ok (pos 0) m')
        × (m'.memory ≡ m.memory)
        × (m'.console_dev ≡ some semihost_console)
  unfolding semihosting_serial_init
  semihosting_serial_init-console m debugger on free =
      let (m1, tested, (mem1, con1)) = semihosting_test-enabled m debugger on in
      let (fd, m2, opened, (mem2, con2)) =
        (semihosting_open-IsTotal (codes ":tt") mode_write).returns m1 in
      let m3 = record m2 { semihosting = record m2.semihosting { outfd = fd } } in
      let set = console_set_device-none semihost_console m3 (con2 ∙ con1 ∙ free) in
      (
        record m3 { console_dev = some semihost_console },
        rw tested (rw opened (rw set refl)),
        mem2 ∙ mem1,
        refl,
      )

  -- Without a debugger, at the first call, `semihosting_serial_init` returns -ENODEV and changes
  -- nothing but what it knows of semihosting.
  pub semihosting_serial_init-refused :
      (m : Machine)
      → env.debugger ≡ false
      → m.semihosting.try_semihosting ≡ true
      → (semihosting' : Semihosting) × (semihosting_serial_init env m
          ≡ ok enodev (record m { semihosting = semihosting' }))
  unfolding semihosting_serial_init semihosting_test
  semihosting_serial_init-refused m no_debugger first = (
    record m.semihosting { try_semihosting = false; enabled = false },
    rw first (rw no_debugger refl),
  )
