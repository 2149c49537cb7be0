-- ===== src/Serial/Semihosting.antt =====
-- firmware/serial/semihosting.c. A call of the host is an event with its answer; its parameter
-- block is given by what stands in it: a character, the file's mode, length and name, or the
-- descriptor and the bytes to write.
pub mod Once
pub mod Debugger
pub mod Frame
use zstage.Base.{
  ℕ, zero, suc, ◌+◌, Bool, false, not, some, List, [], ◌∷◌, ◌==◌, if◌then◌else◌, ℤ, pos, negsuc,
  minus, sub_ℕ, is_negative, codes, length,
}
use zstage.Memory.{bytes}
use zstage.Machine.{Outside, Event, semihost_console, Cmd, pure, get, put, emit, ◌>>=◌, ◌>>◌}
use zstage.Console.{ConsoleDevice, console_set_device}
use zstage.Fdt.{enodev, eio}
use zstage.Fdt.Cells.{to_nat}

abbrev sysopen : ℕ
sysopen = 0x01

abbrev syswritec : ℕ
syswritec = 0x03

abbrev syswrite : ℕ
syswrite = 0x05

abbrev syserrno : ℕ
syserrno = 0x13

abbrev mode_write : ℕ
mode_write = 0x4

abbrev is_minus_one : ℤ → Bool
is_minus_one (pos n) = false
is_minus_one (negsuc n) = n == 0

abbrev is_positive : ℤ → Bool
is_positive (pos n) = not (n == 0)
is_positive (negsuc n) = false

module _ (env : Outside) where
  trap : (sysnum : ℕ) (param : List ℕ) → Cmd ℤ
  trap sysnum param = do
    m ← get
    let result = env.trap m.trace sysnum param
    emit (Event.semihost sysnum param result)
    pure result

  -- Without a debugger the `ebreak` reaches the test vector, which clears `_semihosting_enabled`.
  pub semihosting_test : Cmd Bool
  unfolding trap
  semihosting_test = do
    m ← get
    if not m.semihosting.try_semihosting
        then pure m.semihosting.enabled
        else if env.debugger
        then (do
          errno ← trap syserrno []
          m' ← get
          put (record m' { semihosting = record m'.semihosting { try_semihosting = false } })
          pure m.semihosting.enabled)
        else (do
          put (record m {
            semihosting = record m.semihosting { try_semihosting = false; enabled = false };
          })
          pure false)

  pub semihosting_errno : Cmd ℤ
  unfolding trap
  semihosting_errno = do
    ret ← trap syserrno []
    pure (if is_positive ret then minus (to_nat ret) else eio)

  pub semihosting_open : (fname : List ℕ) (mode : ℕ) → Cmd ℤ
  unfolding trap semihosting_errno
  semihosting_open fname mode = do
    fd ← trap sysopen (mode ∷ length fname ∷ fname)
    if is_minus_one fd then semihosting_errno else pure fd

  -- The result is the number of bytes written, or an error code.
  pub semihosting_write : (fd memp len : ℕ) → Cmd ℤ
  unfolding trap semihosting_errno
  semihosting_write fd memp len = do
    m ← get
    ret ← trap syswrite (fd ∷ bytes m.memory memp len)
    if is_negative ret then semihosting_errno else pure (sub_ℕ len (to_nat ret))

  pub semihosting_putc : (ch : ℕ) → Cmd (Unit {0})
  unfolding trap
  semihosting_putc ch = do ret ← trap syswritec (ch ∷ []); pure tt

  -- `for (i = 0; i < len; i++) { ch = str[i]; semihosting_trap(SYSWRITEC, &ch); }`
  writec_loop : (len str : ℕ) → Cmd (Unit {0})
  unfolding trap
  writec_loop zero str = pure tt
  writec_loop (suc len) str = do
    m ← get
    ret ← trap syswritec (m.memory str ∷ [])
    writec_loop len (str + 1)

  pub semihosting_puts : (str len : ℕ) → Cmd (Unit {0})
  unfolding writec_loop semihosting_write
  semihosting_puts str len = do
    m ← get
    if is_negative m.semihosting.outfd
        then writec_loop len str
        else (do ret ← semihosting_write (to_nat m.semihosting.outfd) str len; pure tt)

  pub semihosting_serial_init : Cmd ℤ
  unfolding semihosting_test semihosting_open
  semihosting_serial_init = do
    works ← semihosting_test
    if not works then pure enodev else (do
      fd ← semihosting_open (codes ":tt") mode_write
      m ← get
      put (record m { semihosting = record m.semihosting { outfd = fd } })
      console_set_device (some semihost_console)
      pure (pos 0))

abbrev pub semihost_console_device : Outside → ConsoleDevice
semihost_console_device env = record {
  name = codes "semihosting";
  console_putc = some (semihosting_putc env);
  console_puts = some (semihosting_puts env);
}
