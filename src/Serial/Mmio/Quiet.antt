-- ===== src/Serial/Mmio/Quiet.antt =====
-- The accesses leave the memory and the console device alone.
use zstage.Base.{ℕ, zero, suc, Bool, ◌*◌, ◌%◌, ◌^◌}
use zstage.Machine.{Outside, Event, Cmd, waiting, get, emit}
use zstage.Machine.Keeps.{
  Keeps, pure-Keeps, halt-Keeps, get-Keeps, emit-Keeps, bind-Keeps, if-Keeps,
}
use zstage.Serial.Mmio.{
  access, io_ar, io_bw, raw_readb, raw_readw, raw_readl, raw_readq, raw_writeb, raw_writew,
  raw_writel, raw_writeq, readb, readw, readl, readq, wait_while, writeb, writew, writel, writeq,
}

module _ (env : Outside) where
  access-Keeps : (width addr : ℕ) → Keeps (access env width addr)
  unfolding access
  access-Keeps width addr = bind-Keeps get _ get-Keeps (λ m.
      let value = env.answer m.trace width addr % 2 ^ (8 * width) in
      bind-Keeps (emit (Event.read width addr value)) _ (emit-Keeps (Event.read width addr value))
        (λ u. pure-Keeps value))

  pub raw_readb-Keeps : (addr : ℕ) → Keeps (raw_readb env addr)
  raw_readb-Keeps addr = access-Keeps 1 addr

  pub readb-Keeps : (addr : ℕ) → Keeps (readb env addr)
  unfolding readb
  readb-Keeps addr =
      bind-Keeps (raw_readb env addr) _ (raw_readb-Keeps addr)
        (λ v. bind-Keeps io_ar _ (emit-Keeps _) (λ u. pure-Keeps v))

  pub raw_readw-Keeps : (addr : ℕ) → Keeps (raw_readw env addr)
  raw_readw-Keeps addr = access-Keeps 2 addr

  pub readw-Keeps : (addr : ℕ) → Keeps (readw env addr)
  unfolding readw
  readw-Keeps addr =
      bind-Keeps (raw_readw env addr) _ (raw_readw-Keeps addr)
        (λ v. bind-Keeps io_ar _ (emit-Keeps _) (λ u. pure-Keeps v))

  pub raw_readl-Keeps : (addr : ℕ) → Keeps (raw_readl env addr)
  raw_readl-Keeps addr = access-Keeps 4 addr

  pub readl-Keeps : (addr : ℕ) → Keeps (readl env addr)
  unfolding readl
  readl-Keeps addr =
      bind-Keeps (raw_readl env addr) _ (raw_readl-Keeps addr)
        (λ v. bind-Keeps io_ar _ (emit-Keeps _) (λ u. pure-Keeps v))

  pub raw_readq-Keeps : (addr : ℕ) → Keeps (raw_readq env addr)
  raw_readq-Keeps addr = access-Keeps 8 addr

  pub readq-Keeps : (addr : ℕ) → Keeps (readq env addr)
  unfolding readq
  readq-Keeps addr =
      bind-Keeps (raw_readq env addr) _ (raw_readq-Keeps addr)
        (λ v. bind-Keeps io_ar _ (emit-Keeps _) (λ u. pure-Keeps v))

  pub wait_while-Keeps :
      (rounds : ℕ) (busy : Cmd Bool) → Keeps busy → Keeps (wait_while env rounds busy)
  unfolding wait_while
  wait_while-Keeps zero busy h = halt-Keeps waiting
  wait_while-Keeps (suc rounds) busy h =
      bind-Keeps busy _ h (λ b. if-Keeps b _ _ (wait_while-Keeps rounds busy h) (pure-Keeps tt))

pub raw_writeb-Keeps : (val addr : ℕ) → Keeps (raw_writeb val addr)
unfolding raw_writeb
raw_writeb-Keeps val addr = emit-Keeps (Event.write 1 addr (val % 2 ^ 8))

pub writeb-Keeps : (val addr : ℕ) → Keeps (writeb val addr)
unfolding writeb
writeb-Keeps val addr = bind-Keeps io_bw _ (emit-Keeps _) (λ u. raw_writeb-Keeps val addr)

pub raw_writew-Keeps : (val addr : ℕ) → Keeps (raw_writew val addr)
unfolding raw_writew
raw_writew-Keeps val addr = emit-Keeps (Event.write 2 addr (val % 2 ^ 16))

pub writew-Keeps : (val addr : ℕ) → Keeps (writew val addr)
unfolding writew
writew-Keeps val addr = bind-Keeps io_bw _ (emit-Keeps _) (λ u. raw_writew-Keeps val addr)

pub raw_writel-Keeps : (val addr : ℕ) → Keeps (raw_writel val addr)
unfolding raw_writel
raw_writel-Keeps val addr = emit-Keeps (Event.write 4 addr (val % 2 ^ 32))

pub writel-Keeps : (val addr : ℕ) → Keeps (writel val addr)
unfolding writel
writel-Keeps val addr = bind-Keeps io_bw _ (emit-Keeps _) (λ u. raw_writel-Keeps val addr)

pub raw_writeq-Keeps : (val addr : ℕ) → Keeps (raw_writeq val addr)
unfolding raw_writeq
raw_writeq-Keeps val addr = emit-Keeps (Event.write 8 addr (val % 2 ^ 64))

pub writeq-Keeps : (val addr : ℕ) → Keeps (writeq val addr)
unfolding writeq
writeq-Keeps val addr = bind-Keeps io_bw _ (emit-Keeps _) (λ u. raw_writeq-Keeps val addr)
