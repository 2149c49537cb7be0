-- ===== src/Serial/Mmio.antt =====
-- The accesses of include/zstage/riscv_io.h: each is an event, and so is each of their fences.
-- What a read answers is cut to the width that is read.
pub mod Quiet
use zstage.Base.{ℕ, zero, suc, ◌*◌, ◌%◌, ◌^◌, Bool, true, false, if◌then◌else◌}
use zstage.Machine.{
  Outside, Event, i_r, w_o, Cmd, pure, halt, waiting, get, emit, ◌>>=◌, ◌>>◌, and_then,
}

-- `__io_ar`, behind a read, and `__io_bw`, in front of a write; the other hooks do nothing.
abbrev pub io_ar : Cmd (Unit {0})
io_ar = emit (Event.fence i_r)

abbrev pub io_bw : Cmd (Unit {0})
io_bw = emit (Event.fence w_o)

module _ (env : Outside) where
  unfoldable pub access : (width addr : ℕ) → Cmd ℕ
  access width addr = do
    m ← get
    let value = env.answer m.trace width addr % 2 ^ (8 * width)
    emit (Event.read width addr value)
    pure value

  abbrev pub raw_readb : (addr : ℕ) → Cmd ℕ
  raw_readb = access 1

  abbrev pub raw_readw : (addr : ℕ) → Cmd ℕ
  raw_readw = access 2

  abbrev pub raw_readl : (addr : ℕ) → Cmd ℕ
  raw_readl = access 4

  abbrev pub raw_readq : (addr : ℕ) → Cmd ℕ
  raw_readq = access 8

  abbrev readb_relaxed : (addr : ℕ) → Cmd ℕ
  readb_relaxed = raw_readb

  unfoldable pub readb : (addr : ℕ) → Cmd ℕ
  unfolding access
  readb addr = do v ← raw_readb addr; io_ar; pure v

  abbrev readw_relaxed : (addr : ℕ) → Cmd ℕ
  readw_relaxed = raw_readw

  unfoldable pub readw : (addr : ℕ) → Cmd ℕ
  unfolding access
  readw addr = do v ← raw_readw addr; io_ar; pure v

  abbrev readl_relaxed : (addr : ℕ) → Cmd ℕ
  readl_relaxed = raw_readl

  unfoldable pub readl : (addr : ℕ) → Cmd ℕ
  unfolding access
  readl addr = do v ← raw_readl addr; io_ar; pure v

  abbrev readq_relaxed : (addr : ℕ) → Cmd ℕ
  readq_relaxed = raw_readq

  pub readq : (addr : ℕ) → Cmd ℕ
  unfolding access
  readq addr = do v ← raw_readq addr; io_ar; pure v

  -- `while (busy)` on a volatile condition, for at most `rounds` polls.
  unfoldable pub wait_while : (rounds : ℕ) → (busy : Cmd Bool) → Cmd (Unit {0})
  wait_while zero busy = halt waiting
  wait_while (suc rounds) busy = do b ← busy; if b then wait_while rounds busy else pure tt

unfoldable pub raw_writeb : (val addr : ℕ) → Cmd (Unit {0})
raw_writeb val addr = emit (Event.write 1 addr (val % 2 ^ 8))

abbrev writeb_relaxed : (val addr : ℕ) → Cmd (Unit {0})
writeb_relaxed = raw_writeb

unfoldable pub writeb : (val addr : ℕ) → Cmd (Unit {0})
unfolding raw_writeb
writeb val addr = io_bw >> raw_writeb val addr

unfoldable pub raw_writew : (val addr : ℕ) → Cmd (Unit {0})
raw_writew val addr = emit (Event.write 2 addr (val % 2 ^ 16))

abbrev writew_relaxed : (val addr : ℕ) → Cmd (Unit {0})
writew_relaxed = raw_writew

unfoldable pub writew : (val addr : ℕ) → Cmd (Unit {0})
unfolding raw_writew
writew val addr = io_bw >> raw_writew val addr

unfoldable pub raw_writel : (val addr : ℕ) → Cmd (Unit {0})
raw_writel val addr = emit (Event.write 4 addr (val % 2 ^ 32))

abbrev writel_relaxed : (val addr : ℕ) → Cmd (Unit {0})
writel_relaxed = raw_writel

unfoldable pub writel : (val addr : ℕ) → Cmd (Unit {0})
unfolding raw_writel
writel val addr = io_bw >> raw_writel val addr

pub raw_writeq : (val addr : ℕ) → Cmd (Unit {0})
raw_writeq val addr = emit (Event.write 8 addr (val % 2 ^ 64))

abbrev writeq_relaxed : (val addr : ℕ) → Cmd (Unit {0})
writeq_relaxed = raw_writeq

pub writeq : (val addr : ℕ) → Cmd (Unit {0})
unfolding raw_writeq
writeq val addr = io_bw >> raw_writeq val addr
