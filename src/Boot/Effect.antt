-- ===== src/Boot/Effect.antt =====
-- What a step of firmware/main.c does to the memory, up to what print leaves in its own buffer.
use zstage.Base.{ℕ, zero, suc, ◌+◌, ◌-◌, ◌≤◌, ◌≡◌, ◌⊎◌, refl, ◌∙◌, some, arith}
use zstage.Memory.{Memory, IsBytes, store}
use zstage.CString.{memcpy}
use zstage.CString.Copy.{moved, memcpy-moved}
use zstage.Machine.{Machine, Device, Uart8250, Cmd, pure, ok, ◌>>=◌, ◌>>◌}
use zstage.Console.{Devices, nputs}

-- The `n` addresses from `p` on lie outside of print's buffer of 128 bytes.
abbrev pub IsApart : (tbuf p n : ℕ) → Type 0
IsApart tbuf p n = (p + n ≤ tbuf) ⊎ (tbuf + 128 ≤ p)

-- The two memories differ in print's buffer at most.
abbrev pub Agree : (tbuf : ℕ) → Memory → Memory → Type 0
Agree tbuf m m' = (q : ℕ) → IsApart tbuf q 1 → m q ≡ m' q

memcpy-Agree :
    (tbuf count : ℕ) (m m' : Memory) (dest src : ℕ)
    → IsApart tbuf src count
    → Agree tbuf m m'
    → Agree tbuf (memcpy m dest src count) (memcpy m' dest src count)
unfolding memcpy store
memcpy-Agree tbuf zero m m' dest src apart same = same
memcpy-Agree tbuf (suc count) m m' dest src apart same =
    memcpy-Agree tbuf count (store m dest (m src)) (store m' dest (m' src)) (dest + 1) (src + 1)
      (omega arith)
      (λ q h. let here : m src ≡ m' src = same src (omega arith) in rw (here, same q h) refl)

-- `memcpy` on a memory that agrees with `m`, from outside of the buffer, is the move on `m`.
pub memcpy-Agree-moved :
    (tbuf count : ℕ) (m m' : Memory) (dest src : ℕ)
    → IsBytes m'
    → IsApart tbuf src count
    → (dest ≤ src) ⊎ (src + count ≤ dest)
    → Agree tbuf m m'
    → Agree tbuf (memcpy m dest src count) (moved m' dest src count)
memcpy-Agree-moved tbuf count m m' dest src b apart order same = λ q h.
    memcpy-Agree tbuf count m m' dest src apart same q h ∙ memcpy-moved count m' dest src q b order

pub moved-IsBytes : (m : Memory) (dest src n : ℕ) → IsBytes m → IsBytes (moved m dest src n)
moved-IsBytes m dest src n b = λ q. ground (arith, b q, b (src + (q - dest)))

-- A console device, with what its UART must be like to be heard.
pub record Speaker : Type 1 where
  pub device : Device
  pub live : Uart8250 → Type 0

-- The machine has the console `d` and, outside of print's buffer, the memory `memory`.
pub record IsNear (tbuf : ℕ) (d : Speaker) (memory : Memory) (m : Machine) : Type 0 where
  pub agrees : Agree tbuf m.memory memory
  pub console : m.console_dev ≡ some d.device
  pub heard : d.live m.uart8250

-- From every machine near `before`, the run returns `a` and a machine near `after`.
pub record Leads (tbuf : ℕ) (d : Speaker) {A : Type 0} (c : Cmd A) (a : A) (before after : Memory)
    : Type 0 where
  pub run :
      (m : Machine)
      → IsNear tbuf d before m
      → (m' : Machine) × (c m ≡ ok a m') × IsNear tbuf d after m'

-- A console device whose `nputs` returns where its UART is heard, leaves the memory and itself alone
-- and is heard again.
pub record IsSpeaking (dev : Devices) (d : Speaker) : Type 0 where
  pub speaks :
      (str len : ℕ) (m : Machine)
      → m.console_dev ≡ some d.device
      → d.live m.uart8250
      → (m' : Machine) × (nputs dev str len m ≡ ok tt m')
        × (m'.memory ≡ m.memory)
        × (m'.console_dev ≡ m.console_dev)
        × d.live m'.uart8250

module _ (tbuf : ℕ) (d : Speaker) where
  pub pure-Leads : {A : Type 0} (a : A) (memory : Memory) → Leads tbuf d (pure a) a memory memory
  pure-Leads a memory = record { run = λ m near. (m, refl, near) }

  pub bind-Leads :
      {A B : Type 0} (c : Cmd A) (k : A → Cmd B) (a : A) (b : B) (before between after : Memory)
      → Leads tbuf d c a before between
      → Leads tbuf d (k a) b between after
      → Leads tbuf d (c >>= k) b before after
  bind-Leads c k a b before between after first later = record {
    run = λ m near.
        let (m1, ran, near1) = first.run m near in
        let (m2, ran2, near2) = later.run m1 near1 in (m2, rw ran ran2, near2);
  }

  pub then-Leads :
      {B : Type 0} (c : Cmd (Unit {0})) (k : Cmd B) (b : B) (before between after : Memory)
      → Leads tbuf d c tt before between
      → Leads tbuf d k b between after
      → Leads tbuf d (c >> k) b before after
  then-Leads c k b before between after first later =
      bind-Leads c (λ _. k) tt b before between after first later
