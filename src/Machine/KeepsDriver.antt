-- ===== src/Machine/KeepsDriver.antt =====
-- Commands that leave the memory and `current_driver` of firmware/serial/fdt_serial.c alone,
-- however they end.
use zstage.Base.{◌≡◌, refl, ◌∙◌, Option, none, some, Bool, true, false, if◌then◌else◌}
use zstage.Machine.{
  Event, Machine, Run, Cmd, pure, halt, Stop, get, put, emit, ok, stop, ◌>>=◌, ◌>>◌, and_then,
}
use zstage.Machine.Keeps.{machine_of}

abbrev pub SameDriver : Machine → Machine → Type 0
SameDriver m m' = (m'.memory ≡ m.memory) × (m'.current_driver ≡ m.current_driver)

pub record KeepsDriver {A : Type 0} (c : Cmd A) : Type 0 where
  pub kept : (m : Machine) → SameDriver m (machine_of m (c m))

and_then-SameDriver :
    {A B : Type 0} (r : Run A) (k : A → Cmd B) (m : Machine)
    → SameDriver m (machine_of m r)
    → ((a : A) → KeepsDriver (k a))
    → SameDriver m (machine_of m (and_then r k))
and_then-SameDriver (ok a m1) k m (mem, drv) hk =
    let (mem', drv') = (hk a).kept m1 in (mem' ∙ mem, drv' ∙ drv)
and_then-SameDriver (stop s m1) k m h hk = h

pub bind-KeepsDriver :
    {A B : Type 0} (c : Cmd A) (k : A → Cmd B)
    → KeepsDriver c
    → ((a : A) → KeepsDriver (k a))
    → KeepsDriver (c >>= k)
bind-KeepsDriver c k h hk = record { kept = λ m. and_then-SameDriver (c m) k m (h.kept m) hk }

pub then-KeepsDriver :
    {A B : Type 0} {c : Cmd A} {d : Cmd B} → KeepsDriver c → KeepsDriver d → KeepsDriver (c >> d)
then-KeepsDriver {c} {d} h k = bind-KeepsDriver c (λ _. d) h (λ _. k)

pub if-KeepsDriver :
    {A : Type 0} (b : Bool) (c d : Cmd A)
    → KeepsDriver c
    → KeepsDriver d
    → KeepsDriver (if b then c else d)
if-KeepsDriver true c d h k = h
if-KeepsDriver false c d h k = k

-- At one machine, which the two branches start from.
pub if-SameDriver :
    {A : Type 0} (b : Bool) (c d : Cmd A) (m : Machine)
    → SameDriver m (machine_of m (c m))
    → SameDriver m (machine_of m (d m))
    → SameDriver m (machine_of m ((if b then c else d) m))
if-SameDriver true c d m h k = h
if-SameDriver false c d m h k = k

pub get-KeepsDriver : KeepsDriver get
get-KeepsDriver = record { kept = λ m. (refl, refl) }

pub pure-KeepsDriver : {A : Type 0} (a : A) → KeepsDriver (pure a)
pure-KeepsDriver a = record { kept = λ m. (refl, refl) }

pub halt-KeepsDriver : {A : Type 0} (s : Stop) → KeepsDriver (halt {A = A} s)
halt-KeepsDriver s = record { kept = λ m. (refl, refl) }

pub emit-KeepsDriver : (e : Event) → KeepsDriver (emit e)
emit-KeepsDriver e = record { kept = λ m. (refl, refl) }

pub Option-KeepsDriver :
    {A B : Type 0} (o : Option A) {c : Cmd B} {k : A → Cmd B}
    → KeepsDriver c
    → ((a : A) → KeepsDriver (k a))
    → KeepsDriver (elim o [ none ↦ c | some a ↦ k a ])
Option-KeepsDriver none h hk = h
Option-KeepsDriver (some a) h hk = hk a

-- An assignment to other variables, and what follows it.
pub set-KeepsDriver :
    {A : Type 0} {f : Machine → Machine} {k : Machine → Cmd A}
    → ((m : Machine) → SameDriver m (f m))
    → ((m : Machine) → KeepsDriver (k m))
    → KeepsDriver (get >>= λ m. put (f m) >> k m)
set-KeepsDriver {f} same h = record {
  kept = λ m.
      let (mem, drv) = (h m).kept (f m) in let (mem', drv') = same m in (mem ∙ mem', drv ∙ drv');
}
