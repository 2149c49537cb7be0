-- ===== src/Machine/Chooses.antt =====
-- Commands with an error code that choose the console device: where none was chosen before, they
-- choose it with the code 0, and none with another.
use zstage.Base.{◌≡◌, refl, sym, ap, ◌∙◌, false, if◌then◌else◌, Option, none, some, ℤ, is_zero}
use zstage.Machine.{Device, Machine, Run, Cmd, Stop, pure, halt, get, put, ok, stop, ◌>>=◌, ◌>>◌}
use zstage.Machine.Keeps.{Keeps, machine_of}
use zstage.Machine.Laws.{and_then-eq-ok}

abbrev pub choice : Device → (rc : ℤ) → Option Device
choice d rc = if is_zero rc then some d else none

pub record Chooses (d : Device) (c : Cmd ℤ) : Type 0 where
  pub chosen :
      (rc : ℤ) (m m' : Machine)
      → m.console_dev ≡ none
      → c m ≡ ok rc m'
      → m'.console_dev ≡ choice d rc

pub bind-Chooses :
    {A : Type 0} {d : Device} {c : Cmd A} {k : A → Cmd ℤ}
    → Keeps c
    → ((a : A) → Chooses d (k a))
    → Chooses d (c >>= k)
bind-Chooses {c} {k} h hk = record {
  chosen = λ rc m m' free e.
      let (a, m1, first, later) = and_then-eq-ok (c m) k e in
      (hk a).chosen rc m1 m' ((h.same a m m1 first).1 ∙ free) later;
}

pub then-Chooses :
    {A : Type 0} {d : Device} {c : Cmd A} {k : Cmd ℤ} → Keeps c → Chooses d k → Chooses d (c >> k)
then-Chooses h hk = bind-Chooses h (λ _. hk)

pub set-Chooses :
    {d : Device} {f : Machine → Machine} {k : Machine → Cmd ℤ}
    → ((m : Machine) → (f m).console_dev ≡ m.console_dev)
    → ((m : Machine) → Chooses d (k m))
    → Chooses d (get >>= λ m. put (f m) >> k m)
set-Chooses {f} same h = record {
  chosen = λ rc m m' free e. (h m).chosen rc (f m) m' (same m ∙ free) e;
}

pub Option-Chooses :
    {A : Type 0} {d : Device} (o : Option A) {c : Cmd ℤ} {k : A → Cmd ℤ}
    → Chooses d c
    → ((a : A) → Chooses d (k a))
    → Chooses d (elim o [ none ↦ c | some a ↦ k a ])
Option-Chooses none h hk = h
Option-Chooses (some a) h hk = hk a

pub halt-Chooses : {d : Device} (s : Stop) → Chooses d (halt s)
halt-Chooses s = record { chosen = λ rc m m' free e. cc }

code_of : Run ℤ → ℤ → ℤ
code_of (ok rc m) d = rc
code_of (stop s m) d = d

-- A run that is known, against what `Chooses` asks of it.
pub known-choice :
    (d : Device) (rc0 rc : ℤ) (m0 m' : Machine)
    → m0.console_dev ≡ choice d rc0
    → ok rc0 m0 ≡ ok rc m'
    → m'.console_dev ≡ choice d rc
unfolding code_of
known-choice d rc0 rc m0 m' h e =
    (λ i. (machine_of m0 (sym e i)).console_dev) ∙ h ∙ ap (choice d) (λ i. code_of (e i) rc)

pub refuse-Chooses : {d : Device} (rc : ℤ) → is_zero rc ≡ false → Chooses d (pure rc)
refuse-Chooses {d} rc h = record {
  chosen = λ rc' m m' free e. known-choice d rc rc' m m' (free ∙ rw h refl) e;
}
