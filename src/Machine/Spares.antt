-- ===== src/Machine/Spares.antt =====
-- Commands that leave the byte at one address as it was, however they end.
use zstage.Base.{◌≡◌, refl, ◌∙◌, ap, ℕ, Option, none, some, Bool, true, false, if◌then◌else◌}
use zstage.Machine.{Machine, Run, Cmd, pure, halt, Stop, get, put, ok, stop, ◌>>=◌, ◌>>◌, and_then}
use zstage.Machine.Keeps.{machine_of, machine_of_same}
use zstage.Machine.KeepsDriver.{KeepsDriver}

-- The byte at `q` is left alone.
pub record Spares (q : ℕ) {A : Type 0} (c : Cmd A) : Type 0 where
  pub spares : (m : Machine) → (machine_of m (c m)).memory q ≡ m.memory q

and_then-Spares :
    (q : ℕ) {A B : Type 0} (r : Run A) (k : A → Cmd B) (m : Machine)
    → (machine_of m r).memory q ≡ m.memory q
    → ((a : A) → Spares q (k a))
    → (machine_of m (and_then r k)).memory q ≡ m.memory q
and_then-Spares q (ok a m1) k m h hk =
    ap (λ m2. m2.memory q) (machine_of_same m m1 (k a m1)) ∙ (hk a).spares m1 ∙ h
and_then-Spares q (stop s m1) k m h hk = h

module _ (q : ℕ) where
  pub pure-Spares : {A : Type 0} (a : A) → Spares q (pure a)
  pure-Spares a = record { spares = λ m. refl }

  pub halt-Spares : {A : Type 0} (s : Stop) → Spares q (halt {A = A} s)
  halt-Spares s = record { spares = λ m. refl }

  pub get-Spares : Spares q get
  get-Spares = record { spares = λ m. refl }

  pub bind-Spares :
      {A B : Type 0} (c : Cmd A) (k : A → Cmd B)
      → Spares q c
      → ((a : A) → Spares q (k a))
      → Spares q (c >>= k)
  bind-Spares c k h hk = record { spares = λ m. and_then-Spares q (c m) k m (h.spares m) hk }

  pub then-Spares :
      {A B : Type 0} {c : Cmd A} {d : Cmd B} → Spares q c → Spares q d → Spares q (c >> d)
  then-Spares {c} {d} h k = bind-Spares c (λ _. d) h (λ _. k)

  pub if-Spares :
      {A : Type 0} (b : Bool) (c d : Cmd A)
      → Spares q c
      → Spares q d
      → Spares q (if b then c else d)
  if-Spares true c d h k = h
  if-Spares false c d h k = k

  pub Option-Spares :
      {X A : Type 0} (o : Option X) {c : Cmd A} {f : X → Cmd A}
      → Spares q c
      → ((x : X) → Spares q (f x))
      → Spares q (elim o [ none ↦ c | some x ↦ f x ])
  Option-Spares none h hf = h
  Option-Spares (some x) h hf = hf x

  -- A command that reads the state first.
  pub state-Spares :
      {A : Type 0} (k : Machine → Cmd A) → ((m : Machine) → Spares q (k m)) → Spares q (get >>= k)
  state-Spares k h = bind-Spares get k get-Spares h

  pub KeepsDriver-Spares : {A : Type 0} (c : Cmd A) → KeepsDriver c → Spares q c
  KeepsDriver-Spares c h = record { spares = λ m. ap (λ memory. memory q) ((h.kept m).0) }

  -- An assignment to other variables, and what follows it.
  pub set-Spares :
      {A : Type 0} {f : Machine → Machine} {k : Machine → Cmd A}
      → ((m : Machine) → (f m).memory q ≡ m.memory q)
      → ((m : Machine) → Spares q (k m))
      → Spares q (get >>= λ m. put (f m) >> k m)
  set-Spares {f} {k} same h = record {
    spares = λ m.
        ap (λ m2. m2.memory q) (machine_of_same m (f m) (k m (f m))) ∙ (h m).spares (f m) ∙ same m;
  }
