-- ===== src/Machine/Total.antt =====
-- Commands that return from every machine, and leave the memory and the console device alone.
use zstage.Base.{ℕ, ap, ◌≡◌, refl, sym, ◌∙◌, ◌∷◌, Bool, true, false, if◌then◌else◌}
use zstage.Machine.{Machine, Event, Cmd, pure, get, emit, ok, ◌>>=◌}
use zstage.Machine.Spares.{Spares}
use zstage.Machine.Keeps.{Same, Keeps, machine_of}

pub record IsTotal {A : Type 0} (c : Cmd A) : Type 0 where
  pub returns : (m : Machine) → (a : A) × (m' : Machine) × (c m ≡ ok a m') × Same m m'

pub pure-IsTotal : {A : Type 0} (a : A) → IsTotal (pure a)
pure-IsTotal a = record { returns = λ m. (a, m, refl, (refl, refl)) }

pub get-IsTotal : IsTotal get
get-IsTotal = record { returns = λ m. (m, m, refl, (refl, refl)) }

pub emit-IsTotal : (e : Event) → IsTotal (emit e)
emit-IsTotal e = record {
  returns = λ m. (tt, record m { trace = e ∷ m.trace }, refl, (refl, refl));
}

pub bind-IsTotal :
    {A B : Type 0} (c : Cmd A) (k : A → Cmd B)
    → IsTotal c
    → ((a : A) → IsTotal (k a))
    → IsTotal (c >>= k)
bind-IsTotal c k h hk = record {
  returns = λ m.
      let (a, m1, ran, (mem, con)) = h.returns m in
      let (b, m2, ran2, (mem2, con2)) = (hk a).returns m1 in
      (b, m2, rw ran ran2, (mem2 ∙ mem, con2 ∙ con));
}

pub if-IsTotal :
    {A : Type 0} (b : Bool) (c d : Cmd A) → IsTotal c → IsTotal d → IsTotal (if b then c else d)
if-IsTotal true c d h k = h
if-IsTotal false c d h k = k

pub IsTotal-Keeps : {A : Type 0} (c : Cmd A) → IsTotal c → Keeps c
IsTotal-Keeps c h = record {
  same = λ b m m' e.
      let (a, m1, ran, (mem, con)) = h.returns m in
      let there : m1 ≡ m' = λ i. machine_of m ((sym ran ∙ e) i) in
      (rw (← there) mem, rw (← there) con);
  kept = λ s m m' e. let (a, m1, ran, same) = h.returns m in cc;
}

pub IsTotal-Spares : (q : ℕ) {A : Type 0} (c : Cmd A) → IsTotal c → Spares q c
IsTotal-Spares q c h = record {
  spares = λ m. let (a, m1, ran, (mem, con)) = h.returns m in rw ran (ap (λ memory. memory q) mem);
}
