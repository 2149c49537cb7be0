-- ===== src/Machine/Laws.antt =====
-- Laws of runs in sequence.
use zstage.Base.{◌≡◌, ◌⊎◌, inl, inr, refl, ap}
use zstage.Machine.{Machine, Run, ok, stop, Stop, undefined, Cmd, and_then}

pub and_then_assoc :
    {A B C : Type 0} (r : Run A) (f : A → Cmd B) (g : B → Cmd C)
    → and_then (and_then r f) g ≡ and_then r (λ a m. and_then (f a m) g)
and_then_assoc (ok a m) f g = refl
and_then_assoc (stop s m) f g = refl

pub and_then_cong :
    {A B : Type 0} (r : Run A) (f g : A → Cmd B)
    → ((a : A) (m : Machine) → f a m ≡ g a m)
    → and_then r f ≡ and_then r g
and_then_cong (ok a m) f g h = h a m
and_then_cong (stop s m) f g h = refl

-- Where the first run ends decides what the second has to do.
pub and_then_cong_at :
    {A B : Type 0} (r : Run A) (f g : A → Cmd B)
    → ((a : A) (m : Machine) → r ≡ ok a m → f a m ≡ g a m)
    → and_then r f ≡ and_then r g
and_then_cong_at (ok a m) f g h = h a m refl
and_then_cong_at (stop s m) f g h = refl

pub and_then-eq-ok :
    {A B : Type 0} (r : Run A) (f : A → Cmd B) {b : B} {m' : Machine}
    → and_then r f ≡ ok b m'
    → (a : A) × (m : Machine) × (r ≡ ok a m) × (f a m ≡ ok b m')
and_then-eq-ok (ok a m) f h = (a, m, refl, h)
and_then-eq-ok (stop s m) f h = cc

pub and_then_unit : (r : Run (Unit {0})) → and_then r (λ _. ok tt) ≡ r
and_then_unit (ok a m) = refl
and_then_unit (stop s m) = refl

-- A stop, as a run of another type.
abbrev as_stop : {A B : Type 0} → Run B → Run A
as_stop (ok b m) = stop undefined m
as_stop (stop s m) = stop s m

-- A run that stops has nothing after it.
pub and_then-eq-stop :
    {A B : Type 0} (r : Run A) (f : A → Cmd B) {s : Stop} {m' : Machine}
    → and_then r f ≡ stop s m'
    → (r ≡ stop s m') ⊎ ((a : A) × (m : Machine) × (r ≡ ok a m) × (f a m ≡ stop s m'))
and_then-eq-stop (ok a m) f h = inr (a, m, refl, h)
and_then-eq-stop (stop s m) f h = inl (ap as_stop h)

pub Run-cases :
    {A : Type 0} (r : Run A)
    → ((a : A) × (m : Machine) × (r ≡ ok a m)) ⊎ ((s : Stop) × (m : Machine) × (r ≡ stop s m))
Run-cases (ok a m) = inl (a, m, refl)
Run-cases (stop s m) = inr (s, m, refl)
