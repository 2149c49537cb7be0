-- ===== src/Machine/Keeps.antt =====
-- Commands that leave the memory and the choice of the console device alone, whether they return
-- or stop.
use zstage.Base.{inl, inr, ◌≡◌, refl, sym, ◌∙◌, Bool, true, false, if◌then◌else◌}
use zstage.Machine.{Machine, Event, Run, Cmd, Stop, pure, halt, get, put, emit, ok, stop, ◌>>=◌}
use zstage.Machine.Laws.{and_then-eq-ok, and_then-eq-stop}

-- What a run leaves alone.
abbrev pub Same : Machine → Machine → Type 0
Same m m' = (m'.memory ≡ m.memory) × (m'.console_dev ≡ m.console_dev)

pub record Keeps {A : Type 0} (c : Cmd A) : Type 0 where
  pub same : (a : A) (m m' : Machine) → c m ≡ ok a m' → Same m m'
  pub kept : (s : Stop) (m m' : Machine) → c m ≡ stop s m' → Same m m'

abbrev pub machine_of : {A : Type 0} → Machine → Run A → Machine
machine_of d (ok a m) = m
machine_of d (stop s m) = m

pub machine_of_same : {A : Type 0} (d e : Machine) (r : Run A) → machine_of d r ≡ machine_of e r
machine_of_same d e (ok a m) = refl
machine_of_same d e (stop s m) = refl

pub pure-Keeps : {A : Type 0} (a : A) → Keeps (pure a)
pure-Keeps a = record {
  same = λ b m m' e. let s : m ≡ m' = λ i. machine_of m (e i) in rw (← s) (refl, refl);
  kept = λ s m m' e. cc;
}

pub halt-Keeps : {A : Type 0} (s : Stop) → Keeps (halt {A = A} s)
halt-Keeps s = record {
  same = λ b m m' e. cc;
  kept = λ r m m' e. let same : m ≡ m' = λ i. machine_of m (e i) in rw (← same) (refl, refl);
}

pub get-Keeps : Keeps get
get-Keeps = record {
  same = λ b m m' e. let s : m ≡ m' = λ i. machine_of m (e i) in rw (← s) (refl, refl);
  kept = λ s m m' e. cc;
}

pub emit-Keeps : (e : Event) → Keeps (emit e)
emit-Keeps e = record {
  same = λ b m m' r.
      (sym (λ i. (machine_of m (r i)).memory), sym (λ i. (machine_of m (r i)).console_dev));
  kept = λ s m m' r. cc;
}

pub modify-Keeps :
    (f : Machine → Machine) → ((m : Machine) → Same m (f m)) → Keeps (get >>= λ m. put (f m))
modify-Keeps f h = record {
  same = λ b m m' e. (
    sym (λ i. (machine_of m (e i)).memory) ∙ (h m).0,
    sym (λ i. (machine_of m (e i)).console_dev) ∙ (h m).1,
  );
  kept = λ s m m' e. cc;
}

pub bind-Keeps :
    {A B : Type 0} (c : Cmd A) (k : A → Cmd B) → Keeps c → ((a : A) → Keeps (k a)) → Keeps (c >>= k)
bind-Keeps c k h hk = record {
  same = λ b m m' e.
      let (a, m1, first, later) = and_then-eq-ok (c m) k e in
      let (mem, con) = h.same a m m1 first in
      let (mem', con') = (hk a).same b m1 m' later in (mem' ∙ mem, con' ∙ con);
  kept = λ s m m' e. elim (and_then-eq-stop (c m) k e) [
    | inl first ↦ h.kept s m m' first
    | inr (a, m1, first, later) ↦
        let (mem, con) = h.same a m m1 first in
        let (mem', con') = (hk a).kept s m1 m' later in (mem' ∙ mem, con' ∙ con)
  ];
}

pub if-Keeps :
    {A : Type 0} (b : Bool) (c d : Cmd A) → Keeps c → Keeps d → Keeps (if b then c else d)
if-Keeps true c d h k = h
if-Keeps false c d h k = k

pub Same-Keeps : {A : Type 0} (c : Cmd A) → ((m : Machine) → Same m (machine_of m (c m))) → Keeps c
Same-Keeps c h = record {
  same = λ a m m' e. (
    (λ i. (machine_of m (sym e i)).memory) ∙ (h m).0,
    (λ i. (machine_of m (sym e i)).console_dev) ∙ (h m).1,
  );
  kept = λ s m m' e. (
    (λ i. (machine_of m (sym e i)).memory) ∙ (h m).0,
    (λ i. (machine_of m (sym e i)).console_dev) ∙ (h m).1,
  );
}

-- At one machine, which the two branches start from.
pub if-Same :
    {A : Type 0} (b : Bool) (c d : Cmd A) (m : Machine)
    → Same m (machine_of m (c m))
    → Same m (machine_of m (d m))
    → Same m (machine_of m ((if b then c else d) m))
if-Same true c d m h k = h
if-Same false c d m h k = k
