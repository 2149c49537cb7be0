-- ===== src/Console/Wire.antt =====
-- The console device of firmware/console.c, and what nputs sends to it.
use zstage.Base.{
  ℕ, zero, suc, ◌+◌, ◌≡◌, refl, sym, ap, ◌∙◌, Option, none, some, List, [], ◌∷◌, ◌++◌, ◌==◌,
  if◌then◌else◌, arith, pos, Bool-cases, Option-cases, inl, inr,
}
use zstage.Memory.{bytes}
use zstage.Machine.{Device, Machine, Cmd, pure, ok, ◌>>◌, and_then}
use zstage.Machine.Laws.{and_then_assoc, and_then_cong_at, and_then-eq-ok, and_then_unit}
use zstage.Machine.Chooses.{Chooses, known-choice}
use zstage.Machine.KeepsDriver.{KeepsDriver}
use zstage.Console.{
  Devices, putc, putc_by, putc_to, nputs_by, nputs_to, nputs_loop, nputs, console_set_device,
  console_get_device,
}

-- What goes over the wire for a character: a newline is sent as two.
abbrev pub wire : List ℕ → List ℕ
wire [] = []
wire (c ∷ cs) = if c == b'\n' then b'\r' ∷ c ∷ wire cs else c ∷ wire cs

-- `out` at each character.
abbrev pub send_all : (ℕ → Cmd (Unit {0})) → List ℕ → Cmd (Unit {0})
send_all out [] = pure tt
send_all out (c ∷ cs) = out c >> send_all out cs

-- A driver that leaves memory and the choice of the console device alone, as far as it returns.
pub record IsQuiet (out : ℕ → Cmd (Unit {0})) : Type 0 where
  pub keeps_memory : (c : ℕ) (m m' : Machine) → out c m ≡ ok tt m' → m'.memory ≡ m.memory
  pub keeps_device : (c : ℕ) (m m' : Machine) → out c m ≡ ok tt m' → m'.console_dev ≡ m.console_dev

pub console_set_device-none :
    (d : Device) (m : Machine)
    → m.console_dev ≡ none
    → console_set_device (some d) m ≡ ok tt (record m { console_dev = some d })
unfolding console_set_device
console_set_device-none d m h = rw (h, console_set_device) refl

pub console_set_device-KeepsDriver : (d : Device) → KeepsDriver (console_set_device (some d))
unfolding console_set_device
console_set_device-KeepsDriver d = record {
  kept = λ m. elim (Option-cases m.console_dev) [
    | inl free ↦ rw (console_set_device, free) (refl, refl)
    | inr (e, set) ↦ rw (console_set_device, set) (refl, refl)
  ];
}

pub console_set_device-Chooses :
    (d : Device) → Chooses d (console_set_device (some d) >> pure (pos 0))
console_set_device-Chooses d = record {
  chosen = λ rc m m' free e.
      known-choice d (pos 0) rc (record m { console_dev = some d }) m' refl
        (ap (λ r. and_then r (λ _. ok (pos 0))) (sym (console_set_device-none d m free)) ∙ e);
}

-- Where no device was set before, the device that is set first stays, whatever is set after it.
pub console_set_device_first :
    (d : Device) (e : Option Device) (m : Machine)
    → m.console_dev ≡ none
    → (console_set_device (some d) >> (console_set_device e >> console_get_device)) m
      ≡ ok (some d) (record m { console_dev = some d })
unfolding console_set_device console_get_device
console_set_device_first d none m h = rw (h, console_set_device) refl
console_set_device_first d (some e) m h = rw (h, console_set_device) refl

wire-append : (xs ys : List ℕ) → wire (xs ++ ys) ≡ wire xs ++ wire ys
wire-append [] ys = refl
wire-append (c ∷ xs) ys = elim (Bool-cases (c == b'\n')) [
  | inl nl ↦ rw (nl, wire-append xs ys) refl
  | inr other ↦ rw (other, wire-append xs ys) refl
]

module _ (dev : Devices) (d : Device) (out : ℕ → Cmd (Unit {0})) where
  send_all-append :
      (xs ys : List ℕ) (m : Machine)
      → send_all out (xs ++ ys) m ≡ and_then (send_all out xs m) (λ _. send_all out ys)
  send_all-append [] ys m = refl
  send_all-append (c ∷ xs) ys m =
      and_then_cong_at (out c m) _ _ (λ _ m' run. send_all-append xs ys m')
      ∙ sym (and_then_assoc (out c m) _ _)

  send_all_keeps :
      IsQuiet out
      → (cs : List ℕ) (m m' : Machine) → send_all out cs m ≡ ok tt m'
      → (m'.memory ≡ m.memory) × (m'.console_dev ≡ m.console_dev)
  send_all_keeps quiet [] m m' e = (ground arith, ground arith)
  send_all_keeps quiet (c ∷ cs) m m' e =
      let (u, m1, first, later) = and_then-eq-ok (out c m) _ e in
      let (mem, con) = send_all_keeps quiet cs m1 m' later in
      (mem ∙ quiet.keeps_memory c m m1 first, con ∙ quiet.keeps_device c m m1 first)

  putc_by-send_all :
      (c : ℕ) (m : Machine) → putc_by dev (some out) c m ≡ send_all out (wire (c ∷ [])) m
  unfolding putc_by
  putc_by-send_all c m = elim (Bool-cases (c == b'\n')) [
    | inl nl ↦
        rw nl (and_then_cong_at (out b'\r' m) _ _ (λ _ m' run. sym (and_then_unit (out c m'))))
    | inr other ↦ rw other (sym (and_then_unit (out c m)))
  ]

  putc-send_all :
      (c : ℕ) (m : Machine)
      → m.console_dev ≡ some d
      → (dev d).console_putc ≡ some out
      → putc dev c m ≡ send_all out (wire (c ∷ [])) m
  unfolding putc
  putc-send_all c m h e =
      ap (λ o. putc_to dev o c m) h ∙ ap (λ o. putc_by dev o c m) e ∙ putc_by-send_all c m

  nputs_loop-send_all :
      IsQuiet out
      → (dev d).console_putc ≡ some out
      → (len str : ℕ) (m : Machine) → m.console_dev ≡ some d
      → nputs_loop dev len str m ≡ send_all out (wire (bytes m.memory str len)) m
  unfolding nputs_loop
  nputs_loop-send_all quiet e zero str m h = refl
  nputs_loop-send_all quiet e (suc len) str m h =
      ap (λ r. and_then r (λ _. nputs_loop dev len (str + 1))) (putc-send_all (m.memory str) m h e)
      ∙ and_then_cong_at (send_all out (wire (m.memory str ∷ [])) m) _
          (λ _. send_all out (wire (bytes m.memory (str + 1) len)))
          (λ u m' run.
            let (mem, con) = send_all_keeps quiet (wire (m.memory str ∷ [])) m m' run in
            nputs_loop-send_all quiet e len (str + 1) m' (con ∙ h)
            ∙ ap (λ k. send_all out (wire (bytes k (str + 1) len)) m') mem)
      ∙ sym (send_all-append (wire (m.memory str ∷ [])) (wire (bytes m.memory (str + 1) len)) m)
      ∙ ap (λ cs. send_all out cs m)
          (sym (wire-append (m.memory str ∷ []) (bytes m.memory (str + 1) len)))

  -- To a console device with a `console_putc` that leaves memory and the choice of the device
  -- alone, and with no `console_puts`, `nputs` sends the `len` bytes at `str` one by one, a
  -- newline as a carriage return and a newline.
  pub nputs-send_all :
      IsQuiet out
      → (dev d).console_putc ≡ some out
      → (dev d).console_puts ≡ none
      → (len str : ℕ) (m : Machine) → m.console_dev ≡ some d
      → nputs dev str len m ≡ send_all out (wire (bytes m.memory str len)) m
  unfolding nputs
  nputs-send_all quiet e e' len str m h =
      ap (λ o. nputs_to dev o str len m) h
      ∙ ap (λ o. nputs_by dev o str len m) e'
      ∙ nputs_loop-send_all quiet e len str m h

-- A console device with a `console_puts` is handed the whole text.
pub nputs-console_puts :
    (dev : Devices) (d : Device) (out : ℕ → ℕ → Cmd (Unit {0})) (str len : ℕ) (m : Machine)
    → (dev d).console_puts ≡ some out
    → m.console_dev ≡ some d
    → nputs dev str len m ≡ out str len m
unfolding nputs nputs_to nputs_by
nputs-console_puts dev d out str len m has_puts h =
    ap (λ o. nputs_to dev o str len m) h ∙ ap (λ o. nputs_by dev o str len m) has_puts
