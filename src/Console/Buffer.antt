-- ===== src/Console/Buffer.antt =====
-- printc of firmware/console.c with a buffer: what stands in memory afterwards.
use zstage.Base.{
  ℕ, zero, suc, ◌+◌, ◌-◌, ◌%◌, ◌^◌, ◌<◌, ◌≡◌, refl, ap, sym, ◌∙◌, Option, none, some, List, [], ◌∷◌,
  length, take, map, arith, lt→ltb, ◌⊎◌,
}
use zstage.Memory.{Memory, store, Holds}
use zstage.Machine.{Machine, Run, ok}
use zstage.Console.{Devices, Sink, printc, printc_each}

-- Each character is stored with a NUL behind it.
pub text_memory : Memory → (p : ℕ) → List ℕ → Memory
text_memory m p [] = m
text_memory m p (c ∷ cs) = text_memory (store (store m p c) (p + 1) 0) (p + 1) cs

-- `m'` is `m` with the characters `cs` and a NUL written at `p`; nothing, not even the NUL, is
-- written where there is no character.
pub record IsWritten (m : Memory) (p : ℕ) (cs : List ℕ) (m' : Memory) : Type 0 where
  pub holds : Holds m' p (map (λ c. c % 2 ^ 8) cs)
  pub ended : 0 < length cs → m' (p + length cs) ≡ 0
  pub same : (q : ℕ) → (q < p) ⊎ (p + length cs < q) → m' q ≡ m q
  pub nothing : cs ≡ [] → m' ≡ m

text_memory_below : (cs : List ℕ) (m : Memory) (p q : ℕ) → q < p → text_memory m p cs q ≡ m q
unfolding text_memory store
text_memory_below [] m p q h = refl
text_memory_below (c ∷ cs) m p q h =
    ground (arith, text_memory_below cs (store (store m p c) (p + 1) 0) (p + 1) q)

text_memory_above :
    (cs : List ℕ) (m : Memory) (p q : ℕ) → p + length cs < q → text_memory m p cs q ≡ m q
unfolding text_memory store
text_memory_above [] m p q h = refl
text_memory_above (c ∷ cs) m p q h =
    ground (arith, text_memory_above cs (store (store m p c) (p + 1) 0) (p + 1) q)

text_memory_end :
    (cs : List ℕ) (c : ℕ) (m : Memory) (p : ℕ) → text_memory m p (c ∷ cs) (p + length (c ∷ cs)) ≡ 0
unfolding text_memory store
text_memory_end [] c m p = ground arith
text_memory_end (d ∷ cs) c m p =
    ap (text_memory m p (c ∷ d ∷ cs)) (omega arith)
    ∙ text_memory_end cs d (store (store m p c) (p + 1) 0) (p + 1)

text_memory-Holds :
    (cs : List ℕ) (m : Memory) (p : ℕ) → Holds (text_memory m p cs) p (map (λ c. c % 2 ^ 8) cs)
unfolding text_memory
text_memory-Holds [] m p = tt
text_memory-Holds (c ∷ cs) m p = (
  text_memory_below cs (store (store m p c) (p + 1) 0) (p + 1) p (omega arith)
      ∙ unfold store in ground arith,
  text_memory-Holds cs (store (store m p c) (p + 1) 0) (p + 1),
)

pub text_memory-IsWritten :
    (cs : List ℕ) (m : Memory) (p : ℕ) → IsWritten m p cs (text_memory m p cs)
text_memory-IsWritten [] m p = record {
  holds = tt;
  ended = λ h. absurd (omega arith);
  same = λ q h. unfold text_memory in refl;
  nothing = λ e. unfold text_memory in refl;
}
text_memory-IsWritten (c ∷ cs) m p = record {
  holds = text_memory-Holds (c ∷ cs) m p;
  ended = λ h. text_memory_end cs c m p;
  same = λ q h. ground (arith, text_memory_below (c ∷ cs) m p q, text_memory_above (c ∷ cs) m p q);
  nothing = λ e. cc;
}

-- A run that wrote `cs` at `p` and left the sink with `*out` at `q` and `*out_len` at `n`.
abbrev pub wrote : Machine → (p : ℕ) (cs : List ℕ) (q : ℕ) (n : Option ℕ) (pc : ℕ) → Run (Sink × ℕ)
wrote m p cs q n pc =
    ok (record { out = some q; out_len = n }, pc) (record m { memory = text_memory m.memory p cs })

wrote_eq :
    (m : Machine) (p : ℕ) {cs cs' : List ℕ} {q q' n n' pc pc' : ℕ}
    → cs ≡ cs'
    → q ≡ q'
    → n ≡ n'
    → pc ≡ pc'
    → wrote m p cs q (some n) pc ≡ wrote m p cs' q' (some n') pc'
wrote_eq m p a b c d = λ i. wrote m p (a i) (b i) (some (c i)) (d i)

take-nil : (n : ℕ) → take {A = ℕ} n [] ≡ []
take-nil zero = refl
take-nil (suc n) = refl

module _ (dev : Devices) where
  -- `printc` with no `out_len`.
  pub printc_each-unbounded :
      (cs : List ℕ) (p pc : ℕ) (m : Machine)
      → printc_each dev cs (record { out = some p; out_len = none }) pc m
        ≡ wrote m p cs (p + length cs) none (pc + length cs)
  unfolding printc_each printc text_memory
  printc_each-unbounded [] p pc m =
      ap (λ q. wrote m p [] q none pc) (omega arith)
      ∙ ap (λ k. wrote m p [] (p + 0) none k) (omega arith)
  printc_each-unbounded (c ∷ cs) p pc m =
      printc_each-unbounded cs (p + 1) (pc + 1) _
      ∙ ap (λ q. wrote m p (c ∷ cs) q none (pc + 1 + length cs)) (omega arith)
      ∙ ap (λ k. wrote m p (c ∷ cs) (p + suc (length cs)) none k) (omega arith)

  -- `printc` with `out_len` at `n`: the first `n - 1` characters are written, all are counted.
  pub printc_each-bounded :
      (cs : List ℕ) (p n pc : ℕ) (m : Machine)
      → printc_each dev cs (record { out = some p; out_len = some n }) pc m
        ≡ wrote m p
            (take (n - 1) cs)
            (p + length (take (n - 1) cs))
            (some (n - length cs))
            (pc + length cs)
  unfolding printc_each printc text_memory
  printc_each-bounded [] p n pc m =
      wrote_eq m p (sym (take-nil (n - 1))) (rw (take-nil (n - 1)) (omega arith)) (omega arith)
        (omega arith)
  printc_each-bounded (c ∷ cs) p zero pc m =
      printc_each-bounded cs p 0 (pc + 1) m
      ∙ wrote_eq m p {cs = []} refl refl (omega arith) (omega arith)
  printc_each-bounded (c ∷ cs) p (suc zero) pc m =
      printc_each-bounded cs p 0 (pc + 1) m
      ∙ wrote_eq m p {cs = []} refl refl (omega arith) (omega arith)
  printc_each-bounded (c ∷ cs) p (suc (suc n)) pc m =
      let one_less : suc (suc n) - 1 ≡ suc n = omega arith in
      let left : suc n - 1 ≡ n = omega arith in
      let m' = record m { memory = store (store m.memory p c) (p + 1) 0 } in
      let rest = printc_each-bounded cs (p + 1) (suc n) (pc + 1) m' in
      rw (one_less, lt→ltb 1 (suc (suc n)) (omega arith))
        ((rw left at rest)
          ∙ wrote_eq m p {cs = c ∷ take n cs} refl (omega arith) (omega arith) (omega arith))

  -- Each `printc` counts `out_len` down by one.
  pub printc-counts :
      (c p n : ℕ) (m : Machine)
      → (q : ℕ) × (m' : Machine) × (printc dev (record { out = some p; out_len = some (suc n) }) c m
          ≡ ok (record { out = some q; out_len = some n }) m')
  unfolding printc
  printc-counts c p zero m = (p, m, refl)
  printc-counts c p (suc n) m =
      let left : suc (suc n) - 1 ≡ suc n = omega arith in
      (
        p + 1,
        record m { memory = store (store m.memory p c) (p + 1) 0 },
        rw (lt→ltb 1 (suc (suc n)) (omega arith), left) refl,
      )
