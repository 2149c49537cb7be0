-- ===== src/Serial/Htif/Addresses.antt =====
-- The addresses that firmware/serial/htif.c keeps of a device tree.
use zstage.Base.{
  ℕ, ◌≡◌, ◌⊎◌, inl, inr, ◌∙◌, sym, Bool-cases, refl, Bool, true, false, not, ◌||◌, ◌==◌, pos, arith,
}
use zstage.Machine.{Machine, ok}
use zstage.Fdt.{einval}
use zstage.Serial.Htif.{set_custom_addr}

-- Once addresses were given, `set_custom_addr` does not change them: it returns 0 for the same two
-- addresses, or for none, and -EINVAL for others, and leaves the machine as it was.
pub set_custom_addr-fixed :
    (custom_addr : Bool) (fromhost_addr tohost_addr : ℕ) (m : Machine)
    → m.htif.custom ≡ true
    → (((custom_addr ≡ false) ⊎ ((fromhost_addr ≡ m.htif.fromhost) × (tohost_addr ≡ m.htif.tohost)))
        × (set_custom_addr custom_addr fromhost_addr tohost_addr m ≡ ok (pos 0) m))
      ⊎ (set_custom_addr custom_addr fromhost_addr tohost_addr m ≡ ok einval m)
unfolding set_custom_addr
set_custom_addr-fixed false fromhost_addr tohost_addr m once = inl (inl refl, refl)
set_custom_addr-fixed true fromhost_addr tohost_addr m once =
    elim (Bool-cases
      (not (fromhost_addr == m.htif.fromhost) || not (tohost_addr == m.htif.tohost))) [
        | inl other ↦ inr (rw once (rw other refl))
        | inr known ↦
            let from : fromhost_addr ≡ m.htif.fromhost = ground arith in
            let to : tohost_addr ≡ m.htif.tohost = ground arith in
            let known_path : set_custom_addr true fromhost_addr tohost_addr m
                ≡ ok (pos 0) (record m {
                  htif = record m.htif {
                    fromhost = fromhost_addr;
                    tohost = tohost_addr;
                    custom = true;
                  };
                }) =
              rw once (rw known refl) in
            inl (
              inr (from, to),
              known_path ∙ (λ i. ok (pos 0) (record m {
                htif = record m.htif { fromhost = from i; tohost = to i; custom = (sym once) i };
              })),
            )
      ]
