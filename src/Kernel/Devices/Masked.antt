-- ===== src/Kernel/Devices/Masked.antt =====
-- When the non-maskable interrupt is masked.
use free_micro_nix.Base.{
  ℕ, ◌+◌, ◌*◌, ◌/◌, ◌%◌, ◌^◌, ◌<◌, bit_or, ◌≡◌, refl, sym, ap, ◌∙◌, Bool, true, false, arith, u8,
}
use free_micro_nix.Base.Bits.{bit_and_mask, bit_or_shifted, bit_or_digit, bit_or-zero}
use free_micro_nix.Kernel.Port.{Bus}
use free_micro_nix.Kernel.Port.Device.{run, run-append}
use free_micro_nix.Kernel.Port.Cmos.{Cmos, is_masked, run_cmos, tell}
use free_micro_nix.Kernel.Devices.{Nmi, nmi_enable, nmi_disable, nmi_is_enabled}

-- The state of the gate and of the flag, and what the chip keeps.
pub record IsGated (bus : Bus) (masked enabled : Bool) (selected : ℕ) (start : Cmos) (s t : Nmi)
    : Type 0 where
  pub gate : is_masked (run_cmos t.log start) ≡ masked
  pub flag : nmi_is_enabled bus t ≡ enabled
  pub index : (run_cmos t.log start).selected % 128 ≡ selected % 128
  pub register : (i : ℕ) → (run_cmos t.log start).register i ≡ (run_cmos s.log start).register i

bit_or-seventh : (v : ℕ) → v < 256 → bit_or v 0x80 ≡ 128 + v % 128
bit_or-seventh v byte =
    let shifted = bit_or_shifted 7 (v / 128) 1 (v % 128) (omega arith) in
    let whole : v / 128 * 2 ^ 7 + v % 128 ≡ v = omega arith in
    let top : bit_or (v / 128) 1 ≡ 1 =
      ground (arith, bit_or_digit (v / 128) 1, bit_or-zero (v / 128 / 2)) in
    ap (λ x. bit_or x 0x80) (sym whole) ∙ shifted ∙ ap (λ x. x * 128 + v % 128) top ∙ omega arith

-- NMI_Enable lets the non-maskable interrupt through and sets its flag. NMI_Disable masks the interrupt,
-- but leaves the flag that NMI_Is_Enabled reports as it was. Both select the register that port 0x70
-- answered, and change none.
pub nmi-IsGated :
    (bus : Bus) (start : Cmos) (s : Nmi)
    → IsGated bus false true (bus 0x70 s.log) start s (nmi_enable bus s)
      × IsGated bus true (nmi_is_enabled bus s) (bus 0x70 s.log) start s (nmi_disable bus s)
unfolding nmi_enable nmi_disable nmi_is_enabled run tell is_masked
nmi-IsGated bus start s =
    let low = bit_and_mask 7 (u8 (bus 0x70 s.log)) in
    let high = bit_or-seventh (u8 (bus 0x70 s.log)) (omega arith) in
    (
      record {
        gate = simp run-append (ground (arith, low));
        flag = refl;
        index = simp run-append (omega (arith, low));
        register = λ i. simp run-append refl;
      },
      record {
        gate = simp run-append (ground (arith, high));
        flag = refl;
        index = simp run-append (omega (arith, high));
        register = λ i. simp run-append refl;
      },
    )
