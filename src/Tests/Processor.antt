-- ===== src/Tests/Processor.antt =====
-- The name of a processor.
use free_micro_nix.Base.{ℕ, ◌+◌, ◌≤◌, ◌≡◌, refl, inl, arith, Returns}
use free_micro_nix.Tests.Strings.{blank}
use free_micro_nix.Mem.{IsObject}
use free_micro_nix.Kernel.Vga.Print.Literal.{bytes}
use free_micro_nix.Kernel.Cpuid.{Regs, detect_cpu}
use free_micro_nix.Kernel.Cpuid.Vendor.{Frame, Named, vendor, detect_cpu-vendor}

-- "Genu", "ntel" and "ineI" in ebx, ecx and edx
abbrev intel : ℕ → Regs
intel code = record { eax = 13; ebx = 0x756E6547; ecx = 0x6C65746E; edx = 0x49656E69 }

room : (p n : ℕ) → p + n ≤ 200 → IsObject blank p n
room p n fits i lt = ground arith

frame : Frame blank 10 30 40 50
frame = record {
  room = room 10 13 (omega arith);
  first = room 30 5 (omega arith);
  second = room 40 5 (omega arith);
  third = room 50 5 (omega arith);
  first_second = inl (omega arith);
  first_third = inl (omega arith);
  second_third = inl (omega arith);
  name_first = inl (omega arith);
  name_second = inl (omega arith);
  name_third = inl (omega arith);
}

detect_cpu-vendor_example :
    Returns
      (λ (g, r). (r ≡ 10) × Named blank 10 30 40 50 (vendor (intel 0)) g)
      (detect_cpu intel 9 30 40 50 10 blank)
detect_cpu-vendor_example =
    detect_cpu-vendor intel 9 30 40 50 10 blank frame
      (omega arith, omega arith, omega arith, omega arith)
      (omega arith, omega arith, omega arith, omega arith)
      (omega arith, omega arith, omega arith, omega arith) (omega arith)

-- "GenuineIntel"
vendor_run : vendor (intel 0) ≡ bytes "GenuineIntel"
unfolding bytes
vendor_run = refl
