-- ===== src/Kernel/Port/Cmos.antt =====
-- The chip behind the ports 0x70 and 0x71: the registers of the clock, and the gate of the non-maskable
-- interrupt.
use free_micro_nix.Base.{ℕ, ◌%◌, ◌≡◌, Bool, leb, ◌==◌, if◌then◌else◌}
use free_micro_nix.Kernel.Port.Device.{run}
use free_micro_nix.Kernel.Port.{Event, Log, Bus, out}

-- The last byte that was written to port 0x70, and the registers.
pub record Cmos : Type 0 where
  pub selected : ℕ
  pub register : ℕ → ℕ

-- The low seven bits select a register; the eighth masks the non-maskable interrupt.
unfoldable pub is_masked : Cmos → Bool
is_masked m = leb 128 (m.selected % 256)

unfoldable pub tell : Event → Cmos → Cmos
tell (out port value) m =
    if port == 0x70
    then record m { selected = value }
    else if port == 0x71
    then record m { register = λ i. if i == m.selected % 128 then value else m.register i }
    else m
tell e m = m

abbrev pub run_cmos : Log → Cmos → Cmos
run_cmos log m = run tell log m

-- Port 0x71 answers the selected register.
abbrev pub IsCmos : Bus → Cmos → Type 0
IsCmos bus start =
    (log : Log)
    → let m = run_cmos log start in bus 0x71 log % 256 ≡ m.register (m.selected % 128) % 256
