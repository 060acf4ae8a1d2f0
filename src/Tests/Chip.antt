-- ===== src/Tests/Chip.antt =====
-- The clock's chip with its registers.
use free_micro_nix.Base.{◌%◌, refl, true, false, [], arith, ◌==◌, if◌then◌else◌, Returns}
use free_micro_nix.Kernel.Port.{Bus}
use free_micro_nix.Kernel.Port.Device.{run}
use free_micro_nix.Kernel.Port.Cmos.{Cmos, run_cmos, IsCmos}
use free_micro_nix.Kernel.Entry.{initialize_rtc}
use free_micro_nix.Kernel.Entry.Periodic.{IsPeriodic, initialize_rtc-IsPeriodic}
use free_micro_nix.Kernel.Devices.{Nmi, nmi_enable, nmi_disable, nmi_is_enabled}
use free_micro_nix.Kernel.Devices.Masked.{IsGated, nmi-IsGated}
use free_micro_nix.Tests.Machine.{running}

-- Register B shows the hour in 24-hour mode.
abbrev reset : Cmos
reset = record { selected = 0; register = λ i. if i == 0x0B then 0x02 else 0 }

abbrev chip : Bus
chip port log = let m = run_cmos log reset in m.register (m.selected % 128)

chip-IsCmos : IsCmos chip reset
chip-IsCmos log = refl

initialize_rtc-IsPeriodic_example :
    Returns (λ t. IsPeriodic chip (λ i. 0) reset (running 7) t) (initialize_rtc chip (running 7))
unfolding run
initialize_rtc-IsPeriodic_example =
    initialize_rtc-IsPeriodic chip (λ i. 0) reset (running 7) chip-IsCmos (omega arith)

abbrev unmasked : Nmi
unmasked = record { nmi_enabled = true; log = [] }

nmi-IsGated_example :
    IsGated chip false true 0 reset unmasked (nmi_enable chip unmasked)
    × IsGated chip true true 0 reset unmasked (nmi_disable chip unmasked)
unfolding run nmi_is_enabled
nmi-IsGated_example = nmi-IsGated chip reset unmasked
