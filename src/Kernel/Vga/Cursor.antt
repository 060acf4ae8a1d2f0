-- ===== src/Kernel/Vga/Cursor.antt =====
-- The cursor of the video hardware, against Terminal_Update_Cursor.
use free_micro_nix.Base.{ℕ, ◌+◌, ◌*◌, ◌/◌, ◌%◌, ◌^◌, ◌≡◌, arith, ◌==◌, if◌then◌else◌}
use free_micro_nix.Base.Bits.{bit_and_mask}
use free_micro_nix.Kernel.Port.Device.{run, run-append}
use free_micro_nix.Kernel.Port.{Event, Log, out}
use free_micro_nix.Kernel.Vga.{Terminal, terminal_update_cursor}

-- The registers of the controller: the number of the one that port 0x3D5 is for, and the two that hold
-- the cursor's place.
pub record Crt : Type 0 where
  pub index : ℕ
  pub low : ℕ
  pub high : ℕ

pub tell : Event → Crt → Crt
tell (out port value) c =
    if port == 0x3D4
    then record c { index = value }
    else if port == 0x3D5
    then (if c.index == 0x0F
        then record c { low = value }
        else if c.index == 0x0E
        then record c { high = value }
        else c)
    else c
tell e c = c

-- Where the cursor of the hardware is after a log, as the number of a cell.
pub cursor : Log → ℕ
unfolding tell run
cursor log = let c = run tell log (record { index = 0; low = 0; high = 0 }) in c.high * 256 + c.low

-- Terminal_Update_Cursor puts the cursor of the hardware at the terminal's place, whatever was
-- written before.
pub terminal_update_cursor-cursor :
    (t : Terminal) (log : Log)
    → cursor (terminal_update_cursor t log) ≡ (t.row * 80 + t.column) % 2 ^ 16
unfolding terminal_update_cursor cursor run tell
terminal_update_cursor-cursor t log = simp (run-append) (
    omega (
      arith,
      bit_and_mask 8 ((t.row * 80 + t.column) % 2 ^ 32),
      bit_and_mask 8 ((t.row * 80 + t.column) % 2 ^ 32 / 2 ^ 8),
    ))
