-- ===== src/Kernel/Entry/Order.antt =====
-- What is in place when kmain enables the interrupts.
use free_micro_nix.Base.{ℕ, ◌+◌, ◌≡◌, List, [], ◌∷◌, ◌++◌}
use Prim.Native.String.{String}
use free_micro_nix.Kernel.Port.{Log, Event, sti, lgdt, lidt}
use free_micro_nix.Kernel.Port.Written.{written}

-- How often something happened.
unfoldable pub count : (Event → ℕ) → Log → ℕ
count f [] = 0
count f (e ∷ log) = f e + count f log

unfoldable pub enabling : Event → ℕ
enabling sti = 1
enabling e = 0

-- A table of segments or of gates is loaded.
unfoldable pub loading_gdt : Event → ℕ
loading_gdt (lgdt limit address) = 1
loading_gdt e = 0

unfoldable pub loading_idt : Event → ℕ
loading_idt (lidt limit address) = 1
loading_idt e = 0

-- The last event enables the interrupts, none before since `start` does, and before it both tables were
-- loaded and the controllers told their vectors 32 and 40.
pub record IsReady (start log : Log) : Type 0 where
  pub before : Log
  pub last : log ≡ before ++ sti ∷ []
  pub none_before : count enabling before ≡ count enabling start
  pub segments_loaded : count loading_gdt before ≡ count loading_gdt start + 1
  pub gates_loaded : count loading_idt before ≡ count loading_idt start + 1
  pub master : (mask : ℕ) × (written 0x21 before ≡ written 0x21 start ++ 0x20 ∷ 4 ∷ 1 ∷ mask ∷ [])
  pub slave : (mask : ℕ) × (written 0xA1 before ≡ written 0xA1 start ++ 0x28 ∷ 2 ∷ 1 ∷ mask ∷ [])
