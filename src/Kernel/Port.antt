-- ===== src/Kernel/Port.antt =====
-- What the kernel does to the hardware, as a log, oldest first: the port accesses of
-- kernel/include/x86/io.h, and the instructions that the assembly routines and `asm` statements
-- execute. A call of `kprintf` is an entry too, with its format and its arguments, and so are those
-- of `Terminal_Set_Color` and `Initialize_Terminal`; what these do to the screen is in Vga.
pub mod Written
pub mod Commands
pub mod Visible
pub mod Device
pub mod Cmos
use free_micro_nix.Base.{ℕ, List, [], ◌∷◌, ◌++◌, u8, u16, u32}
use Prim.Native.String.{String}

pub data Event : Type 0 where
  out : ℕ → ℕ → Event
  inp : ℕ → Event
  out_word : ℕ → ℕ → Event
  out_double : ℕ → ℕ → Event
  inp_word : ℕ → Event
  inp_double : ℕ → Event
  lgdt : ℕ → ℕ → Event
  lidt : ℕ → ℕ → Event
  ltr : ℕ → Event
  cli : Event
  sti : Event
  hlt : Event
  printed : String → List ℕ → Event
  colored : ℕ → Event
  terminal_initialized : Event

abbrev pub Log : Type 0
Log = List Event

-- The hardware: what a read of a port answers, given all that happened before.
abbrev pub Bus : Type 0
Bus = ℕ → Log → ℕ

abbrev pub outb : ℕ → ℕ → Log → Log
outb port value log = log ++ out (u16 port) (u8 value) ∷ []

unfoldable pub outw : ℕ → ℕ → Log → Log
outw port value log = log ++ out_word (u16 port) (u16 value) ∷ []

unfoldable pub outd : ℕ → ℕ → Log → Log
outd port value log = log ++ out_double (u16 port) (u32 value) ∷ []

abbrev pub inb : Bus → ℕ → Log → ℕ × Log
inb bus port log = (u8 (bus (u16 port) log), log ++ inp (u16 port) ∷ [])

unfoldable pub inw : Bus → ℕ → Log → ℕ × Log
inw bus port log = (u16 (bus (u16 port) log), log ++ inp_word (u16 port) ∷ [])

unfoldable pub ind : Bus → ℕ → Log → ℕ × Log
ind bus port log = (u32 (bus (u16 port) log), log ++ inp_double (u16 port) ∷ [])

abbrev pub io_wait : Log → Log
io_wait log = outb 0x80 0 log

abbrev pub record_event : Event → Log → Log
record_event e log = log ++ e ∷ []

-- `kprintf` of a literal with no arguments
abbrev pub say : String → Log → Log
say message log = record_event (printed message []) log
