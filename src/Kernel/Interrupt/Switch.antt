-- ===== src/Kernel/Interrupt/Switch.antt =====
-- The frames of the two mode switches against the descriptors of gdt.c.
use free_micro_nix.Base.{
  ℕ, ◌/◌, ◌%◌, ◌≡◌, refl, ◌≢◌, Bool, true, false, ◌&&◌, none, some, List, map, arith, leb, ◌==◌,
  if◌then◌else◌, length, get_elem?, Returns, Returns-mono,
}
use free_micro_nix.Kernel.Port.{Bus, Log}
use free_micro_nix.Kernel.Gdt.{GdtState, initialize_gdt}
use free_micro_nix.Kernel.Gdt.Laws.{decode, segments, initialize_gdt-Initialized}
use free_micro_nix.Base.Bits.{bit_and_mask}
use free_micro_nix.Kernel.Interrupt.{Context, stu, stk, System, call, stu_handler, stk_handler}

-- The access byte of the descriptor that a selector names, and 0, which is not present, for the null
-- selector and behind the table.
pub access_byte : List (ℕ × ℕ × ℕ × ℕ) → ℕ → ℕ
access_byte table selector =
    if selector / 8 == 0 then 0 else elim (get_elem? table (selector / 8)) [
      | none ↦ 0
      | some (base, limit, access, flags) ↦ access
    ]

-- The level that a selector asks for, and the one that its descriptor has.
abbrev pub requested : ℕ → ℕ
requested selector = selector % 4

pub descriptor_level : List (ℕ × ℕ × ℕ × ℕ) → ℕ → ℕ
descriptor_level table selector = access_byte table selector / 32 % 4

-- A present segment that is no system segment: of code, which is not conforming, or of data that can
-- be written.
pub is_code : ℕ → Bool
is_code access = (access / 128 == 1) && ((access / 8 % 4 == 3) && (access / 4 % 2 == 0))

pub is_writable_data : ℕ → Bool
is_writable_data access = (access / 128 == 1) && ((access / 8 % 4 == 2) && (access / 2 % 2 == 1))

-- What the processor asks of the selector of the code, of that of the stack and of those of the data
-- when it goes to a level.
pub accepts_code : List (ℕ × ℕ × ℕ × ℕ) → ℕ → ℕ → Bool
accepts_code table level selector =
    is_code (access_byte table selector)
    && ((requested selector == level) && (descriptor_level table selector == level))

pub accepts_stack : List (ℕ × ℕ × ℕ × ℕ) → ℕ → ℕ → Bool
accepts_stack table level selector =
    is_writable_data (access_byte table selector)
    && ((requested selector == level) && (descriptor_level table selector == level))

pub accepts_data : List (ℕ × ℕ × ℕ × ℕ) → ℕ → ℕ → Bool
accepts_data table level selector =
    is_writable_data (access_byte table selector)
    && (leb (requested selector) (descriptor_level table selector)
        && leb level (descriptor_level table selector))

-- The selector of the gates names code of level 0 in the table that Initialize_GDT leaves.
pub gate_selector : accepts_code segments 0 0x08 ≡ true
unfolding accepts_code is_code descriptor_level access_byte
gate_selector = refl

-- The three for a frame, at the level that its code asks for.
pub accepts : List (ℕ × ℕ × ℕ × ℕ) → Context → Bool
accepts table c =
    let level = requested c.cs in
    accepts_code table level c.cs
    && (accepts_stack table level c.ss
        && (accepts_data table level c.ds
            && (accepts_data table level c.es
                && (accepts_data table level c.fs && accepts_data table level c.gs))))

-- The frame with another segment for the stack and the data.
abbrev pub with_data : ℕ → Context → Context
with_data selector c = record c {
  gs = selector;
  fs = selector;
  es = selector;
  ds = selector;
  ss = selector;
}

-- How the routines of the two mode switches do with a table.
pub record Switches (bus : Bus) (table : List (ℕ × ℕ × ℕ × ℕ)) : Type 0 where
  pub to_kernel :
      (c : Context) (s : System)
      → c.int_no % 4 ≢ 0
      → let c' = (call bus stk_handler c s).0 in (requested c'.cs ≡ 0) × (accepts table c' ≡ true)
  pub to_user :
      (c : Context) (s : System)
      → c.int_no % 4 ≢ 3
      → let c' = (call bus stu_handler c s).0 in
        (requested c'.cs ≡ 3)
        × (accepts_code table 3 c'.cs ≡ true)
        × (accepts table c' ≡ false)
        × (accepts table (with_data 0x23 c') ≡ true)
  pub stays :
      (c : Context) (s : System)
      → (c.int_no % 4 ≡ 0 → (call bus stk_handler c s).0 ≡ c)
        × (c.int_no % 4 ≡ 3 → (call bus stu_handler c s).0 ≡ c)

-- With the table that Initialize_GDT leaves, and by the processor's rules for a change of level, the
-- frame of STK_Handler leads to level 0, for an interrupt whose number does not end in the bits 00; that
-- of STU_Handler, for a number that does not end in 11, asks for level 3 with a code segment that the
-- processor takes, but the processor refuses the frame, since its data segments are the kernel's; with
-- the table's data segment of level 3, selector 0x23, it would take it. For the other numbers the
-- frame stays as it was.
pub initialize_gdt-Switches :
    (bus : Bus) (address : ℕ) (s : GdtState) (log : Log)
    → length s.gdt ≡ 6
    → Returns (λ (g, log'). Switches bus (map decode g.gdt)) (initialize_gdt address s log)
unfolding call stk stu accepts accepts_code accepts_stack accepts_data is_code is_writable_data
    descriptor_level access_byte
initialize_gdt-Switches bus address s log six =
    Returns-mono (initialize_gdt-Initialized address s log six)
      λ (g, log') (table, limit, base, logged). rw table (record {
        to_kernel = λ c t ne. ground (arith, bit_and_mask 2 c.int_no);
        to_user = λ c t ne. ground (arith, bit_and_mask 2 c.int_no);
        stays = λ c t. (
          λ e. ground (arith, bit_and_mask 2 c.int_no),
          λ e. ground (arith, bit_and_mask 2 c.int_no),
        );
      })
