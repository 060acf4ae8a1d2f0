-- ===== src/Kernel/Gdt.antt =====
-- kernel/x86/gdt/gdt.c and kernel/include/x86/gdt.h.
pub mod Laws
use free_micro_nix.Base.{
  ℕ, ◌-◌, ◌*◌, bit_and, bit_or, List, ltb, if◌then◌else◌, length, set, Run, ok, fault, u8, u16,
  ◌>>◌, ◌>>=◌,
}
use free_micro_nix.Kernel.Port.{Log, lgdt, ltr, record_event, say}

pub record GdtEntry : Type 0 where
  pub limit0_15 : ℕ
  pub base0_15 : ℕ
  pub base16_23 : ℕ
  pub access : ℕ
  pub granularity : ℕ
  pub base24_31 : ℕ

pub record TssEntry : Type 0 where
  pub prev_tss : ℕ
  pub esp0 : ℕ
  pub ss0 : ℕ
  pub esp1 : ℕ
  pub ss1 : ℕ
  pub esp2 : ℕ
  pub ss2 : ℕ
  pub cr3 : ℕ
  pub eip : ℕ
  pub eflags : ℕ
  pub eax : ℕ
  pub ecx : ℕ
  pub edx : ℕ
  pub ebx : ℕ
  pub esp : ℕ
  pub ebp : ℕ
  pub esi : ℕ
  pub edi : ℕ
  pub es : ℕ
  pub cs : ℕ
  pub ss : ℕ
  pub ds : ℕ
  pub fs : ℕ
  pub gs : ℕ
  pub ldt : ℕ
  pub trap : ℕ
  pub iomap_base : ℕ

abbrev pub gdt_size : ℕ
gdt_size = 6

-- The globals `gdt`, `gp` and `tss_entry`.
pub record GdtState : Type 0 where
  pub gdt : List GdtEntry
  pub gp_limit : ℕ
  pub gp_base : ℕ
  pub tss_entry : TssEntry

unfoldable pub tss_setup : TssEntry → TssEntry
tss_setup t = record {
  prev_tss = 0;
  esp0 = 0;
  ss0 = 0x10;
  esp1 = 0;
  ss1 = 0;
  esp2 = 0;
  ss2 = 0;
  cr3 = 0;
  eip = 0;
  eflags = 0;
  eax = 0;
  ecx = 0;
  edx = 0;
  ebx = 3;
  esp = 0;
  ebp = 0;
  esi = 0;
  edi = 0;
  es = 0x13;
  cs = 0x0B;
  ss = 0;
  ds = 0x13;
  fs = 0x13;
  gs = 0x13;
  ldt = 0;
  trap = 0;
  iomap_base = 0;
}

unfoldable pub tss_set_kernel_stack : ℕ → TssEntry → TssEntry
tss_set_kernel_stack stack t = record t { esp0 = stack }

-- The descriptor that Add_GDT_Descriptor stores; the casts are those of the field types.
unfoldable pub descriptor : ℕ → ℕ → ℕ → ℕ → GdtEntry
descriptor base limit access granularity = record {
  limit0_15 = u16 (bit_and limit 0xFFFF);
  base0_15 = u16 (bit_and base 0xFFFF);
  base16_23 = u8 (bit_and (base >> 16) 0xFF);
  access = access;
  granularity = u8 (bit_or (u8 (bit_and (limit >> 16) 0x0F)) (bit_and granularity 0xF0));
  base24_31 = u8 (bit_and (base >> 24) 0xFF);
}

-- `num` is an `int32_t` by its bit pattern; an index outside the table is a fault.
unfoldable pub add_gdt_descriptor : ℕ → ℕ → ℕ → ℕ → ℕ → List GdtEntry → Run (List GdtEntry)
unfolding descriptor
add_gdt_descriptor num base limit access granularity gdt =
    if ltb num (length gdt)
    then ok (set gdt num (descriptor base limit access granularity))
    else fault

abbrev pub sizeof_gdt_entry : ℕ
sizeof_gdt_entry = 8

abbrev pub sizeof_tss_entry : ℕ
sizeof_tss_entry = 104

-- `gdt_address` is where the linker puts `gdt`. gdt_loader and tss_loader execute `lgdt [gp]` and
-- `ltr` with the selector 0x2B.
unfoldable pub initialize_gdt : ℕ → GdtState → Log → Run (GdtState × Log)
unfolding add_gdt_descriptor tss_setup
initialize_gdt gdt_address s log = do
  gdt ← add_gdt_descriptor 0 0x0 0x0 0x0 0x0 s.gdt
  gdt ← add_gdt_descriptor 1 0x0 0xFFFF_FFFF 0x9A 0xCF gdt
  gdt ← add_gdt_descriptor 2 0x0 0xFFFF_FFFF 0x92 0xCF gdt
  gdt ← add_gdt_descriptor 3 0x0 0xFFFF_FFFF 0xFA 0xCF gdt
  gdt ← add_gdt_descriptor 4 0x0 0xFFFF_FFFF 0xF2 0xCF gdt
  gdt ← add_gdt_descriptor 5 0x0 (sizeof_tss_entry - 1) 0xE9 0x0 gdt
  let gp_limit = u16 (sizeof_gdt_entry * gdt_size - 1)
  let log = record_event (lgdt gp_limit gdt_address) log
  let log = say "Global Descriptor Table Initialized\n" log
  let log = record_event (ltr 0x2B) log
  let log = say "Task State Segment Initialized\n" log
  ok (
    record {
      gdt = gdt;
      gp_limit = gp_limit;
      gp_base = gdt_address;
      tss_entry = tss_setup s.tss_entry;
    },
    log,
  )
