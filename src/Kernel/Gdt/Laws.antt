-- ===== src/Kernel/Gdt/Laws.antt =====
-- The descriptors against the layout that the processor reads.
use free_micro_nix.Base.{
  ℕ, ◌+◌, ◌*◌, ◌/◌, ◌%◌, ◌^◌, ◌≤◌, ◌<◌, bit_and, bit_or, ◌≡◌, refl, some, List, [], ◌∷◌, ◌++◌, map,
  arith, ◌==◌, if◌then◌else◌, lt→ltb, length, get_elem?, set, length-set, get_elem?-set, Returns,
  ok, fault,
}
use free_micro_nix.Base.Bits.{bit_and_mask, bit_or_low, bit_and_high_nibble}
use free_micro_nix.Kernel.Gdt.{
  GdtEntry, descriptor, add_gdt_descriptor, GdtState, Log, lgdt, initialize_gdt,
}
use mathlib.Core.List.{append_assoc}
use free_micro_nix.Kernel.Port.{printed, ltr, lgdt, Log}

-- The fields of a descriptor, as the processor puts them together.
pub base_of : GdtEntry → ℕ
base_of e = e.base0_15 + e.base16_23 * 2 ^ 16 + e.base24_31 * 2 ^ 24

pub limit_of : GdtEntry → ℕ
limit_of e = e.limit0_15 + e.granularity % 16 * 2 ^ 16

pub flags_of : GdtEntry → ℕ
flags_of e = e.granularity / 16

granularity_byte :
    (limit granularity : ℕ)
    → granularity < 256
    → bit_or (bit_and (limit / 2 ^ 16) 0x0F % 2 ^ 8) (bit_and granularity 0xF0)
      ≡ granularity / 16 * 16 + limit / 2 ^ 16 % 16
granularity_byte limit granularity h = ground (
  arith,
  bit_and_mask 4 (limit / 2 ^ 16),
  bit_and_high_nibble granularity h,
  bit_or_low 4 (granularity / 16) (limit / 2 ^ 16 % 16),
)

-- What `Add_GDT_Descriptor` stores for a base and a limit of 32 bits and a granularity byte is
-- read back by the processor as the base, the low 20 bits of the limit, the access byte and the
-- upper four bits of the granularity byte that it was given.
pub descriptor-decode :
    (base limit access granularity : ℕ)
    → base < 2 ^ 32
    → limit < 2 ^ 32
    → granularity < 256
    → let e = descriptor base limit access granularity in
      (base_of e ≡ base)
      × (limit_of e ≡ limit % 2 ^ 20)
      × (e.access ≡ access)
      × (flags_of e ≡ granularity / 16)
unfolding descriptor base_of limit_of flags_of
descriptor-decode base limit access granularity hb hl hg =
    let split = granularity_byte limit granularity hg in
    (
      omega (
        arith,
        bit_and_mask 16 base,
        bit_and_mask 8 (base / 2 ^ 16),
        bit_and_mask 8 (base / 2 ^ 24),
      ),
      omega (arith, split, bit_and_mask 16 limit),
      refl,
      omega (arith, split),
    )

-- `Add_GDT_Descriptor` changes the entry with its number and no other, and faults where the table
-- has no such entry.
pub add_gdt_descriptor_lem :
    (num base limit access granularity : ℕ) (gdt : List GdtEntry)
    → (num < length gdt
        → Returns
            (λ gdt'.
              (length gdt' ≡ length gdt)
              × ((i : ℕ)
                  → get_elem? gdt' i ≡ (
                      if num == i
                      then some (descriptor base limit access granularity)
                      else get_elem? gdt i)))
            (add_gdt_descriptor num base limit access granularity gdt))
      × (length gdt ≤ num → add_gdt_descriptor num base limit access granularity gdt ≡ fault)
unfolding add_gdt_descriptor
add_gdt_descriptor_lem num base limit access granularity gdt = (
  λ h.
      rw (lt→ltb num (length gdt) h)
        (_, refl, (length-set gdt num _, λ i. get_elem?-set gdt num i _ h)),
  λ h. ground arith,
)

-- A descriptor as the processor reads it: base, limit, access byte and flags.
pub decode : GdtEntry → ℕ × ℕ × ℕ × ℕ
decode e = (base_of e, limit_of e, e.access, flags_of e)

-- The table of `Initialize_GDT`: a null descriptor, the flat code and data segments of rings 0 and 3,
-- and a task segment of 104 bytes.
abbrev pub segments : List (ℕ × ℕ × ℕ × ℕ)
segments =
    (0, 0, 0, 0)
    ∷ (0, 0xF_FFFF, 0x9A, 0xC)
    ∷ (0, 0xF_FFFF, 0x92, 0xC)
    ∷ (0, 0xF_FFFF, 0xFA, 0xC)
    ∷ (0, 0xF_FFFF, 0xF2, 0xC)
    ∷ (0, 103, 0xE9, 0)
    ∷ []

add_gdt_descriptor-set :
    (num base limit access granularity : ℕ) (gdt : List GdtEntry)
    → num < length gdt
    → add_gdt_descriptor num base limit access granularity gdt
      ≡ ok (set gdt num (descriptor base limit access granularity))
unfolding add_gdt_descriptor
add_gdt_descriptor-set num base limit access granularity gdt h = rw (lt→ltb num (length gdt) h)

-- What `Initialize_GDT` is to leave: the descriptors of `segments`, the table loaded with the limit 47
-- and its own address, and then the task register with 0x2B.
abbrev pub Initialized : ℕ → Log → GdtState × Log → Type 0
Initialized address log (s, log') =
    (map decode s.gdt ≡ segments)
    × (s.gp_limit ≡ 47)
    × (s.gp_base ≡ address)
    × (log'
        ≡ log
          ++ lgdt 47 address
            ∷ printed "Global Descriptor Table Initialized\n" []
            ∷ ltr 0x2B
            ∷ printed "Task State Segment Initialized\n" []
            ∷ [])

six_cases :
    (g : List GdtEntry)
    → length g ≡ 6
    → (a : GdtEntry) × (b : GdtEntry) × (c : GdtEntry) × (d : GdtEntry) × (e : GdtEntry)
      × (f : GdtEntry) × (g ≡ a ∷ b ∷ c ∷ d ∷ e ∷ f ∷ [])
six_cases (a ∷ b ∷ c ∷ d ∷ e ∷ f ∷ []) h = (a, b, c, d, e, f, refl)
six_cases _ h = absurd (omega arith)

-- On a table of six entries `Initialize_GDT` ends with the descriptors of `segments`, in which
-- the task segment has base 0, with the table loaded with the limit 47 and its own address, and
-- then the task register with 0x2B.
pub initialize_gdt-Initialized :
    (address : ℕ) (s : GdtState) (log : Log)
    → length s.gdt ≡ 6
    → Returns (Initialized address log) (initialize_gdt address s log)
unfolding initialize_gdt decode descriptor base_of limit_of flags_of
initialize_gdt-Initialized address s log h =
    let (a, b, c, d, e, f, q) = six_cases s.gdt h in
    rw q ((_, refl, (refl, refl, refl, simp append_assoc)))
