-- ===== src/Kernel/Multiboot.antt =====
-- kernel/include/x86/multiboot.h: what the boot loader tells the kernel.
use free_micro_nix.Base.{ℕ}

abbrev pub multiboot_bootloader_magic : ℕ
multiboot_bootloader_magic = 0x2BADB002

pub record MultibootAoutSymbolTable : Type 0 where
  pub tabsize : ℕ
  pub strsize : ℕ
  pub addr : ℕ
  pub reserved : ℕ

pub record MultibootElfSectionHeaderTable : Type 0 where
  pub num : ℕ
  pub size : ℕ
  pub addr : ℕ
  pub shndx : ℕ

-- The union `u`
pub data Symbols : Type 0 where
  aout_sym : MultibootAoutSymbolTable → Symbols
  elf_sec : MultibootElfSectionHeaderTable → Symbols

pub record MultibootInfo : Type 0 where
  pub flags : ℕ
  pub mem_lower : ℕ
  pub mem_upper : ℕ
  pub boot_device : ℕ
  pub cmdline : ℕ
  pub mods_count : ℕ
  pub mods_addr : ℕ
  pub u : Symbols
  pub mmap_length : ℕ
  pub mmap_addr : ℕ
  pub drives_length : ℕ
  pub drives_addr : ℕ
  pub config_table : ℕ
  pub boot_loader_name : ℕ
  pub apm_table : ℕ
  pub vbe_control_info : ℕ
  pub vbe_mode_info : ℕ
  pub vbe_mode : ℕ
  pub vbe_interface_seg : ℕ
  pub vbe_interface_off : ℕ
  pub vbe_interface_len : ℕ
