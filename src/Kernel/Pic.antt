-- ===== src/Kernel/Pic.antt =====
-- kernel/x86/isa/8259.c: the interrupt controllers. Each function is over the log of the bus.
pub mod Laws
pub mod Programmed
use free_micro_nix.Base.{
  ℕ, ◌+◌, ◌-◌, ◌^◌, bit_and, bit_or, ltb, leb, if◌then◌else◌, u8, u16, u32, ◌<<◌,
}
use free_micro_nix.Kernel.Port.{Bus, Log, outb, inb, io_wait, say}

abbrev pub pic_master_command : ℕ
pic_master_command = 0x20

abbrev pub pic_master_data : ℕ
pic_master_data = 0x21

abbrev pub pic_slave_command : ℕ
pic_slave_command = 0xA0

abbrev pub pic_slave_data : ℕ
pic_slave_data = 0xA1

abbrev pub pic_cmd_endintr : ℕ
pic_cmd_endintr = 0x20

abbrev pub pic_read_irr : ℕ
pic_read_irr = 0x0A

abbrev pub pic_read_isr : ℕ
pic_read_isr = 0x0B

abbrev pub pic_ack_specific : ℕ
pic_ack_specific = 0x60

abbrev pub icw1_init : ℕ
icw1_init = 0x10

abbrev pub icw1_icw4 : ℕ
icw1_icw4 = 0x01

abbrev pub icw4_8086 : ℕ
icw4_8086 = 0x01

-- `~x` of a 32-bit word.
abbrev pub complement : ℕ → ℕ
complement x = 2 ^ 32 - 1 - x

module _ (bus : Bus) where
  unfoldable pub initialize_8259_pic : ℕ → ℕ → Log → Log
  initialize_8259_pic master_base slave_base log =
      let (master_mask, log) = inb bus pic_master_data log in
      let (slave_mask, log) = inb bus pic_slave_data log in
      let log = io_wait (outb pic_master_command (icw1_init + icw1_icw4) log) in
      let log = io_wait (outb pic_slave_command (icw1_init + icw1_icw4) log) in
      let log = io_wait (outb pic_master_data master_base log) in
      let log = io_wait (outb pic_slave_data slave_base log) in
      let log = io_wait (outb pic_master_data 0x04 log) in
      let log = io_wait (outb pic_slave_data 0x02 log) in
      let log = io_wait (outb pic_master_data icw4_8086 log) in
      let log = io_wait (outb pic_slave_data icw4_8086 log) in
      let log = outb pic_master_data master_mask log in
      let log = outb pic_slave_data slave_mask log in
      say "8259 PIC Successfully Initilialized\n" log

  -- The arguments of `outb` are the port and the value, in this order; the code passes the new mask
  -- first.
  unfoldable pub enable_line : ℕ → ℕ → Log → Log
  enable_line data_port irq log =
      let (mask, log) = inb bus data_port log in
      outb (u8 (bit_and mask (complement (u32 (1 << irq))))) data_port log

  unfoldable pub enable_8259_pic : ℕ → Log → Log
  unfolding enable_line
  enable_8259_pic irq log =
      if ltb irq 8
      then enable_line pic_master_data irq log
      else enable_line pic_master_data 2 (enable_line pic_slave_data (irq - 8) log)

  unfoldable pub disable_line : ℕ → ℕ → Log → Log
  disable_line data_port irq log =
      let (mask, log) = inb bus data_port log in
      outb (u8 (bit_or mask (u32 (1 << irq)))) data_port log

  unfoldable pub disable_8259_pic : ℕ → Log → Log
  unfolding disable_line
  disable_8259_pic irq log =
      if ltb irq 8
      then disable_line pic_master_data irq log
      else disable_line pic_slave_data (irq - 8) log

  -- The two reads are taken from left to right.
  unfoldable pub pic_read : ℕ → Log → ℕ × Log
  pic_read command log =
      let log = outb pic_master_command command log in
      let log = outb pic_slave_command command log in
      let (low, log) = inb bus pic_master_command log in
      let (high, log) = inb bus pic_slave_command log in (u16 (bit_or (low << 0) (high << 8)), log)

  unfoldable pub pic_read_irr_register : Log → ℕ × Log
  unfolding pic_read
  pic_read_irr_register = pic_read pic_read_irr

  unfoldable pub pic_read_isr_register : Log → ℕ × Log
  unfolding pic_read
  pic_read_isr_register = pic_read pic_read_isr

unfoldable pub acknowledge_8259_pic : ℕ → Log → Log
acknowledge_8259_pic irq log =
    if leb 8 irq
    then outb (pic_ack_specific + 2) pic_master_command
        (outb (pic_ack_specific + (irq - 8)) pic_slave_command log)
    else outb (pic_ack_specific + irq) pic_master_command log

unfoldable pub pic_eoi_master : Log → Log
pic_eoi_master = outb pic_master_command pic_cmd_endintr

unfoldable pub pic_eoi_slave : Log → Log
pic_eoi_slave = outb pic_slave_command pic_cmd_endintr
