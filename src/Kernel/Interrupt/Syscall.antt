-- ===== src/Kernel/Interrupt/Syscall.antt =====
-- What becomes of the system calls that Install_Syscall_Handler installs.
use free_micro_nix.Base.{ℕ, ◌≤◌, ◌≡◌, refl, ◌≢◌, some, arith, Returns}
use free_micro_nix.Kernel.Port.{Bus}
use free_micro_nix.Kernel.Interrupt.{
  Context, stu_handler, stk_handler, System, back, install_interrupt_handler,
  install_syscall_handler, interrupt_handler,
}

-- Install_Syscall_Handler puts the two mode switches at the vectors 120 and 121 and keeps every other
-- routine; but behind it Interrupt_Handler returns at once for every vector from 48 on, so a system call by
-- either leaves the context and the system as they were.
pub install_syscall_handler-unserved :
    (bus : Bus) (msgs : ℕ → ℕ) (s : System)
    → Returns
        (λ t.
          (t.routines 120 ≡ some stu_handler)
          × (t.routines 121 ≡ some stk_handler)
          × ((i : ℕ) → i ≢ 120 → i ≢ 121 → t.routines i ≡ s.routines i)
          × ((c : Context) → 48 ≤ c.int_no → interrupt_handler bus msgs c t ≡ back c t))
        (install_syscall_handler s)
unfolding install_syscall_handler install_interrupt_handler interrupt_handler
install_syscall_handler-unserved bus msgs s =
    (_, refl, (refl, refl, λ i n1 n2. ground arith, λ c call. ground arith))
