-- ===== src/KernelImage.antt =====
-- Where the image of the kernel lies, of src/lib.rs. The linker gives the addresses of its begin and its
-- end, and the boot loader its virtual and its physical base, if it answers.
use os_test.Prelude.{ℕ, Option}
use os_test.Prelude.Outcome.{Outcome, done, ◌>>=◌, unwrap, add64, sub64}
use os_test.Memory.Addr.{PhyAddr, VirtAddr}

module _ (kern_begin kern_end : ℕ) (response : Option (VirtAddr × PhyAddr)) where
  unfoldable pub kernel_size : Outcome ℕ
  kernel_size = sub64 kern_end kern_begin

  pub kernel_virt_begin : Outcome VirtAddr
  kernel_virt_begin = do (virtual_base, _) ← unwrap response; done virtual_base

  unfoldable pub kernel_virt_end : Outcome VirtAddr
  unfolding kernel_virt_begin kernel_size
  kernel_virt_end = do start ← kernel_virt_begin; size ← kernel_size; add64 start size

  unfoldable pub kernel_phy_begin : Outcome PhyAddr
  kernel_phy_begin = do (_, physical_base) ← unwrap response; done physical_base
