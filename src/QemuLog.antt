-- ===== src/QemuLog.antt =====
-- src/qemu_log.rs: the log on a port of the emulator.
use os_test.Prelude.{ℕ, List, [], ◌∷◌, ltb, if◌then◌else◌}

abbrev pub qemu_port : ℕ
qemu_port = 0xe9

-- `write_u8` is the instruction that writes a byte to a port.
module _ {S : Type 0} (write_u8 : (port val : ℕ) → S → S) where
  pub qemu_write : ℕ → S → S
  qemu_write c s = write_u8 qemu_port c s

  -- `write_str` on the characters of a string; those that are not ASCII are left out.
  unfoldable pub write_str : List ℕ → S → S
  unfolding qemu_write
  write_str [] s = s
  write_str (char ∷ chars) s = write_str chars (if ltb char 128 then qemu_write char s else s)
