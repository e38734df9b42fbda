-- ===== src/Vm/Mode.antt =====
-- The access modes, `Mode` of Core/Kernel/Includes/Vm/Types.h, as the numbers that their bits make.
use kush_os_rewrite.Base.{ℕ}

abbrev pub kernel_read : ℕ
kernel_read = 0x1

abbrev pub kernel_exec : ℕ
kernel_exec = 0x4

abbrev pub kernel_rw : ℕ
kernel_rw = 0x3

abbrev pub user_read : ℕ
user_read = 0x100

abbrev pub user_exec : ℕ
user_exec = 0x400

abbrev pub user_rw : ℕ
user_rw = 0x300

abbrev pub user_mask : ℕ
user_mask = 0x700

abbrev pub write : ℕ
write = 0x202

abbrev pub execute : ℕ
execute = 0x404
