-- ===== src/Prelude/Errors.antt =====
-- Error codes as the C code returns them: 0 for success, and the values of Linux's errno.h.
use Prim.Native.Nat.{ℕ}

abbrev pub enoent : ℕ
enoent = 2

abbrev pub enomem : ℕ
enomem = 12

abbrev pub einval : ℕ
einval = 22

abbrev pub enosys : ℕ
enosys = 38

abbrev pub eproto : ℕ
eproto = 71

abbrev pub ebadmsg : ℕ
ebadmsg = 74

abbrev pub ealready : ℕ
ealready = 114
