-- ===== src/Stubs/Refusal.antt =====
-- The stubs that refuse or have nothing to do: close.c, execve.c, fork.c, fstat.c, getpid.c, isatty.c,
-- kill.c, link.c, lseek.c, open.c, stat.c, unlink.c, wait.c, clock_settime.c.
pub mod Descriptor
use rep_vgg_acc.Base.{ℕ, Bool, ◌||◌, not, minus_one, ◌==◌, if◌then◌else◌}
use rep_vgg_acc.Machine.{Prog, done}

-- The codes of errno.h and S_IFCHR, which newlib defines.
pub record Codes : Type 0 where
  pub ebadf : ℕ
  pub enomem : ℕ
  pub eagain : ℕ
  pub einval : ℕ
  pub emlink : ℕ
  pub enosys : ℕ
  pub echild : ℕ
  pub s_ifchr : ℕ

-- The state is `errno`. The names, arguments and addresses that the stubs do not use are left out.
abbrev refuse : ℕ → Prog ℕ ℕ
refuse code errno = done (minus_one, code)

module _ (codes : Codes) where
  pub stub_close : ℕ → Prog ℕ ℕ
  stub_close fd = refuse codes.ebadf

  pub stub_execve : Prog ℕ ℕ
  stub_execve = refuse codes.enomem

  pub stub_fork : Prog ℕ ℕ
  stub_fork = refuse codes.eagain

  -- The `st_mode` after the call stands beside the result.
  pub stub_fstat : ℕ → ℕ → Prog ℕ (ℕ × ℕ)
  stub_fstat file st_mode errno =
      if 1 == file || 2 == file
      then done ((0, codes.s_ifchr), errno)
      else done ((minus_one, st_mode), codes.ebadf)

  pub stub_kill : Prog ℕ ℕ
  stub_kill = refuse codes.einval

  pub stub_link : Prog ℕ ℕ
  stub_link = refuse codes.emlink

  pub stub_open : Prog ℕ ℕ
  stub_open = refuse codes.enosys

  pub stub_stat : Prog ℕ (ℕ × ℕ)
  stub_stat errno = done ((0, codes.s_ifchr), errno)

  pub stub_wait : Prog ℕ ℕ
  stub_wait = refuse codes.echild

pub stub_getpid : Prog ℕ ℕ
stub_getpid errno = done (1, errno)

pub stub_isatty : ℕ → Prog ℕ ℕ
stub_isatty fd errno = done (1, errno)

pub stub_lseek : Prog ℕ ℕ
stub_lseek errno = done (0, errno)

-- These two return -1 and leave `errno` as it was.
pub stub_unlink : Prog ℕ ℕ
stub_unlink errno = done (minus_one, errno)

pub clock_settime : Prog ℕ ℕ
clock_settime errno = done (minus_one, errno)
