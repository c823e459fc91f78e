-- ===== src/Door/Errno.antt =====
-- The error numbers of the system's errno.h that the module returns; 0 is success.
use illumos_fuse.Prelude.{ℕ}

abbrev pub eperm : ℕ
eperm = 1

abbrev pub enoent : ℕ
enoent = 2

abbrev pub eintr : ℕ
eintr = 4

abbrev pub eio : ℕ
eio = 5

abbrev pub ebadf : ℕ
ebadf = 9

abbrev pub eacces : ℕ
eacces = 13

abbrev pub efault : ℕ
efault = 14

abbrev pub enotdir : ℕ
enotdir = 20

abbrev pub eisdir : ℕ
eisdir = 21

abbrev pub einval : ℕ
einval = 22

abbrev pub enametoolong : ℕ
enametoolong = 78

abbrev pub enosys : ℕ
enosys = 89

abbrev pub estale : ℕ
estale = 151

abbrev pub efbig : ℕ
efbig = 27

abbrev pub esrch : ℕ
esrch = 3
