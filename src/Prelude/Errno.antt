-- ===== src/Prelude/Errno.antt =====
-- include/timix/error.h: the error numbers, and those that the modelled code returns, negated.
use Prim.Native.Nat.{ℕ}
use timix_next.Prelude.Int.{ℤ, negsuc}

pub data Errno : Type 0 where
  eperm : Errno
  enoent : Errno
  esrch : Errno
  eintr : Errno
  eio : Errno
  enxio : Errno
  e2big : Errno
  enoexec : Errno
  ebadf : Errno
  echild : Errno
  eagain : Errno
  enomem : Errno
  eacces : Errno
  efault : Errno
  enotblk : Errno
  ebusy : Errno
  eexist : Errno
  exdev : Errno
  enodev : Errno
  enotdir : Errno
  eisdir : Errno
  einval : Errno
  enfile : Errno
  emfile : Errno
  enotty : Errno
  etxtbsy : Errno
  efbig : Errno
  enospc : Errno
  espipe : Errno
  erofs : Errno
  emlink : Errno
  epipe : Errno
  edom : Errno
  erange : Errno
  edeadlk : Errno
  enametoolong : Errno
  enolck : Errno
  enosys : Errno
  enotempty : Errno

unfoldable pub number : Errno → ℕ
number eperm = 1
number enoent = 2
number esrch = 3
number eintr = 4
number eio = 5
number enxio = 6
number e2big = 7
number enoexec = 8
number ebadf = 9
number echild = 10
number eagain = 11
number enomem = 12
number eacces = 13
number efault = 14
number enotblk = 15
number ebusy = 16
number eexist = 17
number exdev = 18
number enodev = 19
number enotdir = 20
number eisdir = 21
number einval = 22
number enfile = 23
number emfile = 24
number enotty = 25
number etxtbsy = 26
number efbig = 27
number enospc = 28
number espipe = 29
number erofs = 30
number emlink = 31
number epipe = 32
number edom = 33
number erange = 34
number edeadlk = 35
number enametoolong = 36
number enolck = 37
number enosys = 38
number enotempty = 39

abbrev pub minus_esrch : ℤ
minus_esrch = negsuc 2

abbrev pub minus_eintr : ℤ
minus_eintr = negsuc 3

abbrev pub minus_enomem : ℤ
minus_enomem = negsuc 11

abbrev pub minus_einval : ℤ
minus_einval = negsuc 21
