-- ===== src/Devices/Malloc.antt =====
-- kernel/malloc.c: every function fails its assertion. What stands behind the assertion is kept.
use timix_next.Prelude.{ℕ, Ptr, null, false}
use timix_next.Prelude.Run.{Run, done, ◌>>◌, assert}

unfoldable pub malloc : (bytes : ℕ) → Run Ptr
unfolding assert
malloc bytes = assert false >> done null

unfoldable pub calloc : (num size : ℕ) → Run Ptr
unfolding assert
calloc num size = assert false >> done null

unfoldable pub realloc : (ptr : Ptr) → (size : ℕ) → Run Ptr
unfolding assert
realloc ptr size = assert false >> done null

unfoldable pub memalign : (align size : ℕ) → Run Ptr
unfolding assert
memalign align size = assert false >> done null

unfoldable pub free : (ptr : Ptr) → Run (Unit {0})
unfolding assert
free ptr = assert false >> done tt
