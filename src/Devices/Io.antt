-- ===== src/Devices/Io.antt =====
-- arch/arm/kernel/io.c: memory-mapped input and output. Memory is a byte for each address, and a
-- word is stored with its low byte first, as the kernel's ARM does. The barriers order accesses of
-- one processor and change no byte.
use timix_next.Prelude.{
  ℕ, ◌+◌, ◌*◌, ◌/◌, ◌%◌, ◌^◌, ◌<◌, ◌≤◌, ◌≡◌, ◌⊎◌, inl, refl, ◌∙◌, arith, Ptr, update,
}

abbrev pub Bytes : Type 0
Bytes = Ptr → ℕ

-- `uint8_t`, `uint16_t` and `uint32_t` values are below 2 ^ 8, 2 ^ 16 and 2 ^ 32.
unfoldable pub write8 : Ptr → ℕ → Bytes → Bytes
write8 addr val m = update m addr (val % 256)

unfoldable pub write16 : Ptr → ℕ → Bytes → Bytes
write16 addr val m = update (update m addr (val % 256)) (addr + 1) (val / 256 % 256)

unfoldable pub write32 : Ptr → ℕ → Bytes → Bytes
unfolding write16
write32 addr val m = write16 (addr + 2) (val / 65536) (write16 addr (val % 65536) m)

unfoldable pub read8 : Ptr → Bytes → ℕ
read8 addr m = m addr

unfoldable pub read16 : Ptr → Bytes → ℕ
read16 addr m = m addr + 256 * m (addr + 1)

unfoldable pub read32 : Ptr → Bytes → ℕ
unfolding read16
read32 addr m = read16 addr m + 65536 * read16 (addr + 2) m

write16-outside :
    (addr val a : ℕ) (m : Bytes) → (a < addr) ⊎ (addr + 2 ≤ a) → write16 addr val m a ≡ m a
unfolding write16 update
write16-outside addr val a m out = ground (arith, out)

read16-write16 : (addr val : ℕ) (m : Bytes) → val < 65536 → read16 addr (write16 addr val m) ≡ val
unfolding read16 write16 update
read16-write16 addr val m h = ground (arith, h)

read16-write16_outside :
    (addr p val : ℕ) (m : Bytes)
    → (addr + 2 ≤ p) ⊎ (p + 2 ≤ addr)
    → read16 addr (write16 p val m) ≡ read16 addr m
unfolding read16
read16-write16_outside addr p val m apart =
    rw
      (
        write16-outside p val addr m (omega (arith, apart)),
        write16-outside p val (addr + 1) m (omega (arith, apart)),
      )
      refl

-- `__read32` of a word that `__write32` stored gives it back, and the four bytes are the only ones
-- that change.
pub read32-write32 :
    (addr val : ℕ) (m : Bytes)
    → val < 2 ^ 32
    → (read32 addr (write32 addr val m) ≡ val)
      × ((a : Ptr) → (a < addr) ⊎ (addr + 4 ≤ a) → write32 addr val m a ≡ m a)
unfolding read32 write32
read32-write32 addr val m h = (
  rw
      (
        read16-write16_outside addr (addr + 2) (val / 65536) (write16 addr (val % 65536) m)
            (inl (omega arith)),
        read16-write16 addr (val % 65536) m (omega arith),
        read16-write16 (addr + 2) (val / 65536) (write16 addr (val % 65536) m) (omega (arith, h)),
      )
      (omega arith),
  λ a out.
      write16-outside (addr + 2) (val / 65536) a (write16 addr (val % 65536) m) (omega (arith, out))
      ∙ write16-outside addr (val % 65536) a m (omega (arith, out)),
)
