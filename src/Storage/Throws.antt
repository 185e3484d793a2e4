-- ===== src/Storage/Throws.antt =====
-- When a write throws.
use red_o_lator.Base.{
  ℕ, ◌+◌, ◌^◌, ◌<◌, ◌≡◌, arith, refl, Bool, true, false, not, ◌||◌, ltb, u32, u64,
}
use red_o_lator.Storage.{
  Storage, Written, write_data8, write_data16, write_data32, then_write, validate_addr_safe,
}

-- The address is outside a storage of that size.
outside : ℕ → ℕ → Bool
outside size cell = not (ltb cell size)

-- What a write to a storage of that size does to the size, and whether it throws.
Writes : ℕ → Bool → Written → Type 0
Writes size thrown w = (w.storage.size ≡ size) × (w.thrown ≡ thrown)

write_data8-Writes :
    (s : Storage) (addr offset value cell size : ℕ)
    → u64 (addr + offset) ≡ cell
    → s.size ≡ size
    → Writes size (outside size cell) (write_data8 s addr offset value)
unfolding Writes outside write_data8 validate_addr_safe
write_data8-Writes s addr offset value cell size e z = rw (e, z) (ground arith)

then_write-Writes :
    (size : ℕ) (first : Written) (second : Storage → Written) (a b : Bool)
    → Writes size a first
    → ((t : Storage) → t.size ≡ size → Writes size b (second t))
    → Writes size (a || b) (then_write first second)
unfolding Writes then_write
then_write-Writes size first second true b h k = rw h.1 (h.0, refl)
then_write-Writes size first second false b h k = rw h.1 (k first.storage h.0)

write_data16-Writes :
    (s : Storage) (addr offset value cell size : ℕ)
    → u64 (addr + offset) ≡ cell
    → u64 (addr + u32 (offset + 1)) ≡ cell + 1
    → s.size ≡ size
    → Writes size (outside size cell || outside size (cell + 1)) (write_data16 s addr offset value)
unfolding write_data16
write_data16-Writes s addr offset value cell size e f z =
    then_write-Writes size _ _ _ _ (write_data8-Writes s addr offset _ cell size e z)
      (λ t y. write_data8-Writes t addr (u32 (offset + 1)) _ (cell + 1) size f y)

write_data32-Writes :
    (s : Storage) (addr offset value size : ℕ)
    → addr + offset + 3 < 2 ^ 64
    → offset + 3 < 2 ^ 32
    → s.size ≡ size
    → let cell = addr + offset in
      Writes size
        ((outside size cell || outside size (cell + 1))
          || (outside size (cell + 2) || outside size (cell + 2 + 1)))
        (write_data32 s addr offset value)
unfolding write_data32
write_data32-Writes s addr offset value size h k z =
    let cell = addr + offset in
    then_write-Writes size _ _ _ _
      (write_data16-Writes s addr offset _ cell size (omega arith) (omega arith) z)
      (λ t y.
        write_data16-Writes t addr (u32 (offset + 2)) _ (cell + 2) size (omega arith) (omega arith)
          y)

-- Unless the address overflows: the write of a 32-bit word throws exactly when its last byte is
-- outside the storage, and never changes the storage's size.
pub write_data32-thrown :
    (s : Storage) (addr offset value : ℕ)
    → addr + offset + 3 < 2 ^ 64
    → offset + 3 < 2 ^ 32
    → let w = write_data32 s addr offset value in
      (w.thrown ≡ not (ltb (addr + offset + 3) s.size)) × (w.storage.size ≡ s.size)
unfolding Writes outside
write_data32-thrown s addr offset value h k =
    let r = write_data32-Writes s addr offset value s.size h k refl in (ground (arith, r.1), r.0)
