-- ===== src/Executor/Pointer.antt =====
-- A pointer argument, written to the storage and read back.
use red_o_lator.Base.{
  ℕ, suc, ◌+◌, ◌-◌, ◌^◌, ◌<◌, ◌≤◌, ◌≡◌, ◌∙◌, refl, sym, arith, true, false, List, [], ◌∷◌, some,
  u32, u64, length, get_elem?, get_or, ok,
}
use red_o_lator.Storage.{Storage, read_data, read_rounds, write_data64}
use red_o_lator.Storage.Bytes.{IsSized, written, read_rounds_step}
use red_o_lator.Executor.{
  KernelArgumentStore, pointer, stored, read_8_bytes, write_arg, write_arg_bytes, write_bytes,
  read_args,
}
use red_o_lator.Executor.Quads.{slot_same, write_data64-Quad}
use red_o_lator.Executor.Scalar.{bytes-Copied}

-- Rounds over bytes that are known.
rounds_of :
    (bytes : List ℕ) (cell : ℕ) (s : Storage)
    → cell + length bytes ≤ s.size
    → ((j : ℕ) → j < length bytes → get_elem? s.data_ (cell + j) ≡ some (get_or bytes j 0))
    → read_rounds s false (length bytes) cell ≡ ok bytes
unfolding read_rounds
rounds_of [] cell s room at = refl
rounds_of (x ∷ bytes) cell s room at =
    let here : cell + 0 ≡ cell = omega arith in
    read_rounds_step s false (length bytes) cell x bytes (omega arith)
      (rw here at (at 0 (omega arith)))
      (rounds_of bytes (cell + 1) s (omega arith) (λ j h.
        let e : cell + suc j ≡ cell + 1 + j = omega arith in rw e at (at (suc j) (omega arith))))

rounds_all :
    (bytes : List ℕ) (n cell : ℕ) (s : Storage)
    → length bytes ≡ n
    → cell + n ≤ s.size
    → ((j : ℕ) → j < n → get_elem? s.data_ (cell + j) ≡ some (get_or bytes (0 + j) 0))
    → read_rounds s false n cell ≡ ok bytes
rounds_all bytes n cell s whole room at = rw (sym whole) (
    rounds_of bytes cell s (omega arith)
      (λ j h. let e : 0 + j ≡ j = omega arith in rw e at (at j (omega arith))))

-- The parts of the write, and of the read.
wrote_pointer :
    (arg : KernelArgumentStore) (bytes : List ℕ) (addr offset end : ℕ) (s s1 s2 : Storage)
    → arg.kind ≡ pointer
    → arg.bytes ≡ some bytes
    → arg.read_permission ≡ true
    → u64 (addr + offset) ≡ addr + offset
    → u64 (addr + 8) ≡ addr + 8
    → write_data64 s addr 0 (addr + offset) ≡ written s1
    → write_bytes bytes 0 arg.size addr offset s1 ≡ ok (s2, end)
    → write_arg arg addr offset s ≡ ok (s2, addr + 8, end)
unfolding write_arg write_arg_bytes stored
wrote_pointer arg bytes addr offset end s s1 s2 is_pointer given readable here next wrote ran =
    rw (given, is_pointer, here, wrote, readable, ran, next) refl

pointer_read :
    (arg : KernelArgumentStore) (bytes : List ℕ) (addr place : ℕ) (s : Storage)
    → arg.kind ≡ pointer
    → arg.bytes ≡ some bytes
    → arg.write_permission ≡ true
    → read_8_bytes s addr ≡ ok place
    → read_data s place 0 (u32 arg.size) false ≡ ok bytes
    → read_args s addr arg ≡ ok (record arg { output = some bytes })
unfolding read_args
pointer_read arg bytes addr place s is_pointer given writable slot values =
    rw (given, is_pointer, writable, slot, values) cc

-- For a pointer argument that may be read and written, with as many bytes of data as its size, a slot at
-- `addr` and a place for values at `addr + offset` behind the slot, both inside a sized storage: `write_arg`
-- returns, advances `addr` by 8 and the offset by the size; and `read_args` at the slot then returns the
-- argument with the same bytes as its output.
pub read_args-write_arg :
    (arg : KernelArgumentStore) (bytes : List ℕ) (addr offset : ℕ) (s : Storage)
    → arg.kind ≡ pointer
    → arg.bytes ≡ some bytes
    → arg.read_permission ≡ true
    → arg.write_permission ≡ true
    → length bytes ≡ arg.size
    → ((j : ℕ) → j < length bytes → get_or bytes j 0 < 2 ^ 8)
    → IsSized s
    → 8 ≤ offset
    → addr + offset + arg.size ≤ s.size
    → s.size < 2 ^ 64
    → offset + arg.size < 2 ^ 32
    → (s' : Storage) × (write_arg arg addr offset s ≡ ok (s', addr + 8, offset + arg.size))
      × (read_args s' addr arg ≡ ok (record arg { output = some bytes }))
unfolding read_data
read_args-write_arg arg bytes addr offset s is_pointer given readable writable whole small sized
      behind room few low =
    let place = addr + offset in
    let here : u64 (addr + offset) ≡ addr + offset = omega arith in
    let next : u64 (addr + 8) ≡ addr + 8 = omega arith in
    let q = write_data64-Quad s addr 0 place sized (omega arith) few (omega arith) (omega arith) in
    let after = q.after in
    let size : after.size ≡ s.size = q.same_size in
    let (s', ran, (sized', size', copied, others)) =
      bytes-Copied bytes arg.size 0 addr offset after q.sized (omega arith) small (rw size room)
        (rw size few) low in
    let origin : addr + 0 ≡ addr = omega arith in
    let held : read_8_bytes after addr ≡ ok place = rw origin at q.read in
    let slot : read_8_bytes s' addr ≡ ok place =
      slot_same after s' addr size' (omega arith)
        (λ j h. others (addr + j) (λ i p e. absurd (omega arith)))
      ∙ held in
    let start : u64 (place + 0) ≡ place = omega arith in
    let count : u64 (place + u32 arg.size) - place ≡ arg.size = omega arith in
    let total : place + arg.size ≤ s'.size = rw (size', size) room in
    let values = rounds_all bytes arg.size place s' whole total copied in
    let data_read : read_data s' place 0 (u32 arg.size) false ≡ ok bytes =
      rw (start, count) values in
    (
      s',
      wrote_pointer arg bytes addr offset (offset + arg.size) s after s' is_pointer given readable
          here next q.wrote ran,
      pointer_read arg bytes addr place s' is_pointer given writable slot data_read,
    )
