-- ===== src/Executor/Scalar.antt =====
-- A scalar argument: its bytes are stored, its slot is not.
use red_o_lator.Base.{
  ℕ, zero, suc, ◌+◌, ◌^◌, ◌≤◌, ◌<◌, ◌≡◌, ◌≢◌, ◌∙◌, refl, arith, ap, List, ◌∷◌, ◌>>=◌, some, u8, u32,
  u64, length, get_elem?, get_or, get_elem?-get_or, ok,
}
use native.Mathlib.Nat.{mod-eq_of_lt}
use red_o_lator.Storage.{Storage, write_data8}
use red_o_lator.Storage.Bytes.{
  IsSized, put, put-IsSized, write_data8_lem, written, get_put_self, get_put_ne,
}
use red_o_lator.Executor.Quads.{slot_same}
use red_o_lator.Executor.{
  read_8_bytes, write_args, KernelArgumentStore, scalar, stored, write_bytes, write_arg_bytes,
  write_arg,
}

-- The storage s' holds `bytes` from index i on at the n cells from `cell` on, and else is s.
abbrev pub Copied : Storage → List ℕ → ℕ → ℕ → ℕ → Storage → Type 0
Copied s bytes i n cell s' =
    IsSized s'
    × (s'.size ≡ s.size)
    × ((j : ℕ) → j < n → get_elem? s'.data_ (cell + j) ≡ some (get_or bytes (i + j) 0))
    × ((c : ℕ) → ((j : ℕ) → j < n → c ≢ cell + j) → get_elem? s'.data_ c ≡ get_elem? s.data_ c)

put-size_eq : (s : Storage) (cell v : ℕ) → (put s cell v).size ≡ s.size
unfolding put
put-size_eq s cell v = refl

-- One byte more, in front.
Copied-cons :
    (s : Storage) (bytes : List ℕ) (i n cell : ℕ) (s' : Storage)
    → IsSized s
    → cell < s.size
    → Copied (put s cell (get_or bytes i 0)) bytes (i + 1) n (cell + 1) s'
    → Copied s bytes i (suc n) cell s'
Copied-cons s bytes i n cell s' sized inside (sized', size, copied, others) =
    (sized', size ∙ put-size_eq s cell (get_or bytes i 0), at, rest)
  where
    at : (j : ℕ) → j < suc n → get_elem? s'.data_ (cell + j) ≡ some (get_or bytes (i + j) 0)
    at zero lt =
        let a : cell + 0 ≡ cell = omega arith in
        let b : i + 0 ≡ i = omega arith in
        rw (a, b)
          (others cell (λ j p e. absurd (omega arith))
            ∙ get_put_self s cell (get_or bytes i 0) sized inside)
    at (suc j) lt =
        let a : cell + suc j ≡ cell + 1 + j = omega arith in
        let b : i + suc j ≡ i + 1 + j = omega arith in rw (a, b) (copied j (omega arith))

    rest :
        (c : ℕ) → ((j : ℕ) → j < suc n → c ≢ cell + j) → get_elem? s'.data_ c ≡ get_elem? s.data_ c
    rest c away =
        others c (λ j p e. away (suc j) (omega arith) (omega arith))
        ∙ get_put_ne s cell (get_or bytes i 0) c (λ e. away 0 (omega arith) (omega arith))

-- The loop's first round, and the others.
first_byte :
    (bytes : List ℕ) (i n addr offset byte : ℕ) (s s1 : Storage) (r : Storage × ℕ)
    → get_elem? bytes i ≡ some byte
    → u32 offset ≡ offset
    → u8 byte ≡ byte
    → u64 (offset + 1) ≡ offset + 1
    → write_data8 s addr offset byte ≡ written s1
    → write_bytes bytes (i + 1) n addr (offset + 1) s1 ≡ ok r
    → write_bytes bytes i (suc n) addr offset s ≡ ok r
unfolding write_bytes stored
first_byte bytes i n addr offset byte s s1 r found cut whole next wrote rest =
    rw (found, cut, whole, wrote, next) rest

pub bytes-Copied :
    (bytes : List ℕ) (n i addr offset : ℕ) (s : Storage)
    → IsSized s
    → i + n ≤ length bytes
    → ((j : ℕ) → j < length bytes → get_or bytes j 0 < 2 ^ 8)
    → addr + offset + n ≤ s.size
    → s.size < 2 ^ 64
    → offset + n < 2 ^ 32
    → (s' : Storage) × (write_bytes bytes i n addr offset s ≡ ok (s', offset + n))
      × Copied s bytes i n (addr + offset) s'
unfolding write_bytes
bytes-Copied bytes zero i addr offset s sized enough small room few low =
    let none : offset + 0 ≡ offset = omega arith in
    (s, rw none refl, (sized, refl, λ j p. absurd (omega arith), λ c h. refl))
bytes-Copied bytes (suc n) i addr offset s sized enough small room few low =
    let byte = get_or bytes i 0 in
    let found = get_elem?-get_or bytes i 0 (omega arith) in
    let cut : u32 offset ≡ offset = omega arith in
    let next : u64 (offset + 1) ≡ offset + 1 = omega arith in
    let whole : u8 byte ≡ byte = mod-eq_of_lt (small i (omega arith)) in
    let wrote =
      write_data8_lem s addr offset byte (addr + offset) byte (omega arith) (omega arith) whole in
    let size = put-size_eq s (addr + offset) byte in
    let (s', ran, copied) =
      bytes-Copied bytes n (i + 1) addr (offset + 1) (put s (addr + offset) byte)
        (put-IsSized s (addr + offset) byte sized) (omega arith) small (omega (arith, size))
        (omega (arith, size)) (omega arith) in
    let cell : addr + (offset + 1) ≡ addr + offset + 1 = omega arith in
    let last : offset + 1 + n ≡ offset + suc n = omega arith in
    (
      s',
      first_byte bytes i n addr offset byte s (put s (addr + offset) byte) _ found cut whole next
          wrote (ran ∙ ap (λ (k : ℕ). ok (s', k)) last),
      Copied-cons s bytes i n (addr + offset) s' sized (omega arith) (rw cell at copied),
    )

-- For a scalar argument with at least as many bytes of data as its size, a slot at `addr`, and a place for
-- values at `addr + offset` behind the slot and inside a sized storage: `write_arg` returns, copies the bytes to
-- that place and changes no other byte of the storage; the slot reads as it did before, so that it does not
-- receive the argument, and the next argument is given the same slot.
pub write_arg-scalar :
    (arg : KernelArgumentStore) (bytes : List ℕ) (addr offset : ℕ) (s : Storage)
    (args : List KernelArgumentStore)
    → arg.kind ≡ scalar
    → arg.bytes ≡ some bytes
    → IsSized s
    → arg.size ≤ length bytes
    → ((j : ℕ) → j < length bytes → get_or bytes j 0 < 2 ^ 8)
    → 8 ≤ offset
    → addr + offset + arg.size ≤ s.size
    → s.size < 2 ^ 64
    → offset + arg.size < 2 ^ 32
    → (s' : Storage) × (write_arg arg addr offset s ≡ ok (s', addr, offset + arg.size))
      × Copied s bytes 0 arg.size (addr + offset) s'
      × (read_8_bytes s' addr ≡ read_8_bytes s addr)
      × (write_args (arg ∷ args) addr offset s
          ≡ (write_args args addr (offset + arg.size) s' >>= λ r. ok (r.0, addr ∷ r.1)))
unfolding write_arg write_arg_bytes write_args
write_arg-scalar arg bytes addr offset s args is_scalar given sized enough small behind room few
      low =
    let (s', ran, copied) =
      bytes-Copied bytes arg.size 0 addr offset s sized (omega arith) small room few low in
    let (_, size, _, others) = copied in
    let wrote : write_arg arg addr offset s ≡ ok (s', addr, offset + arg.size) =
      rw (given, is_scalar, ran) refl in
    (
      s',
      wrote,
      copied,
      slot_same s s' addr size (omega arith)
          (λ j h. others (addr + j) (λ i p e. absurd (omega arith))),
      rw wrote refl,
    )
