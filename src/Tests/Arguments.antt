-- ===== src/Tests/Arguments.antt =====
-- Runs of the kernel arguments.
use red_o_lator.Base.{
  ℕ, zero, suc, ◌+◌, ◌^◌, ◌<◌, ◌≡◌, refl, arith, true, false, [], ◌∷◌, none, some, get_or, ok,
  ◌>>=◌,
}
use red_o_lator.Storage.{Storage, init}
use red_o_lator.Executor.{
  KernelArgumentStore, KernelArgumentKind, write_arg, write_args, read_args, read_8_bytes,
}
use red_o_lator.Executor.Pointer.{read_args-write_arg}
use red_o_lator.Executor.Scalar.{Copied, write_arg-scalar}

abbrev scalar_arg : KernelArgumentStore
scalar_arg = record {
  kind = KernelArgumentKind.scalar;
  size = 2;
  read_permission = true;
  write_permission = false;
  bytes = some (3 ∷ 4 ∷ []);
  output = none;
}

arg_bytes_small : (j : ℕ) → j < 2 → get_or (3 ∷ 4 ∷ []) j 0 < 2 ^ 8
arg_bytes_small zero h = omega arith
arg_bytes_small (suc zero) h = omega arith
arg_bytes_small (suc (suc j)) h = omega arith

abbrev pointer_arg : KernelArgumentStore
pointer_arg = record scalar_arg { kind = KernelArgumentKind.pointer; write_permission = true }

abbrev more_storage : Storage
unfolding init
more_storage = init 16

read_args-write_arg_example :
    (s' : Storage) × (write_arg pointer_arg 0 8 more_storage ≡ ok (s', 0 + 8, 8 + 2))
    × (read_args s' 0 pointer_arg ≡ ok (record pointer_arg { output = some (3 ∷ 4 ∷ []) }))
unfolding more_storage
read_args-write_arg_example =
    read_args-write_arg pointer_arg (3 ∷ 4 ∷ []) 0 8 more_storage refl refl refl refl refl
      arg_bytes_small refl (omega arith) (omega arith) (omega arith) (omega arith)

write_arg-scalar_example :
    (s' : Storage) × (write_arg scalar_arg 0 8 more_storage ≡ ok (s', 0, 8 + 2))
    × Copied more_storage (3 ∷ 4 ∷ []) 0 2 (0 + 8) s'
    × (read_8_bytes s' 0 ≡ read_8_bytes more_storage 0)
    × (write_args (scalar_arg ∷ pointer_arg ∷ []) 0 8 more_storage
        ≡ (write_args (pointer_arg ∷ []) 0 (8 + 2) s' >>= λ r. ok (r.0, 0 ∷ r.1)))
unfolding more_storage
write_arg-scalar_example =
    write_arg-scalar scalar_arg (3 ∷ 4 ∷ []) 0 8 more_storage (pointer_arg ∷ []) refl refl refl
      (omega arith) arg_bytes_small (omega arith) (omega arith) (omega arith) (omega arith)
