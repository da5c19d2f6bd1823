-- ===== src/DataBuffer/Tests.antt =====
-- `DataBuffer` run on small inputs; a new array holds 0xcc in every byte.
use lmcore.Prelude.{
  ℕ, ◌≡◌, ◌↔◌, refl, arith, some, [], ◌∷◌, Bool, true, take, length, replicate, length-replicate,
  Bytes,
}
use lmcore.DataBuffer.{
  DataBuffer, bytes, align, new, assign, append, append_buffer, set_size, set_capacity, clear, copy,
  equal,
}
use lmcore.DataBuffer.Inv.{IsValid, Holds, Yields}
use lmcore.DataBuffer.Grow.{
  Resized, Recapped, assign_lem, append_lem, append_buffer_lem, set_size_lem, set_capacity_lem,
  new_lem,
}
use lmcore.DataBuffer.Copy.{clear_lem, copy_lem, equal_lem}
use lmcore.DataBuffer.Pool.{
  Pools, IsStocked, Leased, Freed, pool_alloc, pool_free, pool_alloc_lem, pool_free_lem,
}

abbrev filled : ℕ → Bytes
filled n = replicate n 0xcc

abbrev filled_length : (n : ℕ) → length (filled n) ≡ n
filled_length n = length-replicate n 0xcc

-- Three bytes in an array of eight.
abbrev three : DataBuffer
three = record { data_ = some (1 ∷ 2 ∷ 3 ∷ 0 ∷ 9 ∷ 9 ∷ 9 ∷ 9 ∷ []); size = 3; capacity = 8 }

three-IsValid : IsValid three
three-IsValid = record { storage = refl; size_in = omega arith }

append_within :
    append filled three (some (4 ∷ 5 ∷ [])) 2
    ≡ some (record { data_ = some (1 ∷ 2 ∷ 3 ∷ 4 ∷ 5 ∷ 0 ∷ 9 ∷ 9 ∷ []); size = 5; capacity = 8 })
unfolding append
append_within = refl

assign_lem_example : Yields (assign filled three (some (7 ∷ 8 ∷ [])) 2) (7 ∷ 8 ∷ [])
assign_lem_example =
    assign_lem filled filled_length three (7 ∷ 8 ∷ []) 2 three-IsValid (omega arith) (omega arith)
      (omega arith)

append_lem_example :
    Yields
      (append filled three (some (4 ∷ 5 ∷ 6 ∷ 7 ∷ 8 ∷ 9 ∷ [])) 6)
      (1 ∷ 2 ∷ 3 ∷ 4 ∷ 5 ∷ 6 ∷ 7 ∷ 8 ∷ 9 ∷ [])
append_lem_example =
    append_lem filled filled_length three (4 ∷ 5 ∷ 6 ∷ 7 ∷ 8 ∷ 9 ∷ []) 6 three-IsValid (omega arith)
      (omega arith) (omega arith)

append_buffer_lem_example : Holds (append_buffer filled three three) (1 ∷ 2 ∷ 3 ∷ 1 ∷ 2 ∷ 3 ∷ [])
append_buffer_lem_example =
    append_buffer_lem filled filled_length three three three-IsValid three-IsValid (omega arith)

set_size_lem_example : Resized (set_size filled three 20) 20 three
set_size_lem_example = set_size_lem filled filled_length three 20 three-IsValid (omega arith)

set_capacity_lem_example :
    Recapped (set_capacity filled three 20) (align 20) (take (align 20) (bytes three))
set_capacity_lem_example =
    set_capacity_lem filled filled_length three 20 three-IsValid (omega arith)

new_lem_example : Yields (new filled 20) []
new_lem_example = new_lem filled filled_length 20 (omega arith)

clear_lem_example : Yields (clear three) [] × Recapped (clear three) 8 []
clear_lem_example = clear_lem three three-IsValid

copy_lem_example : Yields (copy filled three) (1 ∷ 2 ∷ 3 ∷ [])
copy_lem_example = copy_lem filled filled_length three three-IsValid (omega arith)

equal_lem_example :
    (r : Bool) × (equal three three ≡ some r) × ((r ≡ true) ↔ (bytes three ≡ bytes three))
equal_lem_example = equal_lem three three three-IsValid three-IsValid

abbrev no_blocks : Pools
no_blocks = record { local_pool = []; buffer_pool = [] }

no_blocks-IsStocked : IsStocked no_blocks
no_blocks-IsStocked = record {
  blocks = tt;
  global_blocks = tt;
  local_max = omega arith;
  global_max = omega arith;
}

pool_alloc_lem_example : Leased 5000 (pool_alloc filled no_blocks 5000)
pool_alloc_lem_example =
    pool_alloc_lem filled filled_length no_blocks 5000 no_blocks-IsStocked (omega arith)

pool_free_lem_example : Freed no_blocks (pool_free no_blocks (some three))
pool_free_lem_example = pool_free_lem no_blocks three no_blocks-IsStocked three-IsValid
