-- ===== src/DataBuffer.antt =====
-- src/data_buffer.cpp, include/lmcore/data_buffer.h: `DataBuffer`, a growing byte buffer on the
-- heap. `none` as the result of an operation is a fault: an access outside an array.
-- A source range `p` does not overlap the buffer's own storage, except in `append_buffer`.
pub mod Inv
pub mod Grow
pub mod Copy
pub mod Pool
mod Tests
use lmcore.Prelude.{
  ℕ, ◌+◌, ◌-◌, ◌*◌, ◌/◌, ◌%◌, ◌^◌, Bool, true, false, ◌||◌, if◌then◌else◌, ltb, leb, ◌==◌, List, [],
  ◌∷◌, ◌++◌, Option, none, some, ◌>>=◌, length, set, take, drop, u8, u64, Bytes, ◌>>>◌,
}

-- `data_` is null or an array.
pub record DataBuffer : Type 0 where
  pub data_ : Option Bytes
  pub size : ℕ
  pub capacity : ℕ

abbrev pub empty : DataBuffer
empty = record { data_ = none; size = 0; capacity = 0 }

abbrev pub data_align : ℕ
data_align = 8

pub align : ℕ → ℕ
align len = u64 (len + data_align - 1) / data_align * data_align

-- `p[i] = v`
abbrev pub poke : Bytes → ℕ → ℕ → Option Bytes
poke p i v = if ltb i (length p) then some (set p i v) else none

-- `memcpy(dst + off, src, n)`
abbrev pub memcpy : Bytes → ℕ → Bytes → ℕ → Option Bytes
memcpy dst off src n =
    if leb (off + n) (length dst)
    then (if leb n (length src)
        then some (take off dst ++ (take n src ++ drop (off + n) dst))
        else none)
    else none

-- `memcpy` from a pointer that is guarded by `if (data_)`
abbrev pub memcpy_if : Bytes → Option Bytes → ℕ → Option Bytes
memcpy_if dst none n = some dst
memcpy_if dst (some src) n = memcpy dst 0 src n

-- `if (size_ < capacity_) { data_[size_] = 0; }`
abbrev pub terminate : Bytes → ℕ → ℕ → Option Bytes
terminate p size cap = if ltb size cap then poke p size 0 else some p

-- The same where `data_` may be null, under `if (data_ && …)`.
abbrev pub terminate_if : Option Bytes → ℕ → ℕ → Option (Option Bytes)
terminate_if none size cap = some none
terminate_if (some p) size cap = do q ← terminate p size cap; some (some q)

-- The results are `*this` and `other`.
pub move : DataBuffer → DataBuffer × DataBuffer
move other = (other, empty)

pub move_assign : Bool → DataBuffer → DataBuffer → DataBuffer × DataBuffer
move_assign same b other = if same then (b, b) else (other, empty)

-- `if (data_ && capacity_ > 0) { data_[0] = 0; }`
pub clear : DataBuffer → Option DataBuffer
clear b = do p ← terminate_if b.data_ 0 b.capacity; some (record b { data_ = p; size = 0 })

-- The bytes are put at `off` of the array `dst`, which has `cap` bytes; `n` is the new size.
abbrev pub put : Option Bytes → ℕ → Bytes → ℕ → ℕ → ℕ → Option DataBuffer
put dst off p len n cap = do
  d ← dst
  q ← memcpy d off p len
  r ← terminate q n cap
  some (record { data_ = some r; size = n; capacity = cap })

abbrev pub resize : DataBuffer → ℕ → Option DataBuffer
resize b len = do p ← terminate_if b.data_ len b.capacity; some (record b { data_ = p; size = len })

-- `fresh n` is what `new uint8_t[n]` returns: `n` bytes of any value.
module _ (fresh : ℕ → Bytes) where
  abbrev pub allocate : ℕ → Option DataBuffer
  allocate cap = do
    p ← poke (fresh cap) 0 0
    some (record { data_ = some p; size = 0; capacity = cap })

  pub new : ℕ → Option DataBuffer
  unfolding align
  new len = if len == 0 then some empty else allocate (align len)

  -- The copy that the copy constructor and the copy assignment make of a source with bytes.
  pub clone : Bytes → ℕ → Option DataBuffer
  unfolding align
  clone src n = do
    let cap = align n
    p ← memcpy (fresh cap) 0 src n
    q ← terminate p n cap
    some (record { data_ = some q; size = n; capacity = cap })

  abbrev pub copy_data : Option Bytes → ℕ → Option DataBuffer
  copy_data none n = some empty
  copy_data (some src) n = if n == 0 then some empty else clone src n

  pub copy : DataBuffer → Option DataBuffer
  unfolding clone
  copy other = copy_data other.data_ other.size

  -- `same` is `this == &other`.
  pub copy_assign : Bool → DataBuffer → DataBuffer → Option DataBuffer
  unfolding copy
  copy_assign same b other = if same then some b else copy other

  -- `Assign(p, len)` reads `len` bytes from `p`.
  pub assign : DataBuffer → Option Bytes → ℕ → Option DataBuffer
  unfolding align
  assign b none len = some b
  assign b (some p) len =
      if len == 0
      then some b
      else if ltb b.capacity len
      then put (some (fresh (align len))) 0 p len len (align len)
      else put b.data_ 0 p len len b.capacity

  pub append : DataBuffer → Option Bytes → ℕ → Option DataBuffer
  unfolding align
  append b none len = some b
  append b (some p) len =
      let n = u64 (b.size + len) in
      if len == 0
      then some b
      else if leb (u64 (len + b.size)) b.capacity
      then put b.data_ b.size p len n b.capacity
      else put (memcpy_if (fresh (align n)) b.data_ b.size) b.size p len n (align n)

  -- The longer array that `SetSize` moves to.
  abbrev pub enlarge : DataBuffer → ℕ → ℕ → Option DataBuffer
  enlarge b len cap = do
    p ← memcpy_if (fresh cap) b.data_ b.size
    q ← terminate p len cap
    some (record { data_ = some q; size = len; capacity = cap })

  pub set_size : DataBuffer → ℕ → Option DataBuffer
  unfolding align
  set_size b len = if leb len b.capacity then resize b len else enlarge b len (align len)

  -- The array of another capacity that `SetCapacity` moves the bytes to, as many as fit.
  abbrev pub reallocate : DataBuffer → ℕ → ℕ → Option DataBuffer
  reallocate b size' cap = do
    p ← memcpy_if (fresh cap) b.data_ size'
    some (record { data_ = some p; size = size'; capacity = cap })

  pub set_capacity : DataBuffer → ℕ → Option DataBuffer
  unfolding align
  set_capacity b len =
      let cap = align len in
      if cap == b.capacity
      then some b
      else if b.size == 0
      then some (record { data_ = some (fresh cap); size = 0; capacity = cap })
      else reallocate b (if leb b.size cap then b.size else cap) cap

-- `htons` and `htonl` put the most significant byte first in memory.
pub be16 : ℕ → Bytes
be16 x = u8 (x >>> 8) ∷ u8 x ∷ []

pub be32 : ℕ → Bytes
be32 x = u8 (x >>> 24) ∷ u8 (x >>> 16) ∷ u8 (x >>> 8) ∷ u8 x ∷ []

module _ (fresh : ℕ → Bytes) where
  pub assign_u16 : DataBuffer → ℕ → Option DataBuffer
  assign_u16 b x = assign fresh b (some (be16 x)) 2

  pub assign_u32 : DataBuffer → ℕ → Option DataBuffer
  assign_u32 b x = assign fresh b (some (be32 x)) 4

  pub append_u16 : DataBuffer → ℕ → Option DataBuffer
  append_u16 b x = append fresh b (some (be16 x)) 2

  pub append_u32 : DataBuffer → ℕ → Option DataBuffer
  append_u32 b x = append fresh b (some (be32 x)) 4

  -- `Append(b->Data(), b->Size())`. Where both are one object, the bytes are read before the old
  -- array is deleted, and from before the place where they are put.
  pub append_buffer : DataBuffer → DataBuffer → Option DataBuffer
  append_buffer b other = append fresh b other.data_ other.size

-- The bytes that the object stands for (`Data()`, `Size()`).
abbrev pub stored : Option Bytes → ℕ → Bytes
stored none n = []
stored (some p) n = take n p

abbrev pub bytes : DataBuffer → Bytes
bytes b = stored b.data_ b.size

-- A read of the first `n` bytes.
abbrev pub read : Option Bytes → ℕ → Option Bytes
read none n = if n == 0 then some [] else none
read (some p) n = if leb n (length p) then some (take n p) else none

abbrev pub is_null : Option Bytes → Bool
is_null none = true
is_null (some p) = false

pub to_string : DataBuffer → Option Bytes
to_string b = if is_null b.data_ || b.size == 0 then some [] else read b.data_ b.size

abbrev pub bytes_eq : Bytes → Bytes → Bool
bytes_eq [] [] = true
bytes_eq [] (y ∷ ys) = false
bytes_eq (x ∷ xs) [] = false
bytes_eq (x ∷ xs) (y ∷ ys) = if x == y then bytes_eq xs ys else false

-- `operator==`: `memcmp` reads `size_` bytes of both.
pub equal : DataBuffer → DataBuffer → Option Bool
equal b other =
    if b.size == other.size
    then (if b.size == 0
        then some true
        else (read b.data_ b.size >>= λ p. read other.data_ b.size >>= λ q. some (bytes_eq p q)))
    else some false
