-- ===== src/DataBuffer/Pool.antt =====
-- `PoolAlloc` and `PoolFree` of src/data_buffer.cpp: buffers of one block size are kept for reuse,
-- up to 32 by each thread and up to 1024 by all together.
use lmcore.Prelude.{
  ℕ, ◌+◌, ◌≤◌, ◌<◌, ◌^◌, ◌≡◌, refl, arith, Option, none, some, ◌>>=◌, List, [], ◌∷◌, Bool, true,
  false, All, ltb, leb, ◌==◌, if◌then◌else◌, length, Bytes, Bool-cases, inl, inr, not, ap, ◌∙◌, ◌⊎◌,
  ltb→lt,
}
use lmcore.DataBuffer.{DataBuffer, align, new, set_size, clear, bytes, stored}
use lmcore.DataBuffer.Inv.{IsValid, Yields, IsTerminated, align_bounds}
use lmcore.DataBuffer.Grow.{set_size_lem, new_lem, Resized, stored-zero}
use lmcore.DataBuffer.Copy.{clear_lem}

abbrev pub pool_block_size : ℕ
pool_block_size = 4096

abbrev pub pool_global_max : ℕ
pool_global_max = 1024

abbrev pub pool_local_max : ℕ
pool_local_max = 32

-- `t_localPool` of the calling thread and `g_bufferPool`, each with its `back()` first.
pub record Pools : Type 0 where
  pub local_pool : List DataBuffer
  pub buffer_pool : List DataBuffer

-- `pooled`: the shared pointer's deleter is `PoolFree`; else it is `delete`.
pub record Lease : Type 0 where
  pub buffer : DataBuffer
  pub pooled : Bool

module _ (fresh : ℕ → Bytes) where
  abbrev pub lease : Pools → Option DataBuffer → Bool → Option (Pools × Lease)
  lease s m p = m >>= λ b. some (s, record { buffer = b; pooled = p })

  abbrev pub from_global : List DataBuffer → List DataBuffer → Option (Pools × Lease)
  from_global l [] =
      lease (record { local_pool = l; buffer_pool = [] }) (new fresh pool_block_size) true
  from_global l (b ∷ g) =
      lease (record { local_pool = l; buffer_pool = g }) (set_size fresh b 0) true

  abbrev pub from_pools : List DataBuffer → List DataBuffer → Option (Pools × Lease)
  from_pools [] g = from_global [] g
  from_pools (b ∷ l) g =
      lease (record { local_pool = l; buffer_pool = g }) (set_size fresh b 0) true

  pub pool_alloc : Pools → ℕ → Option (Pools × Lease)
  pool_alloc s len =
      if ltb pool_block_size len
      then lease s (new fresh len) false
      else from_pools s.local_pool s.buffer_pool

-- A buffer that no pool takes is deleted, which leaves nothing to say of it.
pub pool_free : Pools → Option DataBuffer → Option Pools
pool_free s none = some s
pool_free s (some b) =
    if not (b.capacity == pool_block_size)
    then some s
    else if ltb (length s.local_pool) pool_local_max
    then (clear b >>= λ c. some (record s { local_pool = c ∷ s.local_pool }))
    else if ltb (length s.buffer_pool) pool_global_max
    then (clear b >>= λ c. some (record s { buffer_pool = c ∷ s.buffer_pool }))
    else some s

-- What lies in a pool: a valid block without bytes.
abbrev pub IsBlock : DataBuffer → Type 0
IsBlock b = IsValid b × (b.size ≡ 0) × (b.capacity ≡ pool_block_size)

pub record IsStocked (s : Pools) : Type 0 where
  pub blocks : All IsBlock s.local_pool
  pub global_blocks : All IsBlock s.buffer_pool
  pub local_max : length s.local_pool ≤ pool_local_max
  pub global_max : length s.buffer_pool ≤ pool_global_max

-- The call succeeds and keeps the pools' invariant; the buffer is valid and empty, ends in a zero,
-- has room for `len` bytes; it is to go back to a pool exactly if `len` fits a block, and is a block
-- then.
abbrev pub Leased : ℕ → Option (Pools × Lease) → Type 0
Leased len none = ⊥
Leased len (some (s, l)) =
    IsStocked s
    × IsValid l.buffer
    × (bytes l.buffer ≡ [])
    × IsTerminated l.buffer
    × (len ≤ l.buffer.capacity)
    × (l.pooled ≡ leb len pool_block_size)
    × ((l.pooled ≡ false) ⊎ (l.buffer.capacity ≡ pool_block_size))

-- Freeing succeeds, keeps the invariant, and adds at most one block.
abbrev pub Freed : Pools → Option Pools → Type 0
Freed s none = ⊥
Freed s (some s') =
    IsStocked s'
    × (length s'.local_pool + length s'.buffer_pool
        ≤ length s.local_pool + length s.buffer_pool + 1)

module _ (fresh : ℕ → Bytes) where
  capacity-set_size : (b r : DataBuffer) → set_size fresh b 0 ≡ some r → r.capacity ≡ b.capacity
  unfolding set_size
  capacity-set_size b r e = ground arith

  capacity-new : (n : ℕ) (r : DataBuffer) → 0 < n → new fresh n ≡ some r → r.capacity ≡ align n
  unfolding new
  capacity-new n r pos e = ground arith

  leased_lem :
      (m : Option DataBuffer) (len c : ℕ) (p : Bool) {s : Pools}
      → IsStocked s
      → Yields m []
      → ((r : DataBuffer) → m ≡ some r → r.capacity ≡ c)
      → len ≤ c
      → p ≡ leb len pool_block_size
      → (p ≡ false) ⊎ (c ≡ pool_block_size)
      → Leased len (lease fresh s m p)
  leased_lem none len c p st y e h k f = y
  leased_lem (some r) len c p st y e h k f =
      (st, y.0, y.1, y.2, omega (arith, e r refl), k, ground (arith, e r refl))

  emptied : (m : Option DataBuffer) (b : DataBuffer) → Resized m 0 b → Yields m []
  emptied none b h = h
  emptied (some r) b h = (h.0, ap (stored r.data_) h.1 ∙ stored-zero r.data_, h.3)

module _ (fresh : ℕ → Bytes) (length-fresh : (n : ℕ) → length (fresh n) ≡ n) where
  reused_lem :
      (b : DataBuffer) (len : ℕ) {s : Pools}
      → IsBlock b
      → IsStocked s
      → len ≤ pool_block_size
      → Leased len (lease fresh s (set_size fresh b 0) true)
  reused_lem b len blk st h =
      leased_lem fresh (set_size fresh b 0) len pool_block_size true st
        (emptied fresh (set_size fresh b 0) b
          (set_size_lem fresh length-fresh b 0 blk.0 (omega arith)))
        (λ r e. capacity-set_size fresh b r e ∙ blk.2) h (ground arith) (inr refl)

  -- `PoolAlloc` succeeds from stocked pools, and keeps them stocked. The buffer is valid and empty,
  -- ends in a zero and has room for `len` bytes; its deleter is `PoolFree` exactly if `len`
  -- is at most a block's size, and it has that size then.
  pub pool_alloc_lem :
      (s : Pools) (len : ℕ) → IsStocked s → len < 2 ^ 63 → Leased len (pool_alloc fresh s len)
  unfolding pool_alloc
  pool_alloc_lem s len st small = elim (Bool-cases (ltb pool_block_size len)) [
    | inl big ↦
        let pos : 0 < len = omega (arith, ltb→lt _ _ big) in
        rw big (
          leased_lem fresh (new fresh len) len (align len) false st
            (new_lem fresh length-fresh len small) (λ r e. capacity-new fresh len r pos e)
            (align_bounds len small).0 (ground arith) (inl refl))
    | inr fits ↦ rw fits (stocked s.local_pool s.buffer_pool st (ground arith))
  ]
    where
      global :
          (l g : List DataBuffer)
          → IsStocked (record { local_pool = l; buffer_pool = g })
          → len ≤ pool_block_size
          → Leased len (from_global fresh l g)
      global l [] st h =
          leased_lem fresh (new fresh pool_block_size) len pool_block_size true st
            (new_lem fresh length-fresh pool_block_size (omega arith))
            (λ r e. capacity-new fresh pool_block_size r (omega arith) e ∙ unfold align in refl) h
            (ground arith) (inr refl)
      global l (b ∷ g) st h =
          reused_lem b len st.global_blocks.0
            (record {
              blocks = st.blocks;
              global_blocks = st.global_blocks.1;
              local_max = st.local_max;
              global_max = omega arith;
            })
            h

      stocked :
          (l g : List DataBuffer)
          → IsStocked (record { local_pool = l; buffer_pool = g })
          → len ≤ pool_block_size
          → Leased len (from_pools fresh l g)
      stocked [] g st h = global [] g st h
      stocked (b ∷ l) g st h =
          reused_lem b len st.blocks.0
            (record {
              blocks = st.blocks.1;
              global_blocks = st.global_blocks;
              local_max = omega arith;
              global_max = st.global_max;
            })
            h

cleared :
    (m : Option DataBuffer) {c : ℕ}
    → Yields m []
    → ((r : DataBuffer) → m ≡ some r → (r.capacity ≡ c) × (r.size ≡ 0))
    → (r : DataBuffer) × (m ≡ some r) × IsValid r × (r.size ≡ 0) × (r.capacity ≡ c)
cleared none y e = absurd y
cleared (some r) y e = (r, refl, y.0, (e r refl).1, (e r refl).0)

size-clear : (b r : DataBuffer) → clear b ≡ some r → (r.capacity ≡ b.capacity) × (r.size ≡ 0)
unfolding clear
size-clear b r e = ground arith

-- `PoolFree` of a valid buffer keeps the pools stocked and adds one block at most.
pub pool_free_lem :
    (s : Pools) (b : DataBuffer) → IsStocked s → IsValid b → Freed s (pool_free s (some b))
unfolding pool_free
pool_free_lem s b st v =
    let (r, done, vr, zero_size, same) =
      cleared (clear b) {c = b.capacity} (clear_lem b v).0 (λ r e. size-clear b r e) in
    rw done (ground arith)
