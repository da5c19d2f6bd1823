-- ===== src/ObjectPool/Tests.antt =====
-- Two objects of a pool that keeps one.
use lmcore.Prelude.{ℕ, ◌+◌, ◌≤◌, ◌≡◌, refl, arith, true, if◌then◌else◌, ltb, [], ◌∷◌, length}
use lmcore.ObjectPool.{ObjectPool, new, acquire, release, step, drop_lease, Call, Reach}
use lmcore.Prelude.{count}
use lmcore.ObjectPool.Ownership.{owned_once, acquire-release}

abbrev both_leased : ObjectPool
both_leased = acquire (acquire (new true 1))

abbrev both_back : ObjectPool
both_back = record {
  pool = 0 ∷ [];
  pool_size_max = 1;
  has_resetter = true;
  leased = [];
  reset = [];
  deleted = 1 ∷ [];
  fresh = 2;
}

Reach-both_back : Reach (new true 1) both_back
unfolding step drop_lease acquire release new
Reach-both_back =
    Reach.next (Call.drop_call 1)
      (Reach.next (Call.drop_call 0)
        (Reach.next Call.acquire_call (Reach.next Call.acquire_call Reach.here refl) refl) refl)
      refl

owned_once_example :
    ((i : ℕ)
      → count i both_back.pool + count i both_back.leased + count i both_back.deleted
        ≡ (if ltb i both_back.fresh then 1 else 0))
    × (length both_back.pool ≤ both_back.pool_size_max)
owned_once_example = owned_once true 1 Reach-both_back

acquire-release_example :
    ((acquire (release both_leased 1)).pool ≡ both_leased.pool)
    × ((acquire (release both_leased 1)).leased ≡ 1 ∷ both_leased.leased)
    × ((acquire (release both_leased 1)).reset
        ≡ (if both_leased.has_resetter then 1 ∷ both_leased.reset else both_leased.reset))
unfolding acquire new
acquire-release_example = acquire-release both_leased 1 (omega arith)
