-- ===== src/Bio/Tests.antt =====
-- The theorems on the buffer cache at a list of two buffers.
use pplottery.Prelude.{◌≡◌, refl, true, false, [], ◌∷◌}
use pplottery.Bio.{Buf, Bcache, is_block, recycled, bget}
use pplottery.Bio.Cache.{Got, Unique, bget-Got}
use pplottery.Bio.Release.{bget-Unique}

abbrev busy : Buf
busy = record {
  id = 0;
  valid = true;
  dev = 1;
  blockno = 33;
  refcnt = 2;
  lock = record { locked = true; pid = 5 };
}

abbrev idle : Buf
idle = record {
  id = 1;
  valid = true;
  dev = 1;
  blockno = 40;
  refcnt = 0;
  lock = record { locked = false; pid = 0 };
}

abbrev cache : Bcache
cache = idle ∷ busy ∷ []

bget-Got_example : Got 1 50 cache (bget 1 50 cache)
bget-Got_example = bget-Got 1 50 cache

bget-Unique_example :
    Unique (recycled 1 50 idle ∷ busy ∷ []) × (is_block 1 50 (recycled 1 50 idle) ≡ true)
unfolding bget
bget-Unique_example =
    bget-Unique 1 50 cache (recycled 1 50 idle ∷ busy ∷ []) (recycled 1 50 idle)
      (λ _. refl, (λ _. refl, tt)) refl
