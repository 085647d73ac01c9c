-- ===== src/Tests/Memory.antt =====
-- The allocator with blocks of 8 to 128 bytes and one free block of 128 bytes at 256; a machine whose RAM has
-- two pages.
use depos.Base.{zero, suc, ◌<◌, ◌<◌, ℕ, ◌+◌, ◌*◌, ◌^◌, ◌≡◌, [], ◌∷◌, some, update, arith, refl}
use depos.Memory.Chunk.{chunk}
use depos.Memory.Buddy.{
  Free, empty, log2ceil_from, log2ceil, take_first, bucket, buddy, split, remove_from, remove,
  insert,
}
use depos.Memory.Buddy.Log.{IsLog, log2ceil-IsLog}
use depos.Memory.Buddy.Aligned.{IsAligned, IsAligned-update}
use depos.Memory.Buddy.Laws.{cover, Gains, Request}
use depos.Memory.Buddy.Contract.{Removes, remove-Hands, insert-Gains}
use depos.Memory.System.{Store, init, alloc, new, delete}
use depos.Memory.System.Heap.{new-delete}
use depos.Memory.System.Init.{available, init-available}

abbrev one_block : Free
one_block = update empty 4 (256 ∷ [])

one_block-IsAligned : IsAligned 3 one_block
one_block-IsAligned = IsAligned-update 3 empty 4 (256 ∷ []) (λ n. tt) ((2, refl), tt)

remove-Hands_example : (r : Request 3 100) × Removes 3 4 100 one_block r.log
remove-Hands_example = remove-Hands 3 4 100 one_block (omega arith) one_block-IsAligned

least_power : (j : ℕ) → j < 7 → 2 ^ j < 100
least_power zero h = omega arith
least_power (suc zero) h = omega arith
least_power (suc (suc zero)) h = omega arith
least_power (suc (suc (suc zero))) h = omega arith
least_power (suc (suc (suc (suc zero)))) h = omega arith
least_power (suc (suc (suc (suc (suc zero))))) h = omega arith
least_power (suc (suc (suc (suc (suc (suc zero)))))) h = omega arith
least_power (suc (suc (suc (suc (suc (suc (suc j))))))) h = absurd (omega arith)

hundred : Request 3 100
unfolding log2ceil log2ceil_from
hundred = record {
  log = 7;
  is_log = record { holds = omega arith; least = least_power };
  gives = refl;
  fits = omega arith;
}

insert-Gains_example :
    (free : Free) × (insert 3 4 (2 * 2 ^ 7) 100 empty ≡ some free)
    × Gains 3 4 7 (2 * 2 ^ 7) empty free
unfolding hundred
insert-Gains_example =
    insert-Gains 3 4 100 2 empty hundred (omega arith) (omega arith) (omega arith) (λ n. tt)

log2ceil-IsLog_example : (r : ℕ) × (log2ceil 100 ≡ some r) × IsLog 100 r
log2ceil-IsLog_example = log2ceil-IsLog 100 (omega arith)

abbrev store : Store
store = record { free = one_block; sizes = λ a. 0 }

abbrev store_after : Store
store_after = record {
  free = update (update one_block 4 []) 3 (320 ∷ []);
  sizes = update (λ a. 0) 256 64;
}

new-delete_example :
    (store' : Store) × (delete 3 4 264 store_after ≡ some store')
    × IsAligned 3 store'.free
    × ((x : ℕ) → cover 3 4 store'.free x ≡ cover 3 4 one_block x)
unfolding log2ceil_from log2ceil take_first bucket buddy split remove_from remove alloc new
new-delete_example =
    new-delete 3 4 56 264 store store_after (omega arith) one_block-IsAligned refl (omega arith)

init-available_example :
    (free : Free) × (init 3 9 3 (1 * 4096) ((1 + 2) * 4096) (chunk 4096 8 ∷ []) ≡ some free)
    × IsAligned 3 free
    × ((x : ℕ) → cover 3 9 free x ≡ available (chunk 4096 8 ∷ []) 1 2 x)
init-available_example =
    init-available 3 9 (omega arith) (omega arith) (chunk 4096 8 ∷ []) 1 2 3 (omega arith)
      (omega arith) (omega arith)
