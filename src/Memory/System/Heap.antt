-- ===== src/Memory/System/Heap.antt =====
-- An object's memory: `new` and `delete`.
use depos.Base.{
  ℕ, ◌+◌, ◌-◌, ◌%◌, ◌^◌, ◌<◌, ◌≤◌, ◌≡◌, refl, some, arith, ne→==_false, eq-cases, inl, inr,
  Option-cases,
}
use native.Mathlib.Nat.{one-le-pow}
use depos.Memory.Buddy
use depos.Memory.Buddy.{Free}
use depos.Memory.Buddy.Aligned.{IsAligned}
use depos.Memory.Buddy.Laws.{cover}
use depos.Memory.Buddy.Contract.{remove-insert}
use depos.Memory.System.{alloc, release, header_size, Store, new, delete}

module _ (minimum last : ℕ) where
  -- `alloc` of a size that is not 0 hands on what the allocator removed.
  alloc-remove :
      (size p : ℕ) (free free' : Free)
      → 0 < size
      → alloc minimum last size free ≡ some (p, free')
      → Buddy.remove minimum last size free ≡ some (some p, free')
  unfolding alloc
  alloc-remove size p free free' pos e = ground arith

  -- `alloc` of nothing is the null pointer.
  alloc-zero :
      (size p : ℕ) (free free' : Free)
      → size ≡ 0
      → alloc minimum last size free ≡ some (p, free')
      → p ≡ 0
  unfolding alloc
  alloc-zero size p free free' z e = ground arith

  record Made (s p : ℕ) (store store' : Store) : Type 0 where
    header : ℕ
    behind : p ≡ header + header_size
    allocated :
        alloc minimum last ((s + header_size) % 2 ^ 64) store.free ≡ some (header, store'.free)
    sized : store'.sizes header ≡ (s + header_size) % 2 ^ 64

  new-Made :
      (s p : ℕ) (store store' : Store)
      → new minimum last s store ≡ some (p, store')
      → Made s p store store'
  unfolding new
  new-Made s p store store' e =
      elim (Option-cases (alloc minimum last ((s + header_size) % 2 ^ 64) store.free)) [
        | inl n ↦ absurd (ground arith)
        | inr ((header, free'), eq) ↦ record {
          header = header;
          behind = ground arith;
          allocated = ground arith;
          sized = ground arith;
        }
      ]

  -- Where the free blocks are aligned, `delete` of the object that `new` returned, at an address above 2 ^ MAXIMUM, never fails,
  -- leaves them aligned, and makes free, byte for byte, what was free before, also where the size of the object and of its header do not fit
  -- 64 bits, as long as what is left of their sum in 64 bits is at most 2 ^ 63.
  pub new-delete :
      (s p : ℕ) (store store' : Store)
      → (s + header_size) % 2 ^ 64 ≤ 2 ^ 63
      → IsAligned minimum store.free
      → new minimum last s store ≡ some (p, store')
      → 2 ^ (last + minimum) + header_size ≤ p
      → (store'' : Store) × (delete minimum last p store' ≡ some store'')
        × IsAligned minimum store''.free
        × ((x : ℕ) → cover minimum last store''.free x ≡ cover minimum last store.free x)
  unfolding delete release
  new-delete s p store store' h al e far =
      let m = new-Made s p store store' e in
      let pos = one-le-pow (last + minimum) 2 (omega arith) in
      let total = (s + header_size) % 2 ^ 64 in
      let some_bytes : 0 < total = elim (eq-cases total 0) [
        | inl z ↦
            let nothing = alloc-zero total m.header store.free store'.free z m.allocated in
            absurd (omega (arith, nothing, m.behind))
        | inr ne ↦ omega (arith, ne)
      ] in
      let (free'', ins, al'', same) =
        remove-insert minimum last total m.header store.free store'.free some_bytes h al
          (alloc-remove total m.header store.free store'.free some_bytes m.allocated)
          (omega (arith, m.behind)) in
      let behind : p - header_size ≡ m.header = omega (arith, m.behind) in
      let p_ne = ne→==_false p 0 (omega arith) in
      let h_ne = ne→==_false m.header 0 (omega (arith, m.behind)) in
      (record store' { free = free'' }, rw (p_ne, behind, m.sized, h_ne, ins) refl, al'', same)
