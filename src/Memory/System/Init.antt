-- ===== src/Memory/System/Init.antt =====
-- What `Memory::init` gives to the allocator.
use depos.Base.{
  ℕ, zero, suc, ◌+◌, ◌-◌, ◌*◌, ◌/◌, ◌%◌, ◌^◌, ◌<◌, ◌≤◌, ◌≡◌, refl, some, List, if◌then◌else◌, leb,
  ltb, ◌&&◌, not, arith, true, false, Bool-cases, inl, inr, lt→ltb, le→ltb_false,
}
use native.Mathlib.Nat.{one-le-pow}
use native.Mathlib.Decide.{ℕ_discrete}
use depos.Memory.Chunk.{Chunk, chunk}
use depos.Memory.Buddy
use depos.Memory.Buddy.{Free, bucket_of, log2ceil, log2ceil_from}
use depos.Memory.Buddy.Log.{log2ceil_page}
use depos.Memory.Buddy.Cover.{byte_in, cover-empty}
use depos.Memory.Buddy.Aligned.{IsAligned}
use depos.Memory.Buddy.Laws.{cover, Gains, Request, request}
use depos.Memory.Buddy.Contract.{insert-Gains, far_enough}
use depos.Memory.System.{page_size, is_reserved, init_from, init}

-- 1 for a byte of the `k` pages from page `s` on whose page overlaps no reserved chunk, else 0
abbrev pub available : List Chunk → ℕ → ℕ → ℕ → ℕ
available reserved s k x =
    if leb (s * page_size) x
      && (ltb x ((s + k) * page_size)
          && not (is_reserved reserved (chunk (x / page_size * page_size) page_size)))
    then 1
    else 0

available-suc :
    (reserved : List Chunk) (s k x : ℕ)
    → available reserved s (suc k) x
      ≡ available reserved s k x
        + (if is_reserved reserved (chunk ((s + k) * page_size) page_size)
            then 0
            else byte_in page_size ((s + k) * page_size) x)
available-suc reserved s k x = elim (ℕ_discrete (x / page_size) (s + k)) [
  | yes e ↦ rw e (ground arith)
  | no ne ↦ ground arith
]

page_request : (minimum : ℕ) → (r : Request minimum page_size) × (r.log ≡ 12)
page_request minimum =
    let r = request minimum page_size (omega arith) in (r, ground (arith, r.gives, log2ceil_page))

module _ (minimum last : ℕ) (small : minimum ≤ 12) (large : 12 ≤ last + minimum) where
  insert_page :
      (q : ℕ) (free : Free)
      → 2 ^ (last + minimum) ≤ q * page_size
      → IsAligned minimum free
      → (free' : Free) × (Buddy.insert minimum last (q * page_size) page_size free ≡ some free')
        × Gains minimum last 12 (q * page_size) free free'
  insert_page q free far al =
      let (r, e) = page_request minimum in
      let order : bucket_of minimum r.log + minimum ≡ 12 = ground arith in
      let pages : 2 ^ (bucket_of minimum r.log + minimum) ≡ page_size = rw order refl in
      let low : bucket_of minimum r.log ≤ last = ground arith in
      let (free', ins, g) =
        insert-Gains minimum last page_size q free r (omega arith) low
          (far_enough minimum last (bucket_of minimum r.log) q low (rw pages far)) al in
      (free', rw order at ins, rw order at g)

  -- what the loop over the `k` pages from page `s` on does
  Pages : List Chunk → ℕ → ℕ → ℕ → Free → Type 0
  Pages reserved s k fuel free =
      (free' : Free) × (init_from minimum last fuel (s * page_size) reserved
          ((s + k) * page_size - page_size) free
        ≡ some free')
      × IsAligned minimum free'
      × ((x : ℕ)
          → cover minimum last free' x ≡ cover minimum last free x + available reserved s k x)

  module _ (reserved : List Chunk) (s k fuel : ℕ) (free : Free)
      (far : 2 ^ (last + minimum) ≤ s * page_size) (fits : (s + suc k) * page_size ≤ 2 ^ 64)
      (al : IsAligned minimum free) where
    top : (s + suc k) * page_size - page_size ≡ (s + k) * page_size
    top = omega arith

    more : ltb ((s + k) * page_size) (s * page_size) ≡ false
    more = le→ltb_false ((s + k) * page_size) (s * page_size) (omega arith)

    next_page :
        ((s + k) * page_size + 2 ^ 64 - page_size) % 2 ^ 64 ≡ (s + k) * page_size - page_size
    next_page = let pos = one-le-pow (last + minimum) 2 (omega arith) in omega arith

    Pages-skip :
        is_reserved reserved (chunk ((s + k) * page_size) page_size) ≡ true
        → Pages reserved s k fuel free
        → Pages reserved s (suc k) (suc fuel) free
    unfolding Pages init_from
    Pages-skip r (free', e, al', cov) = (
      free',
      rw (top, more, r, next_page) e,
      al',
      λ x. ground (arith, cov x, available-suc reserved s k x),
    )

    Pages-add :
        is_reserved reserved (chunk ((s + k) * page_size) page_size) ≡ false
        → (free1 : Free)
        → Buddy.insert minimum last ((s + k) * page_size) page_size free ≡ some free1
        → Gains minimum last 12 ((s + k) * page_size) free free1
        → Pages reserved s k fuel free1
        → Pages reserved s (suc k) (suc fuel) free
    unfolding Pages init_from
    Pages-add r free1 ins g (free', e, al', cov) = (
      free',
      rw (top, more, r, ins, next_page) e,
      al',
      λ x. ground (arith, cov x, g.covers x, available-suc reserved s k x),
    )

  init_from-Pages :
      (reserved : List Chunk) (s k fuel : ℕ) (free : Free)
      → 2 ^ (last + minimum) ≤ s * page_size
      → (s + k) * page_size ≤ 2 ^ 64
      → k < fuel
      → IsAligned minimum free
      → Pages reserved s k fuel free
  init_from-Pages reserved s zero zero free far fits enough al = absurd (omega arith)
  init_from-Pages reserved s zero (suc fuel) free far fits enough al =
      unfold Pages init_from in
      (let pos = one-le-pow (last + minimum) 2 (omega arith) in
        (
          free,
          rw (lt→ltb ((s + 0) * page_size - page_size) (s * page_size) (omega arith)) refl,
          al,
          λ x. ground arith,
        ))
  init_from-Pages reserved s (suc k) zero free far fits enough al = absurd (omega arith)
  init_from-Pages reserved s (suc k) (suc fuel) free far fits enough al =
      elim (Bool-cases (is_reserved reserved (chunk ((s + k) * page_size) page_size))) [
        | inl r ↦
            Pages-skip reserved s k fuel free far fits al r
              (init_from-Pages reserved s k fuel free far (omega arith) (omega arith) al)
        | inr r ↦
            let (free1, ins, g) = insert_page (s + k) free (omega arith) al in
            Pages-add reserved s k fuel free far fits al r free1 ins g
              (init_from-Pages reserved s k fuel free1 far (omega arith) (omega arith) g.aligned)
      ]

  -- For RAM of `k` pages from page `s` on, at or above 2 ^ MAXIMUM, `init` ends without a failed
  -- `assert`, with more fuel than pages; then a byte is free exactly once if it lies in RAM and its
  -- page overlaps no reserved chunk, and otherwise not at all.
  pub init-available :
      (reserved : List Chunk) (s k fuel : ℕ)
      → 2 ^ (last + minimum) ≤ s * page_size
      → (s + k) * page_size ≤ 2 ^ 64
      → k < fuel
      → (free : Free) × (init minimum last fuel (s * page_size) ((s + k) * page_size) reserved
          ≡ some free)
        × IsAligned minimum free
        × ((x : ℕ) → cover minimum last free x ≡ available reserved s k x)
  unfolding init Pages
  init-available reserved s k fuel far fits enough =
      let (free, e, al, cov) =
        init_from-Pages reserved s k fuel Buddy.empty far fits enough (λ n. tt) in
      (free, e, al, λ x. omega (arith, cov x, cover-empty minimum (last + 1) x))
