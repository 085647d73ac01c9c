-- ===== src/Hypervisor/Virtio/Registers.antt =====
-- What the registers of a device keep.
use native.Mathlib.Nat.{mod-eq_of_lt, mul-div_cancel, le-mul_of_pos_right}
use depos.Base.{
  ◌^◌, ℕ, ◌*◌, ◌%◌, ◌<◌, ◌≡◌, ◌==◌, ltb, if◌then◌else◌, refl, ap, arith, Bool, true, false, ◌||◌,
  ◌&&◌, some, update, subst, update_self, ne→==_false,
}
use depos.Memory.Chunk.{Chunk, chunk, contains_chunk}
use depos.Hypervisor.Queue.{queue, size_of}
use depos.Hypervisor.Virtio.{
  Device, Outcome, refused, panicked, written, get_pfn, set_pfn, read, write, is_writable,
}

-- the words that identify the device: magic, version, kind, vendor, features and the size of a queue
abbrev pub is_identity : ℕ → Bool
is_identity i = ltb i 5 || (i == 13)

abbrev pub Keeps : (ℕ → ℕ) → Outcome → Type 0
Keeps header refused = Unit {0}
Keeps header panicked = Unit {0}
Keeps header (written d) = (i : ℕ) → is_identity i ≡ true → d.header i ≡ header i

Keeps-if :
    (header : ℕ → ℕ) (b : Bool) (x y : Outcome)
    → (b ≡ true → Keeps header x)
    → (b ≡ false → Keeps header y)
    → Keeps header (if b then x else y)
Keeps-if header true x y f g = f refl
Keeps-if header false x y f g = g refl

value_bound : (value size : ℕ) → 0 < size → value * size < 4294967296 → value < 4294967296
value_bound value size p h = omega (arith, le-mul_of_pos_right value p)

device_of : Device → Outcome → Device
device_of d refused = d
device_of d panicked = d
device_of d (written d') = d'

if_written :
    (b : Bool) (d d' : Device)
    → (if b then written d else panicked) ≡ written d'
    → (b ≡ true) × (d ≡ d')
unfolding device_of
if_written true d d' e = (refl, ap (device_of d) e)
if_written false d d' e = absurd (ground arith)

module _ (memory : Chunk) (notify : ℕ → Device → Device) where
  set_pfn-Keeps : (value : ℕ) (d : Device) → Keeps d.header (set_pfn memory value d)
  unfolding set_pfn
  set_pfn-Keeps value d =
      Keeps-if d.header
        (ltb (d.header 12) 2
          && contains_chunk memory
              (chunk (value * d.header 10 % 4294967296) (size_of (d.header 14) (d.header 15))))
        _ _ (λ e. λ i h. ground arith) (λ e. tt)

  -- No write changes a word that identifies the device, if no notification does.
  pub write-Keeps :
      ((k : ℕ) (d : Device) (i : ℕ) → is_identity i ≡ true → (notify k d).header i ≡ d.header i)
      → (offset value : ℕ) (d : Device) → Keeps d.header (write memory notify offset value d)
  unfolding write
  write-Keeps n offset value d =
      Keeps-if d.header (is_writable offset) _ _ (λ e. λ i h. ground arith)
        (λ _.
          Keeps-if d.header (offset == 64) _ _ (λ _. set_pfn-Keeps value d)
            (λ _.
              Keeps-if d.header (offset == 100) _ _ (λ _. λ i h. ground arith)
                (λ _. Keeps-if d.header (offset == 80) _ _ (λ _. λ i h. n value d i h) (λ _. tt))))

  -- the device after a page number was taken
  unfoldable pub with_queue : ℕ → Device → Device
  with_queue value d = record {
    header = update d.header 16 value;
    queues =
        update d.queues (d.header 12)
          (queue (value * d.header 10 % 4294967296) (d.header 14) (d.header 15));
  }

  -- the queue that is selected is one of both, and lies in the memory of the machine
  abbrev pub IsPlaced : Device → Type 0
  IsPlaced d =
      (d.header 12 < 2)
      × (contains_chunk memory (
            chunk (d.queues (d.header 12)).address
              (size_of (d.queues (d.header 12)).size (d.header 15)))
          ≡ true)

  write_pfn :
      (value : ℕ) (d d' : Device)
      → write memory notify 64 value d ≡ written d'
      → ((ltb (d.header 12) 2
            && contains_chunk memory
                (chunk (value * d.header 10 % 4294967296) (size_of (d.header 14) (d.header 15))))
          ≡ true)
        × (with_queue value d ≡ d')
  unfolding write set_pfn with_queue
  write_pfn value d d' e =
      if_written
        (ltb (d.header 12) 2
          && contains_chunk memory
              (chunk (value * d.header 10 % 4294967296) (size_of (d.header 14) (d.header 15))))
        (with_queue value d) d' e

  with_queue-read :
      (value : ℕ) (d : Device)
      → 0 < d.header 10
      → value * d.header 10 < 4294967296
      → read memory notify 64 (with_queue value d) ≡ some value
  unfolding read get_pfn with_queue queue
  with_queue-read value d p h =
      let q = queue (value * d.header 10 % 4294967296) (d.header 14) (d.header 15) in
      let big : value * d.header 10 < 2 ^ 64 = omega arith in
      rw
        (
          update_self d.queues (d.header 12) q,
          ne→==_false (d.header 10) 0 (λ z. absurd (omega arith)),
          mod-eq_of_lt h,
          mul-div_cancel value p,
        )
        (ap some (mod-eq_of_lt (value_bound value (d.header 10) p h)))

  with_queue-IsPlaced :
      (value : ℕ) (d : Device)
      → (ltb (d.header 12) 2
          && contains_chunk memory
              (chunk (value * d.header 10 % 4294967296) (size_of (d.header 14) (d.header 15))))
        ≡ true
      → IsPlaced (with_queue value d)
  unfolding with_queue queue
  with_queue-IsPlaced value d h =
      let q = queue (value * d.header 10 % 4294967296) (d.header 14) (d.header 15) in
      rw (update_self d.queues (d.header 12) q) (ground arith, ground arith)

  -- A page number that a write takes is read back where it does not overflow, and the queue lies in the
  -- memory of the machine.
  pub read-write_pfn :
      (value : ℕ) (d d' : Device)
      → write memory notify 64 value d ≡ written d'
      → 0 < d.header 10
      → value * d.header 10 < 4294967296
      → (read memory notify 64 d' ≡ some value) × IsPlaced d'
  read-write_pfn value d d' e p h =
      let (ok, same) = write_pfn value d d' e in
      subst (λ k. (read memory notify 64 k ≡ some value) × IsPlaced k) same
        (with_queue-read value d p h, with_queue-IsPlaced value d ok)
