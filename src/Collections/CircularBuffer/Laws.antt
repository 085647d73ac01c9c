-- ===== src/Collections/CircularBuffer/Laws.antt =====
-- A circular buffer behaves as a bounded queue that overwrites its oldest element.
use depos.Base.{
  ℕ, zero, suc, ◌+◌, ◌-◌, ◌%◌, ◌<◌, ◌≤◌, ◌≡◌, ◌≢◌, refl, Bool, true, false, Option, none, some,
  List, [], ◌∷◌, ◌++◌, ◌==◌, if◌then◌else◌, update, length, drop, arith, ap, ap₂, inl, inr, ◌∙◌,
  update_self, update_ne, sym, subst, eq-cases,
}
use native.Mathlib.Nat.{mod-add-mod, mod-eq_of_lt, mod-eq-sub-mod, add-zero}
use native.Mathlib.Decide.{dec_lt}
use depos.Collections.CircularBuffer.{CircularBuffer, insert, remove}

module _ {ℓ} {A : Type ℓ} (capacity : ℕ) where
  -- The indices stay below the capacity, and the tail is `size` places behind the head.
  pub record IsValid (b : CircularBuffer A) : Type 0 where
    pub head_in : b.head < capacity
    pub size_in : b.size ≤ capacity
    pub tail_at : b.tail ≡ (b.head + b.size) % capacity

  -- the `n` elements from index `h` on, going round at the capacity
  abbrev pub window : (ℕ → A) → ℕ → ℕ → List A
  window buffer h zero = []
  window buffer h (suc n) = buffer h ∷ window buffer ((h + 1) % capacity) n

  -- the elements, the oldest first
  abbrev pub contents : CircularBuffer A → List A
  contents b = window b.buffer b.head b.size

  -- the bounded queue
  unfoldable pub push : A → List A → Bool × List A
  push x q = if length q == capacity then (false, drop 1 q ++ (x ∷ [])) else (true, q ++ (x ∷ []))

  unfoldable pub pop : List A → Option A × List A
  pop [] = (none, [])
  pop (x ∷ q) = (some x, q)

  length-window : (buffer : ℕ → A) (h n : ℕ) → length (window buffer h n) ≡ n
  length-window buffer h zero = refl
  length-window buffer h (suc n) = ap suc (length-window buffer ((h + 1) % capacity) n)

  window_of_pos :
      (buffer : ℕ → A) (h n : ℕ)
      → n ≢ 0
      → window buffer h n ≡ buffer h ∷ window buffer ((h + 1) % capacity) (n - 1)
  window_of_pos buffer h zero ne = absurd (ne refl)
  window_of_pos buffer h (suc n) ne = ap (λ k. window buffer h (suc k)) (omega arith)

-- Fewer steps than the capacity do not come back to the start.
add-mod-ne : (capacity h k : ℕ) → h < capacity → suc k < capacity → (h + suc k) % capacity ≢ h
add-mod-ne capacity h k hh hk = elim (dec_lt (h + suc k) capacity) [
  | yes p ↦ omega (arith, mod-eq_of_lt p)
  | no p ↦ omega (
    arith,
    mod-eq-sub-mod {n = h + suc k} {m = capacity} (omega arith),
    mod-eq_of_lt {n = h + suc k - capacity} {m = capacity} (omega arith),
  )
]

next-lt : (capacity h : ℕ) → h < capacity → (h + 1) % capacity < capacity
next-lt capacity h hh = omega arith

step_index : (capacity h n : ℕ) → (h + suc n) % capacity ≡ ((h + 1) % capacity + n) % capacity
step_index capacity h n = rw mod-add-mod (ap (λ k. k % capacity) (omega arith))

wrap_full : (capacity h : ℕ) → h < capacity → (h + capacity) % capacity ≡ h
wrap_full capacity h hh = grind arith

module _ {ℓ} {A : Type ℓ} (capacity : ℕ) where
  -- A write just behind a window that is not full extends it.
  window-update :
      (buffer : ℕ → A) (x : A) (n h i : ℕ)
      → h < capacity
      → n < capacity
      → i ≡ (h + n) % capacity
      → window capacity (update buffer i x) h (suc n) ≡ window capacity buffer h n ++ (x ∷ [])
  window-update buffer x zero h i hh hn e =
      rw (e, add-zero, mod-eq_of_lt hh, update_self buffer h x) refl
  window-update buffer x (suc n) h i hh hn e =
      ap₂ ◌∷◌ (update_ne buffer i x h (rw e (λ q. add-mod-ne capacity h n hh hn (sym q)))) (
        window-update buffer x n ((h + 1) % capacity) i (next-lt capacity h hh) (omega arith)
          (e ∙ step_index capacity h n))

  module _ (x : A) (b : CircularBuffer A) (v : IsValid capacity b) where
    full_tail : b.size ≡ capacity → b.tail ≡ b.head
    full_tail full =
        v.tail_at ∙ (ap (λ n. (b.head + n) % capacity) full ∙ wrap_full capacity b.head v.head_in)

    -- Overwriting the oldest element of a full window moves the window on by one.
    window-full :
        (m : ℕ)
        → capacity ≡ suc m
        → window capacity (update b.buffer b.head x) ((b.head + 1) % capacity) capacity
          ≡ window capacity b.buffer ((b.head + 1) % capacity) m ++ (x ∷ [])
    window-full m e =
        ap (window capacity (update b.buffer b.head x) ((b.head + 1) % capacity)) e
        ∙ window-update b.buffer x m ((b.head + 1) % capacity) b.head
            (next-lt capacity b.head v.head_in) (omega arith)
            (sym (wrap_full capacity b.head v.head_in)
              ∙ (ap (λ k. (b.head + k) % capacity) e ∙ step_index capacity b.head m))

    written_full : CircularBuffer A
    written_full = record b {
      buffer = update b.buffer b.tail x;
      tail = (b.tail + 1) % capacity;
      head = (b.head + 1) % capacity;
    }

    written_room : CircularBuffer A
    written_room = record b {
      buffer = update b.buffer b.tail x;
      tail = (b.tail + 1) % capacity;
      size = b.size + 1;
    }

    insert_at_full : b.size ≡ capacity → insert capacity x b ≡ (false, written_full)
    unfolding insert written_full
    insert_at_full full = ground arith

    insert_at_room : b.size ≢ capacity → insert capacity x b ≡ (true, written_room)
    unfolding insert written_room
    insert_at_room room = ground arith

    contents-full :
        (m : ℕ)
        → b.size ≡ capacity
        → capacity ≡ suc m
        → contents capacity written_full ≡ drop 1 (contents capacity b) ++ (x ∷ [])
    unfolding written_full
    contents-full m full e =
        rw (full_tail full, full)
          (window-full m e
            ∙ ap (λ (l : List A). drop 1 l ++ (x ∷ []))
                (sym (ap (window capacity b.buffer b.head) e)))

    contents-room :
        b.size ≢ capacity → contents capacity written_room ≡ contents capacity b ++ (x ∷ [])
    unfolding written_room
    contents-room room =
        let e : b.size + 1 ≡ suc b.size = omega arith in
        rw e (
          window-update b.buffer x b.size b.head b.tail v.head_in (omega (arith, v.size_in))
            v.tail_at)

    next_tail : (b.tail + 1) % capacity ≡ (b.head + b.size + 1) % capacity
    next_tail = rw (v.tail_at, mod-add-mod) refl

    IsValid-full : b.size ≡ capacity → IsValid capacity written_full
    unfolding written_full
    IsValid-full full = record {
      head_in = next-lt capacity b.head v.head_in;
      size_in = v.size_in;
      tail_at =
          next_tail ∙ (ap (λ k. k % capacity) (omega arith) ∙ step_index capacity b.head b.size);
    }

    IsValid-room : b.size ≢ capacity → IsValid capacity written_room
    unfolding written_room
    IsValid-room room = record {
      head_in = v.head_in;
      size_in = omega (arith, v.size_in);
      tail_at = next_tail ∙ ap (λ k. k % capacity) {x = b.head + b.size + 1} (omega arith);
    }

module _ {ℓ} {A : Type ℓ} (capacity : ℕ) where
  abbrev pub Pushed : A → CircularBuffer A → Bool × CircularBuffer A → Type ℓ
  Pushed x b (answer, b') =
      ((answer, contents capacity b') ≡ push capacity x (contents capacity b)) × IsValid capacity b'

  push_at_full :
      (x : A) (q : List A) → length q ≡ capacity → push capacity x q ≡ (false, drop 1 q ++ (x ∷ []))
  unfolding push
  push_at_full x q e = ground arith

  push_at_room :
      (x : A) (q : List A) → length q ≢ capacity → push capacity x q ≡ (true, q ++ (x ∷ []))
  unfolding push
  push_at_room x q e = ground arith

  -- `insert` is the push of a bounded queue that loses its oldest element when it is full and then
  -- answers false, and the buffer stays valid.
  pub insert-push :
      (x : A) (b : CircularBuffer A) → IsValid capacity b → Pushed x b (insert capacity x b)
  insert-push x b v =
      let n = length-window capacity b.buffer b.head b.size in
      elim (eq-cases b.size capacity) [
        | inl e ↦ subst (Pushed x b) (sym (insert_at_full capacity x b v e)) (
          (ap (λ l. (false, l))
                (contents-full capacity x b v (capacity - 1) e (omega (arith, v.head_in)))
              ∙ sym (push_at_full x (contents capacity b) (n ∙ e))),
          IsValid-full capacity x b v e,
        )
        | inr ne ↦ subst (Pushed x b) (sym (insert_at_room capacity x b v ne)) (
          (ap (λ l. (true, l)) (contents-room capacity x b v ne)
              ∙ sym (push_at_room x (contents capacity b) (λ e. ne (sym n ∙ e)))),
          IsValid-room capacity x b v ne,
        )
      ]

  pop_nil : (none, []) ≡ pop {A = A} capacity []
  unfolding pop
  pop_nil = refl

  abbrev pub Popped : CircularBuffer A → Option A × CircularBuffer A → Type ℓ
  Popped b (answer, b') =
      ((answer, contents capacity b') ≡ pop capacity (contents capacity b)) × IsValid capacity b'

  taken : CircularBuffer A → CircularBuffer A
  taken b = record b { head = (b.head + 1) % capacity; size = b.size - 1 }

  remove-none : (b : CircularBuffer A) → b.size ≡ 0 → remove capacity b ≡ (none, b)
  unfolding remove
  remove-none b e = ground arith

  remove-some :
      (b : CircularBuffer A) → b.size ≢ 0 → remove capacity b ≡ (some (b.buffer b.head), taken b)
  unfolding remove taken
  remove-some b ne = ground arith

  IsValid-taken :
      (b : CircularBuffer A) → IsValid capacity b → b.size ≢ 0 → IsValid capacity (taken b)
  unfolding taken
  IsValid-taken b v ne = record {
    head_in = next-lt capacity b.head v.head_in;
    size_in = omega (arith, v.size_in);
    tail_at =
        v.tail_at
        ∙ (ap (λ k. (b.head + k) % capacity) {x = b.size} {y = suc (b.size - 1)} (omega arith)
            ∙ step_index capacity b.head (b.size - 1));
  }

  pop_window_none :
      (b : CircularBuffer A)
      → b.size ≡ 0
      → (none, contents capacity b) ≡ pop capacity (contents capacity b)
  pop_window_none b e =
      subst
        (λ n.
          (none, window capacity b.buffer b.head n)
          ≡ pop capacity (window capacity b.buffer b.head n))
        (sym e) pop_nil

  pop_window_some :
      (b : CircularBuffer A)
      → b.size ≢ 0
      → (some (b.buffer b.head), contents capacity (taken b)) ≡ pop capacity (contents capacity b)
  unfolding taken pop
  pop_window_some b ne = rw (window_of_pos capacity b.buffer b.head b.size ne) refl

  -- `remove` takes the oldest element, or answers false when there is none, and the buffer stays
  -- valid.
  pub remove-pop : (b : CircularBuffer A) → IsValid capacity b → Popped b (remove capacity b)
  remove-pop b v = elim (eq-cases b.size 0) [
    | inl e ↦ subst (Popped b) (sym (remove-none b e)) (pop_window_none b e, v)
    | inr ne ↦
        subst (Popped b) (sym (remove-some b ne)) (pop_window_some b ne, IsValid-taken b v ne)
  ]
