-- ===== src/Riscv64/Traps/Table.antt =====
-- Which handler a trap reaches.
use depos.Base.{
  ℕ, ◌+◌, ◌*◌, ◌/◌, ◌%◌, ◌^◌, ◌<◌, ◌≡◌, ◌≢◌, ◌∙◌, sym, arith, Option, some, refl, update,
  update_self, update_ne, lt→ltb,
}
use depos.Riscv64.Traps.{
  Kind, exception, interrupt, kind_value, irq_to_index, cause_of, install, dispatch,
}

-- the index of one of the 16 causes of a kind
abbrev place_of : ℕ → Kind → ℕ
place_of id exception = id
place_of id interrupt = id + 16

module _ {H : Type 0} (id : ℕ) (h : id < 16) where
  dispatch-place_of :
      (kind : Kind) (handlers : ℕ → Option H)
      → dispatch (cause_of id kind) handlers ≡ handlers (place_of id kind)
  unfolding dispatch irq_to_index kind_value
  dispatch-place_of exception handlers = ground arith
  dispatch-place_of interrupt handlers =
      let e : (9223372036854775808 + id) % 2 ^ 63 ≡ id = omega arith in
      let q : (9223372036854775808 + id) / 2 ^ 63 ≡ 1 = omega arith in
      let k : (id + 1 * 16) % 2 ^ 64 ≡ id + 16 = omega arith in
      rw (q, e, k, lt→ltb (id + 16) 32 (omega arith)) refl

module _ (id : ℕ) (h : id < 16) where
  irq_to_index-place_of : (kind : Kind) → irq_to_index id kind ≡ place_of id kind
  unfolding irq_to_index kind_value
  irq_to_index-place_of exception = omega arith
  irq_to_index-place_of interrupt = omega arith

  place_of_small : (kind : Kind) → place_of id kind < 32
  place_of_small exception = omega arith
  place_of_small interrupt = omega arith

  place_of-ne :
      (kind : Kind) (id' : ℕ) (kind' : Kind)
      → id' < 16
      → cause_of id' kind' ≢ cause_of id kind
      → place_of id' kind' ≢ place_of id kind
  place_of-ne exception id' exception h' n e = n e
  place_of-ne exception id' interrupt h' n e = absurd (omega arith)
  place_of-ne interrupt id' exception h' n e = absurd (omega arith)
  place_of-ne interrupt id' interrupt h' n e = n (omega arith)

module _ {H : Type 0} (id : ℕ) (h : id < 16) where
  -- A handler for one of the 16 interrupts or exceptions is installed, a trap with that cause reaches it, and every other
  -- of these traps reaches what it reached before.
  pub dispatch-install :
      (kind : Kind) (handler : H) (handlers : ℕ → Option H)
      → (handlers' : ℕ → Option H) × (install id handler kind handlers ≡ some handlers')
        × (dispatch (cause_of id kind) handlers' ≡ some handler)
        × ((id' : ℕ) (kind' : Kind)
            → id' < 16
            → cause_of id' kind' ≢ cause_of id kind
            → dispatch (cause_of id' kind') handlers' ≡ dispatch (cause_of id' kind') handlers)
  unfolding install
  dispatch-install kind handler handlers =
      let handlers' = update handlers (place_of id kind) (some handler) in
      (
        handlers',
        rw
            (
              irq_to_index-place_of id h kind,
              lt→ltb (place_of id kind) 32 (place_of_small id h kind),
            )
            refl,
        dispatch-place_of id h kind handlers'
            ∙ update_self handlers (place_of id kind) (some handler),
        λ id' kind' h' n.
            dispatch-place_of id' h' kind' handlers'
            ∙ (update_ne handlers (place_of id kind) (some handler) (place_of id' kind')
                  (place_of-ne id h kind id' kind' h' n)
                ∙ sym (dispatch-place_of id' h' kind' handlers)),
      )
