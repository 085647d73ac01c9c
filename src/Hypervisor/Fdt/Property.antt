-- ===== src/Hypervisor/Fdt/Property.antt =====
-- What a property leaves in the buffer of a device tree.
use depos.Base.{
  le→leb, ℕ, zero, suc, ◌+◌, ◌-◌, ◌%◌, ◌^◌, ◌<◌, ◌≤◌, ◌≡◌, ◌⊎◌, inl, inr, ◌==◌, ltb, leb, ◌&&◌,
  true, not, none, some, List, [], ◌∷◌, ◌++◌, length, arith, refl, sym, ap, ap₂, ◌∙◌, length-append,
  Bool-cases,
}
use depos.Hypervisor.Devices.{store, bytes}
use depos.Hypervisor.Fdt.{
  Builder, append, write32, align_from, align, add_string, add_property, big_endian32,
}
use depos.Hypervisor.Fdt.Stores.{bytes-frame, layers, layers-front, layers-back}

-- What `align` leaves: only bytes between the cursors are written.
record Aligned (b b' : Builder) : Type 0 where
  further : b.cursor ≤ b'.cursor
  within : b'.cursor ≤ b.strings_cursor
  aligned : (b'.cursor % 4 ≡ 0) ⊎ (b'.cursor ≡ b.strings_cursor)
  strings : b'.strings_cursor ≡ b.strings_cursor
  same : (j : ℕ) → (j < b.cursor) ⊎ (b.strings_cursor ≤ j) → b'.buffer j ≡ b.buffer j

align_from-Aligned :
    (k : ℕ) (b : Builder)
    → b.cursor ≤ b.strings_cursor
    → (4 - b.cursor % 4) % 4 ≤ k
    → Aligned b (align_from k 4 b)
unfolding align_from append
align_from-Aligned zero b h f = record {
  further = omega arith;
  within = h;
  aligned = inl (omega arith);
  strings = refl;
  same = λ j o. refl;
}
align_from-Aligned (suc k) b h f =
    elim (Bool-cases (not (b.cursor % 4 == 0) && ltb b.cursor b.strings_cursor)) [
      | inr stop ↦ rw stop record {
        further = omega arith;
        within = h;
        aligned = ground arith;
        strings = refl;
        same = λ j o. refl;
      }
      | inl go ↦
          let r = align_from-Aligned k (append (0 ∷ []) b) (ground arith) (ground arith) in
          rw go record {
            further = omega (arith, r.further);
            within = r.within;
            aligned = r.aligned;
            strings = r.strings;
            same = λ j o. r.same j (ground arith) ∙ ground arith;
          }
    ]

write32_fits :
    (v : ℕ) (b : Builder)
    → b.cursor + 4 ≤ b.strings_cursor
    → write32 v b ≡ some (append (big_endian32 v) b)
unfolding write32
write32_fits v b h = ground arith

add_string_fits :
    (string : List ℕ) (b : Builder)
    → b.cursor + (length string + 1) ≤ b.strings_cursor
    → let at = b.strings_cursor - (length string + 1) in
      add_string string b
      ≡ some (
        (b.capacity - at) % 4294967296,
        record b { strings_cursor = at; buffer = store (string ++ (0 ∷ [])) at b.buffer },
      )
unfolding add_string
add_string_fits string b h = rw (le→leb (b.cursor + (length string + 1)) b.strings_cursor h) refl

-- What a property leaves: its tag, the length of its value, the place of its name, counted from the
-- end of the buffer, and its value stand at the old cursor, and its name stands in front of the
-- names before. The new cursor is aligned, or the names follow at once.
pub record Added (name value : List ℕ) (b b' : Builder) : Type 0 where
  pub tag : bytes b'.buffer b.cursor 4 ≡ big_endian32 3
  pub size : bytes b'.buffer (b.cursor + 4) 4 ≡ big_endian32 (length value)
  pub place :
      bytes b'.buffer (b.cursor + 8) 4 ≡ big_endian32 ((b.capacity - b'.strings_cursor) % 2 ^ 32)
  pub content : bytes b'.buffer (b.cursor + 12) (length value) ≡ value
  pub label : bytes b'.buffer b'.strings_cursor (length name + 1) ≡ name ++ (0 ∷ [])
  pub strings : b'.strings_cursor ≡ b.strings_cursor - (length name + 1)
  pub further : b.cursor + 12 + length value ≤ b'.cursor
  pub within : b'.cursor ≤ b'.strings_cursor
  pub aligned : (b'.cursor % 4 ≡ 0) ⊎ (b'.cursor ≡ b'.strings_cursor)
  pub same : (j : ℕ) → (j < b.cursor) ⊎ (b.strings_cursor ≤ j) → b'.buffer j ≡ b.buffer j

module _ (name value : List ℕ) (b : Builder) where
  abbrev at : ℕ
  at = b.strings_cursor - (length name + 1)

  name_offset : ℕ
  name_offset = (b.capacity - at) % 4294967296

  -- behind each step
  tagged : Builder
  tagged = append (big_endian32 3) b

  sized : Builder
  sized = append (big_endian32 (length value)) tagged

  named : Builder
  named = record sized { strings_cursor = at; buffer = store (name ++ (0 ∷ [])) at sized.buffer }

  pointed : Builder
  pointed = append (big_endian32 name_offset) named

  filled : Builder
  filled = append value pointed

  positions :
      (tagged.cursor ≡ b.cursor + 4)
      × (sized.cursor ≡ b.cursor + 8)
      × (named.cursor ≡ b.cursor + 8)
      × (pointed.cursor ≡ b.cursor + 12)
      × (filled.cursor ≡ b.cursor + 12 + length value)
  unfolding tagged sized named pointed filled append
  positions = (refl, omega arith, omega arith, omega arith, omega arith)

  ends :
      (tagged.strings_cursor ≡ b.strings_cursor)
      × (sized.strings_cursor ≡ b.strings_cursor)
      × (sized.capacity ≡ b.capacity)
      × (named.strings_cursor ≡ at)
      × (pointed.strings_cursor ≡ at)
      × (filled.strings_cursor ≡ at)
  unfolding tagged sized named pointed filled append
  ends = (refl, refl, refl, refl, refl, refl)

  abbrev written : ℕ → ℕ
  written =
      layers (big_endian32 3) (big_endian32 (length value)) (name ++ (0 ∷ []))
        (big_endian32 name_offset) value b.cursor at b.buffer

  module _ (room : b.cursor + 12 + length value + (length name + 1) ≤ b.strings_cursor) where
    steps :
        (write32 3 b ≡ some tagged)
        × (write32 (length value) tagged ≡ some sized)
        × (add_string name sized ≡ some (name_offset, named))
        × (write32 name_offset named ≡ some pointed)
        × (leb (pointed.cursor + length value) pointed.strings_cursor ≡ true)
    unfolding tagged sized named pointed name_offset append
    steps =
        let (p1, p2, p3, p4, p5) = positions in
        let (e1, e2, e3, e4, e5, e6) = ends in
        (
          write32_fits 3 b (omega arith),
          write32_fits (length value) tagged (omega (arith, p1, e1)),
          add_string_fits name sized (omega (arith, p2, e2)),
          write32_fits name_offset named (omega (arith, p3, e4)),
          le→leb (pointed.cursor + length value) pointed.strings_cursor (omega (arith, p4, e5)),
        )

    add_property_lem : add_property name value b ≡ some (align 4 filled)
    unfolding add_property filled
    add_property_lem = let (s1, s2, s3, s4, s5) = steps in rw (s1, s2, s3, s4, s5) refl

    filled_buffer : filled.buffer ≡ written
    unfolding tagged sized named pointed filled append layers
    filled_buffer =
        let xs = big_endian32 3 in
        let ys = big_endian32 (length value) in
        let zs = big_endian32 name_offset in
        ap₂
          (λ (p q : ℕ). store value p (
            store zs q
              (store (name ++ (0 ∷ [])) at (store ys (b.cursor + 4) (store xs b.cursor b.buffer)))))
          {x = b.cursor + 4 + 4 + 4} {y = b.cursor + 12} (omega arith) (omega arith)

    built : Builder
    built = align 4 filled

    built-Aligned : Aligned filled built
    unfolding built align
    built-Aligned =
        let (p1, p2, p3, p4, p5) = positions in
        let (e1, e2, e3, e4, e5, e6) = ends in
        align_from-Aligned 4 filled (omega (arith, p5, e6)) (omega arith)

    -- The alignment writes between the cursors only.
    kept :
        (a n : ℕ)
        → (a + n ≤ b.cursor + 12 + length value) ⊎ (at ≤ a)
        → bytes built.buffer a n ≡ bytes written a n
    kept a n o =
        let (p1, p2, p3, p4, p5) = positions in
        let (e1, e2, e3, e4, e5, e6) = ends in
        bytes-frame n a filled.buffer built.buffer
          (λ j l u. built-Aligned.same j (ground (arith, p5, e6)))
        ∙ ap (λ (m : ℕ → ℕ). bytes m a n) filled_buffer

    built-Added : Added name value b built
    unfolding name_offset
    built-Added =
        let (p1, p2, p3, p4, p5) = positions in
        let (e1, e2, e3, e4, e5, e6) = ends in
        let text : length (name ++ (0 ∷ [])) ≡ length name + 1 = length-append name (0 ∷ []) in
        let front =
          layers-front (big_endian32 3) (big_endian32 (length value)) (name ++ (0 ∷ []))
            (big_endian32 name_offset) value b.cursor at b.buffer refl refl refl (omega arith) in
        let back =
          layers-back (big_endian32 3) (big_endian32 (length value)) (name ++ (0 ∷ []))
            (big_endian32 name_offset) value b.cursor at b.buffer refl refl refl (omega arith) in
        let last : built.strings_cursor ≡ at = built-Aligned.strings ∙ e6 in
        record {
          tag = kept b.cursor 4 (inl (omega arith)) ∙ front.0;
          size = kept (b.cursor + 4) 4 (inl (omega arith)) ∙ front.1;
          place = rw last (kept (b.cursor + 8) 4 (inl (omega arith)) ∙ front.2);
          content = kept (b.cursor + 12) (length value) (inl (omega arith)) ∙ back.0;
          label = rw last (
              kept at (length name + 1) (inr (omega arith))
              ∙ (ap (λ (k : ℕ). bytes written at k) (sym text) ∙ back.1));
          strings = last;
          further = omega (arith, built-Aligned.further, p5);
          within = omega (arith, built-Aligned.within, last, e6);
          aligned = ground (arith, built-Aligned.aligned, last, e6);
          same = λ j o.
              built-Aligned.same j (ground (arith, p5, e6))
              ∙ (ap (λ (m : ℕ → ℕ). m j) filled_buffer ∙ back.2 j (ground (arith, text)));
        }

full_lem :
    (name value : List ℕ) (b : Builder)
    → b.strings_cursor < b.cursor + 12 + length value + (length name + 1)
    → add_property name value b ≡ none
unfolding add_property write32 add_string append
full_lem name value b full = ground arith

-- what `add_property` does
abbrev pub Adds : List ℕ → List ℕ → Builder → Type 0
Adds name value b =
    let end = b.cursor + 12 + length value + (length name + 1) in
    ((end ≤ b.strings_cursor)
      × (b' : Builder) × (add_property name value b ≡ some b')
      × Added name value b b')
    ⊎ ((b.strings_cursor < end) × (add_property name value b ≡ none))

-- `add_property` ends where the property and its name fit between the cursors of a builder, and leaves what
-- `Added` says; where they do not fit, an assertion fails.
pub add_property-Adds : (name value : List ℕ) (b : Builder) → Adds name value b
unfolding built
add_property-Adds name value b =
    elim (Bool-cases (leb (b.cursor + 12 + length value + (length name + 1)) b.strings_cursor)) [
      | inl fits ↦
          let room : b.cursor + 12 + length value + (length name + 1) ≤ b.strings_cursor =
            ground arith in
          inl (
            room,
            built name value b room,
            add_property_lem name value b room,
            built-Added name value b room,
          )
      | inr short ↦
          let full : b.strings_cursor < b.cursor + 12 + length value + (length name + 1) =
            ground arith in
          inr (full, full_lem name value b full)
    ]
