-- ===== src/Drivers/Ethernet/Driver/Init.antt =====
-- The rings after the constructor.
use depos.Base.{
  ℕ, zero, suc, ◌+◌, ◌-◌, ◌^◌, ◌<◌, ◌≤◌, ◌≡◌, arith, ◌∙◌, sym, ap, subst, refl, List, [], ◌∷◌, ◌++◌,
  length, length-append, update, append_assoc, append-nil,
}
use depos.Drivers.Ethernet.{Layout, Dma, release}
use depos.Drivers.Ethernet.Driver.{
  construct_from, prepare_sends, release_from, set_rings, set_bits, put_word, dma, cleared,
}
use depos.Drivers.Ethernet.Receive.{IsRing, release-IsRing, release-fields}

-- the values of `f` at `n` numbers from `i` on
unfoldable pub values : (ℕ → ℕ) → ℕ → ℕ → List ℕ
values f i zero = []
values f i (suc n) = f i ∷ values f (i + 1) n

length-values : (f : ℕ → ℕ) (i n : ℕ) → length (values f i n) ≡ n
unfolding values
length-values f i zero = refl
length-values f i (suc n) = omega (arith, length-values f (i + 1) n)

values-last : (f : ℕ → ℕ) (i n : ℕ) → values f i n ++ (f (i + n) ∷ []) ≡ values f i (suc n)
unfolding values
values-last f i zero = let e : i + 0 ≡ i = omega arith in rw e refl
values-last f i (suc n) =
    let e : i + suc n ≡ i + 1 + n = omega arith in
    rw e (ap (λ l. f i ∷ l) (values-last f (i + 1) n))

module _ (t : Layout) where
  prepare_sends-fields :
      (n i : ℕ) (s : Dma)
      → ((prepare_sends t n i s).sx_list ≡ s.sx_list ++ values t.sx_buffers i n)
        × ((prepare_sends t n i s).rx_tail ≡ s.rx_tail)
        × ((prepare_sends t n i s).rx_head ≡ s.rx_head)
  unfolding prepare_sends values
  prepare_sends-fields zero i s = (sym (append-nil s.sx_list), refl, refl)
  prepare_sends-fields (suc n) i s =
      let s' : Dma = record s {
        sx = update s.sx i cleared;
        sx_list = s.sx_list ++ (t.sx_buffers i ∷ []);
      } in
      let (sends, tail, head) = prepare_sends-fields n (i + 1) s' in
      (
        sends ∙ append_assoc s.sx_list (t.sx_buffers i ∷ []) (values t.sx_buffers (i + 1) n),
        tail,
        head,
      )

  release-sends : (b : ℕ) (s : Dma) → (release t b s).sx_list ≡ s.sx_list
  unfolding release
  release-sends b s = refl

  release_from-IsRing :
      (n i : ℕ) (bs : List ℕ) (s : Dma)
      → IsRing t 0 bs 0 s
      → ((j : ℕ) → j < t.receive_count → t.rx_buffers j < 2 ^ 64)
      → i + n ≤ t.receive_count
      → length bs ≡ i
      → IsRing t 0 (bs ++ values t.rx_buffers i n) 0 (release_from t n i s)
        × ((release_from t n i s).rx_head ≡ s.rx_head)
        × ((release_from t n i s).sx_list ≡ s.sx_list)
  unfolding release_from values
  release_from-IsRing zero i bs s r v l e = (rw (append-nil bs) r, refl, refl)
  release_from-IsRing (suc n) i bs s r v l e =
      let b = t.rx_buffers i in
      let r' =
        release-IsRing t 0 bs 0 b s r (v i (omega arith)) (omega arith)
          (omega (arith, r.tail_at, r.bounded)) in
      let f = release-fields t b s (omega (arith, r.tail_at, r.bounded)) in
      let (ring, head, sends) =
        release_from-IsRing n (i + 1) (bs ++ (b ∷ [])) (release t b s) r' v (omega arith)
          (omega (arith, length-append bs (b ∷ []))) in
      (
        rw (append_assoc bs (b ∷ []) (values t.rx_buffers (i + 1) n)) at ring,
        head ∙ f.1,
        sends ∙ release-sends b s,
      )

  set_rings-IsRing : (bs : List ℕ) (s : Dma) → IsRing t 0 bs 0 s → IsRing t 0 bs 0 (set_rings t s)
  unfolding set_rings set_bits put_word
  set_rings-IsRing bs s r = record {
    slots = r.slots;
    tail_at = r.tail_at;
    room = r.room;
    sized = r.sized;
    bounded = r.bounded;
  }

  set_rings-fields :
      (s : Dma) → ((set_rings t s).rx_head ≡ s.rx_head) × ((set_rings t s).sx_list ≡ s.sx_list)
  unfolding set_rings set_bits put_word
  set_rings-fields s = (refl, refl)

  -- With at least one and at most 2^63 buffers for the receiver, all at addresses of 64 bits, the constructor leaves every
  -- buffer of the receiver in its ring, in order and for the device to fill, and every buffer of the sender on the list.
  pub dma-IsRing :
      (s : Dma)
      → 0 < t.receive_count
      → t.receive_count ≤ 2 ^ 63
      → ((j : ℕ) → j < t.receive_count → t.rx_buffers j < 2 ^ 64)
      → IsRing t 0 (values t.rx_buffers 0 t.receive_count) 0 (dma t s)
        × ((dma t s).rx_head ≡ 0)
        × ((dma t s).sx_list ≡ values t.sx_buffers 0 t.send_count)
  unfolding dma
  dma-IsRing s some_left bound v =
      let n = t.receive_count in
      let s0 : Dma = record s {
        sx_list = [];
        sx_head = 0;
        sx_tail = 0;
        rx_head = 0;
        rx_tail = 0;
        buffers =
            construct_from t.rx_buffers t.receive_count 0
              (construct_from t.sx_buffers t.send_count 0 s.buffers);
      } in
      let s1 = prepare_sends t t.send_count 0 s0 in
      let (sends, tail, head) = prepare_sends-fields t.send_count 0 s0 in
      let r1 : IsRing t 0 [] 0 s1 = record {
        slots = refl;
        tail_at = tail;
        room = omega arith;
        sized = some_left;
        bounded = bound;
      } in
      let (r2, head2, sends2) = release_from-IsRing (n - 1) 0 [] s1 r1 v (omega arith) refl in
      let s2 = release_from t (n - 1) 0 s1 in
      let s3 = set_rings t s2 in
      let r3 = set_rings-IsRing (values t.rx_buffers 0 (n - 1)) s2 r2 in
      let (head3, sends3) = set_rings-fields s2 in
      let b = t.rx_buffers (n - 1) in
      let len = length-values t.rx_buffers 0 (n - 1) in
      let low : s3.rx_tail + 1 < 2 ^ 64 = omega (arith, r3.tail_at, len) in
      let r4 =
        release-IsRing t 0 (values t.rx_buffers 0 (n - 1)) 0 b s3 r3 (v (n - 1) (omega arith))
          (omega (arith, len)) low in
      let f = release-fields t b s3 low in
      let whole : values t.rx_buffers 0 (n - 1) ++ (b ∷ []) ≡ values t.rx_buffers 0 n =
        ap (λ (k : ℕ). values t.rx_buffers 0 (n - 1) ++ (t.rx_buffers k ∷ [])) {x = n - 1}
          {y = 0 + (n - 1)} (omega arith)
        ∙ values-last t.rx_buffers 0 (n - 1)
        ∙ ap (λ (k : ℕ). values t.rx_buffers 0 k) {x = suc (n - 1)} {y = n} (omega arith) in
      (
        subst (λ (bs : List ℕ). IsRing t 0 bs 0 (release t b s3)) whole r4,
        f.1 ∙ head3 ∙ head2 ∙ head,
        release-sends b s3 ∙ sends3 ∙ sends2 ∙ sends,
      )
