-- ===== src/Network/Tftp/Receive.antt =====
-- The blocks of a file that arrive in any order, and more than once, make up the file.
use depos.Base.{
  ℕ, zero, suc, ◌+◌, ◌-◌, ◌%◌, ◌<◌, ◌≤◌, ◌≡◌, ◌==◌, ltb, if◌then◌else◌, ◌&&◌, Bool, true, false,
  List, [], ◌∷◌, get_or, length, length-append, ◌++◌, arith, refl, ap, sym, ◌∙◌, not, Bool-cases,
  inl, inr, ◌⊎◌, subst,
}
use depos.Network.Tftp.{Client, block_size, copy, accept, on_data, ack, on_error}

-- The bytes `got` are what the buffer holds so far.
pub record Holds (got : List ℕ) (c : Client) : Type 0 where
  pub amount : c.received ≡ length got
  pub bytes : (i : ℕ) → i < length got → c.buffer i ≡ get_or got i 0

pub get_or-append :
    (xs ys : List ℕ) (i : ℕ)
    → get_or (xs ++ ys) i 0
      ≡ (if ltb i (length xs) then get_or xs i 0 else get_or ys (i - length xs) 0)
get_or-append [] ys i = ground arith
get_or-append (x ∷ xs) ys zero = ground arith
get_or-append (x ∷ xs) ys (suc i) = ground (arith, get_or-append xs ys i)

-- The abstract receiver: the bytes, the number of the next block, and whether the file is complete.
abbrev pub Receiver : Type 0
Receiver = List ℕ × ℕ × Bool

unfoldable pub receive : List ℕ → ℕ → Receiver → Receiver
receive payload block (got, next, complete) =
    if not complete && (block == next)
    then (got ++ payload, (next + 1) % 65536, ltb (length payload) block_size)
    else (got, next, complete)

-- The client is in the state of the receiver and has no error.
pub record Implements (r : Receiver) (c : Client) : Type 0 where
  pub holds : Holds r.0 c
  pub next_block : c.block ≡ r.1
  pub is_done : c.done ≡ r.2
  pub no_error : c.error ≡ false

copy-Holds :
    (c : Client) (got payload : List ℕ)
    → Holds got c
    → (i : ℕ) → i < length (got ++ payload)
    → copy c.buffer c.received payload i ≡ get_or (got ++ payload) i 0
unfolding copy
copy-Holds c got payload h i lt =
    ground (arith, length-append got payload, get_or-append got payload i, h.amount, h.bytes i)

module _ (payload : List ℕ) (block source : ℕ) (got : List ℕ) (next : ℕ) (c : Client)
    (fit : length got + length payload ≤ c.buffer_size) (h : Holds got c) (n : c.block ≡ next)
    (err : c.error ≡ false) where
  fits : ltb c.buffer_size (c.received + length payload) ≡ false
  fits = ground (arith, h.amount)

  on_data-done : c.done ≡ true → on_data payload block source c ≡ c
  unfolding on_data
  on_data-done d = ground arith

  on_data-other :
      c.done ≡ false
      → (block == next) ≡ false
      → on_data payload block source c ≡ ack (c.block + 65535) source c
  unfolding on_data
  on_data-other d o = ground (arith, h.amount)

  on_data-next :
      c.done ≡ false
      → (block == next) ≡ true
      → on_data payload block source c ≡ accept payload block source c
  unfolding on_data
  on_data-next d o = ground (arith, h.amount)

  receive-done : receive payload block (got, next, true) ≡ (got, next, true)
  unfolding receive
  receive-done = refl

  receive-other :
      (block == next) ≡ false → receive payload block (got, next, false) ≡ (got, next, false)
  unfolding receive
  receive-other o = rw o refl

  receive-next :
      (block == next) ≡ true
      → receive payload block (got, next, false)
        ≡ (got ++ payload, (next + 1) % 65536, ltb (length payload) block_size)
  unfolding receive
  receive-next o = rw o refl

  accept-last : ltb (length payload) block_size ≡ true → (accept payload block source c).done ≡ true
  unfolding accept
  accept-last e = ground arith

  accept-more :
      ltb (length payload) block_size ≡ false → (accept payload block source c).done ≡ c.done
  unfolding accept
  accept-more e = ground arith

  accept-fields :
      ((accept payload block source c).received ≡ c.received + length payload)
      × ((accept payload block source c).block ≡ (c.block + 1) % 65536)
      × ((accept payload block source c).error ≡ c.error)
      × ((accept payload block source c).buffer ≡ copy c.buffer c.received payload)
  unfolding accept
  accept-fields = elim (Bool-cases (ltb (length payload) block_size)) [
    | inl e ↦ rw e (refl, refl, refl, refl)
    | inr e ↦ rw e (refl, refl, refl, refl)
  ]

  accepted_done :
      c.done ≡ false
      → (b : Bool) → ltb (length payload) block_size ≡ b
      → (accept payload block source c).done ≡ b
  accepted_done d true e = accept-last e
  accepted_done d false e = accept-more e ∙ d

  accept-Implements :
      c.done ≡ false
      → Implements
          (got ++ payload, (next + 1) % 65536, ltb (length payload) block_size)
          (accept payload block source c)
  accept-Implements d =
      let (fr, fb, fe, fm) = accept-fields in
      record {
        holds = record {
          amount = fr ∙ (ap (λ k. k + length payload) h.amount ∙ sym (length-append got payload));
          bytes = λ i lt. ap (λ f. f i) fm ∙ copy-Holds c got payload h i lt;
        };
        next_block = fb ∙ ap (λ k. (k + 1) % 65536) n;
        is_done = accepted_done d (ltb (length payload) block_size) refl;
        no_error = fe ∙ err;
      }

  acked-Implements : c.done ≡ false → Implements (got, next, false) (ack (c.block + 65535) source c)
  acked-Implements d = record {
    holds = record { amount = h.amount; bytes = h.bytes };
    next_block = n;
    is_done = d;
    no_error = err;
  }

-- While the blocks fit the buffer, `onData` does what the receiver does: a block that is not the next is
-- dropped, and the next one is put behind the bytes before.
pub on_data-Implements :
    (payload : List ℕ) (block source : ℕ) (r : Receiver) (c : Client)
    → length r.0 + length payload ≤ c.buffer_size
    → Implements r c
    → Implements (receive payload block r) (on_data payload block source c)
on_data-Implements payload block source (got, next, true) c fit h =
    rw
      (
        on_data-done payload block source got next c fit h.holds h.next_block h.no_error h.is_done,
        receive-done payload block source got next c fit h.holds h.next_block h.no_error,
      )
      h
on_data-Implements payload block source (got, next, false) c fit h =
    elim (Bool-cases (block == next)) [
      | inl e ↦
          rw
            (
              on_data-next payload block source got next c fit h.holds h.next_block h.no_error
                  h.is_done e,
              receive-next payload block source got next c fit h.holds h.next_block h.no_error e,
            )
            (accept-Implements payload block source got next c fit h.holds h.next_block h.no_error
              h.is_done)
      | inr e ↦
          rw
            (
              on_data-other payload block source got next c fit h.holds h.next_block h.no_error
                  h.is_done e,
              receive-other payload block source got next c fit h.holds h.next_block h.no_error e,
            )
            (acked-Implements payload block source got next c fit h.holds h.next_block h.no_error
              h.is_done)
    ]

on_data-size :
    (payload : List ℕ) (block source : ℕ) (c : Client)
    → (on_data payload block source c).buffer_size ≡ c.buffer_size
unfolding on_data accept on_error
on_data-size payload block source c = ground arith

abbrev pub Blocks : Type 0
Blocks = List (ℕ × List ℕ)

-- Each block fits the buffer behind the bytes that are held when it arrives, also one that is repeated, or the file is
-- complete by then.
abbrev pub Fits : ℕ → Receiver → Blocks → Type 0
Fits size r [] = Unit
Fits size r ((k, payload) ∷ bs) =
    ((r.2 ≡ true) ⊎ (length r.0 + length payload ≤ size)) × Fits size (receive payload k r) bs

receive_complete :
    (payload : List ℕ) (block : ℕ) (r : Receiver) → r.2 ≡ true → receive payload block r ≡ r
unfolding receive
receive_complete payload block (got, next, complete) e = ground arith

on_data_complete :
    (payload : List ℕ) (block source : ℕ) (c : Client)
    → c.done ≡ true
    → on_data payload block source c ≡ c
unfolding on_data
on_data_complete payload block source c d = ground arith

complete-Implements :
    (payload : List ℕ) (block source : ℕ) (r : Receiver) (c : Client)
    → r.2 ≡ true
    → Implements r c
    → Implements (receive payload block r) (on_data payload block source c)
complete-Implements payload block source r c e h =
    subst (λ r'. Implements r' (on_data payload block source c))
      (sym (receive_complete payload block r e))
      (subst (λ c'. Implements r c') (sym (on_data_complete payload block source c (h.is_done ∙ e)))
        h)

unfoldable pub receive_all : Blocks → Receiver → Receiver
receive_all [] r = r
receive_all ((k, payload) ∷ bs) r = receive_all bs (receive payload k r)

unfoldable pub on_all : ℕ → Blocks → Client → Client
on_all source [] c = c
on_all source ((k, payload) ∷ bs) c = on_all source bs (on_data payload k source c)

-- The blocks of a whole transfer, repeated or out of order as they may be, leave the client in the state of the receiver that
-- got them, without an error, if each of them fits the buffer behind the bytes that are held when it arrives, also one that is
-- repeated, or arrives when the file is complete.
pub on_all-Implements :
    (source : ℕ) (bs : Blocks) (r : Receiver) (c : Client)
    → Fits c.buffer_size r bs
    → Implements r c
    → Implements (receive_all bs r) (on_all source bs c)
unfolding receive_all on_all
on_all-Implements source [] r c fit h = h
on_all-Implements source ((k, payload) ∷ bs) r c fit h =
    on_all-Implements source bs (receive payload k r) (on_data payload k source c)
      (subst (λ n. Fits n (receive payload k r) bs) (sym (on_data-size payload k source c)) fit.1)
      (elim fit.0 [
        | inl e ↦ complete-Implements payload k source r c e h
        | inr room ↦ on_data-Implements payload k source r c room h
      ])
