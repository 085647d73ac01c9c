-- ===== src/Network/Arp/Exchange.antt =====
-- What a machine knows after a reply, and after a request was answered.
use depos.Base.{
  ℕ, ◌≡◌, ◌≢◌, ◌==◌, if◌then◌else◌, List, [], ◌∷◌, ◌++◌, none, some, arith, refl, ap, ◌∙◌,
}
use depos.Network.Arp.{
  Header, Machine, slot, look, request, resolve, found_or_request, on_reply, on_request, receive,
}

-- A reply makes the sender's address known. It takes the entry of every other address with the same last
-- byte, and no other address is touched.
pub look-on_reply :
    (h : Header) (m : Machine) (pa : ℕ)
    → look pa (on_reply h m)
      ≡ (if slot pa == slot h.spa then (if h.spa == pa then some h.sha else none) else look pa m)
unfolding look on_reply
look-on_reply h m pa = ground arith

abbrev pub SentBy : (Machine → Machine) → Machine → List (ℕ × Header) → Type 0
SentBy step m packets = (step m).sent ≡ m.sent ++ packets

question_of : ℕ → Machine → Header
question_of pa m = record { operation = 1; sha = m.hardware; spa = m.protocol; dha = 0; dpa = pa }

answer_of : Machine → Header → Header
answer_of m h = record {
  operation = 2;
  sha = m.hardware;
  spa = m.protocol;
  dha = h.sha;
  dpa = h.spa;
}

pub resolve-some :
    (pa solver ha : ℕ) (m : Machine) → look pa m ≡ some ha → resolve pa solver m ≡ (some ha, m)
unfolding resolve found_or_request
resolve-some pa solver ha m e = rw e refl

resolve-none :
    (pa solver : ℕ) (m : Machine)
    → look pa m ≡ none
    → resolve pa solver m ≡ (none, request pa solver m)
unfolding resolve found_or_request
resolve-none pa solver m e = rw e refl

asks :
    (pa solver : ℕ) (m : Machine)
    → look pa m ≡ none
    → SentBy (λ k. (resolve pa solver k).1) m ((solver, question_of pa m) ∷ [])
unfolding request question_of
asks pa solver m e = ap (λ r. r.1.sent) (resolve-none pa solver m e)

ignores : (m : Machine) (h : Header) → h.operation ≡ 1 → h.dpa ≢ m.protocol → receive 2054 h m ≡ m
unfolding receive on_request
ignores m h o ne = ground arith

answered : Machine → Header → Machine
answered m h = record m { sent = m.sent ++ ((h.sha, answer_of m h) ∷ []) }

answers :
    (m : Machine) (h : Header)
    → h.operation ≡ 1
    → h.dpa ≡ m.protocol
    → receive 2054 h m ≡ answered m h
unfolding receive on_request answer_of answered
answers m h o same = ground arith

replies :
    (m : Machine) (h : Header)
    → h.operation ≡ 1
    → h.dpa ≡ m.protocol
    → SentBy (receive 2054 h) m ((h.sha, answer_of m h) ∷ [])
unfolding answered
replies m h o same = ap (λ k. k.sent) (answers m h o same)

takes : (h : Header) (m : Machine) → h.operation ≡ 2 → receive 2054 h m ≡ on_reply h m
unfolding receive
takes h m o = ground arith

knows :
    (pa : ℕ) (m : Machine) (h : Header) (a : Machine)
    → pa ≡ m.protocol
    → (if slot pa == slot (answer_of m h).spa
        then (if (answer_of m h).spa == pa then some (answer_of m h).sha else none)
        else look pa a)
      ≡ some m.hardware
unfolding answer_of slot
knows pa m h a same = ground arith

-- A machine that does not know an address asks for it. The machine of that address answers the asker, and
-- with the answer the asker finds the address; the other machines do not answer.
pub resolve-request :
    (a b : Machine) (pa solver : ℕ)
    → look pa a ≡ none
    → (question : Header) × SentBy (λ m. (resolve pa solver m).1) a ((solver, question) ∷ [])
      × ((resolve pa solver a).0 ≡ none)
      × (pa ≢ b.protocol → receive 2054 question b ≡ b)
      × (pa ≡ b.protocol
          → (answer : Header) × SentBy (receive 2054 question) b ((a.hardware, answer) ∷ [])
            × (look pa (receive 2054 answer a) ≡ some b.hardware))
unfolding question_of answer_of
resolve-request a b pa solver e =
    let question = question_of pa a in
    let answer = answer_of b question in
    (
      question,
      asks pa solver a e,
      (ap (λ r. r.0) (resolve-none pa solver a e)),
      (λ ne. ignores b question refl ne),
      λ same. (
        answer,
        replies b question refl same,
        ap (look pa) (takes answer a refl)
            ∙ (look-on_reply answer a pa ∙ knows pa b question a same),
      ),
    )
