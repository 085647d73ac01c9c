-- ===== src/Utility/Observer/Shown.antt =====
-- Who is notified, and in which order.
use depos.Base.{ℕ, zero, suc, ◌<◌, ◌≡◌, ◌≢◌, refl, arith, some, List, [], ◌∷◌, ◌∉◌, length, update}
use depos.Collections.{Ptr, null, Links, Chain}
use depos.Collections.UnorderedList.{UnorderedList, list}
use depos.Collections.UnorderedList.Laws.{IsList, insert-IsList}
use depos.Utility.Observer.{attach, notify_all}

module _ {ℓ} {S : Type ℓ} (observer : Ptr → S → S) where
  pub show_all : List Ptr → S → S
  show_all [] s = s
  show_all (x ∷ xs) s = show_all xs (observer x s)

  -- Every observer of the list is shown the event once, the last one attached first, when the fuel is more than the length.
  pub notify_all-show_all :
      (k : ℕ) (next : Links) (p : Ptr) (xs : List Ptr) (s : S)
      → Chain next p xs
      → length xs < k
      → notify_all observer k next p s ≡ some (show_all xs s)
  unfolding notify_all show_all
  notify_all-show_all zero next p xs s c h = ground arith
  notify_all-show_all (suc k) next p [] s c h = rw c refl
  notify_all-show_all (suc k) next p (x ∷ xs) s c h =
      let rest = notify_all-show_all k next (next x) xs (observer x s) c.3 (omega arith) in
      ground (arith, rest)

  -- An observer that is attached is shown the next event before those that were attached.
  pub notify_all-attach :
      (k : ℕ) (next : Links) (l : UnorderedList) (xs : List Ptr) (node : Ptr) (s : S)
      → IsList next l xs
      → node ≢ null
      → node ∉ xs
      → suc (length xs) < k
      → (attach node l next ≡ some (list node, update next node l.head))
        × (notify_all observer k (update next node l.head) node s
            ≡ some (show_all xs (observer node s)))
  unfolding attach show_all
  notify_all-attach k next l xs node s c ne out h =
      let i = insert-IsList next l xs node c ne out in
      (i.0, notify_all-show_all k (update next node l.head) node (node ∷ xs) s i.1 h)
