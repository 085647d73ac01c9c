-- ===== src/Utility/Observer.antt =====
-- include/utility/Observer.hpp: the observers of something observed are the nodes of an unordered list, and
-- `observer l` is what `update` of the observer of the node `l` does to the state of the system, with the
-- list itself left as it is.
pub mod Shown
use depos.Base.{ℕ, zero, suc, ◌==◌, if◌then◌else◌, Bool, Option, none, some, List, [], ◌∷◌}
use depos.Collections.{Ptr, null, Links}
use depos.Collections.UnorderedList.{UnorderedList, insert, remove_node}

pub attach : Ptr → UnorderedList → Links → Option (UnorderedList × Links)
attach node l next = insert node l next

pub detach : ℕ → Ptr → UnorderedList → Links → Option (Bool × UnorderedList × Links)
detach fuel node l next = remove_node fuel node l next

module _ {ℓ} {S : Type ℓ} (observer : Ptr → S → S) where
  -- `notify` from the node `l` on: the number is fuel for the loop
  pub notify_all : ℕ → Links → Ptr → S → Option S
  notify_all zero next l s = none
  notify_all (suc k) next l s =
      let rest = notify_all k next (next l) (observer l s) in if l == null then some s else rest
