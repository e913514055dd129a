-- ===== src/Vshard/Snapshot/Priorities.antt =====
-- `UpdatePriorities` against what it promises: a later update forgets an earlier one, and the
-- topology, priorities aside, stays.
use qumomf.Prelude.{◌≡◌, refl, ap, List, [], ◌∷◌, map}
use qumomf.Prelude.Int.{ℤ}
use qumomf.Prelude.Dict.{Dict}
use qumomf.Vshard.Instance.{Instance}
use qumomf.Vshard.ReplicaSet.{ReplicaSet}
use qumomf.Vshard.Snapshot.{Snapshot, prioritise, prioritise_set, update_priorities}

map-map_eq :
    {A : Type 0} (f g h : A → A)
    → ((a : A) → f (g a) ≡ h a)
    → (xs : List A) → map f (map g xs) ≡ map h xs
map-map_eq f g h e [] = refl
map-map_eq f g h e (x ∷ xs) = cc (e x, map-map_eq f g h e xs)

prioritise_twice :
    (p q : Dict ℤ) (inst : Instance) → prioritise q (prioritise p inst) ≡ prioritise q inst
unfolding prioritise
prioritise_twice p q inst = refl

prioritise_set_twice :
    (p q : Dict ℤ) (set : ReplicaSet)
    → prioritise_set q (prioritise_set p set) ≡ prioritise_set q set
unfolding prioritise_set
prioritise_set_twice p q set =
    ap (λ is. record set { instances = is })
      (map-map_eq (prioritise q) (prioritise p) (prioritise q) (prioritise_twice p q) set.instances)

-- Updating the priorities twice is updating them once, with the later ones: nothing of the earlier
-- configuration is left in any instance.
pub update_priorities_twice :
    (p q : Dict ℤ) (s : Snapshot)
    → update_priorities q (update_priorities p s) ≡ update_priorities q s
unfolding update_priorities
update_priorities_twice p q s =
    ap (λ sets. record s { priorities = q; replica_sets = sets })
      (map-map_eq (prioritise_set q) (prioritise_set p) (prioritise_set q)
        (prioritise_set_twice p q) s.replica_sets)
