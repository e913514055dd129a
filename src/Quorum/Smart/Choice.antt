-- ===== src/Quorum/Smart/Choice.antt =====
-- What the smart elector chooses, for every sorter that keeps the documented promises.
use qumomf.Prelude.{
  ◌≡◌, refl, ap, ◌∙◌, Bool, false, Option, none, some, List, [], ◌∷◌, Memᴰ, Permᴰ, All, Ordered,
  All-of_mem, All-tabulate, mem-perm,
}
use mathlib.Core.List.Permᴰ
use qumomf.Prelude.Int.{ℤ}
use qumomf.Prelude.Sort.{Sorter, NotAbove}
use qumomf.Prelude.Result.{Result, ok, err}
use qumomf.Vshard.Error.{Error as VshardError}
use qumomf.Vshard.Instance.{InstanceUuid, Instance}
use qumomf.Vshard.ReplicaSet.{ReplicaSet, master}
use qumomf.Quorum.Candidates.{Error, Options, candidates}
use qumomf.Quorum.Candidates.Eligible.{IsEligible, candidates-IsEligible}
use qumomf.Quorum.Smart.{less, first_uuid, choose_among, choose_master}
use qumomf.Quorum.Smart.Order.{
  HasUpstream, IsComparable, rank_less, less-rank_less, rank_less-IsStrictWeak, less-Answers,
}

module _ (sorter : Sorter Instance) where
  first_uuid-eq_some :
      (o : Option (List Instance)) (r : Result Error InstanceUuid)
      → first_uuid o ≡ some r
      → (x : Instance) × (xs : List Instance) × (o ≡ some (x ∷ xs)) × (r ≡ ok x.uuid)
  first_uuid-eq_some none r h = cc
  first_uuid-eq_some (some []) r h = cc
  first_uuid-eq_some (some (x ∷ xs)) r h = (x, xs, refl, cc)

  -- A choice has a master, and comes from the head of the sorted candidates.
  choose_among-eq_ok :
      (m : Result VshardError Instance) (rs : List Instance) (uuid : InstanceUuid)
      → choose_among sorter m rs ≡ some (ok uuid)
      → (old : Instance) × (m ≡ ok old)
        × (x : Instance) × (xs : List Instance) × (sorter.sort (less old.vshard_fingerprint) rs
            ≡ some (x ∷ xs))
        × (x.uuid ≡ uuid)
  choose_among-eq_ok m [] uuid h = cc
  choose_among-eq_ok (err e) (r ∷ rs) uuid h = cc
  choose_among-eq_ok (ok old) (r ∷ rs) uuid h =
      let (x, xs, e, q) =
        first_uuid-eq_some (sorter.sort (less old.vshard_fingerprint) (r ∷ rs)) (ok uuid) h in
      (old, refl, x, xs, e, cc)

  -- The smart elector only ever returns the UUID of an eligible follower, in whatever order the
  -- sort leaves them.
  pub choose_master-IsEligible :
      (opts : Options) (set : ReplicaSet) (uuid : InstanceUuid)
      → choose_master sorter opts set ≡ some (ok uuid)
      → (inst : Instance) × (inst.uuid ≡ uuid) × IsEligible opts set inst
  unfolding choose_master
  choose_master-IsEligible opts set uuid h =
      let (old, m, x, xs, e, q) = choose_among-eq_ok (master set) (candidates opts set) uuid h in
      (
        x,
        q,
        (candidates-IsEligible opts set x).0 (
            mem-perm
              (Permᴰ.symm
                (sorter.sort_perm (less old.vshard_fingerprint) (candidates opts set) (x ∷ xs) e))
              (Memᴰ.head refl)),
      )

  head_minimal :
      (lt : Instance → Instance → Bool) (P : Instance → Type 0) (x : Instance)
      (xs rs : List Instance)
      → ((y : Instance) → P y → lt y y ≡ false)
      → P x
      → Ordered (NotAbove lt) (x ∷ xs)
      → Permᴰ rs (x ∷ xs)
      → (y : Instance) → Memᴰ y rs
      → lt y x ≡ false
  head_minimal lt P x xs rs irr px o p y m =
      All-of_mem (NotAbove lt x) (x ∷ xs) (irr x px, o.0) (mem-perm p m)

  -- If the eligible followers report an upstream, are not ahead of the master, have idle times that
  -- are numbers and one priority, then the one that the smart elector chooses is eligible, and none
  -- of them ranks before it in regard to the old master.
  pub choose_master_best :
      (opts : Options) (set : ReplicaSet) (uuid : InstanceUuid) (p : ℤ)
      → ((inst : Instance) → IsEligible opts set inst → IsComparable p inst)
      → choose_master sorter opts set ≡ some (ok uuid)
      → (old : Instance) × (master set ≡ ok old)
        × (inst : Instance) × (inst.uuid ≡ uuid)
        × IsEligible opts set inst
        × ((other : Instance)
            → IsEligible opts set other
            → less old.vshard_fingerprint other inst ≡ some false)
  unfolding choose_master
  choose_master_best opts set uuid p c h =
      let rs = candidates opts set in
      let (old, m, x, xs, e, q) = choose_among-eq_ok (master set) rs uuid h in
      let conf = old.vshard_fingerprint in
      let perm = sorter.sort_perm (less conf) rs (x ∷ xs) e in
      let ex = (candidates-IsEligible opts set x).0 (mem-perm (Permᴰ.symm perm) (Memᴰ.head refl)) in
      let comparable =
        All-tabulate (IsComparable p) rs (λ r k. c r ((candidates-IsEligible opts set r).0 k)) in
      let ordered =
        sorter.sort_ordered (less conf) (IsComparable p) (rank_less conf) rs (x ∷ xs)
          (rank_less-IsStrictWeak conf p) (less-Answers conf p) comparable e in
      (
        old,
        m,
        x,
        q,
        ex,
        λ other eo.
            less-rank_less conf other x (c other eo).upstream (c x ex).upstream
            ∙ ap some (
                head_minimal (rank_less conf) (IsComparable p) x xs rs
                  ((rank_less-IsStrictWeak conf p).irrefl) (c x ex) ordered perm other
                  ((candidates-IsEligible opts set other).1 eo)),
      )

  choose_among_total :
      (old : Instance) (rs : List Instance) (inst : Instance)
      → All (λ r. HasUpstream r.upstream) rs
      → Memᴰ inst rs
      → (uuid : InstanceUuid) × (choose_among sorter (ok old) rs ≡ some (ok uuid))
  choose_among_total old [] inst up m = elim m [ ]
  choose_among_total old (r ∷ rs) inst up m = first (
      sorter.sort_total (less old.vshard_fingerprint) (λ x. HasUpstream x.upstream) (r ∷ rs)
        (λ x y hx hy.
          (rank_less old.vshard_fingerprint x y, less-rank_less old.vshard_fingerprint x y hx hy))
        up)
    where
      first :
          (ys : List Instance) × (sorter.sort (less old.vshard_fingerprint) (r ∷ rs) ≡ some ys)
          → (uuid : InstanceUuid) × (first_uuid (sorter.sort (less old.vshard_fingerprint) (r ∷ rs))
              ≡ some (ok uuid))
      first ([], e) =
          elim (mem-perm (sorter.sort_perm (less old.vshard_fingerprint) (r ∷ rs) [] e) m) [ ]
      first (y ∷ ys, e) = (y.uuid, rw e)

  -- The smart elector finds a master, with no panic, if the old master is in the set, some follower
  -- is eligible, and every eligible follower reports an upstream.
  pub choose_master_total :
      (opts : Options) (set : ReplicaSet) (old inst : Instance)
      → master set ≡ ok old
      → IsEligible opts set inst
      → ((other : Instance) → IsEligible opts set other → HasUpstream other.upstream)
      → (uuid : InstanceUuid) × (choose_master sorter opts set ≡ some (ok uuid))
  unfolding choose_master
  choose_master_total opts set old inst m e up = rw m (
      choose_among_total old (candidates opts set) inst
        (All-tabulate (λ r. HasUpstream r.upstream) (candidates opts set)
          (λ r k. up r ((candidates-IsEligible opts set r).0 k)))
        ((candidates-IsEligible opts set inst).1 e))
