-- ===== src/Quorum/Smart.antt =====
-- internal/quorum/smart.go: the elector that ranks the followers by several measures. `Less` reads
-- the upstream of both instances without a check, so it panics (`none`) where one has none.
pub mod Order
pub mod Choice
pub mod Cycles
use qumomf.Prelude.{
  ℕ, ◌==◌, Bool, true, false, not, ◌&&◌, Option, none, some, List, [], ◌∷◌, eqb, if◌then◌else◌,
}
use qumomf.Prelude.Int.{ℤ, pos, ltb_ℤ, eqb_ℤ}
use qumomf.Prelude.Float.{Float64, float_half, flt, fle, fsub, fneg}
use qumomf.Prelude.Sort.{Sorter}
use qumomf.Prelude.Result.{Result, ok, err}
use qumomf.Vshard.Error.{Error as VshardError}
use qumomf.Vshard.Instance.{InstanceUuid, Instance, Upstream, idle, upstream_follow}
use qumomf.Vshard.ReplicaSet.{ReplicaSet, master}
use qumomf.Quorum.Candidates.{Error, no_alive_followers, vshard, Options, candidates}

-- `idleDiffDelta`, in seconds
abbrev pub idle_diff_delta : Float64
idle_diff_delta = float_half

unfoldable pub in_delta : Float64 → Float64 → Float64 → Bool
in_delta d1 d2 delta = let diff = fsub d1 d2 in fle (fneg delta) diff && fle diff delta

-- The last tests of `Less`: the idle times and the user's promotion rules.
unfoldable pub less_idle : Instance → Instance → Bool
less_idle left right =
    let d1 = idle left in
    let d2 = idle right in
    if not (eqb_ℤ left.priority right.priority) && in_delta d1 d2 idle_diff_delta
    then ltb_ℤ right.priority left.priority
    else flt d1 d2

-- The tests of `Less` from the lag behind the master on.
unfoldable pub less_lag : Instance → Instance → Bool
unfolding less_idle
less_lag left right =
    let l = left.lsn_behind_master in
    let r = right.lsn_behind_master in
    if not (eqb_ℤ l r)
    then (if ltb_ℤ (pos 0) l && ltb_ℤ r (pos 0)
        then true
        else if ltb_ℤ l (pos 0) && ltb_ℤ (pos 0) r
        then false
        else ltb_ℤ l r)
    else less_idle left right

abbrev pub follows : Upstream → Bool
follows u = u.status == upstream_follow

-- The tests of `Less` from the upstream status on.
abbrev pub less_upstream : Option Upstream → Option Upstream → Bool → Option Bool
less_upstream none _ rest = none
less_upstream (some u) none rest = none
less_upstream (some u) (some v) rest =
    if follows u && not (follows v)
    then some true
    else if not (follows u) && follows v
    then some false
    else some rest

-- `Less`, with the fingerprint of the master's configuration.
unfoldable pub less : ℕ → Instance → Instance → Option Bool
unfolding less_lag
less conf_hash left right =
    let l = eqb left.vshard_fingerprint conf_hash in
    let r = eqb right.vshard_fingerprint conf_hash in
    if l && not r
    then some true
    else if not l && r
    then some false
    else less_upstream left.upstream right.upstream (less_lag left right)

abbrev pub first_uuid : Option (List Instance) → Option (Result Error InstanceUuid)
first_uuid none = none
first_uuid (some []) = none
first_uuid (some (r ∷ rs)) = some (ok r.uuid)

module _ (sorter : Sorter Instance) where
  abbrev pub choose_with :
      Result VshardError Instance → List Instance → Option (Result Error InstanceUuid)
  choose_with (err e) followers = some (err (vshard e))
  choose_with (ok m) followers = first_uuid (sorter.sort (less m.vshard_fingerprint) followers)

  abbrev pub choose_among :
      Result VshardError Instance → List Instance → Option (Result Error InstanceUuid)
  choose_among m [] = some (err no_alive_followers)
  choose_among m (r ∷ rs) = choose_with m (r ∷ rs)

  -- `ChooseMaster`
  unfoldable pub choose_master : Options → ReplicaSet → Option (Result Error InstanceUuid)
  choose_master opts set = choose_among (master set) (candidates opts set)
