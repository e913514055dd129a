-- ===== src/Quorum/Candidates.antt =====
-- internal/quorum/elector.go: the options of an election, its errors, and the followers that take
-- part in it.
pub mod Eligible
use qumomf.Prelude.{Bool, true, false, not, ◌&&◌, List, filter as filter_list, if◌then◌else◌}
use qumomf.Prelude.Int.{ℤ, pos, ltb_ℤ, eqb_ℤ}
use qumomf.Prelude.Float.{Float64, float_zero, flt, feq}
use qumomf.Vshard.Error.{Error as VshardError}
use qumomf.Vshard.Instance.{Instance, idle}
use qumomf.Vshard.ReplicaSet.{ReplicaSet, alive_followers}

pub data Error : Type 0 where
  no_alive_followers no_candidate_found : Error
  vshard : VshardError → Error

pub record Options : Type 0 where
  pub reasonable_follower_lsn_lag : ℤ
  pub reasonable_follower_idle : Float64

-- The body of the loop of `filter`: is the instance kept?
unfoldable pub may_be_promoted : Options → Instance → Bool
may_be_promoted opts inst =
    if ltb_ℤ inst.priority (pos 0)
    then false
    else if not (eqb_ℤ opts.reasonable_follower_lsn_lag (pos 0))
        && ltb_ℤ opts.reasonable_follower_lsn_lag inst.lsn_behind_master
    then false
    else if not (feq opts.reasonable_follower_idle float_zero)
        && flt opts.reasonable_follower_idle (idle inst)
    then false
    else true

unfoldable pub filter : List Instance → Options → List Instance
unfolding may_be_promoted
filter instances opts = filter_list (may_be_promoted opts) instances

-- The followers that both electors choose from.
unfoldable pub candidates : Options → ReplicaSet → List Instance
candidates opts set = filter (alive_followers set) opts
