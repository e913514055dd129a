-- ===== src/Quorum/Candidates/Eligible.antt =====
-- Which instances an election is held among, said without the tests of the code.
use qumomf.Prelude.{
  eq_iff, ◌≡◌, ◌≢◌, ◌↔◌, true, false, Option, none, some, Memᴰ, mem-filter, filter-mem, arith,
}
use qumomf.Prelude.Int.{pos, ◌≤ℤ◌, eqb_ℤ_iff}
use qumomf.Prelude.Float.{float_zero, flt, feq}
use qumomf.Vshard.Instance.{
  Instance, Upstream, Downstream, idle, upstream_disconnected, upstream_stopped, downstream_stopped,
}
use qumomf.Vshard.ReplicaSet.{ReplicaSet, is_alive_follower, alive_followers, is_replicating}
use qumomf.Quorum.Candidates.{Options, may_be_promoted, filter, candidates}

-- The replication of a follower works, by its upstream, or by its downstream if it has none.
abbrev pub Replicates : Option Upstream → Option Downstream → Type 0
Replicates (some u) d = (u.status ≢ upstream_disconnected) × (u.status ≢ upstream_stopped)
Replicates none (some d) = d.status ≢ downstream_stopped
Replicates none none = ⊥

pub record IsEligible (opts : Options) (set : ReplicaSet) (inst : Instance) : Type 0 where
  pub member : Memᴰ inst set.instances
  pub follower : inst.uuid ≢ set.master_uuid
  pub polled : inst.last_check_valid ≡ true
  pub replicates : Replicates inst.upstream inst.downstream
  pub allowed : pos 0 ≤ℤ inst.priority
  pub near :
      opts.reasonable_follower_lsn_lag ≢ pos 0
      → inst.lsn_behind_master ≤ℤ opts.reasonable_follower_lsn_lag
  pub fresh :
      feq opts.reasonable_follower_idle float_zero ≡ false
      → flt opts.reasonable_follower_idle (idle inst) ≡ false

Replicates_iff :
    (u : Option Upstream) (d : Option Downstream) → (is_replicating u d ≡ true) ↔ Replicates u d
Replicates_iff (some u) d =
    ground (arith, eq_iff u.status upstream_disconnected, eq_iff u.status upstream_stopped)
Replicates_iff none (some d) = ground (arith, eq_iff d.status downstream_stopped)
Replicates_iff none none = ground arith

alive_iff :
    (set : ReplicaSet) (inst : Instance)
    → (is_alive_follower set inst ≡ true) ↔ (
        (inst.uuid ≢ set.master_uuid)
        × (inst.last_check_valid ≡ true)
        × (is_replicating inst.upstream inst.downstream ≡ true))
unfolding is_alive_follower
alive_iff set inst = ground (arith, eq_iff inst.uuid set.master_uuid)

promoted_allowed :
    (opts : Options) (inst : Instance) → may_be_promoted opts inst ≡ true → pos 0 ≤ℤ inst.priority
unfolding may_be_promoted
promoted_allowed opts inst h = ground arith

promoted_near :
    (opts : Options) (inst : Instance)
    → may_be_promoted opts inst ≡ true
    → opts.reasonable_follower_lsn_lag ≢ pos 0
    → inst.lsn_behind_master ≤ℤ opts.reasonable_follower_lsn_lag
unfolding may_be_promoted
promoted_near opts inst h n = ground (arith, eqb_ℤ_iff opts.reasonable_follower_lsn_lag (pos 0))

promoted_fresh :
    (opts : Options) (inst : Instance)
    → may_be_promoted opts inst ≡ true
    → feq opts.reasonable_follower_idle float_zero ≡ false
    → flt opts.reasonable_follower_idle (idle inst) ≡ false
unfolding may_be_promoted
promoted_fresh opts inst h n = ground arith

promoted :
    (opts : Options) (inst : Instance)
    → pos 0 ≤ℤ inst.priority
    → (opts.reasonable_follower_lsn_lag ≢ pos 0
        → inst.lsn_behind_master ≤ℤ opts.reasonable_follower_lsn_lag)
    → (feq opts.reasonable_follower_idle float_zero ≡ false
        → flt opts.reasonable_follower_idle (idle inst) ≡ false)
    → may_be_promoted opts inst ≡ true
unfolding may_be_promoted
promoted opts inst a n f = ground (arith, eqb_ℤ_iff opts.reasonable_follower_lsn_lag (pos 0))

-- An instance takes part in the election exactly when it is a follower in the set that was polled
-- with success, replicates, has no negative priority, and is within the limits that are set.
pub candidates-IsEligible :
    (opts : Options) (set : ReplicaSet) (inst : Instance)
    → Memᴰ inst (candidates opts set) ↔ IsEligible opts set inst
unfolding candidates filter alive_followers
candidates-IsEligible opts set inst = (
  (λ m.
      let (n, p) = mem-filter (may_be_promoted opts) (alive_followers set) m in
      let (k, a) = mem-filter (is_alive_follower set) set.instances n in
      let (f, v, r) = (alive_iff set inst).0 a in
      record {
        member = k;
        follower = f;
        polled = v;
        replicates = (Replicates_iff inst.upstream inst.downstream).0 r;
        allowed = promoted_allowed opts inst p;
        near = promoted_near opts inst p;
        fresh = promoted_fresh opts inst p;
      }),
  λ e.
      filter-mem (may_be_promoted opts) (alive_followers set)
        (filter-mem (is_alive_follower set) set.instances e.member (
          (alive_iff set inst).1
            (e.follower, e.polled, (Replicates_iff inst.upstream inst.downstream).1 e.replicates)))
        (promoted opts inst e.allowed e.near e.fresh),
)
