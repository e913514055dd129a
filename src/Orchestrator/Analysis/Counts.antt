-- ===== src/Orchestrator/Analysis/Counts.antt =====
-- The loop of `analyze` computes the counts that its fields are named for.
use qumomf.Prelude.{
  suc, ◌+◌, ◌==◌, ◌≡◌, refl, Bool, true, false, not, ◌&&◌, ◌||◌, List, [], ◌∷◌, ◌++◌, map, filter,
  count, exists, length, eqb, arith, ◌∙◌, ap, sym, if◌then◌else◌,
}
use mathlib.Core.List.{append_assoc, append-nil}
use qumomf.Vshard.Instance.{Instance, InstanceUuid, status_follow, status_master}
use qumomf.Orchestrator.Analysis.{Counters, zero_counters, count_follower, count_followers}

abbrev pub works : Instance → Bool
works r = r.last_check_valid

abbrev pub replicates : Instance → Bool
replicates r =
    works r
    && (r.storage_info.replication == status_follow || r.storage_info.replication == status_master)

abbrev pub differs : Instance → Instance → Bool
differs master r = works r && not (eqb r.vshard_fingerprint master.vshard_fingerprint)

abbrev pub co_master : Instance → Bool
co_master r =
    works r
    && (not (r.storage_info.replication == status_follow)
        && r.storage_info.replication == status_master)

abbrev pub fails : Instance → Bool
fails r = works r && not (replicates r)

-- The counts of a list of followers, each by its own pass.
abbrev pub tally : Instance → List Instance → Counters
tally master rs = record {
  replicas = length rs;
  working = count works rs;
  replicating = count replicates rs;
  inconsistent = count (differs master) rs;
  master_master = exists co_master rs;
  dead = map (λ r. r.uuid) (filter fails rs);
}

abbrev pub plus : Counters → Counters → Counters
plus c d = record {
  replicas = c.replicas + d.replicas;
  working = c.working + d.working;
  replicating = c.replicating + d.replicating;
  inconsistent = c.inconsistent + d.inconsistent;
  master_master = c.master_master || d.master_master;
  dead = c.dead ++ d.dead;
}

-- The body of the loop and the head of the tally, over the four tests of a follower.
abbrev body : Bool → Bool → Bool → Bool → InstanceUuid → Counters → Counters
body v f m d uuid c =
    let c' = record c { replicas = suc c.replicas } in
    if v
    then (let w = record c' { working = suc c'.working } in
        let s =
          if f
          then record w { replicating = suc w.replicating }
          else if m
          then record w { replicating = suc w.replicating; master_master = true }
          else record w { dead = w.dead ++ uuid ∷ [] } in
        if d then record s { inconsistent = suc s.inconsistent } else s)
    else c'

abbrev head_of : Bool → Bool → Bool → Bool → InstanceUuid → Counters → Counters
head_of v f m d uuid t = record {
  replicas = suc t.replicas;
  working = if v then suc t.working else t.working;
  replicating = if v && (f || m) then suc t.replicating else t.replicating;
  inconsistent = if v && d then suc t.inconsistent else t.inconsistent;
  master_master = if v && (not f && m) then true else t.master_master;
  dead = if v && not (v && (f || m)) then uuid ∷ t.dead else t.dead;
}

or_true : (b : Bool) → (b || true) ≡ true
or_true true = refl
or_true false = refl

or_false : (b : Bool) → (b || false) ≡ b
or_false true = refl
or_false false = refl

body_lem :
    (v f m d : Bool) (uuid : InstanceUuid) (c t : Counters)
    → plus (body v f m d uuid c) t ≡ plus c (head_of v f m d uuid t)
body_lem false f m d uuid c t = ground arith
body_lem true true m true uuid c t = ground arith
body_lem true true m false uuid c t = ground arith
body_lem true false true true uuid c t = ground (arith, or_true c.master_master)
body_lem true false true false uuid c t = ground (arith, or_true c.master_master)
body_lem true false false true uuid c t = ground (arith, append_assoc c.dead (uuid ∷ []) t.dead)
body_lem true false false false uuid c t = ground (arith, append_assoc c.dead (uuid ∷ []) t.dead)

map-if :
    (b : Bool) (r : Instance) (rs : List Instance)
    → map (λ (x : Instance). x.uuid) (if b then r ∷ rs else rs) ≡ (
        if b then r.uuid ∷ map (λ (x : Instance). x.uuid) rs else map (λ (x : Instance). x.uuid) rs)
map-if true r rs = refl
map-if false r rs = refl

step_lem :
    (master r : Instance) (rs : List Instance) (c : Counters)
    → plus (count_follower master r c) (tally master rs) ≡ plus c (tally master (r ∷ rs))
unfolding count_follower count exists filter
step_lem master r rs c =
    body_lem r.last_check_valid (r.storage_info.replication == status_follow)
      (r.storage_info.replication == status_master)
      (not (eqb r.vshard_fingerprint master.vshard_fingerprint)) r.uuid c (tally master rs)
    ∙ ap (λ d. plus c (record (tally master (r ∷ rs)) { dead = d }))
        (sym (map-if (fails r) r (filter fails rs)))

loop_lem :
    (master : Instance) (rs : List Instance) (c : Counters)
    → count_followers master rs c ≡ plus c (tally master rs)
unfolding count_followers count exists filter
loop_lem master [] c = ground (arith, or_false c.master_master, append-nil c.dead)
loop_lem master (r ∷ rs) c = loop_lem master rs (count_follower master r c) ∙ step_lem master r rs c

zero_plus : (c : Counters) → plus zero_counters c ≡ c
zero_plus c = ground arith

-- The counters of the loop, from zero, are the counts.
pub count_followers-tally :
    (master : Instance) (rs : List Instance)
    → count_followers master rs zero_counters ≡ tally master rs
count_followers-tally master rs = loop_lem master rs zero_counters ∙ zero_plus (tally master rs)
