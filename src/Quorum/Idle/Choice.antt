-- ===== src/Quorum/Idle/Choice.antt =====
-- What the idle elector chooses.
use qumomf.Prelude.{
  eq_iff, ◌≡◌, refl, sym, ◌∙◌, ◌⊎◌, inl, inr, ◌≢◌, true, false, List, [], ◌∷◌, Memᴰ, All,
  Bool-cases, All-of_mem, All-tabulate, arith,
}
use qumomf.Prelude.Float.{
  Float64, max_float64, flt, flt_irrefl, flt_trans, flt_asymm, flt-of_not_lt,
}
use qumomf.Prelude.Result.{ok, err}
use qumomf.Vshard.Instance.{InstanceUuid, Instance, idle}
use qumomf.Vshard.ReplicaSet.{ReplicaSet}
use qumomf.Quorum.Candidates.{Error, Options, candidates}
use qumomf.Quorum.Candidates.Eligible.{IsEligible, candidates-IsEligible}
use qumomf.Quorum.Idle.{min_uuid, chosen, choose_among, choose_master}

-- No instance of the list has a smaller idle time.
abbrev pub NoneBelow : Float64 → List Instance → Type 0
NoneBelow d rs = All (λ o. flt (idle o) d ≡ false) rs

-- The loop keeps what it has found, if nothing is below, or finds an instance that nothing is below.
min_uuid_lem :
    (rs : List Instance) (d : Float64) (found : InstanceUuid)
    → (min_uuid rs d found ≡ found) × NoneBelow d rs
      ⊎ ((r : Instance) × Memᴰ r rs
          × (min_uuid rs d found ≡ r.uuid)
          × (flt (idle r) d ≡ true)
          × NoneBelow (idle r) rs)
unfolding min_uuid
min_uuid_lem [] d found = inl (refl, tt)
min_uuid_lem (r ∷ rs) d found = elim (Bool-cases (flt (idle r) d)) [
  | inl e ↦ rw e (elim (min_uuid_lem rs (idle r) r.uuid) [
    | inl (same, none_below) ↦ inr (r, Memᴰ.head refl, same, e, (flt_irrefl (idle r), none_below))
    | inr (x, m, same, below, none_below) ↦ inr (
      x,
      Memᴰ.tail m,
      same,
      flt_trans (idle x) (idle r) d below e,
      (flt_asymm (idle x) (idle r) below, none_below),
    )
  ])
  | inr e ↦ rw e (elim (min_uuid_lem rs d found) [
    | inl (same, none_below) ↦ inl (same, (refl, none_below))
    | inr (x, m, same, below, none_below) ↦
        inr (x, Memᴰ.tail m, same, below, (flt-of_not_lt (idle r) (idle x) d e below, none_below))
  ])
]

chosen-eq_ok : (u uuid : InstanceUuid) → chosen u ≡ ok uuid → (u ≡ uuid) × (u ≢ "")
chosen-eq_ok u uuid h = ground (arith, eq_iff u "")

chosen-eq_err : (u : InstanceUuid) (e : Error) → chosen u ≡ err e → u ≡ ""
chosen-eq_err u e h = ground (arith, eq_iff u "")

chosen_ok : (u : InstanceUuid) → u ≢ "" → chosen u ≡ ok u
chosen_ok u n = ground (arith, eq_iff u "")

-- `inst` has the smallest idle time of the candidates, or shares it.
pub record IsLeastIdle (rs : List Instance) (uuid : InstanceUuid) : Type 0 where
  pub inst : Instance
  pub member : Memᴰ inst rs
  pub named : inst.uuid ≡ uuid
  pub least : NoneBelow (idle inst) rs

choose_among_sound :
    (rs : List Instance) (uuid : InstanceUuid) → choose_among rs ≡ ok uuid → IsLeastIdle rs uuid
choose_among_sound [] uuid h = cc
choose_among_sound (r ∷ rs) uuid h =
    let (e, n) = chosen-eq_ok (min_uuid (r ∷ rs) max_float64 "") uuid h in
    elim (min_uuid_lem (r ∷ rs) max_float64 "") [
      | inl (same, none_below) ↦ absurd (n same)
      | inr (x, m, same, below, none_below) ↦ record {
        inst = x;
        member = m;
        named = sym same ∙ e;
        least = none_below;
      }
    ]

-- The idle elector returns the UUID of an eligible follower whose idle time no other eligible
-- follower undercuts.
pub choose_master-IsLeastIdle :
    (opts : Options) (set : ReplicaSet) (uuid : InstanceUuid)
    → choose_master opts set ≡ ok uuid
    → (inst : Instance) × (inst.uuid ≡ uuid)
      × IsEligible opts set inst
      × ((other : Instance) → IsEligible opts set other → flt (idle other) (idle inst) ≡ false)
unfolding choose_master
choose_master-IsLeastIdle opts set uuid h =
    let c = choose_among_sound (candidates opts set) uuid h in
    (
      c.inst,
      c.named,
      (candidates-IsEligible opts set c.inst).0 c.member,
      λ other e.
          All-of_mem (λ o. flt (idle o) (idle c.inst) ≡ false) (candidates opts set) c.least
            ((candidates-IsEligible opts set other).1 e),
    )

choose_among_total :
    (rs : List Instance) (inst : Instance)
    → Memᴰ inst rs
    → flt (idle inst) max_float64 ≡ true
    → All (λ r. r.uuid ≢ "") rs
    → (uuid : InstanceUuid) × (choose_among rs ≡ ok uuid)
choose_among_total [] inst m b n = elim m [ ]
choose_among_total (r ∷ rs) inst m b n = elim (min_uuid_lem (r ∷ rs) max_float64 "") [
  | inl (same, none_below) ↦
      cc (All-of_mem (λ o. flt (idle o) max_float64 ≡ false) (r ∷ rs) none_below m, b)
  | inr (x, k, same, below, none_below) ↦
      (x.uuid, rw same (chosen_ok x.uuid (All-of_mem (λ r. r.uuid ≢ "") (r ∷ rs) n k)))
]

-- The idle elector finds a master whenever some eligible follower has an idle time below the
-- largest float, and every eligible follower has a UUID.
pub choose_master-finds :
    (opts : Options) (set : ReplicaSet) (inst : Instance)
    → IsEligible opts set inst
    → flt (idle inst) max_float64 ≡ true
    → ((other : Instance) → IsEligible opts set other → other.uuid ≢ "")
    → (uuid : InstanceUuid) × (choose_master opts set ≡ ok uuid)
unfolding choose_master
choose_master-finds opts set inst e b n =
    choose_among_total (candidates opts set) inst ((candidates-IsEligible opts set inst).1 e) b (
      All-tabulate (λ r. r.uuid ≢ "") (candidates opts set)
        (λ r m. n r ((candidates-IsEligible opts set r).0 m)))
