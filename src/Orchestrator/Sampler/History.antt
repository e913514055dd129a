-- ===== src/Orchestrator/Sampler/History.antt =====
-- The sampler against the history of the analyses.
use qumomf.Prelude.{
  String, ◌==◌, eq_iff, ◌≡◌, refl, sym, ap, ◌∙◌, ◌↔◌, true, false, Bool-cases, inl, inr, Option,
  none, some, List, [], ◌∷◌, if◌then◌else◌,
}
use mathlib.Core.Path.{subst}
use qumomf.Prelude.Dict.{Dict, lookup, insert}
use qumomf.Prelude.Result.{Result, ok, err, ok_eq}
use qumomf.Storage.Rows.{both}
use qumomf.Vshard.Pool.Lock.{lookup-insert_same}
use qumomf.Orchestrator.Analysis.{ReplicationAnalysis}
use qumomf.Vshard.Discovery.Report.{Level, info_level, debug_level}
use qumomf.Orchestrator.Sampler.{Sampler, new_sampler, get_hash, same_fingerprint, sampled, sample}

lookup-insert_other :
    {Value : Type 0} (key other : String) (value : Value) (entries : Dict Value)
    → (key == other) ≡ false
    → lookup other (insert key value entries) ≡ lookup other entries
unfolding lookup insert
lookup-insert_other key other value [] d = rw d refl
lookup-insert_other key other value (e ∷ es) d = elim (Bool-cases (e.0 == key)) [
  | inl t ↦ rw t (rw (d, moved ((eq_iff (e.0) key).0 t)) refl)
  | inr f ↦ rw f (rw (lookup-insert_other key other value es d) refl)
]
  where
    moved : e.0 ≡ key → (e.0 == other) ≡ false
    moved q = subst (λ n. (n == other) ≡ false) (sym q) d

abbrev later_or : Option String → Option String → Option String
later_or (some h) o = some h
later_or none o = o

later_or_assoc : (a b c : Option String) → later_or a (later_or b c) ≡ later_or (later_or a b) c
later_or_assoc none b c = refl
later_or_assoc (some h) b c = refl

abbrev hash_or_none : Result String String → Option String
hash_or_none (ok h) = some h
hash_or_none (err m) = none

module _ (sha : String → Result String String) where
  -- The fingerprint of the last analysis of the set that has one.
  abbrev pub last_hash : List ReplicationAnalysis → String → Option String
  last_hash [] uuid = none
  last_hash (a ∷ as') uuid =
      later_or (last_hash as' uuid)
        (if a.set.uuid == uuid then hash_or_none (get_hash sha a) else none)

  unfoldable pub samples : List ReplicationAnalysis → Sampler → Sampler
  unfolding sample
  samples [] s = s
  samples (a ∷ as') s = samples as' (sample sha a s).1

  kept_enabled :
      (s : Sampler) (uuid : String) (r : Result String String)
      → (sampled sha s uuid r).1.enabled ≡ s.enabled
  kept_enabled s uuid (err m) = refl
  kept_enabled s uuid (ok got) =
      elim (Bool-cases (same_fingerprint sha (lookup uuid s.fingerprints) got)) [
        | inl e ↦ rw e refl
        | inr e ↦ rw e refl
      ]

  same_found : (o : Option String) (got : String) → same_fingerprint sha o got ≡ true → o ≡ some got
  same_found none got h = cc
  same_found (some found) got h = ap some ((eq_iff found got).0 h)

  fingerprint_of :
      (s : Sampler) (uuid other : String) (r : Result String String)
      → lookup other (sampled sha s uuid r).1.fingerprints
        ≡ later_or (if uuid == other then hash_or_none r else none) (lookup other s.fingerprints)
  fingerprint_of s uuid other (err m) = elim (Bool-cases (uuid == other)) [
    | inl e ↦ rw e refl
    | inr e ↦ rw e refl
  ]
  fingerprint_of s uuid other (ok got) =
      elim (Bool-cases (same_fingerprint sha (lookup uuid s.fingerprints) got)) [
        | inl e ↦ elim (Bool-cases (uuid == other)) [
          | inl q ↦
              rw (e, q)
                (subst (λ n. lookup n s.fingerprints ≡ some got) ((eq_iff uuid other).0 q)
                  (same_found (lookup uuid s.fingerprints) got e))
          | inr q ↦ rw (e, q) refl
        ]
        | inr e ↦ elim (Bool-cases (uuid == other)) [
          | inl q ↦
              rw (e, q)
                (subst (λ n. lookup n (insert uuid got s.fingerprints) ≡ some got)
                  ((eq_iff uuid other).0 q) (lookup-insert_same uuid got s.fingerprints))
          | inr q ↦ rw (e, q) (lookup-insert_other uuid other got s.fingerprints q)
        ]
      ]

  sample_enabled :
      (a : ReplicationAnalysis) (s : Sampler)
      → s.enabled ≡ true
      → sample sha a s ≡ sampled sha s a.set.uuid (get_hash sha a)
  unfolding sample
  sample_enabled a s h =
      ap (λ b. if b then sampled sha s a.set.uuid (get_hash sha a) else (info_level, s)) h

  abbrev Shows : List ReplicationAnalysis → Sampler → Sampler → Type 0
  Shows as' s s' =
      (s'.enabled ≡ true)
      × ((uuid : String)
          → lookup uuid s'.fingerprints
            ≡ later_or (last_hash as' uuid) (lookup uuid s.fingerprints))

  samples_show :
      (as' : List ReplicationAnalysis) (s : Sampler)
      → s.enabled ≡ true
      → Shows as' s (samples as' s)
  unfolding samples
  samples_show [] s h = (h, λ uuid. refl)
  samples_show (a ∷ as') s h =
      let s1 = sampled sha s a.set.uuid (get_hash sha a) in
      let (h2, k) = samples_show as' s1.1 (kept_enabled s a.set.uuid (get_hash sha a) ∙ h) in
      subst (λ (p : Level × Sampler). Shows (a ∷ as') s (samples as' p.1))
        (sym (sample_enabled a s h))
        (
          h2,
          λ uuid.
              k uuid
              ∙ (ap (later_or (last_hash as' uuid))
                    (fingerprint_of s a.set.uuid uuid (get_hash sha a))
                  ∙ later_or_assoc (last_hash as' uuid)
                      (if a.set.uuid == uuid then hash_or_none (get_hash sha a) else none)
                      (lookup uuid s.fingerprints)),
        )

  level_iff :
      (s : Sampler) (uuid : String) (r : Result String String)
      → ((sampled sha s uuid r).0 ≡ debug_level)
        ↔ ((h : String) × (r ≡ ok h) × (lookup uuid s.fingerprints ≡ some h))
  level_iff s uuid (err m) = ((λ e. cc), λ (h, e, k). cc)
  level_iff s uuid (ok got) =
      elim (Bool-cases (same_fingerprint sha (lookup uuid s.fingerprints) got)) [
        | inl e ↦
            rw e ((λ _. (got, refl, same_found (lookup uuid s.fingerprints) got e)), λ _. refl)
        | inr e ↦ rw e ((λ q. cc), λ (h, q, k). elim (differ h (ok_eq q) k e) [ ])
      ]
    where
      differ :
          (h : String)
          → got ≡ h
          → lookup uuid s.fingerprints ≡ some h
          → same_fingerprint sha (lookup uuid s.fingerprints) got ≡ false
          → ⊥
      differ h q k e =
          both ((eq_iff h got).1 (sym q)) (subst (λ o. same_fingerprint sha o got ≡ false) k e)

  -- After any analyses, the next one is logged for debugging only exactly if it has a fingerprint, and
  -- the last analysis of its replica set that has one has the same.
  pub sample_iff :
      (as' : List ReplicationAnalysis) (a : ReplicationAnalysis)
      → ((sample sha a (samples as' new_sampler)).0 ≡ debug_level)
        ↔ ((h : String) × (get_hash sha a ≡ ok h) × (last_hash as' a.set.uuid ≡ some h))
  unfolding lookup
  sample_iff as' a =
      let (h, k) = samples_show as' new_sampler refl in
      let e : lookup a.set.uuid (samples as' new_sampler).fingerprints ≡ last_hash as' a.set.uuid =
        k a.set.uuid ∙ later_none (last_hash as' a.set.uuid) in
      subst
        (λ (p : Level × Sampler).
          (p.0 ≡ debug_level)
          ↔ ((h : String) × (get_hash sha a ≡ ok h) × (last_hash as' a.set.uuid ≡ some h)))
        (sym (sample_enabled a (samples as' new_sampler) h))
        (subst
          (λ o.
            ((sampled sha (samples as' new_sampler) a.set.uuid (get_hash sha a)).0 ≡ debug_level)
            ↔ ((h : String) × (get_hash sha a ≡ ok h) × (o ≡ some h)))
          e (level_iff (samples as' new_sampler) a.set.uuid (get_hash sha a)))
    where
      later_none : (o : Option String) → later_or o none ≡ o
      later_none none = refl
      later_none (some h) = refl
