-- ===== src/Execution/Measured.antt =====
-- What RunExecutor._get_cgroup_measurements of benchexec/runexecutor.py measures.
use benchexec.Prelude.{
  ℕ, zero, suc, ◌+◌, ◌*◌, ◌≡◌, ◌≤◌, ◌<◌, refl, inl, inr, ◌⊎◌, Bool, true, false, ◌&&◌, some, ltb,
  ◌==◌, ==_iff, Bool-cases, arith,
}
use benchexec.Execution.Timer.{second}
use benchexec.Execution.Measurements.{read_until_stable, choose_cputime}

-- A value that two readings in a row gave.
pub record IsStable (readings : ℕ → ℕ) (first last value : ℕ) : Type 0 where
  pub index : ℕ
  pub from_first : first ≤ index
  pub to_last : index ≤ last
  pub read : readings index ≡ value
  pub again : readings (suc index) ≡ value

wider :
    (readings : ℕ → ℕ) (first last value : ℕ)
    → IsStable readings (suc first) last value
    → IsStable readings first last value
wider readings first last value s = record {
  index = s.index;
  from_first = let below = s.from_first in omega arith;
  to_last = s.to_last;
  read = s.read;
  again = s.again;
}

unstable :
    (readings : ℕ → ℕ) (i n : ℕ)
    → readings (suc n) ≡ readings n
    → (readings (suc i) == readings i) ≡ false
    → i ≤ n
    → suc i ≤ n
unstable readings i n same differ below = elim (Bool-cases (i == n)) [
  | inl e ↦
      let here : i ≡ n = (==_iff i n).0 e in
      let agree = (==_iff (readings (suc i)) (readings i)).1 (rw here same) in
      absurd (clash _ agree differ)
  | inr e ↦ ground arith
]
  where
    clash : (b : Bool) → b ≡ true → b ≡ false → ⊥
    clash b t f = ground arith

-- Where two readings in a row agree at some time, and the fuel is enough for the readings until then,
-- the loop ends with a value that two readings in a row gave, at that time or before.
pub read_until_stable_total :
    (fuel : ℕ) (readings : ℕ → ℕ) (i n : ℕ)
    → readings (suc n) ≡ readings n
    → i ≤ n
    → n < i + fuel
    → (value : ℕ) × (read_until_stable fuel readings i (readings i) ≡ some value)
      × IsStable readings i n value
unfolding read_until_stable
read_until_stable_total zero readings i n same below enough = absurd (omega arith)
read_until_stable_total (suc fuel) readings i n same below enough =
    elim (Bool-cases (readings (suc i) == readings i)) [
      | inl e ↦ (
        readings i,
        rw e refl,
        record {
          index = i;
          from_first = omega arith;
          to_last = below;
          read = refl;
          again = (==_iff (readings (suc i)) (readings i)).0 e;
        },
      )
      | inr e ↦
          let further = unstable readings i n same e below in
          let (value, ends, stable) =
            read_until_stable_total fuel readings (suc i) n same further (omega arith) in
          (value, rw e ends, wider readings i n value stable)
    ]

-- The CPU time that is reported is that of the cgroup or that of wait, is at least 95 percent of that
-- of wait unless that is at most half a second, and is above that of the cgroup only where the cgroup
-- misses more than 5 percent.
choose_cputime_bounds :
    (wait cgroups : ℕ)
    → ((choose_cputime wait cgroups ≡ wait) ⊎ (choose_cputime wait cgroups ≡ cgroups))
      × ((wait * 2 ≤ second) ⊎ (wait * 95 ≤ choose_cputime wait cgroups * 100))
      × (cgroups < choose_cputime wait cgroups → cgroups * 100 < wait * 95)
unfolding choose_cputime
choose_cputime_bounds wait cgroups =
    elim (Bool-cases (ltb second (wait * 2) && ltb (cgroups * 100) (wait * 95))) [
      | inl flawed ↦ rw flawed (inl refl, inr (omega arith), λ h. ground arith)
      | inr fine ↦ rw fine (inr refl, ground arith, λ h. absurd (omega arith))
    ]
