-- ===== src/Sort/Legacy.antt =====
-- The serial particle sort, `sort_p` under VPIC_USE_LEGACY_SORT in
-- src/species_advance/standard/sort_p.cc, when it sorts out of place.
pub mod Places
use vpic.Prelude.{
  ℕ, zero, suc, ◌+◌, ◌≤◌, ◌<◌, ◌≡◌, Bool, true, false, Option, none, some, List, [], ◌∷◌, update,
  ◌==◌, if◌then◌else◌, for_range,
}
use vpic.Sort.Scatter.{count_keys, scatter}

-- `particle_t`; its reals are of a type `F`.
pub record Particle {ℓ} (F : Type ℓ) : Type ℓ where
  pub dx : F
  pub dy : F
  pub dz : F
  pub i : ℕ
  pub ux : F
  pub uy : F
  pub uz : F
  pub w : F

-- What the sort uses of `species_t` and of its grid `g`: the array `p` holds `np` particles, and
-- `none` where the memory is not set.
pub record Species {ℓ} (F : Type ℓ) : Type ℓ where
  pub p : ℕ → Option (Particle F)
  pub np : ℕ
  pub max_np : ℕ
  pub last_sorted : ℕ
  pub step : ℕ
  pub nx : ℕ
  pub ny : ℕ
  pub nz : ℕ
  pub nv : ℕ
  pub partition : ℕ → ℕ

-- The particles of the `n` places from `j` on.
unfoldable pub live {ℓ} : {F : Type ℓ} → ℕ → ℕ → (ℕ → Option (Particle F)) → List (Particle F)
live zero j p = []
live (suc n) j p = elim (p j) [ none ↦ live n (j + 1) p | some q ↦ q ∷ live n (j + 1) p ]

abbrev pub voxel_of {ℓ} : {F : Type ℓ} → Particle F → ℕ
voxel_of q = q.i

unfoldable pub particles {ℓ} : {F : Type ℓ} → Species F → List (Particle F)
particles sp = live (sp.np) 0 (sp.p)

-- The arrays `partition` and `next` and the running total `j`.
pub record Partition : Type 0 where
  pub partition : ℕ → ℕ
  pub next : ℕ → ℕ
  pub j : ℕ

-- `partition[i] = j; j += next[i]; next[i] = partition[i];`
unfoldable pub partition_step : ℕ → Partition → Partition
partition_step i s = record {
  partition = update (s.partition) i (s.j);
  next = update (s.next) i (s.j);
  j = s.j + s.next i;
}

unfoldable pub convert : ℕ → (ℕ → ℕ) → (ℕ → ℕ) → Partition
convert nc1 partition next =
    for_range nc1 0 partition_step (record { partition = partition; next = next; j = 0 })

-- `sort_p` of a species whose `sort_out_of_place` is set.
unfoldable pub sort_out_of_place {ℓ} : {F : Type ℓ} → Species F → Species F
sort_out_of_place sp =
    let nc1 = sp.nv + 1 in
    let next = count_keys voxel_of (particles sp) (λ v. 0) in
    let s = convert nc1 (sp.partition) next in
    if sp.np == 0 then record sp { last_sorted = sp.step } else record sp {
      last_sorted = sp.step;
      partition = s.partition;
      p = scatter voxel_of (particles sp) (s.next) (λ j. none);
    }
