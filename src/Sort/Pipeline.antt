-- ===== src/Sort/Pipeline.antt =====
-- The parallel particle sort, src/species_advance/standard/pipeline/sort_p_pipeline.cc. The
-- pipelines of a stage run in an order that the caller of the model chooses. The rounding of
-- DISTRIBUTE, in floating point, is a parameter, as is what memory holds before it is written.
pub mod Stages
pub mod Coarse
pub mod Fine
pub mod Ghosts
pub mod Places
pub mod Result
pub mod Limits
use vpic.Prelude.{
  ℕ, zero, suc, ◌+◌, ◌-◌, ◌*◌, ◌/◌, ◌%◌, Bool, true, false, ◌&&◌, Option, none, some, List, [], ◌∷◌,
  update, for_range, ltb, leb, ◌==◌, if◌then◌else◌,
}
use vpic.Grid.Voxel.{voxel}
use vpic.Sort.Scatter.{count_keys, scatter}
use vpic.Sort.Legacy.{Particle, Species, live, voxel_of, Partition, partition_step}
use vpic.Sort.Subsorts.{v2p, p2v}

-- `sort_p_pipeline_args_t`: its numbers, and the arrays that its pointers lead to.
pub record Args : Type 0 where
  pub n : ℕ
  pub n_subsort : ℕ
  pub vl : ℕ
  pub vh : ℕ
  pub n_voxel : ℕ

pub record Arrays {ℓ} (F : Type ℓ) : Type ℓ where
  pub p : ℕ → Option (Particle F)
  pub aux_p : ℕ → Option (Particle F)
  pub coarse_partition : ℕ → ℕ
  pub next : ℕ → ℕ
  pub partition : ℕ → ℕ

-- `COPY( d+i, s, n )` and `CLEAR( d+i, n )`
unfoldable pub copy {ℓ} : {A : Type ℓ} → (ℕ → A) → ℕ → (ℕ → A) → ℕ → ℕ → A
copy d i s n j = if leb i j && ltb j (i + n) then s (j - i) else d j

unfoldable pub clear : (ℕ → ℕ) → ℕ → ℕ → ℕ → ℕ
clear d i n = copy d i (λ k. 0) n

-- `POW2_CEIL( n_subsort, 4 )`
unfoldable pub stride : ℕ → ℕ
stride n_subsort = (n_subsort + 3) / 4 * 4

-- `DISTRIBUTE( N, 1, p, P, i, n )`, where `round N P p` is `(int)(t*p+0.5)`.
module _ (round : ℕ → ℕ → ℕ → ℕ) where
  unfoldable pub first_item : (N p P : ℕ) → ℕ
  first_item N p P = round N P p

  unfoldable pub num_items : (N p P : ℕ) → ℕ
  num_items N p P = if p == P then N % 1 else round N P (p + 1) - round N P p

-- `i = subsort + cp_stride*pipeline_rank; count = coarse_partition[i]; coarse_partition[i] = sum;
-- sum += count;`
unfoldable pub sum_entry : (n_subsort subsort rank : ℕ) → (ℕ → ℕ) × ℕ → (ℕ → ℕ) × ℕ
sum_entry n_subsort subsort rank s =
    let i = subsort + stride n_subsort * rank in (update s.0 i s.1, s.1 + s.0 i)

unfoldable pub sum_coarse : (n_subsort n_pipeline : ℕ) → (ℕ → ℕ) → (ℕ → ℕ) × ℕ
sum_coarse n_subsort n_pipeline coarse_partition =
    for_range n_subsort 0 (λ subsort. for_range n_pipeline 0 (sum_entry n_subsort subsort))
      (coarse_partition, 0)

-- `CLEAR( partition, vl ); for( i=vh+1; i<n_voxel; i++ ) partition[i] = n_particle;`
unfoldable pub ghosts : Args → (ℕ → ℕ) → ℕ → ℕ
ghosts args partition =
    for_range (args.n_voxel - (args.vh + 1)) (args.vh + 1) (λ i a. update a i args.n)
      (clear partition 0 args.vl)

abbrev pub subsort_of {ℓ} : {F : Type ℓ} → Args → Particle F → ℕ
subsort_of args q = v2p (voxel_of q) args.n_subsort args.vl args.vh

-- The particles that a pipeline reads.
unfoldable pub share {ℓ} :
    {F : Type ℓ}
    → (round : ℕ → ℕ → ℕ → ℕ) → Args
    → Arrays F
    → (rank n_pipeline : ℕ) → List (Particle F)
share round args a rank n_pipeline =
    live (num_items round args.n rank n_pipeline) (first_item round args.n rank n_pipeline) a.p

-- The pipelines. `stack` is what the local arrays hold before they are written.
module _ {ℓ} {F : Type ℓ} (round : ℕ → ℕ → ℕ → ℕ) (stack : ℕ → ℕ) (args : Args) where
  -- `none` is `ERROR(( "n_subsort too large." ))`.
  unfoldable pub coarse_count : (n_pipeline rank : ℕ) → Arrays F → Option (Arrays F)
  coarse_count n_pipeline rank a =
      if rank == n_pipeline
      then some a
      else if ltb 256 args.n_subsort
      then none
      else let count =
          count_keys (subsort_of args) (share round args a rank n_pipeline)
            (clear stack 0 args.n_subsort) in
        some (record a {
          coarse_partition =
              copy a.coarse_partition (stride args.n_subsort * rank) count args.n_subsort;
        })

  unfoldable pub coarse_sort : (n_pipeline rank : ℕ) → Arrays F → Option (Arrays F)
  coarse_sort n_pipeline rank a =
      if rank == n_pipeline
      then some a
      else if ltb 256 args.n_subsort
      then none
      else let next =
          copy stack 0 (λ k. a.coarse_partition (stride args.n_subsort * rank + k))
            args.n_subsort in
        some (record a {
          aux_p = scatter (subsort_of args) (share round args a rank n_pipeline) next a.aux_p;
        })

  -- The body of the loop over the subsorts of a pipeline.
  unfoldable pub sort_voxels : (subsort : ℕ) → Arrays F → Arrays F
  sort_voxels subsort a =
      let i0 = a.coarse_partition subsort in
      let i1 = a.coarse_partition (subsort + 1) in
      let v0 = p2v subsort args.n_subsort args.vl args.vh in
      let v1 = p2v (subsort + 1) args.n_subsort args.vl args.vh in
      let slice = live (i1 - i0) i0 a.aux_p in
      let counted = count_keys voxel_of slice (clear a.next v0 (v1 - v0)) in
      let f =
        for_range (v1 - v0) v0 partition_step
          (record { partition = a.partition; next = counted; j = i0 }) in
      record a {
        next = count_keys voxel_of slice f.next;
        partition = update f.partition v1 f.j;
        p = scatter voxel_of slice f.next a.p;
      }

  -- `for( subsort=pipeline_rank; subsort<n_subsort; subsort+=n_pipeline )`; `none` is fuel that is
  -- not enough.
  unfoldable pub subsorts : (fuel subsort n_pipeline : ℕ) → Arrays F → Option (Arrays F)
  subsorts zero subsort n_pipeline a = none
  subsorts (suc fuel) subsort n_pipeline a = elim (ltb subsort args.n_subsort) [
    | false ↦ some a
    | true ↦ subsorts fuel (subsort + n_pipeline) n_pipeline (sort_voxels subsort a)
  ]

  unfoldable pub subsort : (n_pipeline rank : ℕ) → Arrays F → Option (Arrays F)
  subsort n_pipeline rank a =
      if rank == n_pipeline then some a else subsorts (args.n_subsort + 1) rank n_pipeline a

infixl 5 ◌>>=◌
abbrev ◌>>=◌ {ℓ κ} : {S : Type ℓ} {T : Type κ} → Option S → (S → Option T) → Option T
none >>= k = none
some a >>= k = k a

-- `EXEC_PIPELINES( name, args, 0 ); WAIT_PIPELINES();`, the pipelines one after the other.
unfoldable pub exec {ℓ} : {S : Type ℓ} → (ℕ → S → Option S) → List ℕ → S → Option S
exec pipeline [] a = some a
exec pipeline (rank ∷ order) a = elim (pipeline rank a) [
  | none ↦ none
  | some b ↦ exec pipeline order b
]

-- The numbers of the arguments that `sort_p_pipeline` sets up.
abbrev pub arguments {ℓ} : {F : Type ℓ} → (n_pipeline : ℕ) → Species F → Args
arguments n_pipeline sp = record {
  n = sp.np;
  n_subsort = n_pipeline;
  vl = voxel 1 1 1 sp.nx sp.ny;
  vh = voxel sp.nx sp.ny sp.nz sp.nx sp.ny;
  n_voxel = sp.nv;
}

-- The orders in which the pipelines of the three stages run.
pub record Orders : Type 0 where
  pub counting : List ℕ
  pub sorting : List ℕ
  pub subsorting : List ℕ

module _ {ℓ} {F : Type ℓ} (round : ℕ → ℕ → ℕ → ℕ) (stack : ℕ → ℕ) where
  -- The branch of several pipelines, from the coarse count on. The host's loops on the ghost part of
  -- `partition` are put behind the pipelines that they run beside.
  unfoldable pub sort_many : (args : Args) (n_pipeline : ℕ) → Orders → Arrays F → Option (Arrays F)
  sort_many args n_pipeline orders a0 = do
    a1 ← exec (coarse_count round stack args n_pipeline) orders.counting a0
    a2 ← exec (coarse_sort round stack args n_pipeline) orders.sorting (record a1 {
      coarse_partition = (sum_coarse args.n_subsort n_pipeline a1.coarse_partition).0;
    })
    a3 ←
        exec (subsort round stack args n_pipeline) orders.subsorting
          (record a2 { coarse_partition = update a2.coarse_partition args.n_subsort args.n })
    some (record a3 { partition = ghosts args a3.partition })

  -- The branch of one pipeline: `args->p` and `args->aux_p` are exchanged for the subsort.
  unfoldable pub sort_one : (args : Args) → Arrays F → Option (Arrays F)
  sort_one args a0 = do
    a1 ← subsort round stack args 1 0 (record a0 {
      coarse_partition = update (update a0.coarse_partition 0 0) 1 args.n;
      p = a0.aux_p;
      aux_p = a0.p;
    })
    some (record a1 {
      partition = ghosts args a1.partition;
      p = copy a1.aux_p 0 a1.p args.n;
      aux_p = a1.p;
    })

  -- `sort_p_pipeline`; `none` for the species is NULL, and for the result an error. What the scratch
  -- memory holds before is in `scratch`, of which only the three scratch arrays are used.
  unfoldable pub sort_p_pipeline :
      (n_pipeline : ℕ) → Orders → (scratch : Arrays F) → Option (Species F) → Option (Species F)
  sort_p_pipeline n_pipeline orders scratch none = none
  sort_p_pipeline n_pipeline orders scratch (some sp) =
      let a0 : Arrays F = record scratch { p = sp.p; partition = sp.partition } in
      (do
        a ←
            if n_pipeline == 1
            then sort_one (arguments n_pipeline sp) a0
            else sort_many (arguments n_pipeline sp) n_pipeline orders a0
        some (record sp { last_sorted = sp.step; p = a.p; partition = a.partition }))
