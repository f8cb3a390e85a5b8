-- ===== src/Write/Flush.antt =====
-- holonomy-core/src/manager/write_orchestrator.rs: `flush_partition` forgets the keys before it uploads
-- them.
use holonomy_source.Common.{◌≡◌, String, none, List, [], arith, eq_refl, Option-cases, inl, inr}
use holonomy_source.Common.Dict
use holonomy_source.Common.Dict.{get-remove}
use holonomy_source.Common.Result.{Result, ok, Result-cases}
use holonomy_source.Arrow.{Arrow}
use holonomy_source.Linter.{Engine}
use holonomy_source.Policy.Manager.{PolicyManager}
use holonomy_source.Policy.Manager
use holonomy_source.Crypto.{KmsProvider, Moka, CachedDek}
use holonomy_source.Crypto
use holonomy_source.Write.{Outside, Effect, WriteError}
use holonomy_source.Write.Sidecar.{SidecarMetadata}
use holonomy_source.Write.Orchestrator.{State, flush_partition}

module _ (lower : String → String) (arrow : Arrow) (engine : Engine arrow) (policy : Manager.Codec)
    (codec : Crypto.Codec) (kms : KmsProvider) (moka : Moka CachedDek)
    (out : Outside lower arrow engine) (manager : PolicyManager)
    (to_string : SidecarMetadata → Result String String) (root : String) where
  abbrev flush_ :
      State lower arrow engine policy codec kms moka
      → State lower arrow engine policy codec kms moka × List Effect × Result WriteError (Unit {0})
  flush_ = flush_partition lower arrow engine policy codec kms moka out manager to_string root

  flush_absent :
      (s : State lower arrow engine policy codec kms moka)
      → Dict.get root s.sidecar_deks ≡ none
      → flush_ s ≡ (s, [], ok tt)
  unfolding flush_partition
  flush_absent s h = ground arith

  flush_forgets :
      (s : State lower arrow engine policy codec kms moka)
      → Dict.get root (flush_ s).0.sidecar_deks ≡ none
  unfolding flush_partition
  flush_forgets s = elim (Option-cases (Dict.get root s.sidecar_deks)) [
    | inl e ↦ ground (arith, e)
    | inr (sidecar, e) ↦ elim (Result-cases (to_string sidecar)) [
      | inl (json, j) ↦ ground (arith, e, j, get-remove root root s.sidecar_deks, eq_refl root)
      | inr (error, j) ↦ ground (arith, e, j, get-remove root root s.sidecar_deks, eq_refl root)
    ]
  ]

  -- After flush_partition, whether its upload has succeeded or not, the partition has no sidecar,
  -- and a second flush_partition uploads nothing and reports success.
  pub flush_partition_twice :
      (s : State lower arrow engine policy codec kms moka)
      → (Dict.get root (flush_ s).0.sidecar_deks ≡ none)
        × ((flush_ (flush_ s).0).1 ≡ [])
        × ((flush_ (flush_ s).0).2 ≡ ok tt)
  flush_partition_twice s =
      let gone = flush_forgets s in
      let again = flush_absent (flush_ s).0 gone in
      (gone, ground (arith, again), ground (arith, again))
