-- ===== src/Git/ShadowExamples.antt =====
-- The theorem on snapshots at a small repository.
use director_orson_callan_kr.Base.{Bytes, Bool, false, ok, Returns, utf8, str_eq}
use director_orson_callan_kr.Git.Shadow.{create_shadow_snapshot}
use director_orson_callan_kr.Git.Excluded.{IsExcluded, create_shadow_snapshot-IsExcluded}
use director_orson_callan_kr.Git.Samples.{staged, paths, runner, tmp, git}

abbrev deny : Bytes → Bool
deny path = str_eq path (utf8 ".env")

create_shadow_snapshot-IsExcluded_example :
    Returns
      (create_shadow_snapshot runner (ok tmp) (utf8 "m") deny)
      false
      (λ snap _. IsExcluded runner deny str_eq staged paths tmp git snap)
create_shadow_snapshot-IsExcluded_example =
    create_shadow_snapshot-IsExcluded runner deny str_eq staged paths tmp git (utf8 "m") false
