-- ===== src/Features/Registry.antt =====
-- nexusfeed/features/feature_registry.py: `FeatureRegistry`. The current version of the settings is
-- an argument.
use nexusfeed.Prelude.{Option, List, [], ◌∷◌, map, String, get, put, ltb, string_eq, if◌then◌else◌}
use nexusfeed.Types.{Time}

pub record FeatureVersionRecord : Type 0 where
  pub version : String
  pub description : String
  pub computed_at : Time
  pub feature_names : List String

-- `self._versions`
abbrev pub Versions : Type 0
Versions = List (String × FeatureVersionRecord)

unfoldable pub register :
    (now : Time) (version description : String) (feature_names : List String)
    → Versions
    → Versions × FeatureVersionRecord
register now version description feature_names versions =
    let entry : FeatureVersionRecord = record {
      version = version;
      description = description;
      computed_at = now;
      feature_names = feature_names;
    } in
    (put version entry versions, entry)

abbrev pub get_version : String → Versions → Option FeatureVersionRecord
get_version version versions = get version versions

-- `sorted` is stable: an entry goes before the first that is later
unfoldable pub insert_by_time :
    FeatureVersionRecord → List FeatureVersionRecord → List FeatureVersionRecord
insert_by_time entry [] = entry ∷ []
insert_by_time entry (x ∷ xs) =
    let rest = insert_by_time entry xs in
    if ltb entry.computed_at x.computed_at then entry ∷ x ∷ xs else x ∷ rest

unfoldable pub sort_by_time :
    List FeatureVersionRecord → List FeatureVersionRecord → List FeatureVersionRecord
sort_by_time done [] = done
sort_by_time done (x ∷ xs) = sort_by_time (insert_by_time x done) xs

unfoldable pub list_versions : Versions → List FeatureVersionRecord
unfolding sort_by_time
list_versions versions = sort_by_time [] (map (λ v. v.1) versions)
