-- ===== src/Pools/Gke/Metadata.antt =====
-- pkg/cluster/provider/gkemetadata.go: project, cluster and zones, asked once of the metadata service, which
-- is a parameter. Space is that of ASCII.
use Prim.Native.Char.{Char, code}
use Prim.Native.String.{String}
use cluster_turndown.Prelude.{
  String, Bool, ◌&&◌, ◌||◌, Option, none, some, List, [], ◌∷◌, str_eq, leb, ◌==◌, if◌then◌else◌,
  Entries, lookup, insert, Result, ok, err,
}
use cluster_turndown.Strconv.{put_first, split}

is_space : Char → Bool
is_space c = leb 9 (code c) && leb (code c) 13 || code c == 32

-- `strings.TrimSpace`
trim_left : String → String
unfolding is_space
trim_left String.[] = ""
trim_left (String.◌∷◌ c s) = let rest = trim_left s in if is_space c then rest else String.◌∷◌ c s

trim_right : String → String
unfolding is_space
trim_right String.[] = ""
trim_right (String.◌∷◌ c s) =
    let rest = trim_right s in if str_eq rest "" && is_space c then "" else String.◌∷◌ c rest

unfoldable pub trim_space : String → String
unfolding trim_left trim_right
trim_space s = trim_right (trim_left s)

-- `strings.Split(line, ": ")`
unfoldable pub split_colon : String → List String
split_colon String.[] = "" ∷ []
split_colon (String.◌∷◌ c String.[]) = String.◌∷◌ c "" ∷ []
split_colon (String.◌∷◌ c (String.◌∷◌ d s)) =
    let next = split_colon (String.◌∷◌ d s) in
    let after = split_colon s in
    if str_eq (String.◌∷◌ c (String.◌∷◌ d "")) ": " then "" ∷ after else put_first c next

-- The lines of a text that end in a line feed.
ended_lines : List String → List String
ended_lines [] = []
ended_lines (l ∷ []) = []
ended_lines (l ∷ m ∷ ls) = l ∷ ended_lines (m ∷ ls)

value_of_zone : List String → Option String
unfolding trim_space
value_of_zone (k ∷ v ∷ []) = if str_eq k "ZONE" then some (trim_space v) else none
value_of_zone _ = none

-- The zone in the lines of `kube-env`.
unfoldable pub zone_in : List String → Option String
unfolding value_of_zone split_colon
zone_in [] = none
zone_in (l ∷ ls) = elim (value_of_zone (split_colon l)) [ none ↦ zone_in ls | some z ↦ some z ]

unfoldable pub zone_of_env : String → Option String
unfolding zone_in ended_lines
zone_of_env env = zone_in (ended_lines (split env b'\n'))

-- The service, in a world in which it answers.
pub record MetadataService (W : Type 0) : Type 0 where
  pub project_id : W → Result String
  pub instance_attribute : String → W → Result String
  pub zone : W → Result String

-- A value under a key of the cache, or the one that is fetched and then kept; nothing is kept of a failure.
unfoldable pub cached : String → Option String → Entries String → String × Entries String
cached key fetched cache = elim (lookup key cache) [
  | some v ↦ (v, cache)
  | none ↦ elim fetched [ none ↦ ("", cache) | some v ↦ (v, insert key v cache) ]
]

answer_of : Result String → Option String
answer_of (ok v) = some v
answer_of (err e) = none

module _ {W : Type 0} (md : MetadataService W) where
  unfoldable pub get_project_id : Entries String → W → String × Entries String
  unfolding cached answer_of
  get_project_id cache w = cached "projectid" (answer_of (md.project_id w)) cache

  unfoldable pub get_cluster_id : Entries String → W → String × Entries String
  unfolding cached answer_of
  get_cluster_id cache w =
      cached "cluster-name" (answer_of (md.instance_attribute "cluster-name" w)) cache

  unfoldable pub get_master_zone : Entries String → W → String × Entries String
  unfolding cached zone_of_env
  get_master_zone cache w =
      cached "master-zone"
        (elim (md.instance_attribute "kube-env" w) [ err e ↦ none | ok env ↦ zone_of_env env ])
        cache

  unfoldable pub get_zone : Entries String → W → String × Entries String
  unfolding cached answer_of
  get_zone cache w = cached "zone" (answer_of (md.zone w)) cache
