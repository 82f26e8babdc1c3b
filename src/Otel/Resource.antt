-- ===== src/Otel/Resource.antt =====
-- The resource that Init of modules/shared/src/utilotel/init.go builds for its providers. The
-- packages resource and semconv are a parameter, with what their documentation promises.
use micro_services.Base.{String, ◌≡◌, ◌∙◌, Option, none, some, List, [], ◌∷◌, arith}
use micro_services.Errors.{Result, ok}

pub record Resources : Type 1 where
  pub Resource : Type 0
  -- resource.Option, and semconv.ServiceName as a key and a value.
  pub Detector : Type 0
  pub service_name : String → String × String
  pub with_attributes : String × String → Detector
  pub with_process : Detector
  pub with_telemetry_sdk : Detector
  pub with_from_env : Detector
  pub new : List Detector → Result Resource
  pub attribute : Resource → String → Option String
  -- What a detector finds, on this machine and in this environment.
  pub found : Detector → String → Option String

module _ (L : Resources) where
  -- The call of resource.New in Init.
  unfoldable pub build_resource : (service_name : String) → Result L.Resource
  build_resource name = L.new (
      L.with_attributes (L.service_name name)
      ∷ L.with_process
      ∷ L.with_telemetry_sdk
      ∷ L.with_from_env
      ∷ [])

  -- The last detector that has the key gives its value.
  abbrev pub last_found : String → List L.Detector → Option String
  last_found key [] = none
  last_found key (d ∷ ds) = elim (last_found key ds) [ some v ↦ some v | none ↦ L.found d key ]

  abbrev pub service_key : String
  service_key = "service.name"

  pub record IsMerged : Type 0 where
    pub attribute-new :
        (ds : List L.Detector) (r : L.Resource) (key : String)
        → L.new ds ≡ ok r
        → L.attribute r key ≡ last_found key ds
    pub found-attributes :
        (value : String)
        → L.found (L.with_attributes (L.service_name value)) service_key ≡ some value
    pub found-process : L.found L.with_process service_key ≡ none
    pub found-telemetry_sdk : L.found L.with_telemetry_sdk service_key ≡ none

  abbrev pub or_else : Option String → String → String
  or_else (some v) name = v
  or_else none name = name

  -- Where Init can build its resource, the traces and the metrics carry the service name of the
  -- environment, if OTEL_SERVICE_NAME or OTEL_RESOURCE_ATTRIBUTES has one, and else the name that
  -- Init was given.
  build_resource-or_else :
      IsMerged
      → (name : String) (r : L.Resource) → build_resource name ≡ ok r
      → L.attribute r service_key ≡ some (or_else (L.found L.with_from_env service_key) name)
  unfolding build_resource
  build_resource-or_else M name r built =
      M.attribute-new _ r service_key built
      ∙ ground (arith, M.found-attributes name, M.found-process, M.found-telemetry_sdk)
