-- ===== src/Services/Advertised.antt =====
-- `updateAdvertisedServices` of src/ros1_foxglove_bridge.cpp over the map `_advertisedServices`.
-- The probe for a service's type and the description provider are an interface, and so are the
-- transports, over a state of their own; `Published` puts those of `Transports` in.
pub mod Coverage
use foxglove_bridge_ros.Prelude.{
  String, Bool, true, false, not, Option, none, some, List, [], ◌∷◌, ◌++◌, is_some, lookup, emplace,
  remove, contains, if◌then◌else◌, string_eq, ◌==◌,
}
use Prim.Native.String.{◌++◌ as join}

-- `ServiceDescription`: the checksum and the two message definitions.
pub record ServiceDescription : Type 0 where
  pub md5 : String
  pub request_definition : String
  pub response_definition : String

pub record ServiceDetails : Type 0 where
  pub type : String
  pub md5sum : String
  pub description : Option ServiceDescription

-- `foxglove::ServiceMessageSchema`: the encoding and the schema.
pub record MessageSchema : Type 0 where
  pub encoding : String
  pub schema_name : String
  pub schema_encoding : String
  pub schema_content : String

pub record ServiceSchema : Type 0 where
  pub name : String
  pub request : Option MessageSchema
  pub response : Option MessageSchema

-- `none` of the probe is an exception of `retrieveServiceType`. `T` is the transports' state.
pub record ServiceSources (T : Type 0) : Type 0 where
  pub retrieve_service_type : String → Option String
  pub get_service_description : String → Option ServiceDescription
  pub add_service : String → ServiceSchema → T → T × Bool
  pub remove_service : String → T → T

abbrev pub Services : Type 0
Services = List (String × ServiceDetails)

-- The first part: advertisements that are gone from the list are erased, and removed from the
-- transports, here in the order of the map.
unfoldable pub services_to_remove : List String → Services → List String
services_to_remove names [] = []
services_to_remove names ((name, details) ∷ rest) =
    let more = services_to_remove names rest in if contains name names then more else name ∷ more

unfoldable pub erase_all : List String → Services → Services
erase_all [] services = services
erase_all (name ∷ names) services = erase_all names (remove name services)

abbrev pub message_schema : String → String → MessageSchema
message_schema name definition = record {
  encoding = "ros1";
  schema_name = name;
  schema_encoding = "ros1msg";
  schema_content = definition;
}

unfoldable pub details_for : String → Option ServiceDescription → ServiceDetails
details_for type none = record { type = type; md5sum = ""; description = none }
details_for type (some d) = record { type = type; md5sum = d.md5; description = some d }

unfoldable pub schema_for : String → Option ServiceDescription → ServiceSchema
schema_for type none = record { name = type; request = none; response = none }
schema_for type (some d) = record {
  name = type;
  request = some (message_schema (join type "Request") d.request_definition);
  response = some (message_schema (join type "Response") d.response_definition);
}

module _ {T : Type 0} (sources : ServiceSources T) where
  open sources use {retrieve_service_type, get_service_description, add_service, remove_service}

  unfoldable pub remove_all : List String → T → T
  remove_all [] t = t
  remove_all (name ∷ names) t = remove_all names (remove_service name t)

  -- The body of the second loop, for a service that is not advertised yet: the details are
  -- recorded before the SDK is told, and taken back if it refuses.
  unfoldable pub advertise_typed : String → Option String → Services → T → Services × T
  unfolding details_for schema_for
  advertise_typed name none services t = (services, t)
  advertise_typed name (some type) services t =
      let description = get_service_description type in
      let recorded = emplace name (details_for type description) services in
      let (t', added) = add_service name (schema_for type description) t in
      (if added then recorded else remove name recorded, t')

  unfoldable pub advertise_one : String → Services → T → Services × T
  unfolding advertise_typed
  advertise_one name services t =
      if is_some (lookup name services)
      then (services, t)
      else advertise_typed name (retrieve_service_type name) services t

  unfoldable pub advertise_new : List String → Services → T → Services × T
  unfolding advertise_one
  advertise_new [] services t = (services, t)
  advertise_new (name ∷ names) services t =
      let (services', t') = advertise_one name services t in advertise_new names services' t'

  unfoldable pub update_advertised_services : List String → Services → T → Services × T
  unfolding services_to_remove erase_all remove_all advertise_new
  update_advertised_services names services t =
      let gone = services_to_remove names services in
      advertise_new names (erase_all gone services) (remove_all gone t)
