-- ===== src/Descriptions.antt =====
-- `getMessageDescription` and `getServiceDescription` of src/ros1_foxglove_bridge.cpp. The
-- description provider of ros_babel_fish is a function that may throw.
use foxglove_bridge_ros.Prelude.{String, Option, none, some}
use foxglove_bridge_ros.Options.{Checked, ok, throws}

-- An exception is logged, and there is no description then.
unfoldable pub get_message_description : {D : Type 0} → (String → Checked D) → String → Option D
get_message_description provider datatype = elim (provider datatype) [
  | ok d ↦ some d
  | throws error ↦ none
]

unfoldable pub get_service_description : {D : Type 0} → (String → Checked D) → String → Option D
get_service_description provider type = elim (provider type) [ ok d ↦ some d | throws error ↦ none ]
