-- ===== src/Structs/ActionInfos.antt =====
-- Structs that name actions: their functions in src/common/serialization/serializer.cpp and deserializer.cpp.
use xrtransport.Common.{ℕ, Bool, false, List}
use xrtransport.Serialization.Stream.{Result, Reader, pure, ◌>>=◌}
use xrtransport.Serialization.Chain.{Chain, Table, serialize_xr, deserialize_xr}
use xrtransport.Serialization.Word.{Word, deserialize_word}
use xrtransport.Serialization.Wire.{◌⊕◌, scalar}
use xrtransport.Structs.Vectors.{Posef, serialize_xr_posef, deserialize_xr_posef}

-- XrActionSpaceCreateInfo
pub record ActionSpaceCreateInfo (P : Type 0) : Type 0 where
  pub type : Word 4
  pub next : Chain P
  pub action : Word 8
  pub subaction_path : Word 8
  pub pose_in_action_space : Posef

-- XrBoundSourcesForActionEnumerateInfo
pub record BoundSourcesForActionEnumerateInfo (P : Type 0) : Type 0 where
  pub type : Word 4
  pub next : Chain P
  pub action : Word 8

-- XrHapticActionInfo
pub record HapticActionInfo (P : Type 0) : Type 0 where
  pub type : Word 4
  pub next : Chain P
  pub action : Word 8
  pub subaction_path : Word 8

-- XrHapticVibration
pub record HapticVibration (P : Type 0) : Type 0 where
  pub type : Word 4
  pub next : Chain P
  pub duration : Word 8
  pub frequency : Word 4
  pub amplitude : Word 4

-- XrInputSourceLocalizedNameGetInfo
pub record InputSourceLocalizedNameGetInfo (P : Type 0) : Type 0 where
  pub type : Word 4
  pub next : Chain P
  pub source_path : Word 8
  pub which_components : Word 8

-- XrInteractionProfileState
pub record InteractionProfileState (P : Type 0) : Type 0 where
  pub type : Word 4
  pub next : Chain P
  pub interaction_profile : Word 8

module _ {P : Type 0} (table : Table P) where
  unfoldable pub serialize_xr_action_space_create_info : ActionSpaceCreateInfo P → Result (List ℕ)
  serialize_xr_action_space_create_info s =
      scalar s.type
      ⊕ serialize_xr table false s.next
      ⊕ scalar s.action
      ⊕ scalar s.subaction_path
      ⊕ serialize_xr_posef s.pose_in_action_space

  unfoldable pub deserialize_xr_action_space_create_info :
      Bool → ActionSpaceCreateInfo P → Reader (ActionSpaceCreateInfo P)
  deserialize_xr_action_space_create_info in_place old = do
    type ← deserialize_word 4
    next ← deserialize_xr table in_place old.next
    action ← deserialize_word 8
    subaction_path ← deserialize_word 8
    pose_in_action_space ← deserialize_xr_posef
    pure (record {
      type = type;
      next = next;
      action = action;
      subaction_path = subaction_path;
      pose_in_action_space = pose_in_action_space;
    })

  unfoldable pub serialize_xr_bound_sources_for_action_enumerate_info :
      BoundSourcesForActionEnumerateInfo P → Result (List ℕ)
  serialize_xr_bound_sources_for_action_enumerate_info s =
      scalar s.type ⊕ serialize_xr table false s.next ⊕ scalar s.action

  unfoldable pub deserialize_xr_bound_sources_for_action_enumerate_info :
      Bool → BoundSourcesForActionEnumerateInfo P → Reader (BoundSourcesForActionEnumerateInfo P)
  deserialize_xr_bound_sources_for_action_enumerate_info in_place old = do
    type ← deserialize_word 4
    next ← deserialize_xr table in_place old.next
    action ← deserialize_word 8
    pure (record { type = type; next = next; action = action })

  unfoldable pub serialize_xr_haptic_action_info : HapticActionInfo P → Result (List ℕ)
  serialize_xr_haptic_action_info s =
      scalar s.type ⊕ serialize_xr table false s.next ⊕ scalar s.action ⊕ scalar s.subaction_path

  unfoldable pub deserialize_xr_haptic_action_info :
      Bool → HapticActionInfo P → Reader (HapticActionInfo P)
  deserialize_xr_haptic_action_info in_place old = do
    type ← deserialize_word 4
    next ← deserialize_xr table in_place old.next
    action ← deserialize_word 8
    subaction_path ← deserialize_word 8
    pure (record { type = type; next = next; action = action; subaction_path = subaction_path })

  unfoldable pub serialize_xr_haptic_vibration : HapticVibration P → Result (List ℕ)
  serialize_xr_haptic_vibration s =
      scalar s.type
      ⊕ serialize_xr table false s.next
      ⊕ scalar s.duration
      ⊕ scalar s.frequency
      ⊕ scalar s.amplitude

  unfoldable pub deserialize_xr_haptic_vibration :
      Bool → HapticVibration P → Reader (HapticVibration P)
  deserialize_xr_haptic_vibration in_place old = do
    type ← deserialize_word 4
    next ← deserialize_xr table in_place old.next
    duration ← deserialize_word 8
    frequency ← deserialize_word 4
    amplitude ← deserialize_word 4
    pure (record {
      type = type;
      next = next;
      duration = duration;
      frequency = frequency;
      amplitude = amplitude;
    })

  unfoldable pub serialize_xr_input_source_localized_name_get_info :
      InputSourceLocalizedNameGetInfo P → Result (List ℕ)
  serialize_xr_input_source_localized_name_get_info s =
      scalar s.type
      ⊕ serialize_xr table false s.next
      ⊕ scalar s.source_path
      ⊕ scalar s.which_components

  unfoldable pub deserialize_xr_input_source_localized_name_get_info :
      Bool → InputSourceLocalizedNameGetInfo P → Reader (InputSourceLocalizedNameGetInfo P)
  deserialize_xr_input_source_localized_name_get_info in_place old = do
    type ← deserialize_word 4
    next ← deserialize_xr table in_place old.next
    source_path ← deserialize_word 8
    which_components ← deserialize_word 8
    pure (record {
      type = type;
      next = next;
      source_path = source_path;
      which_components = which_components;
    })

  unfoldable pub serialize_xr_interaction_profile_state :
      InteractionProfileState P → Result (List ℕ)
  serialize_xr_interaction_profile_state s =
      scalar s.type ⊕ serialize_xr table false s.next ⊕ scalar s.interaction_profile

  unfoldable pub deserialize_xr_interaction_profile_state :
      Bool → InteractionProfileState P → Reader (InteractionProfileState P)
  deserialize_xr_interaction_profile_state in_place old = do
    type ← deserialize_word 4
    next ← deserialize_xr table in_place old.next
    interaction_profile ← deserialize_word 8
    pure (record { type = type; next = next; interaction_profile = interaction_profile })
