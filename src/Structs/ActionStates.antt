-- ===== src/Structs/ActionStates.antt =====
-- The states of actions: their functions in src/common/serialization/serializer.cpp and deserializer.cpp.
use xrtransport.Common.{ℕ, Bool, false, List}
use xrtransport.Serialization.Stream.{Result, Reader, pure, ◌>>=◌}
use xrtransport.Serialization.Chain.{Chain, Table, serialize_xr, deserialize_xr}
use xrtransport.Serialization.Word.{Word, deserialize_word}
use xrtransport.Serialization.Wire.{◌⊕◌, scalar, time, read_time}
use xrtransport.Structs.Vectors.{Vector2f, serialize_xr_vector2f, deserialize_xr_vector2f}

-- XrActionStateGetInfo
pub record ActionStateGetInfo (P : Type 0) : Type 0 where
  pub type : Word 4
  pub next : Chain P
  pub action : Word 8
  pub subaction_path : Word 8

-- XrActionStateBoolean
pub record ActionStateBoolean (P : Type 0) : Type 0 where
  pub type : Word 4
  pub next : Chain P
  pub current_state : Word 4
  pub changed_since_last_sync : Word 4
  pub last_change_time : Word 8
  pub is_active : Word 4

-- XrActionStateFloat
pub record ActionStateFloat (P : Type 0) : Type 0 where
  pub type : Word 4
  pub next : Chain P
  pub current_state : Word 4
  pub changed_since_last_sync : Word 4
  pub last_change_time : Word 8
  pub is_active : Word 4

-- XrActionStatePose
pub record ActionStatePose (P : Type 0) : Type 0 where
  pub type : Word 4
  pub next : Chain P
  pub is_active : Word 4

-- XrActionStateVector2f
pub record ActionStateVector2f (P : Type 0) : Type 0 where
  pub type : Word 4
  pub next : Chain P
  pub current_state : Vector2f
  pub changed_since_last_sync : Word 4
  pub last_change_time : Word 8
  pub is_active : Word 4

module _ {P : Type 0} (table : Table P) where
  unfoldable pub serialize_xr_action_state_get_info : ActionStateGetInfo P → Result (List ℕ)
  serialize_xr_action_state_get_info s =
      scalar s.type ⊕ serialize_xr table false s.next ⊕ scalar s.action ⊕ scalar s.subaction_path

  unfoldable pub deserialize_xr_action_state_get_info :
      Bool → ActionStateGetInfo P → Reader (ActionStateGetInfo P)
  deserialize_xr_action_state_get_info in_place old = do
    type ← deserialize_word 4
    next ← deserialize_xr table in_place old.next
    action ← deserialize_word 8
    subaction_path ← deserialize_word 8
    pure (record { type = type; next = next; action = action; subaction_path = subaction_path })

  unfoldable pub serialize_xr_action_state_boolean : ℕ → ActionStateBoolean P → Result (List ℕ)
  serialize_xr_action_state_boolean time_offset s =
      scalar s.type
      ⊕ serialize_xr table false s.next
      ⊕ scalar s.current_state
      ⊕ scalar s.changed_since_last_sync
      ⊕ time time_offset s.last_change_time
      ⊕ scalar s.is_active

  unfoldable pub deserialize_xr_action_state_boolean :
      ℕ → Bool → ActionStateBoolean P → Reader (ActionStateBoolean P)
  deserialize_xr_action_state_boolean time_offset in_place old = do
    type ← deserialize_word 4
    next ← deserialize_xr table in_place old.next
    current_state ← deserialize_word 4
    changed_since_last_sync ← deserialize_word 4
    last_change_time ← read_time time_offset
    is_active ← deserialize_word 4
    pure (record {
      type = type;
      next = next;
      current_state = current_state;
      changed_since_last_sync = changed_since_last_sync;
      last_change_time = last_change_time;
      is_active = is_active;
    })

  unfoldable pub serialize_xr_action_state_float : ℕ → ActionStateFloat P → Result (List ℕ)
  serialize_xr_action_state_float time_offset s =
      scalar s.type
      ⊕ serialize_xr table false s.next
      ⊕ scalar s.current_state
      ⊕ scalar s.changed_since_last_sync
      ⊕ time time_offset s.last_change_time
      ⊕ scalar s.is_active

  unfoldable pub deserialize_xr_action_state_float :
      ℕ → Bool → ActionStateFloat P → Reader (ActionStateFloat P)
  deserialize_xr_action_state_float time_offset in_place old = do
    type ← deserialize_word 4
    next ← deserialize_xr table in_place old.next
    current_state ← deserialize_word 4
    changed_since_last_sync ← deserialize_word 4
    last_change_time ← read_time time_offset
    is_active ← deserialize_word 4
    pure (record {
      type = type;
      next = next;
      current_state = current_state;
      changed_since_last_sync = changed_since_last_sync;
      last_change_time = last_change_time;
      is_active = is_active;
    })

  unfoldable pub serialize_xr_action_state_pose : ActionStatePose P → Result (List ℕ)
  serialize_xr_action_state_pose s =
      scalar s.type ⊕ serialize_xr table false s.next ⊕ scalar s.is_active

  unfoldable pub deserialize_xr_action_state_pose :
      Bool → ActionStatePose P → Reader (ActionStatePose P)
  deserialize_xr_action_state_pose in_place old = do
    type ← deserialize_word 4
    next ← deserialize_xr table in_place old.next
    is_active ← deserialize_word 4
    pure (record { type = type; next = next; is_active = is_active })

  unfoldable pub serialize_xr_action_state_vector2f : ℕ → ActionStateVector2f P → Result (List ℕ)
  serialize_xr_action_state_vector2f time_offset s =
      scalar s.type
      ⊕ serialize_xr table false s.next
      ⊕ serialize_xr_vector2f s.current_state
      ⊕ scalar s.changed_since_last_sync
      ⊕ time time_offset s.last_change_time
      ⊕ scalar s.is_active

  unfoldable pub deserialize_xr_action_state_vector2f :
      ℕ → Bool → ActionStateVector2f P → Reader (ActionStateVector2f P)
  deserialize_xr_action_state_vector2f time_offset in_place old = do
    type ← deserialize_word 4
    next ← deserialize_xr table in_place old.next
    current_state ← deserialize_xr_vector2f
    changed_since_last_sync ← deserialize_word 4
    last_change_time ← read_time time_offset
    is_active ← deserialize_word 4
    pure (record {
      type = type;
      next = next;
      current_state = current_state;
      changed_since_last_sync = changed_since_last_sync;
      last_change_time = last_change_time;
      is_active = is_active;
    })
