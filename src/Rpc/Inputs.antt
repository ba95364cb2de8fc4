-- ===== src/Rpc/Inputs.antt =====
-- The state of actions: the functions of src/client/rpc.cpp and their handlers of
-- src/server/function_dispatch.cpp.
use xrtransport.Serialization.Stream.{pure, ◌>>=◌}
use xrtransport.Serialization.Pointer.{Pointer}
use xrtransport.Serialization.Word.{Word, deserialize_word}
use xrtransport.Serialization.Wire.{Overloads, ◌⊕◌, scalar, pointer, new_pointer, pointer_in_place}
use xrtransport.Rpc.Call.{Call, Handler}

-- xrGetActionStateBoolean
unfoldable pub xr_get_action_state_boolean :
    {ActionStateGetInfo : Type 0} {ActionStateBoolean : Type 0}
    → Overloads ActionStateGetInfo
    → Overloads ActionStateBoolean
    → Call
        (Word 8 × Pointer ActionStateGetInfo × Pointer ActionStateBoolean)
        (Pointer ActionStateBoolean)
xr_get_action_state_boolean action_state_get_info_type action_state_boolean_type = record {
  function_id = 30;
  request = λ a.
      let (session, get_info, state) = a in
      scalar session
      ⊕ pointer action_state_get_info_type get_info 1
      ⊕ pointer action_state_boolean_type state 1;
  reply =
      λ a. let (session, get_info, state) = a in pointer_in_place action_state_boolean_type state;
}

unfoldable pub handle_xr_get_action_state_boolean :
    {ActionStateGetInfo : Type 0} {ActionStateBoolean : Type 0}
    → Overloads ActionStateGetInfo
    → Overloads ActionStateBoolean
    → Handler
        (Word 8 × Pointer ActionStateGetInfo × Pointer ActionStateBoolean)
        (Pointer ActionStateBoolean)
handle_xr_get_action_state_boolean action_state_get_info_type action_state_boolean_type = record {
  key = 30;
  params = (do
    session ← deserialize_word 8
    get_info ← new_pointer action_state_get_info_type
    state ← new_pointer action_state_boolean_type
    pure (session, get_info, state));
  results = λ a memory. pointer action_state_boolean_type memory 1;
}

-- xrGetActionStateFloat
unfoldable pub xr_get_action_state_float :
    {ActionStateGetInfo : Type 0} {ActionStateFloat : Type 0}
    → Overloads ActionStateGetInfo
    → Overloads ActionStateFloat
    → Call
        (Word 8 × Pointer ActionStateGetInfo × Pointer ActionStateFloat)
        (Pointer ActionStateFloat)
xr_get_action_state_float action_state_get_info_type action_state_float_type = record {
  function_id = 31;
  request = λ a.
      let (session, get_info, state) = a in
      scalar session
      ⊕ pointer action_state_get_info_type get_info 1
      ⊕ pointer action_state_float_type state 1;
  reply = λ a. let (session, get_info, state) = a in pointer_in_place action_state_float_type state;
}

unfoldable pub handle_xr_get_action_state_float :
    {ActionStateGetInfo : Type 0} {ActionStateFloat : Type 0}
    → Overloads ActionStateGetInfo
    → Overloads ActionStateFloat
    → Handler
        (Word 8 × Pointer ActionStateGetInfo × Pointer ActionStateFloat)
        (Pointer ActionStateFloat)
handle_xr_get_action_state_float action_state_get_info_type action_state_float_type = record {
  key = 31;
  params = (do
    session ← deserialize_word 8
    get_info ← new_pointer action_state_get_info_type
    state ← new_pointer action_state_float_type
    pure (session, get_info, state));
  results = λ a memory. pointer action_state_float_type memory 1;
}

-- xrGetActionStatePose
unfoldable pub xr_get_action_state_pose :
    {ActionStateGetInfo : Type 0} {ActionStatePose : Type 0}
    → Overloads ActionStateGetInfo
    → Overloads ActionStatePose
    → Call (Word 8 × Pointer ActionStateGetInfo × Pointer ActionStatePose) (Pointer ActionStatePose)
xr_get_action_state_pose action_state_get_info_type action_state_pose_type = record {
  function_id = 32;
  request = λ a.
      let (session, get_info, state) = a in
      scalar session
      ⊕ pointer action_state_get_info_type get_info 1
      ⊕ pointer action_state_pose_type state 1;
  reply = λ a. let (session, get_info, state) = a in pointer_in_place action_state_pose_type state;
}

unfoldable pub handle_xr_get_action_state_pose :
    {ActionStateGetInfo : Type 0} {ActionStatePose : Type 0}
    → Overloads ActionStateGetInfo
    → Overloads ActionStatePose
    → Handler
        (Word 8 × Pointer ActionStateGetInfo × Pointer ActionStatePose)
        (Pointer ActionStatePose)
handle_xr_get_action_state_pose action_state_get_info_type action_state_pose_type = record {
  key = 32;
  params = (do
    session ← deserialize_word 8
    get_info ← new_pointer action_state_get_info_type
    state ← new_pointer action_state_pose_type
    pure (session, get_info, state));
  results = λ a memory. pointer action_state_pose_type memory 1;
}

-- xrGetActionStateVector2f
unfoldable pub xr_get_action_state_vector2f :
    {ActionStateGetInfo : Type 0} {ActionStateVector2f : Type 0}
    → Overloads ActionStateGetInfo
    → Overloads ActionStateVector2f
    → Call
        (Word 8 × Pointer ActionStateGetInfo × Pointer ActionStateVector2f)
        (Pointer ActionStateVector2f)
xr_get_action_state_vector2f action_state_get_info_type action_state_vector2f_type = record {
  function_id = 33;
  request = λ a.
      let (session, get_info, state) = a in
      scalar session
      ⊕ pointer action_state_get_info_type get_info 1
      ⊕ pointer action_state_vector2f_type state 1;
  reply =
      λ a. let (session, get_info, state) = a in pointer_in_place action_state_vector2f_type state;
}

unfoldable pub handle_xr_get_action_state_vector2f :
    {ActionStateGetInfo : Type 0} {ActionStateVector2f : Type 0}
    → Overloads ActionStateGetInfo
    → Overloads ActionStateVector2f
    → Handler
        (Word 8 × Pointer ActionStateGetInfo × Pointer ActionStateVector2f)
        (Pointer ActionStateVector2f)
handle_xr_get_action_state_vector2f action_state_get_info_type action_state_vector2f_type = record {
  key = 33;
  params = (do
    session ← deserialize_word 8
    get_info ← new_pointer action_state_get_info_type
    state ← new_pointer action_state_vector2f_type
    pure (session, get_info, state));
  results = λ a memory. pointer action_state_vector2f_type memory 1;
}
