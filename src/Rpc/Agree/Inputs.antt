-- ===== src/Rpc/Agree/Inputs.antt =====
-- The state of actions: each function of the client fits its handler on the server.
use xrtransport.Common.{arith}
use xrtransport.Rpc.Pieces.{SharedStruct, received_structs, placed_structs, StructsReady}
use xrtransport.Rpc.Transparent.{Agrees}
use xrtransport.Rpc.Shapes.{get_call}
use xrtransport.Rpc.Inputs.{
  xr_get_action_state_boolean, handle_xr_get_action_state_boolean, xr_get_action_state_float,
  handle_xr_get_action_state_float, xr_get_action_state_pose, handle_xr_get_action_state_pose,
  xr_get_action_state_vector2f, handle_xr_get_action_state_vector2f,
}

pub xr_get_action_state_boolean-Agrees :
    {ActionStateGetInfo : Type 0} (action_state_get_info : SharedStruct ActionStateGetInfo)
    {ActionStateBoolean : Type 0} (action_state_boolean : SharedStruct ActionStateBoolean)
    → Agrees
        (xr_get_action_state_boolean action_state_get_info.client action_state_boolean.client)
        (handle_xr_get_action_state_boolean action_state_get_info.server
          action_state_boolean.server)
        (λ a. Unit)
        (λ a o. StructsReady action_state_boolean a.2 o 1)
        (λ a. (
          a.0,
          received_structs action_state_get_info a.1 1,
          received_structs action_state_boolean a.2 1,
        ))
        (λ a o. placed_structs action_state_boolean a.2 o 1)
unfolding xr_get_action_state_boolean handle_xr_get_action_state_boolean
xr_get_action_state_boolean-Agrees action_state_get_info action_state_boolean =
    get_call 30 (omega arith) action_state_get_info action_state_boolean

pub xr_get_action_state_float-Agrees :
    {ActionStateGetInfo : Type 0} (action_state_get_info : SharedStruct ActionStateGetInfo)
    {ActionStateFloat : Type 0} (action_state_float : SharedStruct ActionStateFloat)
    → Agrees
        (xr_get_action_state_float action_state_get_info.client action_state_float.client)
        (handle_xr_get_action_state_float action_state_get_info.server action_state_float.server)
        (λ a. Unit)
        (λ a o. StructsReady action_state_float a.2 o 1)
        (λ a. (
          a.0,
          received_structs action_state_get_info a.1 1,
          received_structs action_state_float a.2 1,
        ))
        (λ a o. placed_structs action_state_float a.2 o 1)
unfolding xr_get_action_state_float handle_xr_get_action_state_float
xr_get_action_state_float-Agrees action_state_get_info action_state_float =
    get_call 31 (omega arith) action_state_get_info action_state_float

pub xr_get_action_state_pose-Agrees :
    {ActionStateGetInfo : Type 0} (action_state_get_info : SharedStruct ActionStateGetInfo)
    {ActionStatePose : Type 0} (action_state_pose : SharedStruct ActionStatePose)
    → Agrees
        (xr_get_action_state_pose action_state_get_info.client action_state_pose.client)
        (handle_xr_get_action_state_pose action_state_get_info.server action_state_pose.server)
        (λ a. Unit)
        (λ a o. StructsReady action_state_pose a.2 o 1)
        (λ a. (
          a.0,
          received_structs action_state_get_info a.1 1,
          received_structs action_state_pose a.2 1,
        ))
        (λ a o. placed_structs action_state_pose a.2 o 1)
unfolding xr_get_action_state_pose handle_xr_get_action_state_pose
xr_get_action_state_pose-Agrees action_state_get_info action_state_pose =
    get_call 32 (omega arith) action_state_get_info action_state_pose

pub xr_get_action_state_vector2f-Agrees :
    {ActionStateGetInfo : Type 0} (action_state_get_info : SharedStruct ActionStateGetInfo)
    {ActionStateVector2f : Type 0} (action_state_vector2f : SharedStruct ActionStateVector2f)
    → Agrees
        (xr_get_action_state_vector2f action_state_get_info.client action_state_vector2f.client)
        (handle_xr_get_action_state_vector2f action_state_get_info.server
          action_state_vector2f.server)
        (λ a. Unit)
        (λ a o. StructsReady action_state_vector2f a.2 o 1)
        (λ a. (
          a.0,
          received_structs action_state_get_info a.1 1,
          received_structs action_state_vector2f a.2 1,
        ))
        (λ a o. placed_structs action_state_vector2f a.2 o 1)
unfolding xr_get_action_state_vector2f handle_xr_get_action_state_vector2f
xr_get_action_state_vector2f-Agrees action_state_get_info action_state_vector2f =
    get_call 33 (omega arith) action_state_get_info action_state_vector2f
