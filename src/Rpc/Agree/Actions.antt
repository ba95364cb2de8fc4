-- ===== src/Rpc/Agree/Actions.antt =====
-- Actions: each function of the client fits its handler on the server.
use xrtransport.Common.{arith}
use xrtransport.Serialization.Stream.{ok}
use xrtransport.Serialization.Pointers.{received, placed}
use xrtransport.Serialization.Wire.{WordsReady}
use xrtransport.Rpc.Pieces.{SharedStruct, received_structs}
use xrtransport.Rpc.Transparent.{Agrees}
use xrtransport.Rpc.Shapes.{AgreesPlainly, scalar_call, struct_call, create_call}
use xrtransport.Rpc.Actions.{
  xr_create_action_set, handle_xr_create_action_set, xr_create_action, handle_xr_create_action,
  xr_destroy_action, handle_xr_destroy_action, xr_destroy_action_set, handle_xr_destroy_action_set,
  xr_suggest_interaction_profile_bindings, handle_xr_suggest_interaction_profile_bindings,
  xr_attach_session_action_sets, handle_xr_attach_session_action_sets, xr_sync_actions,
  handle_xr_sync_actions,
}

pub xr_create_action_set-Agrees :
    {ActionSetCreateInfo : Type 0} (action_set_create_info : SharedStruct ActionSetCreateInfo)
    → Agrees
        (xr_create_action_set action_set_create_info.client)
        (handle_xr_create_action_set action_set_create_info.server)
        (λ a. Unit)
        (λ a o. WordsReady a.2 o 1)
        (λ a. (a.0, received_structs action_set_create_info a.1 1, received a.2 1))
        (λ a o. placed a.2 o 1)
unfolding xr_create_action_set handle_xr_create_action_set
xr_create_action_set-Agrees action_set_create_info =
    create_call 7 (omega arith) action_set_create_info

pub xr_create_action-Agrees :
    {ActionCreateInfo : Type 0} (action_create_info : SharedStruct ActionCreateInfo)
    → Agrees
        (xr_create_action action_create_info.client)
        (handle_xr_create_action action_create_info.server)
        (λ a. Unit)
        (λ a o. WordsReady a.2 o 1)
        (λ a. (a.0, received_structs action_create_info a.1 1, received a.2 1))
        (λ a o. placed a.2 o 1)
unfolding xr_create_action handle_xr_create_action
xr_create_action-Agrees action_create_info = create_call 6 (omega arith) action_create_info

pub xr_destroy_action-Agrees : AgreesPlainly xr_destroy_action handle_xr_destroy_action
unfolding xr_destroy_action handle_xr_destroy_action
xr_destroy_action-Agrees = scalar_call 13 (omega arith)

pub xr_destroy_action_set-Agrees : AgreesPlainly xr_destroy_action_set handle_xr_destroy_action_set
unfolding xr_destroy_action_set handle_xr_destroy_action_set
xr_destroy_action_set-Agrees = scalar_call 14 (omega arith)

pub xr_suggest_interaction_profile_bindings-Agrees :
    {InteractionProfileSuggestedBinding : Type 0}
    (interaction_profile_suggested_binding : SharedStruct InteractionProfileSuggestedBinding)
    → Agrees
        (xr_suggest_interaction_profile_bindings interaction_profile_suggested_binding.client)
        (handle_xr_suggest_interaction_profile_bindings
          interaction_profile_suggested_binding.server)
        (λ a. Unit)
        (λ a o. Unit)
        (λ a. (a.0, received_structs interaction_profile_suggested_binding a.1 1))
        (λ a o. ok tt)
unfolding xr_suggest_interaction_profile_bindings handle_xr_suggest_interaction_profile_bindings
xr_suggest_interaction_profile_bindings-Agrees interaction_profile_suggested_binding =
    struct_call 52 (omega arith) interaction_profile_suggested_binding

pub xr_attach_session_action_sets-Agrees :
    {SessionActionSetsAttachInfo : Type 0}
    (session_action_sets_attach_info : SharedStruct SessionActionSetsAttachInfo)
    → Agrees
        (xr_attach_session_action_sets session_action_sets_attach_info.client)
        (handle_xr_attach_session_action_sets session_action_sets_attach_info.server)
        (λ a. Unit)
        (λ a o. Unit)
        (λ a. (a.0, received_structs session_action_sets_attach_info a.1 1))
        (λ a o. ok tt)
unfolding xr_attach_session_action_sets handle_xr_attach_session_action_sets
xr_attach_session_action_sets-Agrees session_action_sets_attach_info =
    struct_call 3 (omega arith) session_action_sets_attach_info

pub xr_sync_actions-Agrees :
    {ActionsSyncInfo : Type 0} (actions_sync_info : SharedStruct ActionsSyncInfo)
    → Agrees
        (xr_sync_actions actions_sync_info.client)
        (handle_xr_sync_actions actions_sync_info.server)
        (λ a. Unit)
        (λ a o. Unit)
        (λ a. (a.0, received_structs actions_sync_info a.1 1))
        (λ a o. ok tt)
unfolding xr_sync_actions handle_xr_sync_actions
xr_sync_actions-Agrees actions_sync_info = struct_call 53 (omega arith) actions_sync_info
