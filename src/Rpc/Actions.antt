-- ===== src/Rpc/Actions.antt =====
-- Actions: the functions of src/client/rpc.cpp and their handlers of
-- src/server/function_dispatch.cpp.
use xrtransport.Common.{[]}
use xrtransport.Serialization.Stream.{ok, pure, ◌>>=◌}
use xrtransport.Serialization.Pointer.{Pointer}
use xrtransport.Serialization.Word.{Word, deserialize_word}
use xrtransport.Serialization.Wire.{
  Overloads, ◌⊕◌, scalar, word, pointer, new_pointer, pointer_in_place,
}
use xrtransport.Rpc.Call.{Call, Handler}

-- xrCreateActionSet
unfoldable pub xr_create_action_set :
    {ActionSetCreateInfo : Type 0}
    → Overloads ActionSetCreateInfo
    → Call (Word 8 × Pointer ActionSetCreateInfo × Pointer (Word 8)) (Pointer (Word 8))
xr_create_action_set action_set_create_info_type = record {
  function_id = 7;
  request = λ a.
      let (instance_, create_info, action_set) = a in
      scalar instance_
      ⊕ pointer action_set_create_info_type create_info 1
      ⊕ pointer (word 8) action_set 1;
  reply = λ a. let (instance_, create_info, action_set) = a in pointer_in_place (word 8) action_set;
}

unfoldable pub handle_xr_create_action_set :
    {ActionSetCreateInfo : Type 0}
    → Overloads ActionSetCreateInfo
    → Handler (Word 8 × Pointer ActionSetCreateInfo × Pointer (Word 8)) (Pointer (Word 8))
handle_xr_create_action_set action_set_create_info_type = record {
  key = 7;
  params = (do
    instance_ ← deserialize_word 8
    create_info ← new_pointer action_set_create_info_type
    action_set ← new_pointer (word 8)
    pure (instance_, create_info, action_set));
  results = λ a memory. pointer (word 8) memory 1;
}

-- xrCreateAction
unfoldable pub xr_create_action :
    {ActionCreateInfo : Type 0}
    → Overloads ActionCreateInfo
    → Call (Word 8 × Pointer ActionCreateInfo × Pointer (Word 8)) (Pointer (Word 8))
xr_create_action action_create_info_type = record {
  function_id = 6;
  request = λ a.
      let (action_set, create_info, action) = a in
      scalar action_set ⊕ pointer action_create_info_type create_info 1 ⊕ pointer (word 8) action 1;
  reply = λ a. let (action_set, create_info, action) = a in pointer_in_place (word 8) action;
}

unfoldable pub handle_xr_create_action :
    {ActionCreateInfo : Type 0}
    → Overloads ActionCreateInfo
    → Handler (Word 8 × Pointer ActionCreateInfo × Pointer (Word 8)) (Pointer (Word 8))
handle_xr_create_action action_create_info_type = record {
  key = 6;
  params = (do
    action_set ← deserialize_word 8
    create_info ← new_pointer action_create_info_type
    action ← new_pointer (word 8)
    pure (action_set, create_info, action));
  results = λ a memory. pointer (word 8) memory 1;
}

-- xrDestroyAction
unfoldable pub xr_destroy_action : Call (Word 8) Unit
xr_destroy_action = record { function_id = 13; request = λ a. scalar a; reply = λ a. pure tt }

unfoldable pub handle_xr_destroy_action : Handler (Word 8) Unit
handle_xr_destroy_action = record {
  key = 13;
  params = deserialize_word 8;
  results = λ a memory. ok [];
}

-- xrDestroyActionSet
unfoldable pub xr_destroy_action_set : Call (Word 8) Unit
xr_destroy_action_set = record { function_id = 14; request = λ a. scalar a; reply = λ a. pure tt }

unfoldable pub handle_xr_destroy_action_set : Handler (Word 8) Unit
handle_xr_destroy_action_set = record {
  key = 14;
  params = deserialize_word 8;
  results = λ a memory. ok [];
}

-- xrSuggestInteractionProfileBindings
unfoldable pub xr_suggest_interaction_profile_bindings :
    {InteractionProfileSuggestedBinding : Type 0}
    → Overloads InteractionProfileSuggestedBinding
    → Call (Word 8 × Pointer InteractionProfileSuggestedBinding) Unit
xr_suggest_interaction_profile_bindings interaction_profile_suggested_binding_type = record {
  function_id = 52;
  request = λ a.
      let (instance_, suggested_bindings) = a in
      scalar instance_ ⊕ pointer interaction_profile_suggested_binding_type suggested_bindings 1;
  reply = λ a. pure tt;
}

unfoldable pub handle_xr_suggest_interaction_profile_bindings :
    {InteractionProfileSuggestedBinding : Type 0}
    → Overloads InteractionProfileSuggestedBinding
    → Handler (Word 8 × Pointer InteractionProfileSuggestedBinding) Unit
handle_xr_suggest_interaction_profile_bindings interaction_profile_suggested_binding_type = record {
  key = 52;
  params = (do
    instance_ ← deserialize_word 8
    suggested_bindings ← new_pointer interaction_profile_suggested_binding_type
    pure (instance_, suggested_bindings));
  results = λ a memory. ok [];
}

-- xrAttachSessionActionSets
unfoldable pub xr_attach_session_action_sets :
    {SessionActionSetsAttachInfo : Type 0}
    → Overloads SessionActionSetsAttachInfo
    → Call (Word 8 × Pointer SessionActionSetsAttachInfo) Unit
xr_attach_session_action_sets session_action_sets_attach_info_type = record {
  function_id = 3;
  request = λ a.
      let (session, attach_info) = a in
      scalar session ⊕ pointer session_action_sets_attach_info_type attach_info 1;
  reply = λ a. pure tt;
}

unfoldable pub handle_xr_attach_session_action_sets :
    {SessionActionSetsAttachInfo : Type 0}
    → Overloads SessionActionSetsAttachInfo
    → Handler (Word 8 × Pointer SessionActionSetsAttachInfo) Unit
handle_xr_attach_session_action_sets session_action_sets_attach_info_type = record {
  key = 3;
  params = (do
    session ← deserialize_word 8
    attach_info ← new_pointer session_action_sets_attach_info_type
    pure (session, attach_info));
  results = λ a memory. ok [];
}

-- xrSyncActions
unfoldable pub xr_sync_actions :
    {ActionsSyncInfo : Type 0}
    → Overloads ActionsSyncInfo
    → Call (Word 8 × Pointer ActionsSyncInfo) Unit
xr_sync_actions actions_sync_info_type = record {
  function_id = 53;
  request = λ a.
      let (session, sync_info) = a in scalar session ⊕ pointer actions_sync_info_type sync_info 1;
  reply = λ a. pure tt;
}

unfoldable pub handle_xr_sync_actions :
    {ActionsSyncInfo : Type 0}
    → Overloads ActionsSyncInfo
    → Handler (Word 8 × Pointer ActionsSyncInfo) Unit
handle_xr_sync_actions actions_sync_info_type = record {
  key = 53;
  params = (do
    session ← deserialize_word 8
    sync_info ← new_pointer actions_sync_info_type
    pure (session, sync_info));
  results = λ a memory. ok [];
}
