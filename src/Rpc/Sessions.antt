-- ===== src/Rpc/Sessions.antt =====
-- Sessions and frames: the functions of src/client/rpc.cpp and their handlers of
-- src/server/function_dispatch.cpp.
use xrtransport.Common.{[]}
use xrtransport.Serialization.Stream.{ok, pure, ◌>>=◌}
use xrtransport.Serialization.Pointer.{Pointer}
use xrtransport.Serialization.Word.{Word, deserialize_word}
use xrtransport.Serialization.Wire.{
  Overloads, ◌⊕◌, scalar, word, pointer, new_pointer, pointer_in_place,
}
use xrtransport.Rpc.Call.{Call, Handler}

-- xrCreateSession
unfoldable pub xr_create_session :
    {SessionCreateInfo : Type 0}
    → Overloads SessionCreateInfo
    → Call (Word 8 × Pointer SessionCreateInfo × Pointer (Word 8)) (Pointer (Word 8))
xr_create_session session_create_info_type = record {
  function_id = 11;
  request = λ a.
      let (instance_, create_info, session) = a in
      scalar instance_
      ⊕ pointer session_create_info_type create_info 1
      ⊕ pointer (word 8) session 1;
  reply = λ a. let (instance_, create_info, session) = a in pointer_in_place (word 8) session;
}

unfoldable pub handle_xr_create_session :
    {SessionCreateInfo : Type 0}
    → Overloads SessionCreateInfo
    → Handler (Word 8 × Pointer SessionCreateInfo × Pointer (Word 8)) (Pointer (Word 8))
handle_xr_create_session session_create_info_type = record {
  key = 11;
  params = (do
    instance_ ← deserialize_word 8
    create_info ← new_pointer session_create_info_type
    session ← new_pointer (word 8)
    pure (instance_, create_info, session));
  results = λ a memory. pointer (word 8) memory 1;
}

-- xrBeginSession
unfoldable pub xr_begin_session :
    {SessionBeginInfo : Type 0}
    → Overloads SessionBeginInfo
    → Call (Word 8 × Pointer SessionBeginInfo) Unit
xr_begin_session session_begin_info_type = record {
  function_id = 5;
  request = λ a.
      let (session, begin_info) = a in
      scalar session ⊕ pointer session_begin_info_type begin_info 1;
  reply = λ a. pure tt;
}

unfoldable pub handle_xr_begin_session :
    {SessionBeginInfo : Type 0}
    → Overloads SessionBeginInfo
    → Handler (Word 8 × Pointer SessionBeginInfo) Unit
handle_xr_begin_session session_begin_info_type = record {
  key = 5;
  params = (do
    session ← deserialize_word 8
    begin_info ← new_pointer session_begin_info_type
    pure (session, begin_info));
  results = λ a memory. ok [];
}

-- xrEndSession
unfoldable pub xr_end_session : Call (Word 8) Unit
xr_end_session = record { function_id = 20; request = λ a. scalar a; reply = λ a. pure tt }

unfoldable pub handle_xr_end_session : Handler (Word 8) Unit
handle_xr_end_session = record {
  key = 20;
  params = deserialize_word 8;
  results = λ a memory. ok [];
}

-- xrRequestExitSession
unfoldable pub xr_request_exit_session : Call (Word 8) Unit
xr_request_exit_session = record { function_id = 47; request = λ a. scalar a; reply = λ a. pure tt }

unfoldable pub handle_xr_request_exit_session : Handler (Word 8) Unit
handle_xr_request_exit_session = record {
  key = 47;
  params = deserialize_word 8;
  results = λ a memory. ok [];
}

-- xrDestroySession
unfoldable pub xr_destroy_session : Call (Word 8) Unit
xr_destroy_session = record { function_id = 16; request = λ a. scalar a; reply = λ a. pure tt }

unfoldable pub handle_xr_destroy_session : Handler (Word 8) Unit
handle_xr_destroy_session = record {
  key = 16;
  params = deserialize_word 8;
  results = λ a memory. ok [];
}

-- xrWaitFrame
unfoldable pub xr_wait_frame :
    {FrameWaitInfo : Type 0} {FrameState : Type 0}
    → Overloads FrameWaitInfo
    → Overloads FrameState
    → Call (Word 8 × Pointer FrameWaitInfo × Pointer FrameState) (Pointer FrameState)
xr_wait_frame frame_wait_info_type frame_state_type = record {
  function_id = 54;
  request = λ a.
      let (session, frame_wait_info, frame_state) = a in
      scalar session
      ⊕ pointer frame_wait_info_type frame_wait_info 1
      ⊕ pointer frame_state_type frame_state 1;
  reply = λ a.
      let (session, frame_wait_info, frame_state) = a in
      pointer_in_place frame_state_type frame_state;
}

unfoldable pub handle_xr_wait_frame :
    {FrameWaitInfo : Type 0} {FrameState : Type 0}
    → Overloads FrameWaitInfo
    → Overloads FrameState
    → Handler (Word 8 × Pointer FrameWaitInfo × Pointer FrameState) (Pointer FrameState)
handle_xr_wait_frame frame_wait_info_type frame_state_type = record {
  key = 54;
  params = (do
    session ← deserialize_word 8
    frame_wait_info ← new_pointer frame_wait_info_type
    frame_state ← new_pointer frame_state_type
    pure (session, frame_wait_info, frame_state));
  results = λ a memory. pointer frame_state_type memory 1;
}

-- xrBeginFrame
unfoldable pub xr_begin_frame :
    {FrameBeginInfo : Type 0}
    → Overloads FrameBeginInfo
    → Call (Word 8 × Pointer FrameBeginInfo) Unit
xr_begin_frame frame_begin_info_type = record {
  function_id = 4;
  request = λ a.
      let (session, frame_begin_info) = a in
      scalar session ⊕ pointer frame_begin_info_type frame_begin_info 1;
  reply = λ a. pure tt;
}

unfoldable pub handle_xr_begin_frame :
    {FrameBeginInfo : Type 0}
    → Overloads FrameBeginInfo
    → Handler (Word 8 × Pointer FrameBeginInfo) Unit
handle_xr_begin_frame frame_begin_info_type = record {
  key = 4;
  params = (do
    session ← deserialize_word 8
    frame_begin_info ← new_pointer frame_begin_info_type
    pure (session, frame_begin_info));
  results = λ a memory. ok [];
}

-- xrEndFrame
unfoldable pub xr_end_frame :
    {FrameEndInfo : Type 0} → Overloads FrameEndInfo → Call (Word 8 × Pointer FrameEndInfo) Unit
xr_end_frame frame_end_info_type = record {
  function_id = 19;
  request = λ a.
      let (session, frame_end_info) = a in
      scalar session ⊕ pointer frame_end_info_type frame_end_info 1;
  reply = λ a. pure tt;
}

unfoldable pub handle_xr_end_frame :
    {FrameEndInfo : Type 0} → Overloads FrameEndInfo → Handler (Word 8 × Pointer FrameEndInfo) Unit
handle_xr_end_frame frame_end_info_type = record {
  key = 19;
  params = (do
    session ← deserialize_word 8
    frame_end_info ← new_pointer frame_end_info_type
    pure (session, frame_end_info));
  results = λ a memory. ok [];
}
