-- ===== src/Rpc/Agree/Sessions.antt =====
-- Sessions and frames: each function of the client fits its handler on the server.
use xrtransport.Common.{arith}
use xrtransport.Serialization.Stream.{ok}
use xrtransport.Serialization.Pointers.{received, placed}
use xrtransport.Serialization.Wire.{WordsReady}
use xrtransport.Rpc.Pieces.{SharedStruct, received_structs, placed_structs, StructsReady}
use xrtransport.Rpc.Transparent.{Agrees}
use xrtransport.Rpc.Shapes.{AgreesPlainly, scalar_call, struct_call, create_call, get_call}
use xrtransport.Rpc.Sessions.{
  xr_create_session, handle_xr_create_session, xr_begin_session, handle_xr_begin_session,
  xr_end_session, handle_xr_end_session, xr_request_exit_session, handle_xr_request_exit_session,
  xr_destroy_session, handle_xr_destroy_session, xr_wait_frame, handle_xr_wait_frame,
  xr_begin_frame, handle_xr_begin_frame, xr_end_frame, handle_xr_end_frame,
}

pub xr_create_session-Agrees :
    {SessionCreateInfo : Type 0} (session_create_info : SharedStruct SessionCreateInfo)
    → Agrees
        (xr_create_session session_create_info.client)
        (handle_xr_create_session session_create_info.server)
        (λ a. Unit)
        (λ a o. WordsReady a.2 o 1)
        (λ a. (a.0, received_structs session_create_info a.1 1, received a.2 1))
        (λ a o. placed a.2 o 1)
unfolding xr_create_session handle_xr_create_session
xr_create_session-Agrees session_create_info = create_call 11 (omega arith) session_create_info

pub xr_begin_session-Agrees :
    {SessionBeginInfo : Type 0} (session_begin_info : SharedStruct SessionBeginInfo)
    → Agrees
        (xr_begin_session session_begin_info.client)
        (handle_xr_begin_session session_begin_info.server)
        (λ a. Unit)
        (λ a o. Unit)
        (λ a. (a.0, received_structs session_begin_info a.1 1))
        (λ a o. ok tt)
unfolding xr_begin_session handle_xr_begin_session
xr_begin_session-Agrees session_begin_info = struct_call 5 (omega arith) session_begin_info

pub xr_end_session-Agrees : AgreesPlainly xr_end_session handle_xr_end_session
unfolding xr_end_session handle_xr_end_session
xr_end_session-Agrees = scalar_call 20 (omega arith)

pub xr_request_exit_session-Agrees :
    AgreesPlainly xr_request_exit_session handle_xr_request_exit_session
unfolding xr_request_exit_session handle_xr_request_exit_session
xr_request_exit_session-Agrees = scalar_call 47 (omega arith)

pub xr_destroy_session-Agrees : AgreesPlainly xr_destroy_session handle_xr_destroy_session
unfolding xr_destroy_session handle_xr_destroy_session
xr_destroy_session-Agrees = scalar_call 16 (omega arith)

pub xr_wait_frame-Agrees :
    {FrameWaitInfo : Type 0} (frame_wait_info : SharedStruct FrameWaitInfo) {FrameState : Type 0}
    (frame_state : SharedStruct FrameState)
    → Agrees
        (xr_wait_frame frame_wait_info.client frame_state.client)
        (handle_xr_wait_frame frame_wait_info.server frame_state.server)
        (λ a. Unit)
        (λ a o. StructsReady frame_state a.2 o 1)
        (λ a. (a.0, received_structs frame_wait_info a.1 1, received_structs frame_state a.2 1))
        (λ a o. placed_structs frame_state a.2 o 1)
unfolding xr_wait_frame handle_xr_wait_frame
xr_wait_frame-Agrees frame_wait_info frame_state =
    get_call 54 (omega arith) frame_wait_info frame_state

pub xr_begin_frame-Agrees :
    {FrameBeginInfo : Type 0} (frame_begin_info : SharedStruct FrameBeginInfo)
    → Agrees
        (xr_begin_frame frame_begin_info.client)
        (handle_xr_begin_frame frame_begin_info.server)
        (λ a. Unit)
        (λ a o. Unit)
        (λ a. (a.0, received_structs frame_begin_info a.1 1))
        (λ a o. ok tt)
unfolding xr_begin_frame handle_xr_begin_frame
xr_begin_frame-Agrees frame_begin_info = struct_call 4 (omega arith) frame_begin_info

pub xr_end_frame-Agrees :
    {FrameEndInfo : Type 0} (frame_end_info : SharedStruct FrameEndInfo)
    → Agrees
        (xr_end_frame frame_end_info.client)
        (handle_xr_end_frame frame_end_info.server)
        (λ a. Unit)
        (λ a o. Unit)
        (λ a. (a.0, received_structs frame_end_info a.1 1))
        (λ a o. ok tt)
unfolding xr_end_frame handle_xr_end_frame
xr_end_frame-Agrees frame_end_info = struct_call 19 (omega arith) frame_end_info
