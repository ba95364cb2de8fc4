-- ===== src/Lib.antt =====
-- xrtransport carries OpenXR calls from a client runtime to a server over a stream of bytes. This
-- library models its core and proves what the parts promise each other.
--
-- The parts:
--   * Serialization writes OpenXR values to a stream and reads them back: the templates of
--     include/xrtransport/serialization/serializer.h and deserializer.h, and the time conversion
--     at the end of src/common/serialization/serializer.cpp and of the deserializers. Stream has
--     the streams and the ways to fail, Bytes the integers, Pointer the arrays and pointers, Chain
--     the structs linked by next, XrArray the arrays of structs, Times the times, FrameEnd the
--     custom serializer of XrFrameEndInfo, Word the values of a fixed width, Wire what is read of
--     values in a row. Pointers, Chains, ChainTrip and XrArrays have the proofs. In a chain, a
--     struct function is its head, type and next, and a codec for the members behind them; the
--     tables of struct functions are the parameter Table.
--   * Transport frames payloads into messages, queues what arrives and hands it to handlers:
--     src/common/transport/transport_impl.h and transport_impl.cpp. Frame has the wire format and
--     producer_loop, State the state and the operations of one critical section each, Dispatch
--     dispatch_to_handler, await_message, handle_message and a round of consumer_loop. The threads
--     are the steps of Reach, in any order: shutdown and the answer to a shutdown message are two
--     each, and every other operation is one. Race is a close in the middle of shutdown. A handler
--     is a number, and the parameter run says what it does.
--   * Swapchain is the client's ring of images: src/modules/vulkan/client/session_state.cpp. State
--     has its data, Defs acquire, wait and release over the parameter Vulkan, Spec the queue of
--     held images that they implement. Store has the maps of sessions and swapchains of the same
--     file, and Sessions the calls of src/modules/vulkan/client/vulkan_core.cpp that create, use
--     and destroy these, over the parameter World; Reached is the step relation of these calls.
--   * Client is the client's own state and protocol, with the server's side of each exchange. Sync
--     is src/client/synchronization.cpp, and Clock include/xrtransport/time.h with its entry
--     points. Handshake has do_handshake of src/client/runtime.cpp and of src/server/server.cpp as
--     two processes, and Agreement how they end. Poll has the poll handler of
--     src/server/server.cpp and xrPollEventImpl of src/client/entry.cpp. Functions is
--     src/client/function_table.h, and Entry the other entry points of src/client/entry.cpp, with
--     Enabled, Creation and Given for what they give an application. Extensions is
--     src/client/available_extensions.cpp, and Offered what it offers. Names has the sets and maps
--     of names.
--   * Server has the handlers of src/server/server.cpp that create and destroy the instance and
--     the end of run, in Handlers, and in Lifecycle the instances over the life of a server.
--   * Configuration is src/common/config/config.cpp, in Load; Says has what a source describes.
--   * Structs has the generated functions of structs, at the end of
--     src/common/serialization/serializer.cpp and deserializer.cpp: serialize_xr_view and
--     deserialize_xr_view for XrView, the structs of the core whose members are scalars, times and
--     structs. Vectors, Areas and Parts have those without next, which stand in others;
--     ActionStates, ActionInfos, Layers, Events, Frames, Places, Images and Eyes those with next.
--     Trip has the proofs, Rows their steps, and Shared turns structs into arguments of calls.
--     Widths of members are those of the OpenXR header.
--   * Rpc has the remote calls: src/client/rpc.cpp with src/server/function_dispatch.cpp. Pieces
--     has the arguments of a call on the wire, Shapes the most frequent rows of them, and Call the
--     code that all functions share: rpc on the client, handle, handle_function and handle_call on
--     the server. The other children have the functions, xr_create_action for xrCreateAction and
--     handle_xr_create_action for its handler: the functions of the core in Sessions, Swapchains,
--     Spaces, Actions, Inputs, Sources, Systems, Strings, ViewConfigurations, Views and Others,
--     those of extensions in Bd, Ext, FbTrackers, FbPassthrough, FbMeshes, HtcMl, Meta, Msft and
--     Varjo. Agree has how both sides fit, of each but xr_create_instance and xr_destroy_instance,
--     whose handlers are in Server, and xr_enumerate_swapchain_images; Transparent and Ends have
--     what that means for a call, and Enumerate a case of it. A struct behind a pointer is read
--     and written by overloads that are an argument, with their laws in SharedStruct; the runtime
--     is a function from the arguments to the result and the memory behind them.
-- The generated serializers use the templates, their bytes are the payloads of messages, and the
-- swapchain's calls are answered by the client without a message.
--
-- Numbers are natural numbers with the wrap-around of their width written out, and a byte is a
-- number. A function of the model that can meet undefined behaviour says so in its result, but for
-- signed overflow in the conversion of times, which is taken to wrap.
--
-- Fuel: deserialize_xr recurses once for each struct of a chain and each takes eight bytes or
-- more, so the number of bytes bounds the depth; producer_loop takes eight bytes or more for each
-- message; the loops over the queue take one message in each round; a handshake is over in four
-- turns.
--
-- Not modelled: the condition variables and the count of waiting users, which only decide who acts
-- next; the memory that the deserializers allocate and the cleaners free; the synchronization that
-- a call may begin with, whose offset is an argument of the calls with times; the overload of
-- deserialize_xr for pointers that are not const, which asserts where the one for const pointers
-- throws; the generated functions that are not named above, and the logs of the others; the rest
-- of the modules, their loaders and the sockets; what a message lock that is dropped by an
-- exception still sends; src/client/gfxstream_asg, a copy of a library.
pub mod Common
pub mod Xr
pub mod Serialization
pub mod Transport
pub mod Swapchain
pub mod Client
pub mod Server
pub mod Configuration
pub mod Structs
pub mod Rpc
