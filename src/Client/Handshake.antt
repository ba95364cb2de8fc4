-- ===== src/Client/Handshake.antt =====
-- The handshake: `do_handshake` of src/client/runtime.cpp and `Server::do_handshake` of
-- src/server/server.cpp, which talk to each other over two streams of bytes.
use xrtransport.Common.{ℕ, zero, suc, Bool, true, false, ◌&&◌, List, [], ◌++◌, ◌==◌, if◌then◌else◌}
use xrtransport.Serialization.Stream.{ok, throws}
use xrtransport.Serialization.Bytes.{serialize, deserialize}

-- One side: what it writes, the integers it reads by their width, and its end. `closes` is a return
-- of false behind `stream.close()`.
pub data Side : Type 0 where
  writes : List ℕ → Side → Side
  reads : ℕ → (ℕ → Side) → Side
  closes accepts : Side

-- XRTRANSPORT_MAGIC, XR_CURRENT_API_VERSION and XRTRANSPORT_PROTOCOL_VERSION, as a side was built.
pub record Build : Type 0 where
  pub magic : ℕ
  pub xr_api_version : ℕ
  pub protocol_version : ℕ

abbrev pub flag : Bool → ℕ
flag true = 1
flag false = 0

-- The last answer that the client reads.
unfoldable pub client_ends : ℕ → Side
client_ends server_ok = if server_ok == 0 then closes else accepts

unfoldable pub client_versions : Build → ℕ → ℕ → Side
client_versions b server_api server_protocol =
    let client_ok = (b.xr_api_version == server_api) && (b.protocol_version == server_protocol) in
    writes (serialize 4 (flag client_ok)) (if client_ok then reads 4 client_ends else closes)

unfoldable pub client_magic : Build → ℕ → Side
client_magic b server_magic =
    if b.magic == server_magic
    then writes (serialize 8 b.xr_api_version) (
        writes (serialize 4 b.protocol_version)
          (reads 8 (λ server_api. reads 4 (client_versions b server_api))))
    else closes

-- `do_handshake` of the client.
unfoldable pub client_handshake : Build → Side
unfolding client_magic client_versions client_ends
client_handshake b = writes (serialize 4 b.magic) (reads 4 (client_magic b))

unfoldable pub server_ends : Build → ℕ → ℕ → ℕ → Side
server_ends b client_api client_protocol client_ok =
    let server_ok = (client_api == b.xr_api_version) && (client_protocol == b.protocol_version) in
    if client_ok == 0
    then closes
    else writes (serialize 4 (flag server_ok)) (if server_ok then accepts else closes)

unfoldable pub server_versions : Build → ℕ → ℕ → Side
server_versions b client_api client_protocol =
    writes (serialize 8 b.xr_api_version)
      (writes (serialize 4 b.protocol_version) (reads 4 (server_ends b client_api client_protocol)))

unfoldable pub server_magic : Build → ℕ → Side
server_magic b client_magic =
    if b.magic == client_magic
    then writes (serialize 4 b.magic)
        (reads 8 (λ client_api. reads 4 (server_versions b client_api)))
    else closes

-- `Server::do_handshake`
unfoldable pub server_handshake : Build → Side
unfolding server_magic server_versions server_ends
server_handshake b = reads 4 (server_magic b)

-- A side that goes on until it waits for bytes or ends: where it is then, the bytes that it has not
-- read, and those that it wrote.
unfoldable pub advance : Side → List ℕ → Side × List ℕ × List ℕ
advance (writes bs s) input = let (s', left, output) = advance s input in (s', left, bs ++ output)
advance (reads w f) input = elim (deserialize w input) [
  | ok p ↦ advance (f p.0) p.1
  | throws e ↦ (reads w f, input, [])
]
advance closes input = (closes, input, [])
advance accepts input = (accepts, input, [])

-- How a side ends: with true, with false, or by the exception of a read from a stream that the other
-- side closed. `waiting` is no end.
pub data End : Type 0 where
  accepted refused eof_thrown waiting : End

unfoldable pub end : Side → Side → End
end accepts other = accepted
end closes other = refused
end (reads w f) closes = eof_thrown
end (reads w f) other = waiting
end (writes bs s) other = waiting

-- The sides take turns, the client first, each until it waits or ends; `rounds` turns each.
unfoldable pub talk : ℕ → Side → Side → List ℕ → List ℕ → End × End
talk zero c s to_client to_server = (end c s, end s c)
talk (suc rounds) c s to_client to_server =
    let (c', unread, sent) = advance c to_client in
    let (s', unread', sent') = advance s (to_server ++ sent) in
    talk rounds c' s' (unread ++ sent') unread'

-- Four turns are enough.
unfoldable pub handshake : Build → Build → End × End
handshake client server = talk 4 (client_handshake client) (server_handshake server) [] []
