-- ===== src/Storage/PeerLayer.antt =====
-- memory/peer-layer.ts: layers that another device publishes are read-only here.
use code_butler.Prelude.{String, Bool, false, Option, none, some, contains, ◌==◌, ◌&&◌, not}
use code_butler.Exec.{Exec, throw_if, read_only_layer}
use code_butler.Storage.{Env, Db, DurableMemory}
use code_butler.Storage.Events.{read_memory}

unfoldable pub is_peer_layer : Db → Option String → Bool
is_peer_layer db none = false
is_peer_layer db (some layer) = not (layer == "core") && contains layer db.peer_layers

peer_row : Db → Option DurableMemory → Bool
peer_row db none = false
peer_row db (some m) = is_peer_layer db m.layer

-- `assertWritableLayer` for a promoted memory.
unfoldable pub assert_writable_layer : Env → String → Exec Db (Unit {0})
unfolding peer_row
assert_writable_layer env id db = throw_if (peer_row db (read_memory env db id)) read_only_layer db
