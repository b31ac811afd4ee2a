-- ===== src/Tcp/Tests.antt =====
-- Connections of include/TcpServer.hpp and include/KeepConnectClient.hpp at concrete inputs.
use libsimplesvr.Base.{ℕ, ◌+◌, ◌*◌, ◌≡◌, List, [], ◌∷◌, ◌++◌, arith, refl, some, true, min}
use libsimplesvr.IoBuffer.Buffer.{splice}
use libsimplesvr.Tcp.{Cache, contents, server_on_readable, on_readable, settle, KeepConnectClient}
use libsimplesvr.Tcp.Stream.{IsCache, Fed, starts, reads, Fed-stream}
use libsimplesvr.Tcp.Reconnect.{
  errorable, doubled, failures, failures_lem, handle, Retries, handle-Retries,
}

abbrev empty : Cache
empty = record { cache_available_size = 0; package_cache = 0 ∷ 0 ∷ 0 ∷ 0 ∷ [] }

-- A user that reads pairs of bytes.
abbrev pairs : List ℕ → ℕ
pairs [] = 0
pairs (a ∷ []) = 0
pairs (a ∷ b ∷ bytes) = 2 + pairs bytes

abbrev after_three : Cache
after_three = (server_on_readable pairs 4 (some (1 ∷ 2 ∷ 3 ∷ [])) empty).0

after_three_lem :
    after_three ≡ record { cache_available_size = 1; package_cache = 3 ∷ 2 ∷ 3 ∷ 0 ∷ [] }
unfolding server_on_readable on_readable settle splice
after_three_lem = refl

after_three-Fed : Fed 4 after_three (1 ∷ 2 ∷ 3 ∷ []) (1 ∷ 2 ∷ [])
after_three-Fed =
    reads empty [] [] pairs (1 ∷ 2 ∷ 3 ∷ [])
      (starts empty (record { sized = refl; inside = omega arith }) refl) (omega arith)
      (omega arith) (omega arith) (omega arith)

Fed-stream_example : ((1 ∷ 2 ∷ []) ++ contents after_three ≡ 1 ∷ 2 ∷ 3 ∷ []) × IsCache 4 after_three
Fed-stream_example = Fed-stream 4 after_three (1 ∷ 2 ∷ 3 ∷ []) (1 ∷ 2 ∷ []) after_three-Fed

failures_lem_example : failures 1000 100 3 ≡ min 1000 (100 * doubled 3)
failures_lem_example = failures_lem 1000 100 3 (omega arith) (omega arith) (omega arith)

abbrev client : KeepConnectClient
client = record {
  client = record { socket = some 7; async_connect_timer_id = 0; cache = empty };
  policy = 100;
  timeout_id = 3;
}

handle-Retries_example : Retries 4 errorable client (handle 1000 100 true 4 errorable client)
handle-Retries_example = handle-Retries 1000 100 true 4 errorable client
