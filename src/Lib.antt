-- ===== src/Lib.antt =====
-- SolMesh: Solana transactions over a LoRa mesh (src/solmesh/).
--
-- A client splits a signed transaction, or a request for a transfer, into frames of at most 220
-- bytes and sends them over a Meshtastic device; a gateway with internet access checks and
-- reassembles them, submits transactions to the Solana RPC, and answers in frames of its own.
--
-- The files and the code:
--   Prelude        shared: numbers, lists, dictionaries, exceptions as values, bit operations
--   Constants      src/solmesh/constants.py, with MsgType and ErrorCode
--   Protocol       src/solmesh/protocol.py: Struct (struct.pack), Crc (crc8), Frame (pack_message,
--                  unpack_message), Request (encode_tx_request, decode_tx_request), Messages (the
--                  other payloads)
--   Chunker        src/solmesh/chunker.py: chunk_payload, ReassemblyBuffer, ChunkReassembler
--   RateLimiter    src/solmesh/rate_limiter.py: _TokenBucket, RateLimiter
--   Store          src/solmesh/store.py: Intent, IntentStore; Save (_save)
--   Solana         src/solmesh/spl.py, src/solmesh/crypto.py and the transfers of
--                  src/solmesh/wallet.py
--   Mesh           src/solmesh/mesh.py: MeshInterface
--   Config         src/solmesh/config.py: the dataclasses and get_rpc_url; Load (load_config)
--   Gateway        src/solmesh/gateway.py: Node (the state and its surroundings), Reply, Relay
--                  (mode 1 and 2), Transfer (mode 3), Query (balances and blockhashes), Start
--   HttpApi        src/solmesh/http_api.py: the dependencies and the endpoints; Transfer
--                  (submit_transfer), over the state of the gateway
--   Wallet         the key store of src/solmesh/wallet.py
--   Client         src/solmesh/client.py: the state and the handlers; Request (mode 3 and balances),
--                  Wait (the waiting and what arrives meanwhile), Transaction, Relay and Retry (mode
--                  1, sharing an address, _retry_loop), Queue (queue_intent, flush_intent,
--                  flush_all_pending; Lives, the life cycle of an intent)
--   Cli            src/solmesh/cli.py: the session and what the commands share; Token (_resolve_token),
--                  Keys (wallet ...), Send (send ...), Queue (queue ...), Serve (cli, gateway),
--                  Node (share-address, balance, listen)
--   Network        a client and a gateway together
--
-- Bytes are lists of numbers. A method is a function from the state to a result and the next state;
-- the state that a method leaves behind when it raises is kept. Time is an argument: one reading
-- of the clock serves one call. Loops are recursion on their lists or on their number of rounds; a
-- wait with a time-out has as many rounds as it has seconds, which is enough with a clock that
-- advances in each.
--
-- Parameters, since their code is not in the repository: the `solders` library (`Solders`), the RPC
-- client, the `cryptography` and `mnemonic` libraries (`Crypto`), the random bytes, the UTF-8 check,
-- the texts of exceptions and floats, the clock, the radio device and what it hears during a wait
-- (`World`, `ClientWorld` for the client, `Api` for the HTTP API, `Host` for a command). Floats
-- stand as exact numbers: amounts and limits as numbers that a parameter turns into base units, the
-- tokens of the rate limiter as whole units of a fraction of a token.
--
-- A command of the program is a method on a session: the configuration, what is on disk and on the
-- device, and the lines that are printed. Its arguments are the values that Click has parsed.
--
-- Not modelled: file permissions, locks and the serialisation of files, the reading of YAML (a file
-- stands as what its sections hold), the thread of the HTTP server, how threads interleave (a client
-- notes the thread that it starts, and the thread's body is a method of its own; the flush that a
-- beacon starts under `listen` runs at the end of its second, or when the loop begins), what reaches
-- a gateway while it opens its device (a client handles it in its first wait), Ctrl+C elsewhere than
-- in a search for a gateway or in `listen`, the pauses of the gateway and of the device, logging,
-- FastAPI itself and Click's parsing and prompts.
pub mod Prelude
pub mod Constants
pub mod Protocol
pub mod Chunker
pub mod RateLimiter
pub mod Store
pub mod Solana
pub mod Mesh
pub mod Config
pub mod Gateway
pub mod Client
pub mod Wallet
pub mod HttpApi
pub mod Cli
pub mod Network
