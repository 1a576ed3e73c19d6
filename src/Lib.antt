-- ===== src/Lib.antt =====
-- Verification of WebCM, which runs Linux in a RISC-V machine in the browser and gives it the network
-- through the browser's fetches.
--
-- The program has two halves. In the guest, https-proxy/https-proxy.cpp answers every name with the
-- address of the proxy (a DNS server over UDP and TCP), and passes every HTTP request on to the host:
-- `handle_request` fills a structure and yields it with `softyield`, three times for a request. In the
-- host, webcm.cpp runs the machine; its `handle_softyield` reads the structure out of the guest's
-- memory, starts a fetch of Emscripten, and writes the response back when the guest polls for it. For
-- connections with TLS the guest makes certificates of its own: https-proxy/cert_store.cpp has a CA, whose
-- certificate it puts into the guest's trust store, and issues one for every name that a handshake asks for.
--
-- The files, and the code that they are about:
--   Common: the result type of code that reads memory by index (`ok`, `fault` for an access out of
--     bounds, `stuck` for a loop without fuel or a wait without end), tests on numbers, list lemmas.
--   Dns/Response: `build_dns_response` of https-proxy/https-proxy.cpp. Dns/Query is an independent
--     description of queries and responses; Dns/Exact compares the two, Dns/Safety and Dns/Agree are
--     about any bytes, Dns/Pointers and Dns/Compressed about questions the code has trouble with.
--   Dns/Server: `dns_udp_server` (Dns/Server/Udp) and `dns_tcp_session` (Dns/Server/Tcp).
--   Mmio: the structures that both programs declare (Structs), their bytes (Layout), and `strsvcopy`
--     against C strings (Text).
--   Host: webcm.cpp. Host/Machine is what it uses of the emulator and of Emscripten; Host/Fetches
--     the map of fetches, the callbacks, and the wait; Host/Headers the loop over the response
--     headers; Host/Exchange the attributes of a fetch and its response; Host/Softyield
--     `handle_softyield`, with a child for each kind of call; Host/Ledger the map against the fetches
--     started and closed; Host/Returns when a call returns; Host/Program the decompression and `main`,
--     Host/Program/Rounds its rounds as steps, and Host/Program/Ends how it ends. Host/Board is a
--     concrete machine for the tests.
--   Proxy: the requests in https-proxy/https-proxy.cpp. Proxy/Fill is `fill_mmio_req`, Proxy/Handler
--     `handle_request`; Proxy/Expected says independently what is to be passed on; Proxy/Filled,
--     Proxy/Answers and Proxy/Carried are about both, the last together with the host. Proxy/Session
--     is `detect_session`, `session`, `plain_session` and `ssl_session`, as the steps of one
--     connection, and Proxy/Served what it serves. Proxy/Listener is `listener` and `dns_tcp_server`,
--     the accept loops.
--   Cert: https-proxy/cert_store.cpp. Cert/Heap is a monad of actions that count the references to
--     the objects of OpenSSL and ask the environment how a call comes out, and Cert/Rules its rules;
--     Cert/Objects are certificates, keys and the store; Cert/Create is `create_ca` and
--     `create_cert_for_host`, with Cert/Authority and Cert/Leaf about them; Cert/Paths are the files,
--     and Cert/Disk `load_ca` and `save_ca`, Cert/Trust `install_ca_to_trust_store`, and Cert/Files
--     about them (Cert/Files/Plain are disks with no link in the way, Cert/Files/Fresh when the copies
--     are up to date); Cert/Store is `ensure_ca` and `issue_for_host`, and Cert/Serving about them:
--     the invariant between two calls, the cache as a memo, and what both promise. Cert/Sni is
--     `sni_callback` and Cert/Start `main` of https-proxy/https-proxy.cpp, with what they promise
--     together.
-- The Tests files hold runs and the theorems at concrete inputs.
--
-- State is passed explicitly. A completed socket operation is an argument of its handler; a browser's
-- completion is an element of the list `later`, in the order of arrival. A register, a read and a
-- write of the machine, Emscripten's fetch, Boost's parser and serialiser, `softyield` as the guest
-- sees it, the emulator, the decompressor, PEM as OpenSSL writes and reads it, and how each of its
-- calls comes out, are parameters. A key is known by its secret, a mutex is a flag (to lock it twice
-- is `stuck`), and of the file system there are the paths that the code names and those that links may
-- lead to: `stat` and opening a file follow at most 40 links, as Linux does, and what was written may
-- be lost when a file is closed. A `char` is a byte as a number; fixed arrays are lists of that
-- length; both sides are little-endian with no padding in the structures. A machine word is a number,
-- with the reductions that the code's types make written out.
--
-- Loops are structural or have fuel: the DNS label loop and the header loop each get more fuel than the
-- text has bytes, and every round takes one at least. `wait_done` uses up a completion with each round,
-- and is `stuck` if the one it waits for never comes, as the code would be.
--
-- The certificate store has neither fuel nor a bound: its loops are over what is given. `main` of webcm.cpp
-- has no bound either; the theorem on it is about any number of rounds.
--
-- Not modelled: the text of error messages and `fail`, which prints one; memory that runs out in the
-- program's own containers; the lifetime of buffers that are handed to asynchronous writes; the
-- cryptography of TLS; third-party/miniz.c, which is another project's library; skel/root/hello.c, an
-- example for the guest's user; the page and the build.
pub mod Common
pub mod Dns
pub mod Mmio
pub mod Host
pub mod Proxy
pub mod Cert
