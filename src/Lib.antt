-- ===== src/Lib.antt =====
-- Smart lock intercom: the RTSP server of a door intercom, with the parts that it drives.
--
-- The program (intercom_test/src) streams the lock's camera and microphone to RTSP clients, plays
-- what a client sends back on the backchannel, and lets clients in through a relay
-- (intercom_test/relay_server), where the lock registers under an id and a client names it.
-- `rtsp_server.c` is its centre. It reads requests and interleaved frames off each TCP connection,
-- asks `rtsp_auth.c` whether a request may be served, changes the client and the server, and on
-- two timers takes frames from `camera_win.c` and samples from `audio_in_win.c` and sends them as
-- RTP. `audio_out_win.c` plays the backchannel.
--
-- Files:
--   Rtsp/State     `struct rtsp_client`, `g_rtsp`, the replies and what leaves the server
--   Rtsp/Request   `parse_rtsp_request`; Rtsp/Transport: the readers of the Transport header
--   Rtsp/Reply     the text of the replies, with the SDP; Rtsp/Reply/Reader is a client from RFC 2326
--   Rtsp/Handlers  `handle_options`, `handle_describe`, `handle_setup`, `handle_play`,
--                  `handle_teardown`; Rtsp/Dispatch: `dispatch_rtsp`
--   Rtsp/Media     starting and stopping the media, one NAL unit or audio packet to a client
--   Rtsp/Interleaved  frames on the connection; Rtsp/Receive: `rtsp_recv_handler`
--   Rtsp/Server    connections, timeouts, the two timers, start and stop
--   Rtsp/Invariant what holds of every client, over the server's events as a step relation
--   Rtp            the packetiser; Rtp/Depacketize is a receiver written from RFC 6184
--   Auth           `rtsp_auth.c`; Camera: `camera_win.c`; AudioIn: `audio_in_win.c`; AudioOut:
--                  `audio_out_win.c`; Libre: `re_snprintf` of re-4.6.0: numbers, and the cut
--   RelayServer    relay_server.c: Registry is its table of devices, Command the line
--                  protocol, Connection what becomes of a connection, Bridge one direction of it
--   RelayClient    relay_client.c: its handlers; Steps: its events; Greeting: what it sends to the relay
--   Http           http_server.c: Files has its static files, Doorbell the bell of the door, Calls the
--                  call of the browser, Nat its STUN query, Router `http_req_handler`
--   Session        session.c: one session with its own RTP transport, media and timers
--   Stun           stun_client.c: one discovery of the outer address, over its events
--   Program        main.c: the arguments, the directory of the pages, the start and the stop
--   CString        the C string functions; Status: error codes; Base: shared names and lemmas
--   Tests          runs on concrete inputs
--
-- How they meet: Program starts the RTSP server with its authentication, the HTTP server and the
-- relay client. The relay client hands a bridged connection to the RTSP server as a connection
-- like one it accepted itself. The HTTP server allocates a session of Session for each call, and
-- tells the address that Stun found; both servers drive the same camera and speaker, which the
-- steps of Http/Router/Steps share. The state of Program holds them twice, once for each
-- server, and nothing is said there of what one server does to the devices of the other.
--
-- State is passed explicitly: a handler takes the `World` and the client it serves, and gives both
-- back with the list of outputs. A pointer to a client is its number in the list of clients. What
-- the libraries and the system answer (an allocation, a socket, a random number, the encoder's
-- output) is an argument. MD5, Base64 and the mu-law encoder of libre are functions that the
-- definitions take; what is asked of them is that a digest of MD5 has 16 bytes and that Base64 makes
-- four bytes of three.
--
-- Integers are natural numbers with their wrap-around written out: sequence numbers modulo 2 ^ 16,
-- time stamps, counters and ticks modulo 2 ^ 32, the clock of the doorbell modulo 2 ^ 64. Samples
-- are integers clipped to 16 bits; the sine of the microphone's test tone is an argument. A C string
-- is a list of bytes without the closing 0; where a search of the program reads past that 0, the
-- bytes behind it are an argument.
--
-- Loops run on fuel where they do not follow the data: the receive loop on the number of bytes in
-- the buffer, the loop over header lines on the length of the text, the fragments of a NAL unit on
-- the length of its payload, the draining of the microphone on the number of samples to drop, the
-- sending of a chunk of a bridge on its length, the lines of the relay's text on the length of the
-- text. Each round takes at least one of what is counted. The digits of a number in a text are at
-- most 20, which is enough below 2 ^ 64.
--
-- Not modelled: that the receive buffer of an RTSP connection (`rtsp_recv_handler`) or the buffer of
-- an interleaved video frame (`tcp_interleaved_send`) cannot be allocated; logging, the pixels of the test pattern, sockets and threads of the system;
-- intercom_test/src/session_old.c, which is not compiled; the Android client; libre (re-4.6.0)
-- beyond the forming of texts.
pub mod Base
pub mod CString
pub mod AudioIn
pub mod Status
pub mod Camera
pub mod Libre
pub mod Auth
pub mod AudioOut
pub mod Rtsp
pub mod Rtp
pub mod Tests
pub mod RelayServer
pub mod RelayClient
pub mod Http
pub mod Session
pub mod Stun
pub mod Program
