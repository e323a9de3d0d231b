-- ===== src/Lib.antt =====
-- SteamLink, the Arduino side: a node, or a bridge between two networks, that exchanges packets
-- with a store. What is modelled is the code of the library's own files and its sketches.
--
-- The parts, and the files here that model them:
--   SL_RingBuff.h, SL_RingBuff.cpp    Ring: the queue of packets that each object sends from
--   SteamLink.h                       Wire: op codes, codes of acknowledgements, address ranges,
--                                     the packed headers and the packed node configuration
--   SteamLink.h, SteamLink.cpp        Debug: the printing macros, phex, print_packet,
--                                     print_op_code
--   SteamLinkGeneric.h                Interface: the table of the virtual methods, and
--                                     Interface.Drivers: the drivers as the base class calls them;
--                                     System: the fields of an object, and the memory around it;
--                                     Node: the constructor
--   SteamLinkGeneric.cpp              Send: send_data and its callers, generic_send;
--                                     Admin: handle_admin_packet, a function for each branch;
--                                     Update: update, a function for each of its steps
--   SteamLinkBridge.h and .cpp        Bridge: the driver pointers, the router, the start;
--                                     Bridge.Loop: update; Bridge.Relay and Bridge.Order: a packet
--                                     through a round of it, over any driver; Bridge.Broker and
--                                     Bridge.Radio: between the LoRa and the ESP driver
--   SteamLinkLoRa.h and .cpp          Lora: the radio's driver; Lora.Setup: constructor, init
--   SteamLinkESP.h and .cpp           Mqtt: the receive queue of both MQTT drivers; Mqtt.Esp;
--                                     Mqtt.Wifi: wifi_connect; Mqtt.Topic: the topics;
--                                     Mqtt.Esp.Setup: constructor, init
--   SteamLinkPaho.h and .cpp          Mqtt.Paho; Mqtt.Paho.Setup: constructor, init, topics
--   all of these together             Exchange: a sketch's texts until they are acknowledged,
--                                     and a packet that was lost
--   examples/SL_testclient0           Sketch.TestClient
--   examples/SL_bridge0               Sketch.Bridge0
--   examples/SL_pahoclient0           Sketch.PahoClient
-- Each of these files holds the definitions, and its children the theorems. Prelude holds what they
-- share, and Examples the concrete nodes and packets on which the theorems are applied.
--
-- How the code is read. An object is a `Node`, and the two objects of a bridge are the two values
-- of `Ref`; a method takes its `this` as a `Ref`. A method is a function on the `System`, which
-- holds both objects, in the monad `M`: it returns, meets undefined behaviour (`faults`), enters
-- the endless loop that the watchdog ends (`resets`), or runs out of fuel. Numbers are natural
-- numbers, with the wrap-around of uint8_t, uint16_t and uint32_t written out where the code
-- computes. A buffer is the list of its bytes, and a pointer is its buffer: which pointers are
-- equal, and a second `free` of one buffer, are not modelled, only how many buffers are allocated
-- and given back. `malloc` succeeds. A copy within one buffer goes byte by byte from the left.
-- Structs are packed and little endian; a float is its 32 bits.
--
-- What the platform supplies is an argument, `Env`: the clock's readings, one for each call of
-- `millis`; the content of fresh memory; and what a caller finds where `send_enqueue`, which is
-- declared `bool`, ends with no return. A driver (radio or MQTT) is an argument, `Driver`, of the
-- functions that call it. A user's handler is a list of its calls: it does not call back.
--
-- The router calls a driver's `handle_admin_packet`, which may send, which may call the router.
-- `router_on` counts these calls down, and `router` starts with 300 of them. A data packet calls the
-- router once more, and each `BN` envelope takes 7 of at most 255 bytes, so 38 would be enough:
-- Sound and its children follow the code for that, one lemma for each function, and for what every
-- function leaves unharmed; Bridge.Termination closes the circle between router and drivers, and
-- Bridge.Rounds goes round the bridge's loop. What these ask of a driver is a record, `Delivers`,
-- which Interface.Deliver fills for the LoRa, the ESP and the Paho driver: the messages that the
-- broker sends are taken to be of at most 255 bytes.
--
-- Lora and Mqtt are the three drivers, each over an argument for the library that it calls: `Radio`,
-- `Network`, `Client`. They give `none` where the code leaves a buffer. Interface.Drivers makes of them
-- what `update` calls: a reception that leaves a buffer faults there, one that hangs in `while (1)` ends
-- in `resets`, and one that still waits when the fuel for it is out is out of fuel, too.
--
-- Their set-ups are functions into `Startup`: ready, hanging in `while (1)`, or still waiting when
-- the fuel is out. The calls of the libraries and the boards are arguments (`Board`, `Wifi`, `Mqtt`,
-- `Library`). The rounds of wifi_connect's outer loop run on fuel, for that loop need not end; two
-- rounds are enough where a network is in reach. What the drivers print is left out, but for the
-- printf lines of the Paho driver.
--
-- Of the print calls in SteamLinkGeneric.cpp, `WARNPKT` is modelled by what it reads: the packet's whole
-- header, at the repository's debug level, so that a buffer shorter than that is read out of bounds. The
-- other calls print numbers and strings of the code's own, and are left out.
--
-- Debug takes what is printed as the sequence of the print calls, at each setting of DEBUG_ENABLED,
-- with UNIX or without, and for a signed and an unsigned char. DEBUG_PACKET_VERBOSE is 0.
--
-- The sketches use the library through `Methods`, the class's table, or through its own functions.
-- A string literal has its NUL; the int arithmetic of the sketches does not overflow.
--
-- Not modelled: the LoRa library of Sandeep Mistry (LoRa.cpp) and the Eclipse Paho library (paho),
-- which the drivers call; the delay of 70 ms before an acknowledgement; the credentials that the
-- sketches include. `_key` is never used.
pub mod Prelude
pub mod Ring
pub mod Wire
pub mod System
pub mod Node
pub mod Send
pub mod Debug
pub mod Interface
pub mod Sketch
pub mod Admin
pub mod Bridge
pub mod Update
pub mod Lora
pub mod Mqtt
pub mod Sound
pub mod Exchange
pub mod Examples
