-- ===== src/Lib.antt =====
-- The browser client of Private Chat: an end-to-end encrypted chat over a relay that sees only
-- ciphertext. The library models the client's logic, the TypeScript under frontend/src.
--
-- The parts and their files (source paths from the repository's root):
--   Prelude, Text, Collections, Result, Json   the language: native numbers and lists, strings as
--     UTF-16 code units with TextEncoder and TextDecoder, Set and Map, thrown errors as values, and
--     JSON.parse and JSON.stringify.
--   E2ee/Base64        frontend/src/e2ee.ts: base64UrlEncode and base64UrlDecode, over btoa and atob.
--   E2ee/ReplayCache   frontend/src/e2ee.ts: class ReplayCache.
--   E2ee/Envelope      frontend/src/e2ee.ts: isValidEnvelope, extractMessageIdB64, isRoomKeyB64.
--   E2ee/AesGcm        frontend/src/e2ee.ts: room keys, and createAesGcmCrypto with encrypt and decrypt.
--   E2ee/Names         frontend/src/e2ee.ts: wrapped room keys, room names and nicknames.
--   Identity           frontend/src/identity.ts: session identities, signed messages and nick claims.
--   Codec              frontend/src/codec.ts: encode and decode of protocol messages.
--   Transport          frontend/src/transport.ts: class Transport, the socket's life, its queue and its
--     reconnection.
--   Channel            frontend/src/channel.svelte.ts: class ChannelStore, its message handler
--     (Channel/Receive) and its sending calls (Channel/Send); and createChannel
--     (Channel/Create), whose promise is a record of what it is settled with. Channel/Delivery is about
--     two stores, one that sends a message or a new key and one that receives it.
--   Invite             frontend/src/invite.ts: parseInvite and parseKeyFromHash, with their regular
--     expressions as scans.
--   App                frontend/src/App.svelte: the rooms of the page, their stores, keys and names.
--     App/Address is about the addresses of rooms. App/Gate
--     has the effect that connects a room and the peek, App/Join creating and joining, App/Rename
--     the calls on the store that is shown, App/Rotate invite links and new keys, App/Leave
--     leaveRoom, App/Announce the effect that announces names, App/Shown what the views are given.
--   View               frontend/src/MessageList.svelte: names and texts of messages; and the guards of
--     frontend/src/Sidebar.svelte, CreateRoomView.svelte and Composer.svelte.
--   Tests              instances of the parameters, and the theorems at concrete data.
--
-- How they interact: ChannelStore hands frames that Codec prints to Transport, and gets the frames that
-- Transport receives; it checks an envelope (E2ee/Envelope), asks the replay cache, decrypts with the
-- room's crypto (E2ee/AesGcm), and reads the plaintext as a signed message (Identity) or as a wrapped
-- payload (E2ee/Names). App holds a ChannelStore with its Transport for each room, calls createChannel and
-- Invite, and hands to View what a store holds.
--
-- State and operations. A class is a record with its fields, and a method is a function of the same
-- name in this spelling (sendRaw is send_raw) from the state to the state and the answer. Sockets and
-- timers are numbers; what the platform keeps of them is in the record Transport. A handler with an
-- `await` is cut there: Channel/Receive returns a Job that holds the answer, and Channel/World has
-- the step relation in which frames arrive and jobs are resumed in any order. The sending calls run in
-- one step over the values that they await. In App a function named begin_ runs up to the await and
-- returns what waits, and the one named end_ runs behind it, on the state that it finds then; an await of
-- a promise that is settled already is no cut. An error that is thrown is a constructor of Error.
--
-- Parameters, for code that is not in the repository: Aead is AES-GCM, Signing is Ed25519, Numbers is
-- the language's numbers, Handlers is the code registered at a transport, and random bytes, the clock
-- and the presence of Web Crypto are arguments. The relay server is a function from payloads to frames
-- where two stores meet (Channel/Delivery), of which it is assumed that it keeps the payload.
--
-- Bounds and fuel. JSON.parse runs on fuel of two calls for each character, and one more, which is enough
-- for what the client prints (Json/RoundTrip: nested objects of strings, words and digits); decimal runs
-- on fuel of n + 1 for the digits of n. All other recursion is structural. The jitter of the reconnection
-- delay is kept as an exact number in units of 1 / (10 * 2 ^ 53) ms, without the rounding of doubles.
--
-- Not modelled: the registration and removal of handlers; the markup and main.ts; in App.svelte the notice
-- on Ed25519, scrolling and the flags of menus; in MessageList.svelte the avatar's letter and the time,
-- which need Unicode's case mapping and the local clock; the relay server under backend, which is Go, and
-- whose frames are arbitrary texts here.
pub mod Prelude
pub mod Text
pub mod Collections
pub mod Result
pub mod Json
pub mod E2ee
pub mod Identity
pub mod Codec
pub mod Transport
pub mod Channel
pub mod Tests
pub mod Invite
pub mod App
pub mod View
