-- ===== src/Lib.antt =====
-- Vianium VoIP: the calls of a Telegram client for Windows.
--
-- The program is layered. src/voip/src/domain holds the values and the pure parts: the packet
-- codecs, the jitter buffer, the media session, the signaling of tgcalls. src/voip/src/infrastructure
-- holds STUN, TURN, DTLS, SRTP and the device and socket adapters, src/voip/src/application the
-- engine, the ICE agent and the connection that drive them, src/voip/src/ports the interfaces
-- between the layers and src/voip/src/api the WinRT binding. The engine picks a reflector, prepares
-- the media session for it, sends control and stream data packets to it and feeds what comes back
-- into the jitter buffer, which a playout timer empties.
--
-- The files, and the code that each one is about:
--   Common            Boolean tests, integers, bits of numbers and lists, for all the others
--   Bytes             the byte order helpers (WriteLE16 .. ReadBE32) that the codecs each declare in
--                     their anonymous namespace; the buffers they write into
--   Domain            src/voip/src/domain/voip_error.h (VoipError) and voip_endpoint.h (VoipEndpoint)
--   ControlPacket     src/voip/src/domain/voip_control_packet.cpp: EncodeShort, DecodeShort,
--                     BuildInitPayload, BuildInitAckPayload, ParseInitAckPayload
--   StreamData        src/voip/src/domain/voip_stream_data_packet.cpp: EncodeAudio, DecodeOne
--   RtpPacket         src/voip/src/domain/voip_rtp_packet.cpp: Encode, Decode
--   ReflectorPacket   src/voip/src/domain/voip_reflector_packet.cpp: BuildPeerDiscoveryRequest,
--                     BuildSelfInfoRequest, ParseSelfInfoResponse
--   EndpointSelector  src/voip/src/domain/voip_endpoint_selector.cpp: SelectReflector and its tests
--   SignalingFrames   src/voip/src/domain/tgcalls_signaling_frames.cpp: SplitFrames, JoinFrames,
--                     BuildJsonFrame
--   SlotMap           the ordered map m_slots of src/voip/src/domain/voip_jitter_buffer.cpp: std::map
--                     as the list of its entries in the order of the keys
--   JitterBuffer      src/voip/src/domain/voip_jitter_buffer.cpp: the fields of VoipJitterBuffer as a
--                     record, Insert, NextPlayoutFrame, Reset and Stats as functions from state to state
--   MediaSession      src/voip/src/domain/voip_media_session.cpp: the fields as a record and one
--                     function for each method that changes them
--   AesCtr            the counter mode loop of src/voip/src/infrastructure/srtp/srtp_aes_ctr.cpp
--                     (IncrementCounter, Encrypt) and of AesCtrXcrypt in
--                     src/voip/src/domain/tgcalls_signaling_codec.cpp
--   Srtp              src/voip/src/infrastructure/srtp/srtp_packet_codec.cpp: SrtpEncryptParams as a
--                     record, Encrypt with the new parameters in its result, Decrypt
--   SignalingCodec    src/voip/src/domain/tgcalls_signaling_codec.cpp: Encrypt, Decrypt and the
--                     derivation of the key and the counter
--   DtlsRecord        src/voip/src/infrastructure/dtls/dtls_record.cpp: Encode, Decode, PeekRecordSize
--   DtlsHandshake     src/voip/src/infrastructure/dtls/dtls_handshake_messages.cpp: the header and the
--                     messages of the handshake, one function for each Encode and Decode
--   PacketCrypto      src/voip/src/domain/voip_packet_crypto.cpp: EncryptRelayPacketMtProto2Short,
--                     DecryptRelayPacketMtProto2Short, Kdf2 and, in the child Ige, the IGE mode
--   Crc32             src/voip/src/infrastructure/ice/crc32.cpp: the table and Compute
--   Stun              src/voip/src/infrastructure/ice/stun_message.cpp: StunMessage as a record, Encode,
--                     Decode, VerifyMessageIntegrity, VerifyFingerprint in the children Encode and
--                     Decode; the other children hold an independent description of the wire format
--                     and the proofs
--   Turn              src/voip/src/infrastructure/turn/turn_message.{h,cpp}: the message types, the four
--                     encoders, DecodeMessage, MakeAddress and FormatAddress; AppendAttr and AppendAttrU32 are the same code as in
--                     stun_message.cpp and taken from Stun
--   Md5               the MD5 functions of turn_message.cpp and DeriveLongTermKey
--   Text              the printing and reading of numbers in text that the C++ library does for the
--                     next two: `<<`, strtol, strtoul, `%u` of sscanf, with a `long` of 32 bits
--   IceCandidate      src/voip/src/domain/ice_candidate.{h,cpp}: Trim, SplitSpaces, ParseInt, ParseU32
--                     in the child Tokens, Parse and Format in the child Line
--   IceAgent          src/voip/src/application/ice_agent.cpp: the fields as a record, the methods as
--                     functions from agent to agent, the messages in the child Checks; a run of an
--                     agent is a step relation in the child Steps
--   Tests             runs at concrete inputs
-- The children of a file hold its proofs.
--
-- Numbers: an unsigned field is a natural number, and each wrap of its width is written out; an int
-- or int64_t is an integer, without overflow (the times of the jitter buffer are milliseconds since
-- the system's start). A byte sequence is a list, and a null pointer is the empty list. The double
-- that smooths the jitter is a parameter, the record JitterBuffer.Doubles: nothing is assumed of it.
-- AES, HMAC-SHA1 and SHA-256 come from another library and are parameters, the records
-- Srtp.SrtpCrypto, SignalingCodec.SignalingCrypto, PacketCrypto.Ige.AesSha and Stun.HmacSha1: of the
-- hashes and codes the sizes of the results are assumed and that they are bytes, and of the block cipher
-- only, where the IGE mode needs it, that a block that was encrypted is decrypted to itself. The random
-- numbers of the platform (padding, transaction ids, the tie break) are arguments. Texts are lists of
-- bytes.
--
-- Fuel: SplitFrames' loop over the later frames of a packet runs on fuel, the number of the bytes
-- that are left; every round takes at least one byte. The loop of the counter mode runs on the number
-- of bytes, of which each round takes 16 or all that are left. The loops over the attributes of STUN and
-- TURN messages, over certificates and extensions and over the blocks of MD5 run on the number of bytes, of which a round takes
-- three at least, and the loop over the text of an IPv6 address on the number of characters, of which a round
-- takes one at least, so that the fuel lasts. The loops that pad to a multiple of four have three rounds,
-- and a number has at most as many digits as its value.
--
-- Not modelled: the sockets, the audio device, the platform's cryptography and the WinRT binding,
-- which are input and output; third_party/libopus and third_party/libtgvoip, which are copies of
-- other projects; the TURN client, the session that runs the DTLS handshake,
-- the derivation of the SRTP session keys and the signaling messages; the engine and the connection that drive all of
-- them. The float levels of the media session's statistics are left out, which it only sets to 0.
pub mod Common
pub mod Bytes
pub mod ControlPacket
pub mod StreamData
pub mod RtpPacket
pub mod SignalingFrames
pub mod Domain
pub mod AesCtr
pub mod Crc32
pub mod Stun
pub mod Text
pub mod Md5
pub mod Turn
pub mod IceCandidate
pub mod IceAgent
pub mod PacketCrypto
pub mod Srtp
pub mod SignalingCodec
pub mod DtlsRecord
pub mod DtlsHandshake
pub mod SlotMap
pub mod JitterBuffer
pub mod MediaSession
pub mod EndpointSelector
pub mod ReflectorPacket
pub mod Tests
