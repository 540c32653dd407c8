-- ===== src/Lib.antt =====
-- A model of isomdl, a library for mobile driving licences after ISO/IEC 18013-5: the issuer prepares
-- signed documents, a holder presents them to a reader in an encrypted session.
--
-- Parts, and the files of the repository that they model:
-- - Common: lists, results, orders, ordered maps and integers, shared by all parts. A `BTreeMap` is the
--   list of its entries in the order of the keys, a string the list of its bytes.
-- - Cbor: the values of CBOR that keys, certificates and responses carry.
-- - Session (src/definitions/session.rs, src/definitions/session_crypto.rs,
--   src/definitions/device_response.rs): `encrypt`, `decrypt` and `get_initialization_vector` take the
--   message counter and return its new value beside the result; Session.Status has the status codes.
--   Nonce and Channel hold the proofs. Session.Sha256 is the buffered digest, with each of its three
--   phases a function of the state, Session.Hmac has HMAC and HKDF over scratch memory, Derived
--   `derive_session_key`. Blocks has the digest of a whole message, block by block, and with Absorbed,
--   Hashed, Finished, Parts and Keyed compares the code with it.
-- - Cose (src/cose/sign1.rs, src/cose/mac0.rs): Cose.Sign1 and Cose.Mac0 prepare, complete and verify;
--   Cose.Verified holds the proofs.
-- - X509 (src/definitions/x509): Names compares subjects, Extensions has the profiles as lists of
--   validators, Validation the trust anchors and the three rulesets, Chain the chain and its encoding.
--   Required and Trusted hold the proofs.
-- - Digest (src/digest_executor.rs): jobs, results and the scalar executor; Digest.Parallel has
--   `execute_with_pool`, the native and the adaptive executor; Digest.Budget the worker budget as a
--   state with a step for each lease that is taken or dropped. Digest.Agrees compares the executors.
-- - DeviceKey (src/definitions/device_key/mod.rs, src/definitions/device_key/cose_key.rs): key
--   authorizations, their validation and use; DeviceKey.CoseKey encodes keys and their points.
-- - Issuance (src/issuance/mdoc.rs, src/definitions/mso.rs): Issuance.Plan makes the issuer-signed
--   items and the plan of their digests, Issuance.Assembly puts the results of an executor into place,
--   Issuance.Prepare has the builder, `prepare`, `prepare_batch` and `complete`. Aligned says which
--   plans are sound and what their assembly is to be; Pushed, Planned and Items show that the planner
--   makes sound plans; Ordered, Numbered, Reordered and Schedule that the assembly of sound plans is
--   right for every order of the results; Executors joins both for the whole preparation, and
--   Tracked, Filed and Signed follow the digest of an item into the MSO. Draws has the digest IDs.
-- - Device (src/presentation/device.rs): Device.Filter has `filter_permitted`, Device.Response the
--   prepared response with its signatures, Device.ReaderAuth the authentication of the reader,
--   Device.Manager the session manager with its states, Device.Age the choice of an age attestation.
--   Filtered, Permitted,
--   Disclosed, Signing, Authenticated and Nearest hold the proofs.
-- - Reader (src/presentation/reader.rs, src/presentation/reader_utils.rs,
--   src/presentation/authentication): Reader.Manager has the session manager of the reader and the
--   outcome of a response, Reader.Parse and Reader.Json what is reported of its values,
--   Reader.Authentication the signatures of the issuer and of the device. Authentic and Reported hold
--   the proofs on outcomes, Parsable and Elements on values, Header on byte strings; Exchange and
--   Delivered put the manager of the reader and that of the holder together.
-- - Engagement (src/definitions/device_engagement.rs, src/definitions/device_engagement/nfc_options.rs,
--   src/definitions/helpers/tag24.rs): Nfc, Ble and Wifi have the options of a transport, Methods the
--   retrieval methods, Tagged the values under tag 24, Codec the engagement as a CBOR value, Qr its
--   URI. RoundTrip joins the round trips of the parts.
-- - Establish (src/definitions/session.rs, src/presentation/device.rs, src/presentation/reader.rs,
--   src/presentation/mod.rs): Keys has the ephemeral keys and the shared secret, Message the coding of
--   the first message, Holder `initialise`, `qr_engagement` and `process_session_establishment`, Reader
--   `establish_session`. Agreed, Engaged, Requested and Opened say what each side has done, Established
--   puts them together.
-- - Namespaces (src/definitions/namespaces/latin1.rs): Namespaces.Latin1 has the parser of strings.
--
-- A holder initialises a session and shows the QR code of its engagement; the reader scans it, derives
-- the keys and sends its own key with the first request; the holder derives the same keys from it.
-- The preparation calls the planner, then an executor with all jobs, then the assembly. The session
-- manager decrypts a request, prepares a response from the filtered elements, collects signatures,
-- and encrypts the response under its own counter. The reader decrypts it with the same counter,
-- validates the certificate chain that came with it, and verifies both signatures.
--
-- Parameters: AES-256-GCM, SHA-2 and its compression function, elliptic curves, the random number
-- generator, the bytes of CBOR and DER, the structures of COSE that are signed. What a theorem needs
-- of them is a named hypothesis: `OpensSealed` of the cipher, `Exchanges` of the curve,
-- `DecodesEncoded` of base64, `Derives` and `DerivesEstablishment` of the coders that serde derives,
-- `ReadsWritten` and `ReadsEstablishments` of ciborium, `HasLengths` of the digests, `KeepsEight` of
-- the compression, `Complete` of an executor, `Agree` of the two sides' encodings.
-- The clock is a parameter that does not change during a validation.
--
-- Bounds and fuel: counters and job numbers keep their checks against 2 ^ 32 and 2 ^ 64. The drawing
-- of a digest ID repeats until the ID is new; the model draws at most `draws` times, and reports
-- `out_of_draws` then, which the code never does. The chunks of a list are cut at most as often as it
-- has elements, which is enough since no chunk is empty. Sums of input lengths do not saturate. The
-- loop of the digest over whole blocks has the length of the input as fuel, and removes 64 at a time.
--
-- Not modelled: panics of digest workers and the initialization of the thread pool, SIMD digests,
-- the arithmetic of the curve, claims sets, the PEM forms of certificates, and the data types of the
-- namespaces but for Latin1. A private key that is generated is an argument. Wiped memory is modelled
-- where it is an output.
pub mod Common
pub mod Cbor
pub mod Session
pub mod Cose
pub mod X509
pub mod Digest
pub mod DeviceKey
pub mod Issuance
pub mod Device
pub mod Reader
pub mod Namespaces
pub mod Engagement
pub mod Establish
