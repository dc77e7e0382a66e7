-- ===== src/Lib.antt =====
-- Models and theorems for the encryption programs of this repository. Each program is a Rust
-- crate of its own, and they share no code; each has a module of that name here.
--
-- Cascade (cascade/src) encrypts files under one of four suites. Its parts:
--   * Cascade/Algorithm: `Algorithm` of algorithms/mod.rs, the suites with their identifiers and
--     sizes; Cascade/Dispatch: `Algorithm::seal` and `Algorithm::open` (`open_sealed` here).
--   * Cascade/Cbc: algorithms/serpent.rs and algorithms/threefish.rs, which are one text up to their
--     constants; `CbcSuite` holds the constants, Cascade/Serpent and Cascade/Threefish give them.
--   * Cascade/Detached: algorithms/aes.rs and algorithms/xchacha.rs in the same way, with
--     `AeadSuite`, Cascade/Aes and Cascade/Xchacha.
--   * Cascade/Container: container.rs, the version 1 envelope, which asks Cascade/Dispatch to seal
--     and to open. `parse` is written in two parts, `parse_fixed` for the first 32 bytes and
--     `parse_rest`.
--   * Cascade/Primitives: what the code calls and does not contain, as the record `Primitives`: the
--     block modes with padding, the AEADs, HKDF, HMAC, and whether a buffer can be reserved. The
--     documented laws of these are the record `PrimitiveLaws`, with the largest text that each AEAD
--     takes (`text_max` of Cascade/Dispatch/RoundTrip by suite); `HasMemory p room` says that requests
--     up to `room` bytes are served. Cascade/Sample is an instance of all.
--   * Cascade/AppError: the errors of error.rs that these parts return.
--
-- Threefish1024 (threefish1024/src/lib.rs) streams a file through Threefish-1024 in counter mode and
-- HMAC-SHA-512. Its parts:
--   * Threefish1024/Header: `Header::encode` and `Header::decode`.
--   * Threefish1024/Ctr: `ThreefishCtr`. The loop of `apply_keystream` runs on fuel, one unit for
--     each byte, since a round takes at least one; Threefish1024/Ctr/Stream describes the key stream
--     by position, without a state. The block function is a parameter that keeps sixteen words.
--   * Threefish1024/Stream: `verify_ciphertext`, and `encrypt_file` and `decrypt_file` from the open
--     input to the content of the temporary output, as `encrypt_stream` and `decrypt_stream`; the
--     closures `operation` are `encrypt_operation` and `decrypt_operation`. Their loops run on fuel,
--     the stated length of the text and, for encryption, one more: a round that goes on has read a
--     byte at least. What went wrong in a failed read or write is not kept, only the action.
--   * Threefish1024/Deps: what these parts call, as the record `Deps`, with the documented laws in
--     `DepsLaws`: HKDF, HMAC fed piece by piece, the block cipher, random bytes, and reads and writes
--     of open files. Threefish1024/Stream/StableFile adds that nobody changes the file that is read;
--     Threefish1024/Sample is an instance of all.
--   * Threefish1024/Error: the errors that these parts return.
--
-- Otp (otp/src) encrypts a file with a one-time pad of its size, and keeps a ledger of used pads. Its
-- parts:
--   * Otp/World: what the program works on, the state `World`: the files by path, and the number of
--     operations so far. A program that changes it is an `M`, a function from the state to a result and
--     the next state, with `?` as `>>=`. The record `Env` is what the code calls and does not contain:
--     whether each operation of the operating system succeeds (one that fails changes nothing),
--     the file that a path leads to, by one name where it has several (so that `ensure_distinct`
--     compares files, hard links included), random bytes, SHA-256, HMAC-SHA-256 and environment variables.
--     Since any operation may fail, what holds after every outcome holds after an interruption at
--     any operation. `same_path` is `==` on `Path`, by components. No other program changes the files while one operation of this one runs.
--   * Otp/Files: `open_regular`, `open_pad`, `ensure_distinct`, `sync_parent` and `OutputTransaction`,
--     whose temporary file no path leads to before `commit`.
--   * Otp/PadHeader, Otp/EnvelopeHeader, Otp/Size, Otp/Role, Otp/Hex, Otp/Error: the formats, the checked
--     sizes, the roles, `hex_encode` and `OtpError`.
--   * Otp/Ledger: the directory of used pads; Otp/StateDirectory: its default place on Unix,
--     `encrypt_file` and `decrypt_file`.
--   * Otp/Pad and Otp/Create: reading, validating, marking, inspecting, destroying and creating pads.
--   * Otp/Encrypt and Otp/Decrypt: `encrypt_file_with_state` and `decrypt_file_with_state`; the parts
--     after the pad is marked are `write_envelope` and `write_plaintext`.
--   * Otp/Chunks: the loops `while remaining > 0` go over the list of the amounts of their rounds,
--     which is made on fuel, a unit for each byte, since a round takes a byte at least.
--   * Otp/Commands: `run` of main.rs; Otp/SizeText: `parse_size`.
--   * Otp/Reading, Otp/Growth and Otp/Kept are about the functions that only read, and the files that
--     stay, Otp/Spending about the ledger after a success, and Otp/Content about what is read and written.
--
-- Common holds what the programs share: words of 64 bits with checked arithmetic, encodings of words
-- as bytes, byte ranges, xor, and `Result` with `?` as `>>=`. A byte string is a list of numbers, and
-- `IsBytes` says that they are below 256. `usize` is taken to have 64 bits.
--
-- Not modelled: paths, permissions and the publication of outputs (key_store.rs, file_io.rs and
-- unix_fs.rs of cascade; `load_key`, `validate_protected_paths`, `private_temp_file`, `publish_temp`
-- and `generate_key` of threefish1024), the command lines of these two, and the erasing of memory; the other programs
-- of the repository; of otp, locks between processes and Windows.
mod Common
pub mod Cascade
pub mod Threefish1024
pub mod Otp
