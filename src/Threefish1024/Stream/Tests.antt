-- ===== src/Threefish1024/Stream/Tests.antt =====
-- Runs of the streaming code on a small file, and the theorems at them.
use mathlib.Core.List.{flat_map}
use rust_encryption.Common.{
  ◌+◌, ◌≡◌, refl, [], ◌∷◌, ◌++◌, arith, some, ok, err, Bytes, length, replicate, all_bytes→IsBytes,
  bytes_eq,
}
use rust_encryption.Threefish1024.Error.{authentication_failed, input_changed}
use rust_encryption.Threefish1024.Header.{Header, encode, decode}
use rust_encryption.Threefish1024.Ctr.{
  new, apply_keystream, apply_loop, refill, refill_if_spent, consume,
}
use rust_encryption.Threefish1024.Stream.{
  DerivedKeys, authentication_domain, start_mac, derive_keys, verify_loop, check_tag,
  verify_ciphertext, decrypt_loop, decrypt_operation, decrypt_stream, read_exact_format,
  encrypt_loop, encrypt_operation, encrypt_stream,
}
use rust_encryption.Threefish1024.Stream.Verify.{IsSealed, verify_ciphertext-IsSealed}
use rust_encryption.Threefish1024.Stream.Decrypt.{IsDecryption, decrypt_stream-IsDecryption}
use rust_encryption.Threefish1024.Stream.Encrypt.{IsEncryption, encrypt_stream-IsEncryption}
use rust_encryption.Threefish1024.Stream.Ends.{Ends, decrypt_stream-Ends, encrypt_stream-Ends}
use rust_encryption.Threefish1024.Stream.RoundTrip.{decrypt_stream-encrypt_stream}
use rust_encryption.Threefish1024.Sample.{File, deps, deps-DepsLaws, deps-StableFile}

abbrev master : Bytes
master = replicate 128 9

abbrev text : Bytes
text = 104 ∷ 105 ∷ 33 ∷ []

abbrev header : Header
header = record { plaintext_len = 3; salt = replicate 32 0; tweak = replicate 16 1 }

abbrev ciphertext : Bytes
ciphertext = 58 ∷ 59 ∷ 115 ∷ []

abbrev tag : Bytes
tag = deps.mac_finalize (replicate 64 5 ++ (authentication_domain ++ (encode header ++ ciphertext)))

abbrev container : Bytes
container = encode header ++ (ciphertext ++ tag)

encrypted : encrypt_stream deps master (text, text) 3 ≡ some (ok container)
unfolding encrypt_stream encrypt_operation encrypt_loop start_mac derive_keys encode apply_keystream
    apply_loop refill refill_if_spent consume new flat_map
encrypted = refl

decrypted : decrypt_stream deps master (container, container) 147 ≡ some (ok text)
unfolding decrypt_stream decrypt_operation decrypt_loop verify_ciphertext verify_loop check_tag
    start_mac derive_keys encode decode bytes_eq apply_keystream apply_loop refill refill_if_spent
    consume new flat_map
decrypted = refl

verified :
    verify_ciphertext deps (container, ciphertext ++ tag) 3 (encode header) (replicate 64 5)
    ≡ some (ok (container, []))
unfolding verify_ciphertext verify_loop check_tag start_mac encode bytes_eq
verified = refl

-- A ciphertext that differs in its last byte does not pass.
forged :
    verify_ciphertext deps
      (container, (58 ∷ 59 ∷ 114 ∷ []) ++ tag)
      3
      (encode header)
      (replicate 64 5)
    ≡ some (err authentication_failed)
unfolding verify_ciphertext verify_loop check_tag start_mac encode bytes_eq
forged = refl

-- The file has grown since its length was taken.
grown : encrypt_stream deps master (text, text) 2 ≡ some (err input_changed)
unfolding encrypt_stream encrypt_operation encrypt_loop start_mac derive_keys encode
grown = refl

verify_ciphertext-IsSealed_example :
    (c : Bytes) × IsSealed deps deps-DepsLaws (ciphertext ++ tag) (encode header) (replicate 64 5) c
    × (length c ≡ 3)
verify_ciphertext-IsSealed_example =
    verify_ciphertext-IsSealed deps deps-DepsLaws (container, ciphertext ++ tag) (container, []) 3
      (encode header) (replicate 64 5) verified

decrypt_stream-IsDecryption_example :
    (h : Header) × (header_bytes : Bytes) × (keys : DerivedKeys) × (first after second : File)
    × (read_exact_format deps 80 (container, container) ≡ ok (first, header_bytes))
    × (container ≡ header_bytes ++ first.1)
    × (length header_bytes ≡ 80)
    × (decode header_bytes ≡ ok h)
    × (147 ≡ 144 + h.plaintext_len)
    × (derive_keys deps master h.salt ≡ ok keys)
    × (verify_ciphertext deps first h.plaintext_len header_bytes keys.authentication
        ≡ some (ok after))
    × ((c : Bytes) × IsSealed deps deps-DepsLaws first.1 header_bytes keys.authentication c
        × (length c ≡ h.plaintext_len))
    × (deps.seek 80 after ≡ some second)
    × IsDecryption deps deps-DepsLaws second.1 h header_bytes keys text
decrypt_stream-IsDecryption_example =
    decrypt_stream-IsDecryption deps deps-DepsLaws master (container, container) 147 text decrypted

encrypt_stream-IsEncryption_example :
    (h : Header) × (keys : DerivedKeys) × (h.plaintext_len ≡ 3)
    × (deps.fill 0 32 ≡ some h.salt)
    × (deps.fill 1 16 ≡ some h.tweak)
    × (derive_keys deps master h.salt ≡ ok keys)
    × IsEncryption deps deps-DepsLaws text h keys container
    × (length text ≡ 3)
encrypt_stream-IsEncryption_example =
    encrypt_stream-IsEncryption deps deps-DepsLaws master (text, text) 3 container (omega arith)
      encrypted

decrypt_stream-Ends_example : Ends (decrypt_stream deps master (container, container) 147)
decrypt_stream-Ends_example =
    decrypt_stream-Ends deps deps-DepsLaws master (container, container) 147

encrypt_stream-Ends_example : Ends (encrypt_stream deps master (text, text) 3)
encrypt_stream-Ends_example =
    encrypt_stream-Ends deps deps-DepsLaws master (text, text) 3 (omega arith)

decrypt_stream-encrypt_stream_example : text ≡ text
decrypt_stream-encrypt_stream_example =
    decrypt_stream-encrypt_stream deps deps-DepsLaws deps-StableFile master (text, text)
      (container, container) 3 147 container text (omega arith) (all_bytes→IsBytes text refl)
      encrypted refl refl decrypted
