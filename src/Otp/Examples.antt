-- ===== src/Otp/Examples.antt =====
-- The theorems on the `otp` crate at sample files.
use rust_encryption.Common.{
  ◌⊎◌, true, false, Option, none, some, length, length-replicate, ap, sym, ◌∙◌, List, [], ◌∷◌, take,
  arith, All, ◌<◌, ◌≤◌, ◌/◌, Bytes, ok, Result, ◌≡◌, ◌≢◌, refl, bytes_eq, all_zero,
  all_bytes→IsBytes,
}
use rust_encryption.Common.Text.{codes}
use rust_encryption.Otp.Error.{OtpError}
use rust_encryption.Otp.Role.{sender, receiver, role_byte, role_name}
use rust_encryption.Otp.Size.{checked_pad_file_len, checked_envelope_file_len}
use rust_encryption.Otp.Hex.{hex_encode}
use rust_encryption.Otp.Chunks.{amounts, amounts_from, sum, amounts_bounds}
use rust_encryption.Otp.PadHeader.{PadHeader, encode_pad_header, parse_pad_header, role_of}
use rust_encryption.Otp.EnvelopeHeader.{encode_envelope_header, parse_envelope_header}
use rust_encryption.Otp.Files.{
  open_regular, open_pad, ensure_distinct, new_transaction, write_temp, sync_transaction,
  sync_parent, commit,
}
use rust_encryption.Otp.Ledger.{
  ledger_path, usage_record, ensure_state_directory, create_new, reserve_usage, is_reserved_in,
}
use rust_encryption.Otp.Pad.{
  normalized_header_for_checksum, begin_pad_checksum, require_fresh_role, verify_exact_pad_checksum,
  read_pad_header, digest_loop, validate_pad, read_authentication_key, mark_pad_consumed,
  inspect_pad,
}
use rust_encryption.Otp.Encrypt.{read_byte, encrypt_loop, write_envelope, encrypt_file_with_state}
use rust_encryption.Otp.Decrypt.{
  read_envelope_header, mac_loop, check_tag, authenticate_envelope, decrypt_file_region,
  write_plaintext, decrypt_file_with_state,
}
use rust_encryption.Common.Xor.{xor_zip}
use rust_encryption.Otp.Content.{part}
use rust_encryption.Otp.Content.Publish.{published}
use rust_encryption.Otp.Content.Encryption.{envelope_of, encrypt_file_with_state-envelope_of}
use rust_encryption.Otp.Content.Decryption.{IsGenuine, decrypt_file_with_state-IsGenuine}
use rust_encryption.Otp.Content.RoundTrip.{decrypt_file_with_state-encrypt_file_with_state}
use rust_encryption.Otp.Create.{create_pad_pair_with_rng, pad_loop, write_both, in_partial}
use rust_encryption.Otp.Content.Creation.{Fills, pad_of, create_pad_pair_with_rng-pad_of}
use rust_encryption.Otp.Spending.{header_at}
use rust_encryption.Otp.Content.Marked.{encrypt_file_with_state_consumed}
use rust_encryption.Otp.Content.Untouched.{
  IsUsable, decrypt_file_with_state_untouched, encrypt_file_with_state_untouched,
}
use rust_encryption.Otp.World.{
  World, ◌>>=◌, lift, look, put, attempt, tick, symlink_metadata, open_file, metadata, seek,
  read_exact, write_all, random_bytes, join, needs_no_slash,
}
use rust_encryption.Otp.Commands.{
  run_all, run, run_pad, resolve_state_directory, Cli, pad_command, info,
}
use rust_encryption.Otp.World.Rules.{Keeps}
use rust_encryption.Otp.Ledger.Paths.{ledger_path-injective}
use rust_encryption.Otp.Commands.Safety.{
  run_all-Keeps, encrypt_file_with_state_once, decrypt_file_with_state_once,
}
use rust_encryption.Otp.Sample.{
  sample_env, sample_world, sample_header, sample_text, sample_pad, sample_envelope,
}

abbrev encryption : Bytes → Bytes → World → Result OtpError (Unit {0}) × World
encryption pad output w =
    encrypt_file_with_state sample_env (codes "plain") pad output (codes "s") w

abbrev decryption : Bytes → Bytes → Bytes → World → Result OtpError (Unit {0}) × World
decryption input pad output w = decrypt_file_with_state sample_env input pad output (codes "s") w

abbrev calls : List Cli
calls = record { state_dir = some (codes "s"); command = pad_command (info (codes "pad2")) } ∷ []

abbrev after_encryption : World
after_encryption = (encryption (codes "pad1") (codes "out1") sample_world).1

abbrev after_decryption : World
after_decryption = (decryption (codes "env1") (codes "pad3") (codes "out1") sample_world).1

run_all-Keeps_example : Keeps sample_world.files (run_all sample_env calls sample_world).files
run_all-Keeps_example = run_all-Keeps sample_env calls sample_world

encrypt_file_with_state_once_example : (sample_header 5 sender).id ≢ (sample_header 6 sender).id
unfolding ◌>>=◌ lift look put attempt tick symlink_metadata open_file metadata seek read_exact
    write_all join needs_no_slash bytes_eq all_zero ensure_distinct open_regular open_pad
    new_transaction write_temp sync_transaction sync_parent commit encode_pad_header
    parse_pad_header role_of role_byte role_name hex_encode amounts amounts_from
    encode_envelope_header parse_envelope_header ledger_path usage_record ensure_state_directory
    create_new reserve_usage is_reserved_in normalized_header_for_checksum begin_pad_checksum
    require_fresh_role verify_exact_pad_checksum read_pad_header digest_loop validate_pad
    read_authentication_key mark_pad_consumed inspect_pad checked_pad_file_len
    checked_envelope_file_len run_all run run_pad resolve_state_directory encrypt_file_with_state
    encrypt_loop read_byte write_envelope decrypt_file_with_state decrypt_file_region
    write_plaintext authenticate_envelope check_tag mac_loop read_envelope_header
encrypt_file_with_state_once_example =
    encrypt_file_with_state_once sample_env (codes "plain") (codes "pad1") (codes "out1")
      (codes "plain") (codes "pad2") (codes "out2") (codes "s") calls sample_world after_encryption
      (encryption (codes "pad2") (codes "out2") (run_all sample_env calls after_encryption)).1
      (sample_header 5 sender) (sample_header 6 sender) refl refl refl refl

decrypt_file_with_state_once_example : (sample_header 5 receiver).id ≢ (sample_header 6 receiver).id
unfolding ◌>>=◌ lift look put attempt tick symlink_metadata open_file metadata seek read_exact
    write_all join needs_no_slash bytes_eq all_zero ensure_distinct open_regular open_pad
    new_transaction write_temp sync_transaction sync_parent commit encode_pad_header
    parse_pad_header role_of role_byte role_name hex_encode amounts amounts_from
    encode_envelope_header parse_envelope_header ledger_path usage_record ensure_state_directory
    create_new reserve_usage is_reserved_in normalized_header_for_checksum begin_pad_checksum
    require_fresh_role verify_exact_pad_checksum read_pad_header digest_loop validate_pad
    read_authentication_key mark_pad_consumed inspect_pad checked_pad_file_len
    checked_envelope_file_len run_all run run_pad resolve_state_directory encrypt_file_with_state
    encrypt_loop read_byte write_envelope decrypt_file_with_state decrypt_file_region
    write_plaintext authenticate_envelope check_tag mac_loop read_envelope_header
decrypt_file_with_state_once_example =
    decrypt_file_with_state_once sample_env (codes "env1") (codes "pad3") (codes "out1")
      (codes "env2") (codes "pad4") (codes "out2") (codes "s") calls sample_world after_decryption
      (decryption (codes "env2") (codes "pad4") (codes "out2")
        (run_all sample_env calls after_decryption)).1
      (sample_header 5 receiver) (sample_header 6 receiver) refl refl refl refl

encrypt_file_with_state-envelope_of_example :
    (header : PadHeader) × (parse_pad_header (take 80 (sample_pad 5 sender).bytes) ≡ ok header)
    × (header.capacity ≡ 3)
    × (after_encryption.files (codes "out1")
        ≡ some
            (published (envelope_of sample_env header (sample_pad 5 sender).bytes (codes "abc"))))
    × (sample_world.files (codes "out1") ≡ none)
unfolding ◌>>=◌ lift look put attempt tick symlink_metadata open_file metadata seek read_exact
    write_all join needs_no_slash bytes_eq all_zero ensure_distinct open_regular open_pad
    new_transaction write_temp sync_transaction sync_parent commit encode_pad_header
    parse_pad_header role_of role_byte role_name hex_encode amounts amounts_from
    encode_envelope_header parse_envelope_header ledger_path usage_record ensure_state_directory
    create_new reserve_usage is_reserved_in normalized_header_for_checksum begin_pad_checksum
    require_fresh_role verify_exact_pad_checksum read_pad_header digest_loop validate_pad
    read_authentication_key mark_pad_consumed inspect_pad checked_pad_file_len
    checked_envelope_file_len run_all run run_pad resolve_state_directory encrypt_file_with_state
    encrypt_loop read_byte write_envelope decrypt_file_with_state decrypt_file_region
    write_plaintext authenticate_envelope check_tag mac_loop read_envelope_header
encrypt_file_with_state-envelope_of_example =
    encrypt_file_with_state-envelope_of sample_env (codes "plain") (codes "pad1") (codes "out1")
      (codes "s") sample_world after_encryption sample_text (sample_pad 5 sender) refl refl refl

decrypt_file_with_state-IsGenuine_example :
    (genuine : IsGenuine sample_env (sample_envelope 5).bytes (sample_pad 5 receiver).bytes)
    × (after_decryption.files (codes "out1")
        ≡ some (
            published (
              xor_zip
                (part 64 genuine.envelope_header.plaintext_len (sample_envelope 5).bytes)
                (part 112 genuine.envelope_header.plaintext_len (sample_pad 5 receiver).bytes))))
    × (sample_world.files (codes "out1") ≡ none)
unfolding ◌>>=◌ lift look put attempt tick symlink_metadata open_file metadata seek read_exact
    write_all join needs_no_slash bytes_eq all_zero ensure_distinct open_regular open_pad
    new_transaction write_temp sync_transaction sync_parent commit encode_pad_header
    parse_pad_header role_of role_byte role_name hex_encode amounts amounts_from
    encode_envelope_header parse_envelope_header ledger_path usage_record ensure_state_directory
    create_new reserve_usage is_reserved_in normalized_header_for_checksum begin_pad_checksum
    require_fresh_role verify_exact_pad_checksum read_pad_header digest_loop validate_pad
    read_authentication_key mark_pad_consumed inspect_pad checked_pad_file_len
    checked_envelope_file_len run_all run run_pad resolve_state_directory encrypt_file_with_state
    encrypt_loop read_byte write_envelope decrypt_file_with_state decrypt_file_region
    write_plaintext authenticate_envelope check_tag mac_loop read_envelope_header
decrypt_file_with_state-IsGenuine_example =
    decrypt_file_with_state-IsGenuine sample_env (codes "env1") (codes "pad3") (codes "out1")
      (codes "s") sample_world after_decryption (sample_envelope 5) (sample_pad 5 receiver) refl
      refl refl

decrypt_file_with_state-encrypt_file_with_state_example :
    (decryption (codes "out1") (codes "pad3") (codes "back") after_encryption).1.files
      (codes "back")
    ≡ some (published (codes "abc"))
unfolding ◌>>=◌ lift look put attempt tick symlink_metadata open_file metadata seek read_exact
    write_all join needs_no_slash bytes_eq all_zero ensure_distinct open_regular open_pad
    new_transaction write_temp sync_transaction sync_parent commit encode_pad_header
    parse_pad_header role_of role_byte role_name hex_encode amounts amounts_from
    encode_envelope_header parse_envelope_header ledger_path usage_record ensure_state_directory
    create_new reserve_usage is_reserved_in normalized_header_for_checksum begin_pad_checksum
    require_fresh_role verify_exact_pad_checksum read_pad_header digest_loop validate_pad
    read_authentication_key mark_pad_consumed inspect_pad checked_pad_file_len
    checked_envelope_file_len run_all run run_pad resolve_state_directory encrypt_file_with_state
    encrypt_loop read_byte write_envelope decrypt_file_with_state decrypt_file_region
    write_plaintext authenticate_envelope check_tag mac_loop read_envelope_header
decrypt_file_with_state-encrypt_file_with_state_example =
    decrypt_file_with_state-encrypt_file_with_state sample_env (codes "plain") (codes "pad1")
      (codes "out1") (codes "s") sample_world after_encryption sample_text (sample_pad 5 sender)
      (codes "out1") (codes "pad3") (codes "back") (codes "s") after_encryption
      (decryption (codes "out1") (codes "pad3") (codes "back") after_encryption).1
      (sample_pad 5 receiver) (all_bytes→IsBytes (codes "abc") refl)
      (all_bytes→IsBytes (sample_pad 5 sender).bytes refl) (omega arith) refl refl refl refl refl
      refl refl

amounts_bounds_example :
    (sum (amounts 100000) ≡ 100000)
    × All (λ amount. (0 < amount) × (amount ≤ 65536)) (amounts 100000)
    × (length (amounts 100000) ≡ 165535 / 65536)
amounts_bounds_example = amounts_bounds 100000

ledger_path-injective_example :
    ((sample_header 5 sender).id ≡ (sample_header 5 sender).id) × (sender ≡ sender)
ledger_path-injective_example =
    ledger_path-injective (codes "s") (sample_header 5 sender).id (sample_header 5 sender).id sender
      sender (all_bytes→IsBytes (sample_header 5 sender).id refl)
      (all_bytes→IsBytes (sample_header 5 sender).id refl) refl refl

-- A pad that belongs to another envelope: no file changes.
decrypt_file_with_state_untouched_example :
    ((decryption (codes "env1") (codes "pad4") (codes "out1") sample_world).1.files
      ≡ sample_world.files)
    ⊎ IsGenuine sample_env (sample_envelope 5).bytes (sample_pad 6 receiver).bytes
unfolding bytes_eq
decrypt_file_with_state_untouched_example =
    decrypt_file_with_state_untouched sample_env (codes "env1") (codes "pad4") (codes "out1")
      (codes "s") sample_world (sample_envelope 5) (sample_pad 6 receiver) refl refl

-- The pad of a receiver does not encrypt.
encrypt_file_with_state_untouched_example :
    ((encryption (codes "pad3") (codes "out1") sample_world).1.files ≡ sample_world.files)
    ⊎ IsUsable (sample_pad 5 receiver).bytes (codes "abc")
unfolding bytes_eq
encrypt_file_with_state_untouched_example =
    encrypt_file_with_state_untouched sample_env (codes "plain") (codes "pad3") (codes "out1")
      (codes "s") sample_world sample_text (sample_pad 5 receiver) refl refl

abbrev creation : Result OtpError (Unit {0}) × World
creation =
    create_pad_pair_with_rng sample_env 3 (codes "new_sender") (codes "new_receiver") sample_world

abbrev filled_bytes : Bytes → Option Bytes → Bytes
filled_bytes bytes none = bytes
filled_bytes bytes (some more) = more

sample-Fills : Fills sample_env
sample-Fills n size bytes h = ap length (sym (ap (filled_bytes bytes) h)) ∙ length-replicate size 3

create_pad_pair_with_rng-pad_of_example :
    (id : Bytes) × (material : Bytes) × (length id ≡ 32)
    × (length material ≡ 35)
    × (creation.1.files (codes "new_sender")
        ≡ some (
            published (
              pad_of sample_env
                (record { id = id; capacity = 3; role = sender; consumed = false })
                material)))
    × (creation.1.files (codes "new_receiver")
        ≡ some (
            published (
              pad_of sample_env
                (record { id = id; capacity = 3; role = receiver; consumed = false })
                material)))
    × (sample_world.files (codes "new_sender") ≡ none)
    × (sample_world.files (codes "new_receiver") ≡ none)
unfolding ◌>>=◌ lift look put attempt tick symlink_metadata random_bytes bytes_eq all_zero
    new_transaction write_temp sync_transaction sync_parent commit encode_pad_header role_byte
    amounts amounts_from checked_pad_file_len create_pad_pair_with_rng pad_loop write_both
    in_partial
create_pad_pair_with_rng-pad_of_example =
    create_pad_pair_with_rng-pad_of sample_env sample-Fills 3 (codes "new_sender")
      (codes "new_receiver") sample_world creation.1 refl

encrypt_file_with_state_consumed_example :
    (header : PadHeader) × (header_at sample_env sample_world (codes "pad1") ≡ some (ok header))
    × (header_at sample_env after_encryption (codes "pad1")
        ≡ some (ok (record header { consumed = true })))
unfolding ◌>>=◌ lift look put attempt tick symlink_metadata open_file metadata seek read_exact
    write_all join needs_no_slash bytes_eq all_zero ensure_distinct open_regular open_pad
    new_transaction write_temp sync_transaction sync_parent commit encode_pad_header
    parse_pad_header role_of role_byte role_name hex_encode amounts amounts_from
    encode_envelope_header parse_envelope_header ledger_path usage_record ensure_state_directory
    create_new reserve_usage is_reserved_in normalized_header_for_checksum begin_pad_checksum
    require_fresh_role verify_exact_pad_checksum read_pad_header digest_loop validate_pad
    read_authentication_key mark_pad_consumed inspect_pad checked_pad_file_len
    checked_envelope_file_len run_all run run_pad resolve_state_directory encrypt_file_with_state
    encrypt_loop read_byte write_envelope decrypt_file_with_state decrypt_file_region
    write_plaintext authenticate_envelope check_tag mac_loop read_envelope_header
encrypt_file_with_state_consumed_example =
    encrypt_file_with_state_consumed sample_env (codes "plain") (codes "pad1") (codes "out1")
      (codes "s") sample_world after_encryption (sample_pad 5 sender)
      (all_bytes→IsBytes (sample_pad 5 sender).bytes refl) refl refl
