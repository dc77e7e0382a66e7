-- ===== src/Otp/Growth.antt =====
-- otp/src/lib.rs: no function removes a file.
use rust_encryption.Common.{ℕ, Option, none, some, List, [], ◌∷◌, Bytes, Result, ok, err, ◌≡◌, refl}
use rust_encryption.Otp.Error.{OtpError}
use rust_encryption.Otp.Role.{PadRole}
use rust_encryption.Otp.Files.{OutputTransaction, commit}
use rust_encryption.Otp.Ledger.{made_directory, ensure_state_directory, create_new, reserve_usage}
use rust_encryption.Otp.Pad.{
  as_cleanup, in_cleanup, mark_pad_consumed, zero_loop, truncate, wipe_pad, destroy_pad,
}
use rust_encryption.Otp.Create.{as_partial, in_partial, create_pad_pair_with_rng}
use rust_encryption.Otp.Encrypt.{write_envelope, encrypt_file_with_state}
use rust_encryption.Otp.Decrypt.{write_plaintext, decrypt_file_with_state}
use rust_encryption.Otp.World.{FilePath, Node, World, Env, M, Handle}
use rust_encryption.Otp.World.Rules.{
  Grows, Reads-Grows, Grows->>=, Grows-Reads_first, Reads-lift, Grows-put, Grows-write_all,
}
use rust_encryption.Otp.Reading.{
  reading, Reads-sync_parent, Reads-open_regular, Reads-open_pad, Reads-ensure_distinct,
  Reads-new_transaction, Reads-write_temp, Reads-sync_transaction, Reads-read_pad_header,
  Reads-validate_pad, Reads-read_authentication_key, Reads-read_envelope_header, Reads-check_tag,
  Reads-authenticate_envelope, Reads-read_byte, Reads-encrypt_loop, Reads-decrypt_file_region,
  Reads-write_both, Reads-pad_loop,
}

Grows-made_directory : (path : FilePath) (o : Option Node) → Grows (made_directory path o)
Grows-made_directory path none = search (Grows->>=, Grows-put, Reads-Grows, Reads-lift)
Grows-made_directory path (some node) = search (Grows->>=, Reads-Grows, Reads-lift)

as_cleanup-files : {A : Type 0} (r : Result OtpError A × World) → (as_cleanup r).1.files ≡ r.1.files
as_cleanup-files (ok value, w) = refl
as_cleanup-files (err failure, w) = refl

Grows-in_cleanup : {A : Type 0} {m : M A} → Grows m → Grows (in_cleanup m)
unfolding in_cleanup
Grows-in_cleanup {m} h = record { keeps = λ w. rw (as_cleanup-files (m w)) (h.keeps w) }

as_partial-files :
    (path : FilePath) (r : Result OtpError (Unit {0}) × World)
    → (as_partial path r).1.files ≡ r.1.files
as_partial-files path (ok value, w) = refl
as_partial-files path (err failure, w) = refl

Grows-in_partial : {m : M (Unit {0})} (path : FilePath) → Grows m → Grows (in_partial path m)
unfolding in_partial
Grows-in_partial {m} path h = record { keeps = λ w. rw (as_partial-files path (m w)) (h.keeps w) }

ruleset writing = (reading, Grows-Reads_first, Grows->>=)

ruleset growing =
    (reading, Grows->>=, Grows-put, Reads-Grows, Grows-write_all, Grows-made_directory)

module _ (env : Env) where
  pub Grows-ensure_state_directory : (path : FilePath) → Grows (ensure_state_directory env path)
  unfolding ensure_state_directory
  Grows-ensure_state_directory path = search growing depth 20

  pub Grows-create_new : (path : FilePath) → Grows (create_new env path)
  unfolding create_new
  Grows-create_new path = search growing depth 20

  pub Grows-reserve_usage :
      (state_directory : FilePath) (id : Bytes) (role : PadRole)
      → Grows (reserve_usage env state_directory id role)
  unfolding reserve_usage
  Grows-reserve_usage state_directory id role =
      search (growing, Grows-ensure_state_directory, Grows-create_new, Reads-sync_parent) depth 20

  pub Grows-commit : (t : OutputTransaction) → Grows (commit env t)
  unfolding commit
  Grows-commit t = search (growing, Reads-sync_parent) depth 20

  pub Grows-mark_pad_consumed : (file : Handle) → Grows (mark_pad_consumed env file)
  unfolding mark_pad_consumed
  Grows-mark_pad_consumed file = search growing depth 20

  pub Grows-zero_loop : (rounds : List ℕ) (file : Handle) → Grows (zero_loop env rounds file)
  unfolding zero_loop
  Grows-zero_loop [] file = search growing
  Grows-zero_loop (amount ∷ rest) file = search (growing, Grows-zero_loop rest)

  pub Grows-truncate : (file : Handle) → Grows (truncate env file)
  unfolding truncate
  Grows-truncate file = search growing

  pub Grows-wipe_pad : (file : Handle) → Grows (wipe_pad env file)
  unfolding wipe_pad
  Grows-wipe_pad file = search (growing, Grows-in_cleanup, Grows-zero_loop, Grows-truncate) depth 20

  pub Grows-destroy_pad : (path : FilePath) → Grows (destroy_pad env path)
  unfolding destroy_pad
  Grows-destroy_pad path =
      search (growing, Reads-open_pad, Reads-read_pad_header, Reads-validate_pad, Grows-wipe_pad)
        depth 20

  pub Grows-create_pad_pair_with_rng :
      (capacity : ℕ) (sender_path receiver_path : FilePath)
      → Grows (create_pad_pair_with_rng env capacity sender_path receiver_path)
  unfolding create_pad_pair_with_rng
  Grows-create_pad_pair_with_rng capacity sender_path receiver_path =
      search
        (
          writing, Reads-new_transaction, Reads-write_temp, Reads-write_both, Reads-pad_loop,
          Reads-sync_transaction, Grows-commit, Grows-in_partial,
        )
        depth 40

  pub Grows-write_envelope :
      (input pad : Handle) (t : OutputTransaction)
      (header_bytes key pad_header_bytes expected : Bytes) (capacity : ℕ)
      → Grows (write_envelope env input pad t header_bytes key pad_header_bytes expected capacity)
  unfolding write_envelope
  Grows-write_envelope input pad t header_bytes key pad_header_bytes expected capacity =
      search
        (
          writing, Reads-write_temp, Reads-encrypt_loop, Reads-read_byte, Reads-sync_transaction,
          Grows-commit,
        )
        depth 40

  pub Grows-encrypt_file_with_state :
      (input_path pad_path output_path state_directory : FilePath)
      → Grows (encrypt_file_with_state env input_path pad_path output_path state_directory)
  unfolding encrypt_file_with_state
  Grows-encrypt_file_with_state input_path pad_path output_path state_directory =
      search
        (
          writing, Reads-ensure_distinct, Reads-open_regular, Reads-open_pad, Reads-read_pad_header,
          Reads-validate_pad, Reads-new_transaction, Reads-read_authentication_key,
          Grows-reserve_usage, Grows-mark_pad_consumed, Grows-write_envelope,
        )
        depth 40

  pub Grows-write_plaintext :
      (encrypted pad : Handle) (t : OutputTransaction)
      (header_bytes key pad_header_bytes expected : Bytes) (len : ℕ)
      → Grows (write_plaintext env encrypted pad t header_bytes key pad_header_bytes expected len)
  unfolding write_plaintext
  Grows-write_plaintext encrypted pad t header_bytes key pad_header_bytes expected len =
      search
        (writing, Reads-decrypt_file_region, Reads-check_tag, Reads-sync_transaction, Grows-commit)
        depth 40

  pub Grows-decrypt_file_with_state :
      (input_path pad_path output_path state_directory : FilePath)
      → Grows (decrypt_file_with_state env input_path pad_path output_path state_directory)
  unfolding decrypt_file_with_state
  Grows-decrypt_file_with_state input_path pad_path output_path state_directory =
      search
        (
          writing, Reads-ensure_distinct, Reads-open_regular, Reads-read_envelope_header,
          Reads-open_pad, Reads-read_pad_header, Reads-validate_pad, Reads-read_authentication_key,
          Reads-authenticate_envelope, Reads-new_transaction, Grows-reserve_usage,
          Grows-mark_pad_consumed, Grows-write_plaintext,
        )
        depth 40
