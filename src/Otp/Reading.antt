-- ===== src/Otp/Reading.antt =====
-- otp/src/lib.rs: what the functions do to the files. Some only read, and no one removes a file.
use rust_encryption.Common.{ℕ, String, Option, none, some, List, [], ◌∷◌, Bytes}
use rust_encryption.Otp.Error.{OtpError}
use rust_encryption.Otp.Role.{PadRole}
use rust_encryption.Otp.PadHeader.{PadHeader}
use rust_encryption.Otp.EnvelopeHeader.{EnvelopeHeader}
use rust_encryption.Otp.Files.{
  Description, OutputTransaction, vacant, open_regular, open_pad, ensure_distinct, new_transaction,
  write_temp, sync_transaction, sync_parent,
}
use rust_encryption.Otp.Ledger.{is_there, in_directory, is_reserved_in}
use rust_encryption.Otp.Pad.{
  read_pad_header, digest_loop, validate_pad, read_authentication_key, inspect_pad,
}
use rust_encryption.Otp.Create.{Pair, write_both, pad_loop}
use rust_encryption.Otp.Encrypt.{Streams, read_byte, encrypt_loop}
use rust_encryption.Otp.Decrypt.{
  read_envelope_header, mac_loop, check_tag, authenticate_envelope, decrypt_file_region,
}
use rust_encryption.Otp.World.{FilePath, Node, Env, Handle}
use rust_encryption.Otp.World.Rules.{
  Reads, Grows, Keeps, Reads-Grows, Reads->>=, Grows->>=, Reads-lift, Reads-look, Reads-found,
  Grows-put, Reads-attempt, Reads-tick, Reads-symlink_metadata, Reads-open_file, Reads-metadata,
  Reads-seek, Reads-read_exact, Grows-write_all, Reads-random_bytes,
}

pub Reads-vacant : (failure : OtpError) (o : Option Node) → Reads (vacant failure o)
Reads-vacant failure none = Reads-lift _
Reads-vacant failure (some node) = Reads-lift _

pub ruleset reading = (
  Reads->>=, Reads-lift, Reads-look, Reads-found, Reads-vacant, Reads-attempt, Reads-tick,
  Reads-symlink_metadata, Reads-open_file, Reads-metadata, Reads-seek, Reads-read_exact,
  Reads-random_bytes,
)

module _ (env : Env) where
  pub Reads-open_regular :
      (path : FilePath) (description : Description) → Reads (open_regular env path description)
  unfolding open_regular
  Reads-open_regular path description = search reading

  pub Reads-open_pad : (path : FilePath) → Reads (open_pad env path)
  unfolding open_pad
  Reads-open_pad path = search (reading, Reads-open_regular)

  pub Reads-ensure_distinct :
      (first second : FilePath) (description : String)
      → Reads (ensure_distinct env first second description)
  unfolding ensure_distinct
  Reads-ensure_distinct first second description = search reading depth 12

  pub Reads-new_transaction : (destination : FilePath) → Reads (new_transaction env destination)
  unfolding new_transaction
  Reads-new_transaction destination = search reading

  pub Reads-write_temp :
      (action : String) (bytes : Bytes) (t : OutputTransaction)
      → Reads (write_temp env action bytes t)
  unfolding write_temp
  Reads-write_temp action bytes t = search reading

  pub Reads-sync_transaction : Reads (sync_transaction env)
  unfolding sync_transaction
  Reads-sync_transaction = search reading

  pub Reads-sync_parent : (failure : OtpError) → Reads (sync_parent env failure)
  unfolding sync_parent
  Reads-sync_parent failure = search reading

  pub Reads-read_pad_header : (file : Handle) → Reads (read_pad_header env file)
  unfolding read_pad_header
  Reads-read_pad_header file = search reading

  pub Reads-digest_loop :
      (rounds : List ℕ) (digest : Bytes) (file : Handle)
      → Reads (digest_loop env rounds digest file)
  unfolding digest_loop
  Reads-digest_loop [] digest file = search reading
  Reads-digest_loop (amount ∷ rest) digest file = search (reading, Reads-digest_loop rest)

  pub Reads-validate_pad :
      (file : Handle) (header_bytes : Bytes) (header : PadHeader)
      → Reads (validate_pad env file header_bytes header)
  unfolding validate_pad
  Reads-validate_pad file header_bytes header = search (reading, Reads-digest_loop) depth 20

  pub Reads-read_authentication_key : (file : Handle) → Reads (read_authentication_key env file)
  unfolding read_authentication_key
  Reads-read_authentication_key file = search reading

  pub Reads-inspect_pad : (path : FilePath) → Reads (inspect_pad env path)
  unfolding inspect_pad
  Reads-inspect_pad path =
      search (reading, Reads-open_pad, Reads-read_pad_header, Reads-validate_pad)

  pub Reads-is_there : (o : Option Node) → Reads (is_there env o)
  Reads-is_there none = search reading
  Reads-is_there (some node) = search reading

  pub Reads-in_directory : (path : FilePath) (o : Option Node) → Reads (in_directory env path o)
  Reads-in_directory path none = search reading
  Reads-in_directory path (some node) = search (reading, Reads-is_there)

  pub Reads-is_reserved_in :
      (state_directory : FilePath) (id : Bytes) (role : PadRole)
      → Reads (is_reserved_in env state_directory id role)
  unfolding is_reserved_in
  Reads-is_reserved_in state_directory id role = search (reading, Reads-in_directory)

  pub Reads-read_envelope_header : (file : Handle) → Reads (read_envelope_header env file)
  unfolding read_envelope_header
  Reads-read_envelope_header file = search reading

  pub Reads-mac_loop :
      (rounds : List ℕ) (mac : Bytes) (file : Handle) → Reads (mac_loop env rounds mac file)
  unfolding mac_loop
  Reads-mac_loop [] mac file = search reading
  Reads-mac_loop (amount ∷ rest) mac file = search (reading, Reads-mac_loop rest)

  pub Reads-check_tag : (key mac : Bytes) (file : Handle) → Reads (check_tag env key mac file)
  unfolding check_tag
  Reads-check_tag key mac file = search reading

  pub Reads-authenticate_envelope :
      (encrypted : Handle) (header_bytes : Bytes) (header : EnvelopeHeader) (key : Bytes)
      → Reads (authenticate_envelope env encrypted header_bytes header key)
  unfolding authenticate_envelope
  Reads-authenticate_envelope encrypted header_bytes header key =
      search (reading, Reads-mac_loop, Reads-check_tag)

  pub Reads-read_byte : (action : String) (handle : Handle) → Reads (read_byte env action handle)
  unfolding read_byte
  Reads-read_byte action handle = search reading

  pub Reads-encrypt_loop : (rounds : List ℕ) (s : Streams) → Reads (encrypt_loop env rounds s)
  unfolding encrypt_loop
  Reads-encrypt_loop [] s = search reading
  Reads-encrypt_loop (amount ∷ rest) s = search (reading, Reads-write_temp, Reads-encrypt_loop rest)

  pub Reads-decrypt_file_region :
      (rounds : List ℕ) (s : Streams) → Reads (decrypt_file_region env rounds s)
  unfolding decrypt_file_region
  Reads-decrypt_file_region [] s = search reading
  Reads-decrypt_file_region (amount ∷ rest) s =
      search (reading, Reads-write_temp, Reads-decrypt_file_region rest)

  pub Reads-write_both :
      (sender_action receiver_action : String) (bytes : Bytes) (pair : Pair)
      → Reads (write_both env sender_action receiver_action bytes pair)
  unfolding write_both
  Reads-write_both sender_action receiver_action bytes pair = search (reading, Reads-write_temp)

  pub Reads-pad_loop : (rounds : List ℕ) (pair : Pair) → Reads (pad_loop env rounds pair)
  unfolding pad_loop
  Reads-pad_loop [] pair = search reading
  Reads-pad_loop (amount ∷ rest) pair = search (reading, Reads-write_both, Reads-pad_loop rest)
